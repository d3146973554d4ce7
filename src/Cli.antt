-- ===== src/Cli.antt =====
-- The subcommands of src/main.rs: add-shards, validate and replay, without what they print.
pub mod Recovery
pub mod Args
pub mod Replay
pub mod Health
use mathlib.Core.Option
use snerdmq.Task.{RetryableTask}
use snerdmq.Membership.{
  Io, Membership, shard_key, Outcome, load, is_lapsed, write_unlocked, read_unlocked,
  MembershipError, MembershipFile,
}
use snerdmq.Base.{
  false, codes, ◌∷◌, leb, ite, zero, some, [], ◌+◌, true, ◌%◌, ◌==◌, ◌++◌, is_some, ◌&&◌, Text,
  List, text_dec, not, if◌then◌else◌, Bool, none, suc, ◌^◌, ℕ, Option,
}
use snerdmq.Map.{values, Map, get, insert}
use snerdmq.FileStore.{unreadable, blank, entry, parsed, malformed, Reading, entries, Line}
use snerdmq.Base.Digits.{parse_u32}
use snerdmq.Base.Result.{ok, ◌>>=◌, os, err, IoError, Result}
use snerdmq.Base.Int.{pos}

-- Whether the shard directories are made, and the new file is written.
pub record Growth : Type 0 where
  pub makes_dirs : Bool
  pub io : Io

grown : ℕ → Membership → Membership
grown n m = record m { shards = m.shards + n; version = (m.version + 1) % 2 ^ 64 }

-- How add-shards ends; with_lock_held panics if it cannot take the lock.
pub data Growing : Type 0 where
  grew failed panicked : Growing

write_result : Outcome (Unit {0}) → Growing × MembershipFile
write_result (ok _, f) = (grew, f)
write_result (err e, f) = (failed, f)

grow_read :
    Growth → ℕ → Result Membership MembershipError → MembershipFile → Growing × MembershipFile
unfolding grown write_result write_unlocked
grow_read g n (err e) f = (failed, f)
grow_read g n (ok m) f =
    if g.makes_dirs then write_result (write_unlocked g.io (grown n m) f) else (failed, f)

-- cmd_add_shards. The sum of the counts is below 2^32, and the version below 2^64.
unfoldable pub cmd_add_shards : Growth → ℕ → MembershipFile → Growing × MembershipFile
unfolding grow_read read_unlocked
cmd_add_shards g n f = if g.io.locks then grow_read g n (read_unlocked f) f else (panicked, f)

-- What cmd_validate finds of one shard: whether its directory exists, and its claim.
shard_healthy : (Text → Bool) → ℕ → ℕ → Membership → Text → Bool
shard_healthy dir_exists now skew m key =
    dir_exists key
    && (elim (get key m.claims) [ none ↦ true | some c ↦ not (is_lapsed c now skew) ])

unfoldable pub shards_healthy : (Text → Bool) → ℕ → ℕ → Membership → ℕ → ℕ → Bool
unfolding shard_healthy shard_key
shards_healthy dir_exists now skew m from zero = true
shards_healthy dir_exists now skew m from (suc n) =
    shards_healthy dir_exists now skew m (suc from) n
    && shard_healthy dir_exists now skew m (shard_key from)

-- str::strip_prefix
unfoldable pub strip_prefix : Text → Text → Option Text
strip_prefix [] s = some s
strip_prefix (p ∷ ps) [] = none
strip_prefix (p ∷ ps) (c ∷ cs) = let rest = strip_prefix ps cs in if p == c then rest else none

-- A directory entry `shard-<i>` with i not below the number of shards.
unfoldable pub is_orphan : Membership → Text → Bool
unfolding strip_prefix
is_orphan m name = elim (Option.bind (strip_prefix (codes "shard-") name) parse_u32) [
  | none ↦ false
  | some i ↦ leb m.shards i
]

unfoldable pub no_orphans : Membership → List Text → Bool
unfolding is_orphan
no_orphans m [] = true
no_orphans m (name ∷ names) = not (is_orphan m name) && no_orphans m names

-- cmd_validate; `names` are the entries of the directory, empty if it cannot be read.
unfoldable pub cmd_validate : Io → (Text → Bool) → List Text → ℕ → ℕ → MembershipFile → Bool
unfolding load shards_healthy no_orphans
cmd_validate i dir_exists names now skew f = elim (load i f).0 [
  | err e ↦ false
  | ok m ↦ shards_healthy dir_exists now skew m 0 m.shards && no_orphans m names
]

-- The last line of each id that parses; an unreadable line is an error of the command.
unfoldable pub latest_state :
    (ℕ → Reading) → ℕ → Map RetryableTask → List Line → Result (Map RetryableTask) IoError
unfolding parsed
latest_state r n m [] = ok m
latest_state r n m (blank ∷ ls) = latest_state r n m ls
latest_state r n m (malformed ∷ ls) = latest_state r n m ls
latest_state r n m (unreadable ∷ ls) = err os
latest_state r n m (entry t ∷ ls) = latest_state r (suc n) (insert t.task_id (parsed (r n) t) m) ls

unfoldable pub is_failed : Text → RetryableTask → Bool
is_failed target_type t =
    is_some t.deleted_at
    && is_some t.last_error_obj
    && (ite (text_dec target_type (codes "all")) true
        (ite (text_dec t.task_type target_type) true false))

unfoldable pub recovered : ℕ → RetryableTask → RetryableTask
recovered now t = record t {
  retry_count = pos 0;
  deleted_at = none;
  last_error_obj = none;
  last_job_error = none;
  execute_at = now;
}

unfoldable pub to_recover : Text → ℕ → List RetryableTask → List RetryableTask
to_recover target_type now [] = []
to_recover target_type now (t ∷ ts) =
    let rest = to_recover target_type now ts in
    if is_failed target_type t then recovered now t ∷ rest else rest

-- What cmd_replay does to the log of one shard that it has locked; a missing log is left alone.
unfoldable pub replay_shard :
    (ℕ → Reading) → Text → ℕ → Option (List Line) → Result (Option (List Line)) IoError
unfolding latest_state to_recover
replay_shard r target_type now none = ok none
replay_shard r target_type now (some ls) = latest_state r 0 [] ls >>= λ m.
    ok (some (ls ++ entries (to_recover target_type now (values m))))
