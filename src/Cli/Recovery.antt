-- ===== src/Cli/Recovery.antt =====
-- cmd_replay of src/main.rs over the shards of a queue, and the shards that it leaves alone.
-- What the command meets at a shard: whether `.lock` can be opened, and the log to be read and to be
-- appended to, the readings of its lines, and the clock.
pub mod Held
use snerdmq.Task.{RetryableTask}
use snerdmq.Runtime.{try_lock_shard}
use snerdmq.Membership.{MembershipFile, Io, shard_key, MembershipError, load}
use snerdmq.Base.{
  length, suc, Bool, ℕ, ◌++◌, if◌then◌else◌, zero, List, codes, Text, Option, none, ◌+◌, some, [],
  ◌∷◌,
}
use snerdmq.Map.{Map, insert, get, values}
use snerdmq.Cli.{to_recover, latest_state}
use snerdmq.FileStore.{entries, Line, Reading}
use snerdmq.Base.Result.{err, other, Result, ◌>>=◌, ok, os, IoError}

pub record Visit : Type 0 where
  pub opens : Bool
  pub readable : Bool
  pub appendable : Bool
  pub readings : ℕ → Reading
  pub now : ℕ

-- The log is opened for the append only if there is a task to recover.
unfoldable pub append_recovered :
    Visit → List Line → List RetryableTask → Result (ℕ × List Line) IoError
append_recovered v ls [] = ok (0, ls)
append_recovered v ls (t ∷ ts) =
    if v.appendable then ok (length (t ∷ ts), ls ++ entries (t ∷ ts)) else err os

-- The number of tasks that are recovered, and the log with them.
unfoldable pub replay_log : Text → Visit → List Line → Result (ℕ × List Line) IoError
unfolding append_recovered latest_state to_recover
replay_log target v ls =
    if v.readable
    then (latest_state v.readings 0 [] ls >>= λ m.
        append_recovered v ls (to_recover target v.now (values m)))
    else err os

-- A shard with its lock taken. A shard without a log is passed over.
unfoldable pub visit_shard :
    Text
    → Visit
    → Text
    → ℕ
    → Map (List Line)
    → Option (List Line)
    → Result (ℕ × Map (List Line)) IoError
unfolding replay_log
visit_shard target v key total logs none = ok (total, logs)
visit_shard target v key total logs (some ls) =
    replay_log target v ls >>= λ x. ok (total + x.0, insert key x.1 logs)

abbrev pub Recovered : Type 0
Recovered = Result ℕ IoError × Map (List Line)

unfoldable pub locked : Text → IoError
locked key = other (
    codes "Shard '"
    ++ key
    ++ codes "' is locked by a running daemon. Please stop the daemon before running replay.")

-- The loop from shard i on. Each lock is given back at the end of its round.
unfoldable pub replay_from : (ℕ → Visit) → Text → Map Text → ℕ → ℕ → ℕ → Map (List Line) → Recovered
unfolding visit_shard locked
replay_from visit target flocks i zero total logs = (ok total, logs)
replay_from visit target flocks i (suc n) total logs =
    elim (try_lock_shard (visit i).opens (codes "replay") (shard_key i) flocks).0 [
      | err e ↦ (err e, logs)
      | ok taken ↦
          if taken
          then elim (visit_shard target (visit i) (shard_key i) total logs
              (get (shard_key i) logs)) [
                | err e ↦ (err e, logs)
                | ok x ↦ replay_from visit target flocks (suc i) n x.0 x.1
              ]
          else (err (locked (shard_key i)), logs)
    ]

-- cmd_replay, up to what it prints. `debug` prints a MembershipError.
unfoldable pub cmd_replay :
    (MembershipError → Text)
    → Io
    → (ℕ → Visit)
    → Text
    → Map Text
    → MembershipFile
    → Map (List Line)
    → Recovered
unfolding replay_from load
cmd_replay debug i visit target flocks f logs = elim (load i f).0 [
  | err e ↦ (err (other (codes "Failed to read membership: " ++ debug e)), logs)
  | ok m ↦ replay_from visit target flocks 0 m.shards 0 logs
]
