-- ===== src/Runtime.antt =====
-- acquire_shards of src/main.rs and try_lock_shard of src/sharding.rs: how a daemon takes shards. The
-- state that daemons share is membership.json and the locks of the shards; what other daemons do
-- between two steps of this one is an argument of the step.
pub mod Acquire
pub mod Candidates
pub mod Race
pub mod Engines
pub mod Heartbeat
pub mod Routing
pub mod Daemon
pub mod Pending
pub mod Awaited
pub mod Start
pub mod Shutdown
pub mod Acknowledged
pub mod Counters
pub mod Cluster
pub mod Process
pub mod Launch
use snerdmq.Membership.{
  Membership, load, claimable_shards, claim, MembershipError, io, ClaimOutcome, MembershipFile,
  revert_claim, Outcome, Io,
}
use snerdmq.Base.{[], true, ◌∷◌, length, Bool, false, if◌then◌else◌, ◌++◌, suc, List, ℕ, Text, leb}
use snerdmq.Map.{contains, Map, insert, remove}
use snerdmq.Base.Result.{IoError, os, Result, err, ok}

pub record Shared : Type 0 where
  pub file : MembershipFile
  -- the shards whose `.lock` is locked, with the daemon that holds it
  pub flocks : Map Text

-- What surrounds one round of the loop: the other daemons' steps before it, the clock and the outcome
-- of the file operations of the claim, whether `.lock` can be opened, and the outcome of a revert.
pub record Turn : Type 0 where
  pub others : Shared → Shared
  pub claim_io : Io
  pub now : ℕ
  pub opens : Bool
  pub revert_io : Io

-- The lock is that of an open file, so it is refused whichever process holds it.
unfoldable pub try_lock_shard : Bool → Text → Text → Map Text → Result Bool IoError × Map Text
try_lock_shard opens owner shard flocks =
    if opens
    then if contains shard flocks then (ok false, flocks) else (ok true, insert shard owner flocks)
    else (err os, flocks)

-- An error drops the locks that were taken before it, and leaves the claims.
unfoldable pub drop_locks : List Text → Map Text → Map Text
drop_locks [] flocks = flocks
drop_locks (k ∷ ks) flocks = drop_locks ks (remove k flocks)

abbrev pub Acquired : Type 0
Acquired = Result (List Text) MembershipError × Shared

unfoldable pub give_up : MembershipError → List Text → Shared → Acquired
unfolding drop_locks
give_up e taken s = (err e, record s { flocks = drop_locks taken s.flocks })

unfoldable pub after_revert : List Text → Shared → Outcome (Unit {0}) → Acquired
unfolding give_up
after_revert taken s (ok _, f) = (ok taken, record s { file = f })
after_revert taken s (err e, f) = give_up e taken (record s { file = f })

unfoldable pub after_lock :
    Turn → Text → Text → List Text → Shared → Result Bool IoError × Map Text → Acquired
unfolding give_up after_revert
after_lock t owner shard taken s (err e, fl) = give_up (io e) taken s
after_lock t owner shard taken s (ok true, fl) =
    (ok (taken ++ shard ∷ []), record s { flocks = fl })
after_lock t owner shard taken s (ok false, fl) =
    after_revert taken s (revert_claim t.revert_io shard owner s.file)

unfoldable pub after_claim :
    Turn → Text → Text → List Text → Shared → Outcome ClaimOutcome → Acquired
unfolding give_up after_lock try_lock_shard
after_claim t owner shard taken s (err e, f) = give_up e taken (record s { file = f })
after_claim t owner shard taken s (ok out, f) =
    after_lock t owner shard taken (record s { file = f })
      (try_lock_shard t.opens owner shard s.flocks)

-- One round of the loop, with the shards taken so far.
unfoldable pub attempt : Turn → ℕ → Text → Text → List Text → Shared → Acquired
unfolding after_claim
attempt t skew owner shard taken s =
    let s' = t.others s in
    after_claim t owner shard taken s' (claim t.claim_io shard owner t.now skew s'.file)

unfoldable pub acquire_from :
    (ℕ → Turn) → ℕ → ℕ → Text → ℕ → List Text → List Text → Shared → Acquired
unfolding attempt
acquire_from turn max_shards skew owner n taken [] s = (ok taken, s)
acquire_from turn max_shards skew owner n taken (k ∷ ks) s =
    if leb max_shards (length taken)
    then (ok taken, s)
    else elim (attempt (turn n) skew owner k taken s).0 [
      | err e ↦ (err e, (attempt (turn n) skew owner k taken s).1)
      | ok taken' ↦
          acquire_from turn max_shards skew owner (suc n) taken' ks
            (attempt (turn n) skew owner k taken s).1
    ]

unfoldable pub acquire_loaded :
    ℕ → (ℕ → Turn) → ℕ → ℕ → Text → Shared → Result Membership MembershipError → Acquired
unfolding acquire_from
acquire_loaded now turn max_shards skew owner s (err e) = (err e, s)
acquire_loaded now turn max_shards skew owner s (ok m) =
    acquire_from turn max_shards skew owner 0 [] (claimable_shards m now skew owner) s

-- acquire_shards, with the time of its load of membership.json.
unfoldable pub acquire_shards : Io → ℕ → (ℕ → Turn) → ℕ → ℕ → Text → Shared → Acquired
unfolding acquire_loaded
acquire_shards i now turn max_shards skew owner s =
    acquire_loaded now turn max_shards skew owner s (load i s.file).0
