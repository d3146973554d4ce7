-- ===== src/Runtime/Start/Moves.antt =====
-- Any sequence of what happens to the daemon of src/main.rs.
use snerdmq.Queue.Schedule
use snerdmq.Runtime.Pending
use snerdmq.Membership.{MembershipError, Membership}
use snerdmq.Base.{List, ℕ, Text, ◌∷◌, zero, suc, []}
use snerdmq.Map.{Map}
use snerdmq.Runtime.Daemon.{Daemon}
use snerdmq.Base.Result.{Result, IoError}
use snerdmq.Runtime.Engines.{ShardEngine}
use snerdmq.Runtime.Start.{standby_round, publish, build_engines, Disk}

-- What happens to a daemon, one at a time: an event of the loop and the handlers, a round of the
-- standby loop during which nothing else happens, a step of one of the engines, and the publication of
-- engines that a round has built before, at a time when `types` were registered: what happens in
-- between stands before it.
pub data Move : Type 0 where
  does : Pending.Event → Move
  tries :
      (Text → Disk)
      → Result Membership MembershipError
      → Result (List Text) MembershipError
      → Map Text
      → Move
  works : ℕ → Schedule.Event → Move
  publishes : (Text → Disk) → Result Membership MembershipError → List Text → List Text → Move

unfoldable pub step_engine : ℕ → Schedule.Event → List ShardEngine → List ShardEngine
step_engine i e [] = []
step_engine zero e (x ∷ xs) = record x { queue = Schedule.step x.queue e } ∷ xs
step_engine (suc i) e (x ∷ xs) = x ∷ step_engine i e xs

unfoldable pub move : (IoError → Text) → Daemon → Move → Daemon
unfolding step_engine
move display d (does e) = Pending.step display d e
move display d (tries disk loaded acquired flocks) =
    (standby_round disk loaded acquired d flocks).1.1
move display d (works i e) = record d { engines = step_engine i e d.engines }
move display d (publishes disk loaded shards types) =
    (publish loaded (build_engines disk types shards).1 d).1

unfoldable pub moves : (IoError → Text) → Daemon → List Move → Daemon
unfolding move
moves display d [] = d
moves display d (m ∷ ms) = moves display (move display d m) ms
