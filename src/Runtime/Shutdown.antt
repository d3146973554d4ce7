-- ===== src/Runtime/Shutdown.antt =====
-- Runtime::shutdown of src/main.rs: the pause, the wait for the executions, and the releases.
-- Runtime::total_executing
pub mod Ends
use mathlib.Core.Option
use snerdmq.Queue.Schedule
use snerdmq.Runtime.Start.Moves.{step_engine}
use snerdmq.Membership.{MembershipFile, Io}
use snerdmq.Base.{
  ◌==◌, ◌≤◌, inl, if◌then◌else◌, true, ◌+◌, some, ℕ, suc, [], length, inr, Bool-cases, leb, none,
  List, ◌≡◌, ◌∷◌, ◌*◌, zero, Option, Text, map, ◌<◌,
}
use snerdmq.Runtime.Daemon.{Daemon}
use snerdmq.Runtime.Engines.{pause_all, release_all, shutting_down, ShardEngine}

unfoldable pub total_executing : List ShardEngine → ℕ
total_executing [] = 0
total_executing (e ∷ es) = length e.queue.executing_tasks + total_executing es

-- How the wait ends.
pub data Drained : Type 0 where
  all_finished timeout_exceeded : Drained

-- A sleep of the wait, in nanoseconds.
abbrev pub poll_interval : ℕ
poll_interval = 200 * 1_000_000

-- The steps of the engines in one sleep.
unfoldable pub work_on : List (ℕ × Schedule.Event) → List ShardEngine → List ShardEngine
unfolding step_engine
work_on [] es = es
work_on ((i, e) ∷ events) es = work_on events (step_engine i e es)

-- The wait. `now n` is the clock after n sleeps, and `meanwhile n` has the engines' steps in the sleep
-- after round n. none is a wait that is not over after `fuel` rounds.
unfoldable pub drain :
    (ℕ → List (ℕ × Schedule.Event))
    → (ℕ → ℕ)
    → ℕ
    → ℕ
    → ℕ
    → List ShardEngine
    → Option (Drained × List ShardEngine)
unfolding total_executing work_on
drain meanwhile now deadline zero n es = none
drain meanwhile now deadline (suc fuel) n es =
    let rest = drain meanwhile now deadline fuel (suc n) (work_on (meanwhile n) es) in
    if total_executing es == 0
    then some (all_finished, es)
    else if leb deadline (now n)
    then some (timeout_exceeded, es)
    else rest

-- The parts of shutdown one after the other: the flag that refuses an enqueue, the pause, the wait
-- with its deadline from the time `start`, and the releases.
unfoldable pub shutdown :
    (ℕ → Io)
    → Text
    → (ℕ → List (ℕ × Schedule.Event))
    → ℕ
    → (ℕ → ℕ)
    → ℕ
    → ℕ
    → Daemon
    → MembershipFile
    → Option (Drained × Daemon × MembershipFile)
unfolding drain pause_all release_all
shutdown i owner meanwhile start now drain_timeout fuel d f =
    Option.map
      (λ (x : Drained × List ShardEngine).
        (x.0, record d { shutting_down = true; engines = x.1 }, release_all i owner 0 x.1 f))
      (drain meanwhile now (start + drain_timeout) fuel 0 (pause_all d.engines))
