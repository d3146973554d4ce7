-- ===== src/Runtime/Process.antt =====
-- The process of a daemon in src/main.rs from its boot on: the loop over stdin, the handlers and the
-- engines, the tasks of the heartbeat and of the standby, and the watcher of the signals, each step of
-- one of them whole. The process ends where main returns or the watcher calls exit.
pub mod Rounds
pub mod Draining
pub mod Ended
pub mod Released
use snerdmq.Membership.{MembershipError, Io, Membership, MembershipFile}
use snerdmq.Queue.Schedule
use snerdmq.Runtime.Pending
use snerdmq.Runtime.Pending.{gives_up, reads, times_out, calls, receives}
use snerdmq.Base.{
  List, ◌==◌, Bool, some, if◌then◌else◌, leb, ℕ, ◌+◌, true, [], none, ◌∷◌, Option, Text, ◌||◌,
}
use snerdmq.Map.{Map}
use snerdmq.Base.Result.{IoError, Result}
use snerdmq.Runtime.Daemon.{Daemon, Answered, handle_line}
use snerdmq.Runtime.Shutdown.{total_executing}
use snerdmq.Runtime.Engines.{release_all, pause_all, heartbeat}
use snerdmq.Runtime.Start.{standby_round, Disk}
use snerdmq.Runtime.Start.Moves.{step_engine}

pub record Process : Type 0 where
  pub daemon : Daemon
  pub file : MembershipFile
  pub shutdown_flag : Bool
  -- the deadline of the drain, once there was a signal
  pub deadline : Option ℕ
  pub exit_code : Option ℕ

-- What stays the same while the process runs.
pub record Config : Type 0 where
  pub display : IoError → Text
  pub owner : Text
  pub drain_timeout : ℕ

pub data Event : Type 0 where
  does : Pending.Event → Event
  input_ends : Event
  works : ℕ → Schedule.Event → Event
  tries :
      (Text → Disk)
      → Result Membership MembershipError
      → Result (List Text) MembershipError
      → Map Text
      → Event
  beats : (ℕ → Io) → (ℕ → ℕ) → Event
  signalled : ℕ → Event
  polls : (ℕ → Io) → ℕ → Event

unfoldable pub exit : ℕ → Process → Process
exit code p = record p { exit_code = some code }

-- Where handle_line ends the loop, main returns.
unfoldable pub after_round : Process → Option Answered → Process
unfolding exit
after_round p none = exit 0 p
after_round p (some (out, d)) = record p { daemon = d }

unfoldable pub act : Config → Process → Pending.Event → Process
unfolding after_round
act g p (reads env uptime l) =
    after_round p (handle_line g.display env uptime p.shutdown_flag l p.daemon)
act g p (calls task_type t) = record p {
  daemon = Pending.step g.display p.daemon (calls task_type t);
}
act g p (gives_up task_type t) = record p {
  daemon = Pending.step g.display p.daemon (gives_up task_type t);
}
act g p (times_out t) = record p { daemon = Pending.step g.display p.daemon (times_out t) }
act g p (receives r) = record p { daemon = Pending.step g.display p.daemon (receives r) }

-- A tick of the heartbeat, which ends with a shutdown and which a test can pause.
unfoldable pub heartbeat_tick :
    (ℕ → Io) → Text → (ℕ → ℕ) → Daemon → MembershipFile → Daemon × MembershipFile
unfolding heartbeat
heartbeat_tick i owner now d f =
    if d.shutting_down || d.test_heartbeat_paused
    then (d, f)
    else let (es, f') = heartbeat i owner now 0 d.engines f in (record d { engines = es }, f')

-- The watcher up to the wait of shutdown.
unfoldable pub begin_shutdown : ℕ → ℕ → Process → Process
unfolding pause_all
begin_shutdown drain_timeout now p = record p {
  shutdown_flag = true;
  deadline = some (now + drain_timeout);
  daemon = record (p.daemon) { shutting_down = true; engines = pause_all p.daemon.engines };
}

-- A round of the wait, and what follows the last one.
unfoldable pub poll : (ℕ → Io) → Text → ℕ → Option ℕ → Process → Process
unfolding total_executing release_all exit
poll i owner now none p = p
poll i owner now (some deadline) p =
    if total_executing p.daemon.engines == 0 || leb deadline now
    then exit 0 (record p { file = release_all i owner 0 p.daemon.engines p.file })
    else p

-- Only the first signal counts.
unfoldable pub watch : ℕ → ℕ → Process → Process
unfolding begin_shutdown
watch drain_timeout now p = elim p.deadline [
  | some t ↦ p
  | none ↦ begin_shutdown drain_timeout now p
]

unfoldable pub live_step : Config → Process → Event → Process
unfolding act exit heartbeat_tick watch poll
live_step g p (does v) = act g p v
live_step g p input_ends = exit 0 p
live_step g p (works i v) = record p {
  daemon = record (p.daemon) { engines = step_engine i v p.daemon.engines };
}
live_step g p (tries disk loaded acquired flocks) = record p {
  daemon = (standby_round disk loaded acquired p.daemon flocks).1.1;
}
live_step g p (beats i now) =
    let (d, f) = heartbeat_tick i g.owner now p.daemon p.file in record p { daemon = d; file = f }
live_step g p (signalled now) = watch g.drain_timeout now p
live_step g p (polls i now) = poll i g.owner now p.deadline p

-- Nothing happens after the end.
unfoldable pub step : Config → Process → Event → Process
unfolding live_step
step g p v = elim p.exit_code [ some code ↦ p | none ↦ live_step g p v ]

unfoldable pub run : Config → Process → List Event → Process
unfolding step
run g p [] = p
run g p (v ∷ vs) = run g (step g p v) vs
