-- ===== src/Runtime/Process/Rounds.antt =====
-- The steps of the process of src/main.rs, by the state that they find.
use snerdmq.Membership.{Io, MembershipFile, Membership, MembershipError}
use snerdmq.Base.{Bool, Option, ◌≢◌, some, ◌≡◌, Text, true, ℕ, ap, refl, List}
use snerdmq.Map.{Map}
use snerdmq.Queue.{Env}
use snerdmq.Base.{none}
use snerdmq.Runtime.Process.{live_step, begin_shutdown, Event, watch, step}
use snerdmq.Runtime.Daemon.{blank, handle_line, invalid, Daemon, message, InputLine}
use snerdmq.Base.Result.{IoError, Result}
use snerdmq.Runtime.Process.{exit, heartbeat_tick, Config, after_round, Process}
use snerdmq.Runtime.Start.{Disk, standby_round}

-- A standby does not try any more, and the heartbeat is over.
pub tries_over :
    (disk : Text → Disk) (loaded : Result Membership MembershipError)
    (acquired : Result (List Text) MembershipError) (d : Daemon) (flocks : Map Text)
    → d.shutting_down ≡ true
    → (standby_round disk loaded acquired d flocks).1.1 ≡ d
unfolding standby_round
tries_over disk loaded acquired d flocks h = rw h refl

pub tick_over :
    (i : ℕ → Io) (owner : Text) (now : ℕ → ℕ) (d : Daemon) (f : MembershipFile)
    → d.shutting_down ≡ true
    → heartbeat_tick i owner now d f ≡ (d, f)
unfolding heartbeat_tick
tick_over i owner now d f h = rw h refl

-- What a step is, by whether the process has ended.
pub step_live :
    (g : Config) (p : Process) (v : Event) → p.exit_code ≡ none → step g p v ≡ live_step g p v
unfolding step
step_live g p v e =
    ap (λ (o : Option ℕ). elim o as (λ _. Process) [ some code ↦ p | none ↦ live_step g p v ]) e

pub step_ended :
    (g : Config) (p : Process) (v : Event) (c : ℕ) → p.exit_code ≡ some c → step g p v ≡ p
unfolding step
step_ended g p v c e =
    ap (λ (o : Option ℕ). elim o as (λ _. Process) [ some code ↦ p | none ↦ live_step g p v ]) e

-- The first line after the signal that is not blank ends the process.
pub line_ends :
    (display : IoError → Text) (env : Env) (uptime : ℕ) (b : Bool) (l : InputLine) (p : Process)
    → l ≢ blank
    → b ≡ true
    → after_round p (handle_line display env uptime b l p.daemon) ≡ exit 0 p
unfolding after_round handle_line
line_ends display env uptime b blank p n h = absurd (n refl)
line_ends display env uptime b (invalid e) p n h = rw h refl
line_ends display env uptime b (message m) p n h = rw h refl

pub watch_first :
    (g : Config) (p : Process) (now : ℕ)
    → p.deadline ≡ none
    → watch g.drain_timeout now p ≡ begin_shutdown g.drain_timeout now p
unfolding watch
watch_first g p now u =
    ap
      (λ (o : Option ℕ). elim o as (λ _. Process) [
        | some t ↦ p
        | none ↦ begin_shutdown g.drain_timeout now p
      ])
      u

pub watch_again :
    (g : Config) (p : Process) (now t : ℕ) → p.deadline ≡ some t → watch g.drain_timeout now p ≡ p
unfolding watch
watch_again g p now t u =
    ap
      (λ (o : Option ℕ). elim o as (λ _. Process) [
        | some t ↦ p
        | none ↦ begin_shutdown g.drain_timeout now p
      ])
      u
