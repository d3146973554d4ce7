-- ===== src/Runtime/Process/Draining.antt =====
-- The process of src/main.rs between a signal and its end.
use snerdmq.Membership.{MembershipFile, Io}
use snerdmq.Base.{
  sym, subst, Option, ◌+◌, inl, inr, ◌∷◌, Option-cases, All, some, ◌≡◌, Text, true, ℕ, ap, refl,
  ◌∙◌, List,
}
use snerdmq.Queue.Schedule
use snerdmq.Runtime.Pending
use snerdmq.Queue.{Env}
use snerdmq.Runtime.Cluster.Keys.{pause_all-keys, keys}
use snerdmq.Base.{none, if_ind, ◌==◌, ◌||◌, leb, []}
use snerdmq.Runtime.Process.{
  live_step, begin_shutdown, Event, does, input_ends, works, tries, beats, signalled, polls, watch,
  poll, step,
}
use snerdmq.Runtime.Daemon.{
  blank, call_max_retry, handle_line, handler_received, invalid, Daemon, handler_timed_out, message,
  InputLine, call_handler,
}
use snerdmq.Base.Result.{err, ok, Result}
use snerdmq.Runtime.Process.{act, exit, Config, after_round, Process}
use snerdmq.Runtime.Engines.{release_all, pause_all, pause, ShardEngine, keys_of}
use snerdmq.Runtime.Pending.{receives, calls, times_out, reads, gives_up}
use snerdmq.Runtime.Shutdown.Ends.{step_engine-paused}
use snerdmq.Runtime.Cluster.Keys.{step_engine-keys}
use snerdmq.Runtime.Start.Moves.{step_engine}
use snerdmq.Runtime.Shutdown.{total_executing}
use snerdmq.Runtime.Process.Rounds.{
  tries_over, tick_over, step_live, step_ended, line_ends, watch_again,
}

-- What the process has from a signal on: the flags, the deadline, and no engine that takes tasks; its
-- shards and the results that handlers can receive are those of the signal.
pub record IsDraining (shards : List Text) (sent : List (ℕ × Result (Unit {0}) Text)) (t : ℕ)
    (p : Process) : Type 0 where
  pub flag : p.shutdown_flag ≡ true
  pub shutting : p.daemon.shutting_down ≡ true
  pub until : p.deadline ≡ some t
  pub at_rest : All (λ (e : ShardEngine). e.queue.paused ≡ true) p.daemon.engines
  pub shards_kept : keys p.daemon ≡ shards
  pub sent_kept : p.daemon.sent ≡ sent

-- Of a daemon, what an event of the loop or the handlers does not change in a drain.
abbrev Keeps : Daemon → Daemon → Type 0
Keeps d d' = (d'.shutting_down ≡ d.shutting_down) × (d'.engines ≡ d.engines) × (d'.sent ≡ d.sent)

received-Keeps : (r : Result (Unit {0}) Text) (d : Daemon) → Keeps d (handler_received r d)
unfolding handler_received
received-Keeps (ok _) d = (refl, refl, refl)
received-Keeps (err e) d = (refl, refl, refl)

pause_all-paused :
    (es : List ShardEngine) → All (λ (e : ShardEngine). e.queue.paused ≡ true) (pause_all es)
unfolding pause_all pause
pause_all-paused [] = tt
pause_all-paused (e ∷ es) = (refl, pause_all-paused es)

module _ (shards : List Text) (sent : List (ℕ × Result (Unit {0}) Text)) (t : ℕ) where
  kept_Draining :
      (p : Process) (d : Daemon)
      → Keeps p.daemon d
      → IsDraining shards sent t p
      → IsDraining shards sent t (record p { daemon = d })
  kept_Draining p d (a, b, c) h = record {
    flag = h.flag;
    shutting = a ∙ h.shutting;
    until = h.until;
    at_rest = rw b h.at_rest;
    shards_kept = ap keys_of b ∙ h.shards_kept;
    sent_kept = c ∙ h.sent_kept;
  }

  exit-Draining :
      (p : Process) (f : MembershipFile)
      → IsDraining shards sent t p
      → IsDraining shards sent t (exit 0 (record p { file = f }))
  unfolding exit
  exit-Draining p f h = record {
    flag = h.flag;
    shutting = h.shutting;
    until = h.until;
    at_rest = h.at_rest;
    shards_kept = h.shards_kept;
    sent_kept = h.sent_kept;
  }

  round-Draining :
      (g : Config) (p : Process) (env : Env) (uptime : ℕ) (l : InputLine)
      → IsDraining shards sent t p
      → IsDraining shards sent t
          (after_round p (handle_line g.display env uptime p.shutdown_flag l p.daemon))
  unfolding after_round handle_line
  round-Draining g p env uptime blank h = kept_Draining p p.daemon (refl, refl, refl) h
  round-Draining g p env uptime (invalid e) h =
      subst (IsDraining shards sent t)
        (sym (line_ends g.display env uptime p.shutdown_flag (invalid e) p (λ e. cc e) h.flag))
        (exit-Draining p p.file h)
  round-Draining g p env uptime (message m) h =
      subst (IsDraining shards sent t)
        (sym (line_ends g.display env uptime p.shutdown_flag (message m) p (λ e. cc e) h.flag))
        (exit-Draining p p.file h)

  act-Draining :
      (g : Config) (p : Process) (v : Pending.Event)
      → IsDraining shards sent t p
      → IsDraining shards sent t (act g p v)
  unfolding act Pending.step call_handler call_max_retry handler_timed_out
  act-Draining g p (reads env uptime l) h = round-Draining g p env uptime l h
  act-Draining g p (calls task_type u) h = kept_Draining p _ (refl, refl, refl) h
  act-Draining g p (gives_up task_type u) h = kept_Draining p _ (refl, refl, refl) h
  act-Draining g p (times_out u) h = kept_Draining p _ (refl, refl, refl) h
  act-Draining g p (receives r) h = kept_Draining p _ (received-Keeps r p.daemon) h

  works-Draining :
      (p : Process) (i : ℕ) (v : Schedule.Event)
      → IsDraining shards sent t p
      → IsDraining shards sent t
          (record p { daemon = record (p.daemon) { engines = step_engine i v p.daemon.engines } })
  works-Draining p i v h = record {
    flag = h.flag;
    shutting = h.shutting;
    until = h.until;
    at_rest = step_engine-paused i v p.daemon.engines h.at_rest;
    shards_kept = step_engine-keys i v p.daemon.engines ∙ h.shards_kept;
    sent_kept = h.sent_kept;
  }

  poll-Draining :
      (i : ℕ → Io) (owner : Text) (now : ℕ) (o : Option ℕ) (p : Process)
      → IsDraining shards sent t p
      → IsDraining shards sent t (poll i owner now o p)
  unfolding poll
  poll-Draining i owner now none p h = h
  poll-Draining i owner now (some u) p h =
      if_ind (IsDraining shards sent t) (total_executing p.daemon.engines == 0 || leb u now)
        (λ _. exit-Draining p (release_all i owner 0 p.daemon.engines p.file) h) (λ _. h)

  live-Draining :
      (g : Config) (p : Process) (v : Event)
      → IsDraining shards sent t p
      → IsDraining shards sent t (live_step g p v)
  unfolding live_step watch
  live-Draining g p (does v) h = act-Draining g p v h
  live-Draining g p input_ends h = exit-Draining p p.file h
  live-Draining g p (works i v) h = works-Draining p i v h
  live-Draining g p (tries disk loaded acquired flocks) h =
      rw (tries_over disk loaded acquired p.daemon flocks h.shutting) h
  live-Draining g p (beats i now) h = rw (tick_over i g.owner now p.daemon p.file h.shutting) h
  live-Draining g p (signalled now) h =
      subst (IsDraining shards sent t) (sym (watch_again g p now t h.until)) h
  live-Draining g p (polls i now) h = poll-Draining i g.owner now p.deadline p h

  pub step-Draining :
      (g : Config) (p : Process) (v : Event)
      → IsDraining shards sent t p
      → IsDraining shards sent t (step g p v)
  unfolding step
  step-Draining g p v h = elim (Option-cases p.exit_code) [
    | inl e ↦ subst (IsDraining shards sent t) (sym (step_live g p v e)) (live-Draining g p v h)
    | inr (c, e) ↦ subst (IsDraining shards sent t) (sym (step_ended g p v c e)) h
  ]

-- The signal that comes first begins the drain.
pub signalled-Draining :
    (g : Config) (p : Process) (now : ℕ)
    → p.exit_code ≡ none
    → p.deadline ≡ none
    → IsDraining (keys p.daemon) p.daemon.sent (now + g.drain_timeout) (step g p (signalled now))
unfolding step live_step watch begin_shutdown
signalled-Draining g p now e u =
    rw (e, u)
      (record {
        flag = refl;
        shutting = refl;
        until = refl;
        at_rest = pause_all-paused p.daemon.engines;
        shards_kept = pause_all-keys p.daemon.engines;
        sent_kept = refl;
      })
