-- ===== src/Runtime/Process/Ended.antt =====
-- How the process of src/main.rs ends after a signal.
use snerdmq.Membership.{MembershipFile, Io}
use snerdmq.Base.{
  ◌⊎◌, ◌≡◌, ◌≤◌, ◌≢◌, some, ◌++◌, inl, none, ◌||◌, Option-cases, if_ind, ap, Option, ◌∷◌, List, ◌∙◌,
  [], arith, refl, Text, inr, sym, leb, ℕ, ◌==◌,
}
use snerdmq.Queue.{Env}
use snerdmq.Runtime.Daemon.{blank, Daemon, InputLine, handle_line}
use snerdmq.Base.Result.{Result}
use snerdmq.Runtime.Process.{
  begin_shutdown, tries, Config, input_ends, beats, Process, live_step, after_round, exit, poll,
  does, signalled, polls, works, act,
}
use snerdmq.Runtime.Shutdown.{total_executing}
use snerdmq.Runtime.Engines.{release_all}
use snerdmq.Runtime.Pending.{times_out, reads, receives, calls, gives_up}
use snerdmq.Runtime.Process.Draining.{IsDraining, step-Draining, signalled-Draining}
use snerdmq.Runtime.Process.Rounds.{
  watch_first, line_ends, watch_again, tick_over, step_ended, step_live,
}
use snerdmq.Runtime.Process.{run, Event, step}
use snerdmq.Runtime.Pending
use snerdmq.Runtime.Cluster.Keys.{keys}
use snerdmq.Base.{◌+◌, subst}

pub run_ended :
    (g : Config) (p : Process) (vs : List Event) (c : ℕ) → p.exit_code ≡ some c → run g p vs ≡ p
unfolding run
run_ended g p [] c e = refl
run_ended g p (v ∷ vs) c e = rw (step_ended g p v c e) (run_ended g p vs c e)

pub run-append :
    (g : Config) (p : Process) (xs ys : List Event) → run g p (xs ++ ys) ≡ run g (run g p xs) ys
unfolding run
run-append g p [] ys = refl
run-append g p (x ∷ xs) ys = run-append g (step g p x) xs ys

pub act-file : (g : Config) (p : Process) (v : Pending.Event) → (act g p v).file ≡ p.file
unfolding act
act-file g p (reads env uptime l) =
    elim (Option-cases (handle_line g.display env uptime p.shutdown_flag l p.daemon)) [
      | inl e ↦ ap (λ o. (after_round p o).file) e ∙ (unfold after_round exit in refl)
      | inr (a, e) ↦ ap (λ o. (after_round p o).file) e ∙ (unfold after_round in refl)
    ]
act-file g p (calls task_type u) = refl
act-file g p (gives_up task_type u) = refl
act-file g p (times_out u) = refl
act-file g p (receives r) = refl

abbrev pub released : (ℕ → Io) → Text → Process → Process
released i owner p = exit 0 (record p { file = release_all i owner 0 p.daemon.engines p.file })

-- A round of the wait goes on, or it is the last.
pub poll_cases :
    (i : ℕ → Io) (owner : Text) (now : ℕ) (o : Option ℕ) (p : Process)
    → (poll i owner now o p ≡ p) ⊎ (poll i owner now o p ≡ released i owner p)
unfolding poll
poll_cases i owner now none p = inl refl
poll_cases i owner now (some t) p =
    if_ind (λ x. (x ≡ p) ⊎ (x ≡ released i owner p))
      (total_executing p.daemon.engines == 0 || leb t now) (λ _. inr refl) (λ _. inl refl)

pub poll_over :
    (i : ℕ → Io) (owner : Text) (now t : ℕ) (p : Process)
    → t ≤ now
    → poll i owner now (some t) p ≡ released i owner p
unfolding poll
poll_over i owner now t p h = ground arith

module _ (shards : List Text) (sent : List (ℕ × Result (Unit {0}) Text)) (t : ℕ) (g : Config) where
  pub live_step-file :
      (p : Process) (v : Event)
      → IsDraining shards sent t p
      → (live_step g p v).exit_code ≡ none
      → (live_step g p v).file ≡ p.file
  unfolding live_step exit
  live_step-file p (does v) h e = act-file g p v
  live_step-file p input_ends h e = refl
  live_step-file p (works i v) h e = refl
  live_step-file p (tries disk loaded acquired flocks) h e = refl
  live_step-file p (beats i now) h e =
      ap (λ (x : Daemon × MembershipFile). x.1) (tick_over i g.owner now p.daemon p.file h.shutting)
  live_step-file p (signalled now) h e = ap (λ x. x.file) (watch_again g p now t h.until)
  live_step-file p (polls i now) h e = elim (poll_cases i g.owner now p.deadline p) [
    | inl s ↦ ap (λ x. x.file) s
    | inr s ↦ absurd (cc e)
  ]

  pub run-Draining :
      (p : Process) (vs : List Event)
      → IsDraining shards sent t p
      → IsDraining shards sent t (run g p vs)
  unfolding run
  run-Draining p [] h = h
  run-Draining p (v ∷ vs) h = run-Draining (step g p v) vs (step-Draining shards sent t g p v h)

  -- As long as the process runs, nothing is written to the file.
  run-file :
      (p : Process) (vs : List Event)
      → IsDraining shards sent t p
      → p.exit_code ≡ none
      → (run g p vs).exit_code ≡ none
      → (run g p vs).file ≡ p.file
  unfolding run
  run-file p [] h n e = refl
  run-file p (v ∷ vs) h n e = elim (Option-cases (step g p v).exit_code) [
    | inl m ↦
        run-file (step g p v) vs (step-Draining shards sent t g p v h) m e
        ∙ ap (λ x. x.file) (step_live g p v n)
        ∙ live_step-file p v h (ap (λ x. x.exit_code) (sym (step_live g p v n)) ∙ m)
    | inr (c, m) ↦
        let bad : ◌≡◌ {A = Option ℕ} (some c) none =
          sym m ∙ ap (λ x. x.exit_code) (sym (run_ended g (step g p v) vs c m)) ∙ e in
        absurd (cc bad)
  ]

pub signalled_first :
    (g : Config) (p : Process) (now : ℕ)
    → p.exit_code ≡ none
    → p.deadline ≡ none
    → step g p (signalled now) ≡ begin_shutdown g.drain_timeout now p
signalled_first g p now e u =
    step_live g p (signalled now) e ∙ (unfold live_step in watch_first g p now u)

-- A line that is not blank, where the process is draining.
line_last :
    (g : Config) (shards : List Text) (sent : List (ℕ × Result (Unit {0}) Text)) (t : ℕ)
    (w : Process) (after : List Event) (env : Env) (uptime : ℕ) (l : InputLine)
    → IsDraining shards sent t w
    → w.exit_code ≡ none
    → l ≢ blank
    → run g w (does (reads env uptime l) ∷ after) ≡ exit 0 w
unfolding run
line_last g shards sent t w after env uptime l h live n =
    let ends : step g w (does (reads env uptime l)) ≡ exit 0 w =
      step_live g w (does (reads env uptime l)) live
      ∙ (unfold live_step act in line_ends g.display env uptime w.shutdown_flag l w n h.flag) in
    ap (λ x. run g x after) ends ∙ run_ended g (exit 0 w) after 0 (unfold exit in refl)

-- If a line that is not blank comes after the first signal, while the process still runs, then the
-- process ends at this line with exit code 0, whatever happened since the signal and whatever would
-- have come: membership.json is as it was at the signal, with the claims of the daemon, the daemon
-- has the shards that it had then, and no handler has been sent a result since.
pub line_cuts_drain :
    (g : Config) (p : Process) (now : ℕ) (before after : List Event) (env : Env) (uptime : ℕ)
    (l : InputLine)
    → p.exit_code ≡ none
    → p.deadline ≡ none
    → l ≢ blank
    → (run g p (signalled now ∷ before)).exit_code ≡ none
    → let r = run g p ((signalled now ∷ before) ++ does (reads env uptime l) ∷ after) in
      (r.exit_code ≡ some 0)
      × (r.file ≡ p.file)
      × (keys r.daemon ≡ keys p.daemon)
      × (r.daemon.sent ≡ p.daemon.sent)
line_cuts_drain g p now before after env uptime l e u n live =
    let q = step g p (signalled now) in
    let w = run g p (signalled now ∷ before) in
    let t = now + g.drain_timeout in
    let start = signalled-Draining g p now e u in
    let first = signalled_first g p now e u in
    let h : IsDraining (keys p.daemon) p.daemon.sent t w =
      unfold run in run-Draining (keys p.daemon) p.daemon.sent t g q before start in
    let running : q.exit_code ≡ none = ap (λ x. x.exit_code) first ∙ (unfold begin_shutdown in e) in
    let read : q.file ≡ p.file = ap (λ x. x.file) first ∙ (unfold begin_shutdown in refl) in
    let unwritten : w.file ≡ q.file =
      unfold run in run-file (keys p.daemon) p.daemon.sent t g q before start running live in
    subst
      (λ r.
        (r.exit_code ≡ some 0)
        × (r.file ≡ p.file)
        × (keys r.daemon ≡ keys p.daemon)
        × (r.daemon.sent ≡ p.daemon.sent))
      (sym (
        run-append g p (signalled now ∷ before) (does (reads env uptime l) ∷ after)
        ∙ line_last g (keys p.daemon) p.daemon.sent t w after env uptime l h live n))
      (unfold exit in (refl, unwritten ∙ read, h.shards_kept, h.sent_kept))
