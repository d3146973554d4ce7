-- ===== src/Runtime/Process/Released.antt =====
-- A shutdown of the process of src/main.rs while nothing comes from stdin.
use snerdmq.Membership.{Io, Membership, valid}
use snerdmq.Base.{
  All, Text, ◌∷◌, ◌≡◌, some, List, true, [], none, Distinct, sym, inl, subst, ℕ, ◌⊎◌, refl, inr,
}
use snerdmq.Runtime.Daemon.{invalid, handle_line, message, blank}
use snerdmq.Base.Result.{Result}
use snerdmq.Runtime.Process.{
  after_round, poll, does, signalled, Config, exit, Process, polls, beats, works, input_ends,
  live_step,
}
use snerdmq.Runtime.Engines.{release_all, ShardEngine, keys_of}
use snerdmq.Runtime.Heartbeat.{AreDistinct, release_all-IsGivenBack, IsGivenBack}
use snerdmq.Runtime.Pending.{receives, reads, calls, gives_up, times_out}
use snerdmq.Runtime.Process.Draining.{IsDraining, step-Draining, signalled-Draining}
use snerdmq.Runtime.Process.{Event, run, step, tries, act, begin_shutdown}
use snerdmq.Runtime.Process.Rounds.{watch_again, tick_over, step_live, step_ended}
use snerdmq.Runtime.Process.Ended.{poll_cases, poll_over, run-append, run-Draining, signalled_first}
use snerdmq.Runtime.Pending
use snerdmq.Runtime.Cluster.Keys.{ne_key, keys}
use snerdmq.Runtime.Daemon.{Daemon}
use snerdmq.Membership.{MembershipFile}
use snerdmq.Base.{ap, ◌∙◌, ◌++◌, ◌≤◌, ◌+◌}
use snerdmq.Runtime.Process.Ended.{released}

-- Every lock is taken, and every write succeeds.
abbrev pub Works : (ℕ → Io) → Type 0
Works i = ((j : ℕ) → (i j).locks ≡ true) × ((j : ℕ) → (i j).writes ≡ true)

-- No line comes that is not blank, stdin stays open, and the releases can be written.
abbrev pub IsSilent : Event → Type 0
IsSilent (does (reads env uptime l)) = l ≡ blank
IsSilent (does (calls task_type u)) = Unit
IsSilent (does (gives_up task_type u)) = Unit
IsSilent (does (times_out u)) = Unit
IsSilent (does (receives r)) = Unit
IsSilent input_ends = ⊥
IsSilent (works i v) = Unit
IsSilent (tries disk loaded acquired flocks) = Unit
IsSilent (beats i now) = Unit
IsSilent (signalled now) = Unit
IsSilent (polls i now) = Works i

All-keys :
    (P : Text → Type 0) (es : List ShardEngine)
    → All (λ (e : ShardEngine). P e.key) es
    → All P (keys_of es)
unfolding keys_of
All-keys P [] h = tt
All-keys P (e ∷ es) h = (h.0, All-keys P es h.1)

Distinct-AreDistinct : (es : List ShardEngine) → Distinct (keys_of es) → AreDistinct es
unfolding keys_of
Distinct-AreDistinct [] d = tt
Distinct-AreDistinct (e ∷ es) d = (ne_key e.key es d.0, Distinct-AreDistinct es d.1)

module _ (shards : List Text) (sent : List (ℕ × Result (Unit {0}) Text)) (t : ℕ) (g : Config)
    (m : Membership) (distinct : Distinct shards) where
  -- The process runs and has written nothing, or it has ended and has given its shards back.
  abbrev IsOrderly : Process → Type 0
  IsOrderly p =
      ((p.exit_code ≡ none) × (p.file ≡ valid m))
      ⊎ ((p.exit_code ≡ some 0) × All (IsGivenBack g.owner p.file) shards)

  released-IsGivenBack :
      (i : ℕ → Io) (p : Process)
      → Works i
      → IsDraining shards sent t p
      → p.file ≡ valid m
      → All (IsGivenBack g.owner (released i g.owner p).file) shards
  unfolding exit
  released-IsGivenBack i p w h f =
      let es = p.daemon.engines in
      let apart : Distinct (keys_of es) = subst Distinct (sym h.shards_kept) distinct in
      let back =
        All-keys (IsGivenBack g.owner (release_all i g.owner 0 es (valid m))) es
          (release_all-IsGivenBack i g.owner 0 es m w.0 w.1 (Distinct-AreDistinct es apart)) in
      subst (All (IsGivenBack g.owner (release_all i g.owner 0 es p.file))) h.shards_kept
        (rw f back)

  released-IsOrderly :
      (i : ℕ → Io) (p : Process)
      → Works i
      → IsDraining shards sent t p
      → p.file ≡ valid m
      → IsOrderly (released i g.owner p)
  released-IsOrderly i p w h f = inr (unfold exit in refl, released-IsGivenBack i p w h f)

  act-IsOrderly :
      (p : Process) (v : Pending.Event)
      → IsSilent (does v)
      → p.exit_code ≡ none
      → p.file ≡ valid m
      → IsOrderly (act g p v)
  unfolding act after_round handle_line
  act-IsOrderly p (reads env uptime blank) s n f = inl (n, f)
  act-IsOrderly p (reads env uptime (invalid x)) s n f = absurd (cc s)
  act-IsOrderly p (reads env uptime (message x)) s n f = absurd (cc s)
  act-IsOrderly p (calls task_type u) s n f = inl (n, f)
  act-IsOrderly p (gives_up task_type u) s n f = inl (n, f)
  act-IsOrderly p (times_out u) s n f = inl (n, f)
  act-IsOrderly p (receives r) s n f = inl (n, f)

  live_step-IsOrderly :
      (p : Process) (v : Event)
      → IsSilent v
      → IsDraining shards sent t p
      → p.exit_code ≡ none
      → p.file ≡ valid m
      → IsOrderly (live_step g p v)
  unfolding live_step
  live_step-IsOrderly p (does v) s h n f = act-IsOrderly p v s n f
  live_step-IsOrderly p input_ends s h n f = absurd s
  live_step-IsOrderly p (works i v) s h n f = inl (n, f)
  live_step-IsOrderly p (tries disk loaded acquired flocks) s h n f = inl (n, f)
  live_step-IsOrderly p (beats i now) s h n f =
      let over = tick_over i g.owner now p.daemon p.file h.shutting in
      inl (n, ap (λ (x : Daemon × MembershipFile). x.1) over ∙ f)
  live_step-IsOrderly p (signalled now) s h n f =
      subst IsOrderly (sym (watch_again g p now t h.until)) (inl (n, f))
  live_step-IsOrderly p (polls i now) s h n f = elim (poll_cases i g.owner now p.deadline p) [
    | inl e ↦ subst IsOrderly (sym e) (inl (n, f))
    | inr e ↦ subst IsOrderly (sym e) (released-IsOrderly i p s h f)
  ]

  step-IsOrderly :
      (p : Process) (v : Event)
      → IsSilent v
      → IsDraining shards sent t p
      → IsOrderly p
      → IsOrderly (step g p v)
  step-IsOrderly p v s h (inl (n, f)) =
      subst IsOrderly (sym (step_live g p v n)) (live_step-IsOrderly p v s h n f)
  step-IsOrderly p v s h (inr (c, b)) = subst IsOrderly (sym (step_ended g p v 0 c)) (inr (c, b))

  run-IsOrderly :
      (p : Process) (vs : List Event)
      → All IsSilent vs
      → IsDraining shards sent t p
      → IsOrderly p
      → IsOrderly (run g p vs)
  unfolding run
  run-IsOrderly p [] s h o = o
  run-IsOrderly p (v ∷ vs) s h o =
      run-IsOrderly (step g p v) vs s.1 (step-Draining shards sent t g p v h)
        (step-IsOrderly p v s.0 h o)

  -- The first poll from the deadline on is the last.
  last_poll :
      (i : ℕ → Io) (n : ℕ) (p : Process)
      → Works i
      → t ≤ n
      → IsDraining shards sent t p
      → IsOrderly p
      → ((step g p (polls i n)).exit_code ≡ some 0)
        × All (IsGivenBack g.owner (step g p (polls i n)).file) shards
  last_poll i n p w l h (inl (live, f)) =
      let due : live_step g p (polls i n) ≡ poll i g.owner n (some t) p =
        unfold live_step in ap (λ o. poll i g.owner n o p) h.until in
      let last : step g p (polls i n) ≡ released i g.owner p =
        step_live g p (polls i n) live ∙ due ∙ poll_over i g.owner n t p l in
      subst (λ (r : Process). (r.exit_code ≡ some 0) × All (IsGivenBack g.owner r.file) shards)
        (sym last) (unfold exit in refl, released-IsGivenBack i p w h f)
  last_poll i n p w l h (inr (c, b)) =
      subst (λ (r : Process). (r.exit_code ≡ some 0) × All (IsGivenBack g.owner r.file) shards)
        (sym (step_ended g p (polls i n) 0 c)) (c, b)

-- If after the first signal no line comes that is not blank and stdin stays open, then by the first
-- poll of the wait from the deadline on the process has ended with exit code 0, whatever else happens
-- meanwhile: every engine is paused, the daemon has the shards that it had at the signal, and no claim
-- of its own is left on them, where their keys are different, the file is valid at the signal and every
-- lock and write of the releases succeeds.
pub quiet_shutdown :
    (g : Config) (p : Process) (now : ℕ) (vs : List Event) (i : ℕ → Io) (n : ℕ) (m : Membership)
    → p.exit_code ≡ none
    → p.deadline ≡ none
    → p.file ≡ valid m
    → Distinct (keys p.daemon)
    → All IsSilent vs
    → Works i
    → now + g.drain_timeout ≤ n
    → let r = run g p ((signalled now ∷ vs) ++ polls i n ∷ []) in
      (r.exit_code ≡ some 0)
      × All (λ (e : ShardEngine). e.queue.paused ≡ true) r.daemon.engines
      × (keys r.daemon ≡ keys p.daemon)
      × All (IsGivenBack g.owner r.file) (keys p.daemon)
quiet_shutdown g p now vs i n m e u f d silent w late =
    let q = step g p (signalled now) in
    let shards = keys p.daemon in
    let t = now + g.drain_timeout in
    let start = signalled-Draining g p now e u in
    let first = signalled_first g p now e u in
    let x = run g p (signalled now ∷ vs) in
    let h : IsDraining shards p.daemon.sent t x =
      unfold run in run-Draining shards p.daemon.sent t g q vs start in
    let running : q.exit_code ≡ none = ap (λ y. y.exit_code) first ∙ (unfold begin_shutdown in e) in
    let read : q.file ≡ valid m = ap (λ y. y.file) first ∙ (unfold begin_shutdown in f) in
    let orderly : IsOrderly shards p.daemon.sent t g m d x =
      unfold run in
      run-IsOrderly shards p.daemon.sent t g m d q vs silent start (inl (running, read)) in
    let h' = step-Draining shards p.daemon.sent t g x (polls i n) h in
    let (ended, back) = last_poll shards p.daemon.sent t g m d i n x w late h orderly in
    let whole : run g p ((signalled now ∷ vs) ++ polls i n ∷ []) ≡ step g x (polls i n) =
      run-append g p (signalled now ∷ vs) (polls i n ∷ []) ∙ (unfold run in refl) in
    subst
      (λ r.
        (r.exit_code ≡ some 0)
        × All (λ (e : ShardEngine). e.queue.paused ≡ true) r.daemon.engines
        × (keys r.daemon ≡ shards)
        × All (IsGivenBack g.owner r.file) shards)
      (sym whole) (ended, h'.at_rest, h'.shards_kept, back)
