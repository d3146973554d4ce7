-- ===== src/Runtime/Shutdown/Ends.antt =====
-- How Runtime::shutdown of src/main.rs ends.
use mathlib.Core.Option
use snerdmq.Queue.Schedule
use snerdmq.Runtime.Start.Moves.{step_engine}
use snerdmq.Base.{
  ◌<◌, All, ◌==◌, refl, true, inr, Bool-cases, suc, arith, ℕ, [], Text, ◌≢◌, inl, zero, Option, ◌≡◌,
  false, some, List, ◌*◌, none, ◌≤◌, leb, ◌+◌, ◌∷◌,
}
use snerdmq.Queue.Pausing.{step-paused}
use snerdmq.Base.{◌/◌, if◌then◌else◌}
use snerdmq.Runtime.Daemon.{Daemon}
use snerdmq.Membership.{Io, Membership, MembershipFile, valid}
use snerdmq.Runtime.Engines.{release_all}
use snerdmq.Runtime.Heartbeat.{IsGivenBack, release_all-IsGivenBack}
use snerdmq.Runtime.Shutdown.{
  shutdown, poll_interval, all_finished, total_executing, drain, Drained, timeout_exceeded, work_on,
}
use snerdmq.Runtime.Engines.{pause_all, ShardEngine, pause}
use snerdmq.Runtime.Heartbeat.{AreDistinct}

-- The clock goes on by the length of a sleep at least.
abbrev pub Sleeps : (ℕ → ℕ) → Type 0
Sleeps now = (n : ℕ) → now n + poll_interval ≤ now (suc n)

-- The engines at the end: paused, with different keys.
abbrev pub AreAtRest : List ShardEngine → Type 0
AreAtRest es = AreDistinct es × All (λ (e : ShardEngine). e.queue.paused ≡ true) es

step_engine-keys :
    (P : Text → Type 0) (i : ℕ) (v : Schedule.Event) (es : List ShardEngine)
    → All (λ (e : ShardEngine). P e.key) es
    → All (λ (e : ShardEngine). P e.key) (step_engine i v es)
unfolding step_engine
step_engine-keys P i v [] h = tt
step_engine-keys P zero v (x ∷ xs) h = h
step_engine-keys P (suc i) v (x ∷ xs) h = (h.0, step_engine-keys P i v xs h.1)

step_engine-AreDistinct :
    (i : ℕ) (v : Schedule.Event) (es : List ShardEngine)
    → AreDistinct es
    → AreDistinct (step_engine i v es)
unfolding step_engine
step_engine-AreDistinct i v [] h = tt
step_engine-AreDistinct zero v (x ∷ xs) h = h
step_engine-AreDistinct (suc i) v (x ∷ xs) h =
    (step_engine-keys (λ k. k ≢ x.key) i v xs h.0, step_engine-AreDistinct i v xs h.1)

pub step_engine-paused :
    (i : ℕ) (v : Schedule.Event) (es : List ShardEngine)
    → All (λ (e : ShardEngine). e.queue.paused ≡ true) es
    → All (λ (e : ShardEngine). e.queue.paused ≡ true) (step_engine i v es)
unfolding step_engine
step_engine-paused i v [] h = tt
step_engine-paused zero v (x ∷ xs) h = (step-paused x.queue v h.0, h.1)
step_engine-paused (suc i) v (x ∷ xs) h = (h.0, step_engine-paused i v xs h.1)

work_on-AreAtRest :
    (vs : List (ℕ × Schedule.Event)) (es : List ShardEngine)
    → AreAtRest es
    → AreAtRest (work_on vs es)
unfolding work_on
work_on-AreAtRest [] es h = h
work_on-AreAtRest ((i, v) ∷ vs) es h =
    work_on-AreAtRest vs (step_engine i v es)
      (step_engine-AreDistinct i v es h.0, step_engine-paused i v es h.1)

pause_all-keys :
    (P : Text → Type 0) (es : List ShardEngine)
    → All (λ (e : ShardEngine). P e.key) es
    → All (λ (e : ShardEngine). P e.key) (pause_all es)
unfolding pause_all pause
pause_all-keys P [] h = tt
pause_all-keys P (x ∷ xs) h = (h.0, pause_all-keys P xs h.1)

pause_all-AreAtRest : (es : List ShardEngine) → AreDistinct es → AreAtRest (pause_all es)
unfolding pause_all pause
pause_all-AreAtRest [] h = (tt, tt)
pause_all-AreAtRest (x ∷ xs) h =
    let (distinct, paused) = pause_all-AreAtRest xs h.1 in
    ((pause_all-keys (λ k. k ≢ x.key) xs h.0, distinct), (refl, paused))

-- The engines after n sleeps of the wait.
unfoldable pub rounds : (ℕ → List (ℕ × Schedule.Event)) → ℕ → List ShardEngine → List ShardEngine
rounds meanwhile zero es = es
rounds meanwhile (suc n) es = work_on (meanwhile n) (rounds meanwhile n es)

-- The two ways in which the wait may be over at its round n.
abbrev pub IsOverAt : (ℕ → ℕ) → ℕ → Drained → ℕ → List ShardEngine → Type 0
IsOverAt now deadline all_finished n es = total_executing es ≡ 0
IsOverAt now deadline timeout_exceeded n es = (0 < total_executing es) × (deadline ≤ now n)

module _ (meanwhile : ℕ → List (ℕ × Schedule.Event)) (now : ℕ → ℕ) (deadline : ℕ)
    (begun : List ShardEngine) where
  -- In each round before n a task is executing and the time is not over.
  abbrev pub GoesOnUntil : ℕ → Type 0
  GoesOnUntil n =
      (j : ℕ) → j < n → (0 < total_executing (rounds meanwhile j begun)) × (now j < deadline)

  -- The wait ends in the first round in which it may.
  abbrev pub Ended : Drained → List ShardEngine → Type 0
  Ended r es =
      (n : ℕ) × (es ≡ rounds meanwhile n begun) × IsOverAt now deadline r n es × GoesOnUntil n

  abbrev EndsWait : Option (Drained × List ShardEngine) → Type 0
  EndsWait none = ⊥
  EndsWait (some (r, es)) = Ended r es × AreAtRest es

  later-GoesOnUntil :
      (n : ℕ)
      → 0 < total_executing (rounds meanwhile n begun)
      → now n < deadline
      → GoesOnUntil n
      → GoesOnUntil (suc n)
  later-GoesOnUntil n t b g j l = elim (Bool-cases (j == n)) [
    | inl p ↦ let e : j ≡ n = ground arith in rw e (t, b)
    | inr p ↦ g j (ground arith)
  ]

  -- A round of the wait, where `rest` is what comes after it.
  round-EndsWait :
      (n : ℕ) (rest : Option (Drained × List ShardEngine))
      → AreAtRest (rounds meanwhile n begun)
      → GoesOnUntil n
      → (leb deadline (now n) ≡ false → GoesOnUntil (suc n) → EndsWait rest)
      → EndsWait (
          if total_executing (rounds meanwhile n begun) == 0
          then some (all_finished, rounds meanwhile n begun)
          else if leb deadline (now n)
          then some (timeout_exceeded, rounds meanwhile n begun)
          else rest)
  round-EndsWait n rest h g f =
      elim (Bool-cases (total_executing (rounds meanwhile n begun) == 0)) [
        | inl e ↦ rw (EndsWait, e) ((n, refl, ground arith, g), h)
        | inr e ↦ elim (Bool-cases (leb deadline (now n))) [
          | inl l ↦ rw (EndsWait, e, l) ((n, refl, (ground arith, ground arith), g), h)
          | inr l ↦ rw (EndsWait, e, l) (f l (later-GoesOnUntil n (ground arith) (ground arith) g))
        ]
      ]

  drain-EndsWait :
      (fuel n : ℕ)
      → Sleeps now
      → AreAtRest (rounds meanwhile n begun)
      → GoesOnUntil n
      → deadline ≤ now n + fuel * poll_interval
      → EndsWait (drain meanwhile now deadline (suc fuel) n (rounds meanwhile n begun))
  unfolding drain rounds
  drain-EndsWait zero n s h g b = round-EndsWait n none h g (λ l _. absurd (ground arith))
  drain-EndsWait (suc fuel) n s h g b =
      round-EndsWait n
        (drain meanwhile now deadline (suc fuel) (suc n) (rounds meanwhile (suc n) begun)) h g
        (λ l g'.
          drain-EndsWait fuel (suc n) s
            (work_on-AreAtRest (meanwhile n) (rounds meanwhile n begun) h) g'
            (omega (arith, b, s n)))

-- The end of a shutdown.
abbrev pub ShutDown :
    Text
    → (ℕ → List (ℕ × Schedule.Event))
    → ℕ
    → (ℕ → ℕ)
    → ℕ
    → List ShardEngine
    → Option (Drained × Daemon × MembershipFile)
    → Type 0
ShutDown owner meanwhile start now drain_timeout es none = ⊥
ShutDown owner meanwhile start now drain_timeout es (some (r, d, f)) =
    (d.shutting_down ≡ true)
    × Ended meanwhile now (start + drain_timeout) (pause_all es) r d.engines
    × All (λ (e : ShardEngine). e.queue.paused ≡ true) d.engines
    × All (λ (e : ShardEngine). IsGivenBack owner f e.key) d.engines

after_drain-ShutDown :
    (i : ℕ → Io) (owner : Text) (meanwhile : ℕ → List (ℕ × Schedule.Event)) (start : ℕ)
    (now : ℕ → ℕ) (drain_timeout : ℕ) (d : Daemon) (m : Membership)
    (o : Option (Drained × List ShardEngine))
    → ((j : ℕ) → (i j).locks ≡ true)
    → ((j : ℕ) → (i j).writes ≡ true)
    → EndsWait meanwhile now (start + drain_timeout) (pause_all d.engines) o
    → ShutDown owner meanwhile start now drain_timeout d.engines (
        Option.map
          (λ (x : Drained × List ShardEngine). (
            x.0,
            record d { shutting_down = true; engines = x.1 },
            release_all i owner 0 x.1 (valid m),
          ))
          o)
after_drain-ShutDown i owner meanwhile start now drain_timeout d m none l w h = h
after_drain-ShutDown i owner meanwhile start now drain_timeout d m (some (r, es)) l w h =
    (refl, h.0, h.1.1, release_all-IsGivenBack i owner 0 es m l w h.1.0)

-- On a valid file, where every lock and write succeeds and the engines have different keys, a shutdown
-- ends whatever the engines do meanwhile, if the clock does not go back and goes on by a sleep at least
-- in each round: in at most two rounds more than its timeout has sleeps. The wait ends in the first
-- round in which no task is executing or the time is at the deadline or past it: at all_finished no task
-- of that round's engines is executing, at timeout_exceeded one is and the time is over, and in each
-- round before one was executing before the deadline. Then an enqueue is refused, every engine is
-- paused, and none of the daemon's shards is left claimed by it.
pub shutdown-ShutDown :
    (i : ℕ → Io) (owner : Text) (meanwhile : ℕ → List (ℕ × Schedule.Event)) (start : ℕ)
    (now : ℕ → ℕ) (drain_timeout : ℕ) (d : Daemon) (m : Membership)
    → start ≤ now 0
    → Sleeps now
    → ((j : ℕ) → (i j).locks ≡ true)
    → ((j : ℕ) → (i j).writes ≡ true)
    → AreDistinct d.engines
    → ShutDown owner meanwhile start now drain_timeout d.engines (
        shutdown i owner meanwhile start now drain_timeout
          (suc (drain_timeout / poll_interval + 1))
          d
          (valid m))
unfolding shutdown rounds
shutdown-ShutDown i owner meanwhile start now drain_timeout d m b s l w distinct =
    after_drain-ShutDown i owner meanwhile start now drain_timeout d m _ l w (
      drain-EndsWait meanwhile now (start + drain_timeout) (pause_all d.engines)
        (drain_timeout / poll_interval + 1) 0 s (pause_all-AreAtRest d.engines distinct)
        (λ j l. absurd (omega arith)) (omega (arith, b)))
