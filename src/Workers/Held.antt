-- ===== src/Workers/Held.antt =====
-- The permits that the tasks in flight of one engine of src/queue.rs hold, step by step.
use snerdmq.Task.Priority
use snerdmq.Task.{RetryableTask}
use snerdmq.Base.{
  ◌∙◌, ltb, ltb→lt, if_ind, ◌-◌, unwrap_or, ap, if_pos, ◌⊎◌, none, ◌<◌, if_neg, ◌≡◌, List, All, [],
  refl, inl, ◌∷◌, arith, text_dec, Bool-cases, ℕ, ite, some, Text, inr, ◌+◌,
}
use snerdmq.Workers.{
  work, after_finish, take_permit, give_permit, after_settle, after_begin, available, after_pop,
  semaphore_of, WorkerPoolManager,
}
use snerdmq.Queue.{store_new, mark, save, enqueue, sweep, Set, register_handlers, Env, SnerdQueue}
use snerdmq.Queue.Dispatch.{
  queue_read, start_dispatchers, queue_task, after_queueing, process_due_tasks, queue_due, dispatch,
  is_due, settle_task, settle_found, settle, postpone, take_popped, start, pool_of, heap_of,
  take_task,
}
use snerdmq.Map.{keys, get, get-insert, Map}
use snerdmq.Queue.Execute.{finish_found, finish, begin_task, drop_guard, begin_found, begin}
use snerdmq.Queue.Exclusive.{start_dispatchers-SameTasks, SameTasks}
use snerdmq.Queue.Schedule.{
  queues, saves_new, marks, sweeps, Event, compacts, step, settles, finishes, pauses, registers,
  ticks, begins, dispatches, enqueues,
}
use snerdmq.Queue.Exclusive.Steps.{enqueue-SameTasks, finish_task-SameTasks}
use snerdmq.Base.Result.{Result}
use snerdmq.FileStore.{read_tasks}

-- How many tasks of a list hold a permit of the semaphore.
abbrev pub holding : WorkerPoolManager → Text → List RetryableTask → ℕ
holding w s [] = 0
holding w s (t ∷ ts) = ite (text_dec (semaphore_of w (pool_of t)) s) 1 0 + holding w s ts

-- The same for an engine: its popped tasks and its executions.
abbrev pub in_flight : WorkerPoolManager → Text → SnerdQueue → ℕ
in_flight w s q = holding w s q.popped + holding w s q.spawned + holding w s q.active

-- Each heap has the tasks of its own pool.
abbrev pub IsPooled : SnerdQueue → Type 0
IsPooled q = (pool : Text) → All (λ t. pool_of t ≡ pool) (heap_of pool q)

take_task-held_cases :
    (w : WorkerPoolManager) (id : Text) (ts : List RetryableTask)
    → (take_task id ts ≡ none)
      ⊎ ((t : RetryableTask) × (rest : List RetryableTask) × (take_task id ts ≡ some (t, rest))
          × ((s : Text) → holding w s ts ≡ holding w s (t ∷ rest)))
unfolding take_task
take_task-held_cases w id [] = inl refl
take_task-held_cases w id (x ∷ ts) = elim (text_dec x.task_id id) [
  | yes p ↦ inr (x, ts, rw (if_pos _ p), λ s. refl)
  | no n ↦ elim (take_task-held_cases w id ts) [
    | inl e ↦ inl (rw (if_neg _ n, e))
    | inr (t, rest, e, o) ↦ inr (t, x ∷ rest, rw (if_neg _ n, e), λ s. omega (arith, o s))
  ]
]

pick-holding :
    (w : WorkerPoolManager) (s : Text) (best : RetryableTask) (us : List RetryableTask)
    → holding w s ((Priority.pick best us).0 ∷ (Priority.pick best us).1) ≡ holding w s (best ∷ us)
unfolding Priority.pick
pick-holding w s best [] = refl
pick-holding w s best (u ∷ us) = elim (Bool-cases (Priority.is_greater u best)) [
  | inl g ↦ rw g (omega (arith, pick-holding w s u us))
  | inr g ↦ rw g (omega (arith, pick-holding w s best us))
]

pub pick-All :
    (P : RetryableTask → Type 0) (best : RetryableTask) (us : List RetryableTask)
    → P best
    → All P us
    → P (Priority.pick best us).0 × All P (Priority.pick best us).1
unfolding Priority.pick
pick-All P best [] h hs = (h, tt)
pick-All P best (u ∷ us) h hs = elim (Bool-cases (Priority.is_greater u best)) [
  | inl g ↦ let (a, b) = pick-All P u us hs.0 hs.1 in rw g (a, (h, b))
  | inr g ↦ let (a, b) = pick-All P best us h hs.1 in rw g (a, (hs.0, b))
]

available-give_permit :
    (k s : Text) (p : Map ℕ)
    → available s (give_permit k p) ≡ available s p + ite (text_dec k s) 1 0
unfolding available give_permit
available-give_permit k s p = elim (text_dec k s) [
  | yes e ↦ ground (arith, get-insert k s (unwrap_or (get k p) 0 + 1) p, ap (λ x. get x p) e)
  | no n ↦ ground (arith, get-insert k s (unwrap_or (get k p) 0 + 1) p)
]

available-take_permit :
    (k s : Text) (p : Map ℕ)
    → 0 < available k p
    → available s (take_permit k p) + ite (text_dec k s) 1 0 ≡ available s p
unfolding available take_permit
available-take_permit k s p h = elim (text_dec k s) [
  | yes e ↦ ground (arith, get-insert k s (unwrap_or (get k p) 0 - 1) p, ap (λ x. get x p) e)
  | no n ↦ ground (arith, get-insert k s (unwrap_or (get k p) 0 - 1) p)
]

module _ (w : WorkerPoolManager) where
  -- The permits that are left and those in flight, which each step keeps.
  abbrev pub Keeps : SnerdQueue × Map ℕ → SnerdQueue × Map ℕ → Type 0
  Keeps (q, p) (q', p') =
      (s : Text) → available s p' + in_flight w s q' ≡ available s p + in_flight w s q

  take_popped-Keeps :
      (pool : Text) (q : SnerdQueue) (p : Map ℕ) (hs : List RetryableTask)
      → heap_of pool q ≡ hs
      → All (λ t. pool_of t ≡ pool) hs
      → 0 < available (semaphore_of w pool) p
      → Keeps (q, p) (take_popped pool (Priority.pop hs) q, after_pop (semaphore_of w pool) hs p)
  unfolding take_popped Priority.pop after_pop
  take_popped-Keeps pool q p [] e h l s = refl
  take_popped-Keeps pool q p (t ∷ ts) e h l s =
      let owner = (pick-All (λ u. pool_of u ≡ pool) t ts h.0 h.1).0 in
      omega (
        arith,
        available-take_permit (semaphore_of w pool) s p l,
        ap (λ k. ite {C = ℕ} (text_dec (semaphore_of w k) s) 1 0) owner,
      )

  settle-Keeps :
      (e : Env) (id : Text) (q : SnerdQueue) (p : Map ℕ)
      → Keeps (q, p) (settle e id q, after_settle w e q (take_task id q.popped) p)
  unfolding settle settle_found settle_task start postpone after_settle
  settle-Keeps e id q p s = elim (take_task-held_cases w id q.popped) [
    | inl none_found ↦ rw none_found refl
    | inr (t, rest, found, o) ↦
        rw found (ground (arith, o s, available-give_permit (semaphore_of w (pool_of t)) s p))
  ]

  begin-Keeps :
      (id : Text) (q : SnerdQueue) (p : Map ℕ)
      → Keeps (q, p) (begin id q, after_begin w q (take_task id q.spawned) p)
  unfolding begin begin_found begin_task drop_guard after_begin
  begin-Keeps id q p s = elim (take_task-held_cases w id q.spawned) [
    | inl none_found ↦ rw none_found refl
    | inr (t, rest, found, o) ↦
        rw found (ground (arith, o s, available-give_permit (semaphore_of w (pool_of t)) s p))
  ]

  finish-Keeps :
      (e : Env) (id : Text) (r : Result (Unit {0}) Text) (q : SnerdQueue) (p : Map ℕ)
      → Keeps (q, p) (finish e id r q, after_finish w (take_task id q.active) p)
  unfolding finish finish_found after_finish
  finish-Keeps e id r q p s = elim (take_task-held_cases w id q.active) [
    | inl none_found ↦ rw none_found refl
    | inr (t, rest, found, o) ↦ rw found (
        let (a, b, c, d, x, y) = finish_task-SameTasks e r t (record q { active = rest }) in
        unfold drop_guard in
        omega (
          arith,
          o s,
          available-give_permit (semaphore_of w (pool_of t)) s p,
          ap (holding w s) b,
          ap (holding w s) c,
          ap (holding w s) d,
        ))
  ]

  -- A step that leaves the futures alone.
  SameTasks-Keeps : (q r : SnerdQueue) (p : Map ℕ) → SameTasks q r → Keeps (q, p) (r, p)
  SameTasks-Keeps q r p (a, b, c, d, x, y) s =
      omega (arith, ap (holding w s) b, ap (holding w s) c, ap (holding w s) d)

  queue_due-in_flight :
      (now : ℕ) (ts : List RetryableTask) (pools : Set) (q : SnerdQueue) (s : Text)
      → in_flight w s (queue_due now ts pools q).1 ≡ in_flight w s q
  unfolding queue_due
  queue_due-in_flight now [] pools q s = refl
  queue_due-in_flight now (t ∷ ts) pools q s =
      queue_due-in_flight now ts _ _ s
      ∙ if_ind (λ (x : SnerdQueue). in_flight w s x ≡ in_flight w s q) (is_due now t q)
          (λ _. unfold queue_task in refl) (λ _. refl)

  queue_read-Keeps :
      (now : ℕ) (ts : List RetryableTask) (q : SnerdQueue) (p : Map ℕ)
      → Keeps (q, p) (queue_read now ts q, p)
  unfolding after_queueing
  queue_read-Keeps now ts q p s =
      let r = queue_due now ts [] q in
      SameTasks-Keeps r.1 (start_dispatchers (keys r.0) r.1) p
        (start_dispatchers-SameTasks (keys r.0) r.1 r.1 (refl, refl, refl, refl, refl, refl)) s
      ∙ ap (λ n. available s p + n) (queue_due-in_flight now ts [] q s)

  process_due_tasks-Keeps :
      (e : Env) (q : SnerdQueue) (p : Map ℕ) → Keeps (q, p) (process_due_tasks e q, p)
  unfolding process_due_tasks
  process_due_tasks-Keeps e q p s =
      if_ind (λ (x : SnerdQueue). available s p + in_flight w s x ≡ available s p + in_flight w s q)
        q.paused (λ _. refl) (λ _. queue_read-Keeps e.now (read_tasks q.file_store) q p s)

  -- Each step of an engine keeps the permits that are left and those in flight.
  pub work-Keeps :
      (e : Event) (q : SnerdQueue) (p : Map ℕ) → IsPooled q → Keeps (q, p) (work w e (q, p))
  unfolding work step sweep register_handlers dispatch mark store_new save
  work-Keeps (dispatches pool) q p h s =
      elim (Bool-cases (ltb 0 (available (semaphore_of w pool) p))) [
        | inl some_left ↦ rw some_left (
            take_popped-Keeps pool q p (heap_of pool q) refl (h pool)
              (ltb→lt 0 (available (semaphore_of w pool) p) some_left) s)
        | inr none_left ↦ rw none_left refl
      ]
  work-Keeps (settles e id) q p h s = settle-Keeps e id q p s
  work-Keeps (begins id) q p h s = begin-Keeps id q p s
  work-Keeps (finishes e id r) q p h s = finish-Keeps e id r q p s
  work-Keeps (enqueues t e) q p h s =
      SameTasks-Keeps q (enqueue t e q).1 p (enqueue-SameTasks t e q) s
  work-Keeps (ticks e) q p h s = process_due_tasks-Keeps e q p s
  work-Keeps (sweeps e) q p h s = refl
  work-Keeps (compacts writable r) q p h s = refl
  work-Keeps (registers task_type) q p h s = refl
  work-Keeps pauses q p h s = refl
  work-Keeps (queues now ts) q p h s = queue_read-Keeps now ts q p s
  work-Keeps (marks t) q p h s = refl
  work-Keeps (saves_new t e) q p h s = refl
