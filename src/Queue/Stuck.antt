-- ===== src/Queue/Stuck.antt =====
-- Ids in executing_tasks of src/queue.rs with no execution behind them, which the first return of
-- execute_task leaves: it comes before the guard.
use snerdmq.Task.Priority
use snerdmq.Task.{RetryableTask}
use snerdmq.Base.{
  some, ◌∙◌, inr, inl, List, true, Text, text_dec, [], ℕ, arith, ◌≢◌, ap, subst, if_ind, ◌∷◌, refl,
  sym, ◌≡◌,
}
use snerdmq.Map.{keys, contains-insert, IsMap, insert-IsMap, contains, contains-remove}
use snerdmq.Queue.{mark, save, store_new, register_handlers, sweep, new, Env, SnerdQueue, Set}
use snerdmq.FileStore.{FileStore, read_tasks}
use snerdmq.Queue.Dispatch.{
  queue_read, take_task, dispatch, settle_found, settle, queue_due, take_popped, is_due,
  process_due_tasks, start, pool_of, postpone, settle_task, heap_of, queue_task, after_queueing,
}
use snerdmq.Queue.Exclusive.{
  take_task_cases, IsExclusive, occ_heaps-insert, SameTasks, occ-pick, waiting, occ, running,
  start_dispatchers-SameTasks,
}
use snerdmq.Queue.Execute.{begin, finish_found, finish, begin_found, drop_guard, begin_task}
use snerdmq.RateLimiter.{LimitsFile}
use snerdmq.Queue.Schedule.{
  queues, ticks, enqueues, begins, dispatches, step, finishes, run, Event, settles,
}
use snerdmq.Queue.Exclusive.Steps.{
  enqueue-SameTasks, run-IsExclusive, new-IsExclusive, finish_task-SameTasks,
}
use snerdmq.Base.Result.{Result}

pub record IsStuck (k : Text) (q : SnerdQueue) : Type 0 where
  pub heaps : IsMap q.shared_pqs
  pub leaked : contains k q.executing_tasks ≡ true
  pub none_waiting : waiting k q ≡ 0
  pub none_running : running k q ≡ 0

SameTasks-IsStuck : (k : Text) (q r : SnerdQueue) → SameTasks q r → IsStuck k q → IsStuck k r
SameTasks-IsStuck k q r (a, b, c, d, e, f) h = record {
  heaps = subst IsMap (sym a) h.heaps;
  leaked = rw f h.leaked;
  none_waiting = rw (a, b) h.none_waiting;
  none_running = rw (c, d) h.none_running;
}

module _ (k : Text) where
  queue_task-IsStuck :
      (t : RetryableTask) (q : SnerdQueue) (now : ℕ)
      → is_due now t q ≡ true
      → IsStuck k q
      → IsStuck k (queue_task t q)
  unfolding is_due queue_task
  queue_task-IsStuck t q now d h = elim (text_dec t.task_id k) [
    | yes p ↦ absurd (ground (arith, ap (λ x. contains x q.executing_tasks) p, h.leaked))
    | no n ↦ record {
      heaps = insert-IsMap (pool_of t) (t ∷ heap_of (pool_of t) q) q.shared_pqs h.heaps;
      leaked = h.leaked;
      none_waiting = ground (
        arith,
        h.none_waiting,
        occ_heaps-insert k (pool_of t) (t ∷ heap_of (pool_of t) q) q.shared_pqs h.heaps,
      );
      none_running = h.none_running;
    }
  ]

  queue_due-IsStuck :
      (now : ℕ) (ts : List RetryableTask) (pools : Set) (q : SnerdQueue)
      → IsStuck k q
      → IsStuck k (queue_due now ts pools q).1
  unfolding queue_due
  queue_due-IsStuck now [] pools q h = h
  queue_due-IsStuck now (t ∷ ts) pools q h =
      queue_due-IsStuck now ts _ _
        (if_ind (IsStuck k) (is_due now t q) (λ d. queue_task-IsStuck t q now d h) (λ _. h))

  queue_read-IsStuck :
      (now : ℕ) (ts : List RetryableTask) (q : SnerdQueue)
      → IsStuck k q
      → IsStuck k (queue_read now ts q)
  unfolding after_queueing
  queue_read-IsStuck now ts q h =
      let r = queue_due now ts [] q in
      SameTasks-IsStuck k r.1 _
        (start_dispatchers-SameTasks (keys r.0) r.1 r.1 (refl, refl, refl, refl, refl, refl))
        (queue_due-IsStuck now ts [] q h)

  process_due_tasks-IsStuck :
      (e : Env) (q : SnerdQueue) → IsStuck k q → IsStuck k (process_due_tasks e q)
  unfolding process_due_tasks
  process_due_tasks-IsStuck e q h =
      if_ind (IsStuck k) q.paused (λ _. h)
        (λ _. queue_read-IsStuck e.now (read_tasks q.file_store) q h)

  take_popped-IsStuck :
      (pool : Text) (q : SnerdQueue) (hs : List RetryableTask)
      → heap_of pool q ≡ hs
      → IsStuck k q
      → IsStuck k (take_popped pool (Priority.pop hs) q)
  unfolding take_popped Priority.pop
  take_popped-IsStuck pool q [] e h = SameTasks-IsStuck k q _ (refl, refl, refl, refl, refl, refl) h
  take_popped-IsStuck pool q (t ∷ ts) e h =
      let picked = Priority.pick t ts in
      record {
        heaps = insert-IsMap pool picked.1 q.shared_pqs h.heaps;
        leaked = h.leaked;
        none_waiting = omega (
          arith,
          h.none_waiting,
          occ-pick k t ts,
          ap (occ k) e,
          occ_heaps-insert k pool picked.1 q.shared_pqs h.heaps,
        );
        none_running = h.none_running;
      }

  -- A task that stands in a list with no task of the id has another id.
  other_id : (t : RetryableTask) (rest : List RetryableTask) → occ k (t ∷ rest) ≡ 0 → t.task_id ≢ k
  other_id t rest o e = ground (arith, o)

  settle_task-IsStuck :
      (e : Env) (t : RetryableTask) (rest : List RetryableTask) (q : SnerdQueue)
      → occ k q.popped ≡ occ k (t ∷ rest)
      → IsStuck k q
      → IsStuck k (settle_task e t (record q { popped = rest }))
  unfolding settle_task start postpone
  settle_task-IsStuck e t rest q o h =
      let n = other_id t rest (omega (arith, o, h.none_waiting)) in
      record {
        heaps = ground (arith, h.heaps);
        leaked = ground (arith, h.leaked, contains-insert t.task_id k tt q.executing_tasks, n);
        none_waiting = ground (arith, h.none_waiting, o);
        none_running = ground (arith, h.none_running, n);
      }

  begin_task-IsStuck :
      (t : RetryableTask) (rest : List RetryableTask) (q : SnerdQueue)
      → occ k q.spawned ≡ occ k (t ∷ rest)
      → IsStuck k q
      → IsStuck k (begin_task t (record q { spawned = rest }))
  unfolding begin_task drop_guard
  begin_task-IsStuck t rest q o h =
      let n = other_id t rest (omega (arith, o, h.none_running)) in
      record {
        heaps = ground (arith, h.heaps);
        leaked = ground (arith, h.leaked, contains-remove t.task_id k q.executing_tasks, n);
        none_waiting = ground (arith, h.none_waiting);
        none_running = ground (arith, h.none_running, o, n);
      }

  drop_guard-IsStuck :
      (t : RetryableTask) (rest : List RetryableTask) (q : SnerdQueue)
      → occ k q.active ≡ occ k (t ∷ rest)
      → IsStuck k q
      → IsStuck k (drop_guard t.task_id (record q { active = rest }))
  unfolding drop_guard
  drop_guard-IsStuck t rest q o h =
      let n = other_id t rest (omega (arith, o, h.none_running)) in
      record {
        heaps = h.heaps;
        leaked = ground (arith, h.leaked, contains-remove t.task_id k q.executing_tasks, n);
        none_waiting = h.none_waiting;
        none_running = omega (arith, h.none_running, o);
      }

settle-IsStuck :
    (k : Text) (e : Env) (id : Text) (q : SnerdQueue) → IsStuck k q → IsStuck k (settle e id q)
unfolding settle settle_found
settle-IsStuck k e id q h = elim (take_task_cases id q.popped) [
  | inl none_found ↦ rw none_found h
  | inr (t, rest, found, o) ↦ rw found (settle_task-IsStuck k e t rest q (o k) h)
]

begin-IsStuck : (k id : Text) (q : SnerdQueue) → IsStuck k q → IsStuck k (begin id q)
unfolding begin begin_found
begin-IsStuck k id q h = elim (take_task_cases id q.spawned) [
  | inl none_found ↦ rw none_found h
  | inr (t, rest, found, o) ↦ rw found (begin_task-IsStuck k t rest q (o k) h)
]

finish-IsStuck :
    (k : Text) (e : Env) (id : Text) (r : Result (Unit {0}) Text) (q : SnerdQueue)
    → IsStuck k q
    → IsStuck k (finish e id r q)
unfolding finish finish_found
finish-IsStuck k e id r q h = elim (take_task_cases id q.active) [
  | inl none_found ↦ rw none_found h
  | inr (t, rest, found, o) ↦ rw found (
      SameTasks-IsStuck k _ _ (finish_task-SameTasks e r t (record q { active = rest }))
        (drop_guard-IsStuck k t rest q (o k) h))
]

step-IsStuck : (k : Text) (q : SnerdQueue) (e : Event) → IsStuck k q → IsStuck k (step q e)
unfolding step sweep register_handlers mark store_new save
step-IsStuck k q (enqueues t e) h = SameTasks-IsStuck k q _ (enqueue-SameTasks t e q) h
step-IsStuck k q (ticks e) h = process_due_tasks-IsStuck k e q h
step-IsStuck k q (dispatches pool) h = unfold dispatch in take_popped-IsStuck k pool q _ refl h
step-IsStuck k q (settles e id) h = settle-IsStuck k e id q h
step-IsStuck k q (begins id) h = begin-IsStuck k id q h
step-IsStuck k q (finishes e id r) h = finish-IsStuck k e id r q h
step-IsStuck k q (queues now ts) h = queue_read-IsStuck k now ts q h
step-IsStuck k q _ h = SameTasks-IsStuck k q _ (refl, refl, refl, refl, refl, refl) h

-- A stuck id stays so, whatever the engine does.
pub run-IsStuck : (k : Text) (q : SnerdQueue) (es : List Event) → IsStuck k q → IsStuck k (run q es)
unfolding run
run-IsStuck k q [] h = h
run-IsStuck k q (e ∷ es) h = run-IsStuck k (step q e) es (step-IsStuck k q e h)

begin_completed-IsStuck :
    (q : SnerdQueue) (t : RetryableTask) (rest : List RetryableTask)
    → IsExclusive q
    → q.spawned ≡ t ∷ rest
    → contains t.task_id q.completed_tasks ≡ true
    → IsStuck t.task_id (begin_task t (record q { spawned = rest }))
unfolding begin_task
begin_completed-IsStuck q t rest h s c =
    let at = h.at t.task_id in
    let o : occ t.task_id q.spawned ≡ occ t.task_id (t ∷ rest) = ap (occ t.task_id) s in
    rw c (record {
      heaps = h.heaps;
      leaked = ground (arith, at.executing, o);
      none_waiting = ground (arith, at.queued, at.executing, at.apart, o);
      none_running = ground (arith, at.executing, o);
    })

take_head :
    (t : RetryableTask) (rest : List RetryableTask)
    → take_task t.task_id (t ∷ rest) ≡ some (t, rest)
unfolding take_task
take_head t rest = ground arith

begin_head :
    (q : SnerdQueue) (t : RetryableTask) (rest : List RetryableTask)
    → q.spawned ≡ t ∷ rest
    → IsStuck t.task_id (begin_task t (record q { spawned = rest }))
    → IsStuck t.task_id (begin t.task_id q)
unfolding begin begin_found
begin_head q t rest e h =
    let found : take_task t.task_id q.spawned ≡ some (t, rest) =
      ap (take_task t.task_id) e ∙ take_head t rest in
    rw found h

-- In an engine that has come about by any steps, an execution that begins for an id that has
-- completed and is not yet evicted leaves the id stuck: whatever happens after, sweeps included, the
-- id stays in executing_tasks, and no task with it is ever queued or executed again.
pub run-begin-IsStuck :
    (s : FileStore) (limits : LimitsFile) (before after : List Event) (t : RetryableTask)
    (rest : List RetryableTask)
    → (run (new s limits) before).spawned ≡ t ∷ rest
    → contains t.task_id (run (new s limits) before).completed_tasks ≡ true
    → IsStuck t.task_id (run (begin t.task_id (run (new s limits) before)) after)
run-begin-IsStuck s limits before after t rest sp c =
    let q = run (new s limits) before in
    run-IsStuck t.task_id _ after (
      begin_head q t rest sp (
        begin_completed-IsStuck q t rest
          (run-IsExclusive (new s limits) before (new-IsExclusive s limits)) sp c))
