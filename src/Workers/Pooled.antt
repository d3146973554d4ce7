-- ===== src/Workers/Pooled.antt =====
-- The heaps of an engine of src/queue.rs have the tasks of their own pools.
use snerdmq.Task.Priority
use snerdmq.Task.{RetryableTask}
use snerdmq.Base.{
  sym, subst, if_ind, unwrap_or, ◌∷◌, ◌≡◌, [], text_dec, ltb, arith, Option, none, ℕ, some, refl,
  All, List, Text,
}
use snerdmq.Map.{get-insert_ne, insert, get, keys, Map, get-insert_self}
use snerdmq.Workers.{WorkerPoolManager, semaphore_of, available, work}
use snerdmq.Queue.{store_new, save, mark, sweep, Env, register_handlers, Set, SnerdQueue, enqueue}
use snerdmq.FileStore.{read_tasks}
use snerdmq.Queue.Dispatch.{
  queue_read, start_dispatchers, queue_due, take_popped, is_due, start, after_queueing,
  process_due_tasks, settle_task, heap_of, settle, take_task, settle_found, postpone, queue_task,
  pool_of, dispatch,
}
use snerdmq.Queue.Exclusive.{start_dispatchers-SameTasks}
use snerdmq.Queue.Execute.{begin, finish, drop_guard, begin_task, begin_found, finish_found}
use snerdmq.Queue.Schedule.{
  queues, marks, saves_new, registers, sweeps, compacts, begins, settles, dispatches, pauses, Event,
  finishes, step, enqueues, ticks,
}
use snerdmq.Queue.Exclusive.Steps.{enqueue-SameTasks, finish_task-SameTasks}
use snerdmq.Base.Result.{Result}
use snerdmq.Workers.Held.{IsPooled, pick-All}

SameHeaps-IsPooled : (q r : SnerdQueue) → r.shared_pqs ≡ q.shared_pqs → IsPooled q → IsPooled r
SameHeaps-IsPooled q r e h pool =
    subst (λ m. All (λ t. pool_of t ≡ pool) (unwrap_or (get pool m) [])) (sym e) (h pool)

-- An insertion that keeps the pools of one heap keeps all.
inserted-IsPooled :
    (q r : SnerdQueue) (pool : Text) (ts : List RetryableTask)
    → r.shared_pqs ≡ insert pool ts q.shared_pqs
    → All (λ t. pool_of t ≡ pool) ts
    → IsPooled q
    → IsPooled r
inserted-IsPooled q r pool ts e h hq j = elim (text_dec pool j) [
  | yes p ↦
      subst (λ m. All (λ t. pool_of t ≡ j) (unwrap_or (get j m) [])) (sym e)
        (subst (λ k. All (λ t. pool_of t ≡ k) (unwrap_or (get k (insert pool ts q.shared_pqs)) []))
          p (rw (get-insert_self pool ts q.shared_pqs) h))
  | no n ↦
      subst (λ m. All (λ t. pool_of t ≡ j) (unwrap_or (get j m) [])) (sym e)
        (rw (get-insert_ne pool j ts q.shared_pqs n) (hq j))
]

queue_due-IsPooled :
    (now : ℕ) (ts : List RetryableTask) (pools : Set) (q : SnerdQueue)
    → IsPooled q
    → IsPooled (queue_due now ts pools q).1
unfolding queue_due
queue_due-IsPooled now [] pools q h = h
queue_due-IsPooled now (t ∷ ts) pools q h = queue_due-IsPooled now ts _ _ (
    if_ind IsPooled (is_due now t q)
      (λ _.
        inserted-IsPooled q (queue_task t q) (pool_of t) (t ∷ heap_of (pool_of t) q)
          (unfold queue_task in refl) (refl, h (pool_of t)) h)
      (λ _. h))

queue_read-IsPooled :
    (now : ℕ) (ts : List RetryableTask) (q : SnerdQueue)
    → IsPooled q
    → IsPooled (queue_read now ts q)
unfolding after_queueing
queue_read-IsPooled now ts q h =
    let r = queue_due now ts [] q in
    SameHeaps-IsPooled r.1 (start_dispatchers (keys r.0) r.1)
      (start_dispatchers-SameTasks (keys r.0) r.1 r.1 (refl, refl, refl, refl, refl, refl)).0
      (queue_due-IsPooled now ts [] q h)

process_due_tasks-IsPooled :
    (e : Env) (q : SnerdQueue) → IsPooled q → IsPooled (process_due_tasks e q)
unfolding process_due_tasks
process_due_tasks-IsPooled e q h =
    if_ind IsPooled q.paused (λ _. h) (λ _. queue_read-IsPooled e.now (read_tasks q.file_store) q h)

take_popped-IsPooled :
    (pool : Text) (q : SnerdQueue) (hs : List RetryableTask)
    → heap_of pool q ≡ hs
    → IsPooled q
    → IsPooled (take_popped pool (Priority.pop hs) q)
unfolding take_popped Priority.pop
take_popped-IsPooled pool q [] e h = h
take_popped-IsPooled pool q (t ∷ ts) e h =
    let own = subst (All (λ u. pool_of u ≡ pool)) e (h pool) in
    inserted-IsPooled q (take_popped pool (some (Priority.pick t ts)) q) pool (Priority.pick t ts).1
      refl (pick-All (λ u. pool_of u ≡ pool) t ts own.0 own.1).1 h

settle-heaps : (e : Env) (id : Text) (q : SnerdQueue) → (settle e id q).shared_pqs ≡ q.shared_pqs
unfolding settle settle_found settle_task start postpone
settle-heaps e id q = ground arith

begin-heaps : (id : Text) (q : SnerdQueue) → (begin id q).shared_pqs ≡ q.shared_pqs
unfolding begin begin_found begin_task drop_guard
begin-heaps id q = ground arith

finish_found-heaps :
    (e : Env) (r : Result (Unit {0}) Text) (o : Option (RetryableTask × List RetryableTask))
    (q : SnerdQueue)
    → (finish_found e r o q).shared_pqs ≡ q.shared_pqs
unfolding finish_found drop_guard
finish_found-heaps e r none q = refl
finish_found-heaps e r (some (t, rest)) q =
    (finish_task-SameTasks e r t (record q { active = rest })).0

pub step-IsPooled : (e : Event) (q : SnerdQueue) → IsPooled q → IsPooled (step q e)
unfolding step sweep register_handlers dispatch finish mark store_new save
step-IsPooled (dispatches pool) q h = take_popped-IsPooled pool q (heap_of pool q) refl h
step-IsPooled (settles e id) q h = SameHeaps-IsPooled q (settle e id q) (settle-heaps e id q) h
step-IsPooled (begins id) q h = SameHeaps-IsPooled q (begin id q) (begin-heaps id q) h
step-IsPooled (finishes e id r) q h =
    SameHeaps-IsPooled q (finish_found e r (take_task id q.active) q)
      (finish_found-heaps e r (take_task id q.active) q) h
step-IsPooled (enqueues t e) q h =
    SameHeaps-IsPooled q (enqueue t e q).1 (enqueue-SameTasks t e q).0 h
step-IsPooled (ticks e) q h = process_due_tasks-IsPooled e q h
step-IsPooled (sweeps e) q h = h
step-IsPooled (compacts writable r) q h = h
step-IsPooled (registers task_type) q h = h
step-IsPooled pauses q h = h
step-IsPooled (queues now ts) q h = queue_read-IsPooled now ts q h
step-IsPooled (marks t) q h = h
step-IsPooled (saves_new t e) q h = h

-- A step that waits for a permit changes nothing.
pub work-IsPooled :
    (w : WorkerPoolManager) (e : Event) (q : SnerdQueue) (p : Map ℕ)
    → IsPooled q
    → IsPooled (work w e (q, p)).0
unfolding work
work-IsPooled w (dispatches pool) q p h =
    if_ind {A = SnerdQueue × Map ℕ} (λ x. IsPooled x.0) (ltb 0 (available (semaphore_of w pool) p))
      (λ _. unfold step in step-IsPooled (dispatches pool) q h) (λ _. h)
work-IsPooled w (settles e id) q p h = unfold step in step-IsPooled (settles e id) q h
work-IsPooled w (begins id) q p h = unfold step in step-IsPooled (begins id) q h
work-IsPooled w (finishes e id r) q p h = unfold step in step-IsPooled (finishes e id r) q h
work-IsPooled w (enqueues t e) q p h = step-IsPooled (enqueues t e) q h
work-IsPooled w (ticks e) q p h = step-IsPooled (ticks e) q h
work-IsPooled w (sweeps e) q p h = step-IsPooled (sweeps e) q h
work-IsPooled w (compacts writable r) q p h = step-IsPooled (compacts writable r) q h
work-IsPooled w (registers task_type) q p h = step-IsPooled (registers task_type) q h
work-IsPooled w pauses q p h = step-IsPooled pauses q h
work-IsPooled w (queues now ts) q p h = step-IsPooled (queues now ts) q h
work-IsPooled w (marks t) q p h = step-IsPooled (marks t) q h
work-IsPooled w (saves_new t e) q p h = step-IsPooled (saves_new t e) q h
