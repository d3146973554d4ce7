-- ===== src/Queue/Settings.antt =====
-- The handlers of an engine of src/queue.rs and its flag `paused` through every step.
use snerdmq.FileStore.{read_tasks}
use snerdmq.Base.{Bool, true, if_ind}
use snerdmq.Task.{RetryableTask}
use snerdmq.Queue.{
  mark, store_new, sweep, register_handlers, enqueue, SnerdQueue, Env, Set, accept, dedupe, save,
}
use snerdmq.Base.{◌⊎◌, inl, inr, if◌then◌else◌, Text, List, refl, ℕ, [], ◌∷◌, ◌≡◌, ◌∙◌, arith}
use snerdmq.Queue.Dispatch.{
  queue_read, pool_of, is_due, after_queueing, process_due_tasks, start_dispatchers, take_popped,
  postpone, dispatch, queue_due, settle_task, start, settle_found, queue_task, start_dispatcher,
  settle,
}
use snerdmq.Queue.Execute.{
  store, begin, finish_task, succeed, finish_found, drop_guard, begin_found, fail, begin_task,
  complete, finish,
}
use snerdmq.Base.Result.{Result}
use snerdmq.Map.{keys, insert}
use snerdmq.Queue.Schedule.{
  marks, queues, saves_new, pauses, ticks, sweeps, dispatches, compacts, step, enqueues, settles,
  Event, begins, registers, finishes,
}

-- What an engine has set: its handlers, and whether it is paused.
abbrev pub settings_of : SnerdQueue → Set × Set × Bool
settings_of q = (q.task_handlers, q.max_retry_handlers, q.paused)

pub enqueue-settings_of :
    (t : RetryableTask) (e : Env) (q : SnerdQueue) → settings_of (enqueue t e q).1 ≡ settings_of q
unfolding enqueue accept dedupe save
enqueue-settings_of t e q = ground arith

queue_due-settings_of :
    (now : ℕ) (ts : List RetryableTask) (pools : Set) (q : SnerdQueue)
    → settings_of (queue_due now ts pools q).1 ≡ settings_of q
unfolding queue_due queue_task
queue_due-settings_of now [] pools q = refl
queue_due-settings_of now (t ∷ ts) pools q =
    queue_due-settings_of now ts (if is_due now t q then insert (pool_of t) tt pools else pools)
      (if is_due now t q then queue_task t q else q)
    ∙ ground arith

start_dispatchers-settings_of :
    (ps : List Text) (q : SnerdQueue) → settings_of (start_dispatchers ps q) ≡ settings_of q
unfolding start_dispatchers start_dispatcher
start_dispatchers-settings_of [] q = refl
start_dispatchers-settings_of (p ∷ ps) q =
    start_dispatchers-settings_of ps (start_dispatcher p q) ∙ ground arith

queue_read-settings_of :
    (now : ℕ) (ts : List RetryableTask) (q : SnerdQueue)
    → settings_of (queue_read now ts q) ≡ settings_of q
unfolding after_queueing
queue_read-settings_of now ts q =
    let (pools, q') = queue_due now ts [] q in
    start_dispatchers-settings_of (keys pools) q' ∙ queue_due-settings_of now ts [] q

process_due_tasks-settings_of :
    (e : Env) (q : SnerdQueue) → settings_of (process_due_tasks e q) ≡ settings_of q
unfolding process_due_tasks
process_due_tasks-settings_of e q =
    if_ind (λ x. settings_of x ≡ settings_of q) q.paused (λ p. refl)
      (λ p. queue_read-settings_of e.now (read_tasks q.file_store) q)

dispatch-settings_of :
    (pool : Text) (q : SnerdQueue) → settings_of (dispatch pool q) ≡ settings_of q
unfolding dispatch take_popped
dispatch-settings_of pool q = ground arith

settle-settings_of :
    (e : Env) (id : Text) (q : SnerdQueue) → settings_of (settle e id q) ≡ settings_of q
unfolding settle settle_found settle_task postpone start
settle-settings_of e id q = ground arith

begin-settings_of : (id : Text) (q : SnerdQueue) → settings_of (begin id q) ≡ settings_of q
unfolding begin begin_found begin_task drop_guard
begin-settings_of id q = ground arith

finish-settings_of :
    (e : Env) (id : Text) (r : Result (Unit {0}) Text) (q : SnerdQueue)
    → settings_of (finish e id r q) ≡ settings_of q
unfolding finish finish_found finish_task succeed fail complete store drop_guard
finish-settings_of e id r q = ground arith

-- No step changes the settings of an engine but a registration, which adds handlers, and a pause.
pub step-settings_of :
    (q : SnerdQueue) (e : Event)
    → (settings_of (step q e) ≡ settings_of q)
      ⊎ ((task_type : Text) × (step q e ≡ register_handlers task_type q))
      ⊎ (step q e ≡ record q { paused = true })
unfolding step sweep mark store_new save
step-settings_of q (enqueues t e) = inl (enqueue-settings_of t e q)
step-settings_of q (ticks e) = inl (process_due_tasks-settings_of e q)
step-settings_of q (sweeps e) = inl refl
step-settings_of q (dispatches pool) = inl (dispatch-settings_of pool q)
step-settings_of q (settles e id) = inl (settle-settings_of e id q)
step-settings_of q (begins id) = inl (begin-settings_of id q)
step-settings_of q (finishes e id r) = inl (finish-settings_of e id r q)
step-settings_of q (compacts writable r) = inl refl
step-settings_of q (registers task_type) = inr (inl (task_type, refl))
step-settings_of q pauses = inr (inr refl)
step-settings_of q (queues now ts) = inl (queue_read-settings_of now ts q)
step-settings_of q (marks t) = inl refl
step-settings_of q (saves_new t e) = inl refl
