-- ===== src/Queue/Exclusive/Steps.antt =====
-- The places of an id through the steps of src/queue.rs that take a task from one future to the next.
use snerdmq.Task.{RetryableTask}
use snerdmq.RateLimiter.{LimitsFile}
use snerdmq.Base.{◌+◌, refl, ◌≤◌, [], inr, inl, List, ◌≡◌, arith, if_ind, ◌∷◌, Text, ◌||◌, is_some}
use snerdmq.Map.{get, IsMap, contains-insert, contains-remove, contains}
use snerdmq.Queue.{
  mark, store_new, register_handlers, enqueue, accept, save, sweep, dedupe, SnerdQueue, Env,
}
use snerdmq.Queue.Dispatch.{settle_found, rate_check, settle_task, settle, start, postpone}
use snerdmq.Queue.Exclusive.{
  queue_read-IsExclusive, running, one_if, dispatch-IsExclusive, SameTasks-IsExclusive, waiting,
  process_due_tasks-IsExclusive, IsExclusive, SameTasks, take_task_cases, occ, At,
}
use snerdmq.Queue.Execute.{
  finish_found, finish, complete, begin_found, fail, store, begin, finish_task, succeed, drop_guard,
  begin_task,
}
use snerdmq.Base.Result.{err, Result, ok}
use snerdmq.Queue.{new}
use snerdmq.FileStore.{FileStore}
use snerdmq.Queue.Schedule.{
  queues, step, Event, settles, finishes, ticks, sweeps, enqueues, begins, run, dispatches,
}

module _ (k : Text) (q : SnerdQueue) (t : RetryableTask) (rest : List RetryableTask)
    (h : At k q) where
  start-At :
      (file : LimitsFile)
      → occ k q.popped ≡ occ k (t ∷ rest)
      → At t.task_id q
      → occ t.task_id q.popped ≡ occ t.task_id (t ∷ rest)
      → At k (start t (record q { popped = rest; limits = file }))
  unfolding start
  start-At file o h' o' = ground (
    arith,
    h.queued,
    h.executing,
    h.apart,
    h'.queued,
    h'.apart,
    contains-insert t.task_id k tt q.executing_tasks,
    contains-remove t.task_id k q.queued_tasks,
  )

  postpone-At :
      (e : Env) (file : LimitsFile)
      → occ k q.popped ≡ occ k (t ∷ rest)
      → At k (postpone e t (record q { popped = rest; limits = file }))
  unfolding postpone
  postpone-At e file o =
      ground (arith, h.queued, h.executing, h.apart, contains-remove t.task_id k q.queued_tasks)

  -- The id leaves `executing_tasks`, and its task the executions.
  drop_spawned-At :
      occ k q.spawned ≡ occ k (t ∷ rest) → At k (drop_guard t.task_id (record q { spawned = rest }))
  unfolding drop_guard
  drop_spawned-At o =
      ground (arith, h.queued, h.executing, h.apart, contains-remove t.task_id k q.executing_tasks)

  drop_active-At :
      occ k q.active ≡ occ k (t ∷ rest) → At k (drop_guard t.task_id (record q { active = rest }))
  unfolding drop_guard
  drop_active-At o =
      ground (arith, h.queued, h.executing, h.apart, contains-remove t.task_id k q.executing_tasks)

  begin_task-At :
      occ k q.spawned ≡ occ k (t ∷ rest) → At k (begin_task t (record q { spawned = rest }))
  unfolding begin_task
  begin_task-At o =
      if_ind (At k) (contains t.task_id q.completed_tasks)
        (λ _. record {
          queued = h.queued;
          executing = omega (arith, h.executing, o);
          apart = h.apart;
        })
        (λ _.
          if_ind (At k) (is_some t.webhook_url || contains t.task_type q.task_handlers)
            (λ _. record {
              queued = h.queued;
              executing = omega (arith, h.executing, o);
              apart = h.apart;
            })
            (λ _. drop_spawned-At o))

settle_task-IsExclusive :
    (e : Env) (t : RetryableTask) (rest : List RetryableTask) (q : SnerdQueue)
    → ((k : Text) → occ k q.popped ≡ occ k (t ∷ rest))
    → IsExclusive q
    → IsExclusive (settle_task e t (record q { popped = rest }))
unfolding settle_task
settle_task-IsExclusive e t rest q o h =
    let file = (rate_check e t q.limits).1 in
    if_ind IsExclusive (rate_check e t q.limits).0
      (λ _. record {
        heaps =
            if_ind (λ (x : SnerdQueue). IsMap x.shared_pqs) (contains t.task_id q.executing_tasks)
              (λ _. h.heaps) (λ _. h.heaps);
        at = λ k. start-At k q t rest (h.at k) file (o k) (h.at t.task_id) (o t.task_id);
      })
      (λ _. record { heaps = h.heaps; at = λ k. postpone-At k q t rest (h.at k) e file (o k) })

settle-IsExclusive :
    (e : Env) (id : Text) (q : SnerdQueue) → IsExclusive q → IsExclusive (settle e id q)
unfolding settle settle_found
settle-IsExclusive e id q h = elim (take_task_cases id q.popped) [
  | inl none_found ↦ rw none_found h
  | inr (t, rest, found, o) ↦ rw found (settle_task-IsExclusive e t rest q o h)
]

begin_task-heaps :
    (t : RetryableTask) (q : SnerdQueue) (rest : List RetryableTask)
    → IsMap q.shared_pqs
    → IsMap (begin_task t (record q { spawned = rest })).shared_pqs
unfolding begin_task drop_guard
begin_task-heaps t q rest h =
    if_ind (λ (x : SnerdQueue). IsMap x.shared_pqs) (contains t.task_id q.completed_tasks) (λ _. h)
      (λ _.
        if_ind (λ (x : SnerdQueue). IsMap x.shared_pqs)
          (is_some t.webhook_url || contains t.task_type q.task_handlers) (λ _. h) (λ _. h))

begin-IsExclusive : (id : Text) (q : SnerdQueue) → IsExclusive q → IsExclusive (begin id q)
unfolding begin begin_found
begin-IsExclusive id q h = elim (take_task_cases id q.spawned) [
  | inl none_found ↦ rw none_found h
  | inr (t, rest, found, o) ↦ rw found (record {
    heaps = begin_task-heaps t q rest h.heaps;
    at = λ k. begin_task-At k q t rest (h.at k) (o k);
  })
]

pub finish_task-SameTasks :
    (e : Env) (r : Result (Unit {0}) Text) (t : RetryableTask) (q : SnerdQueue)
    → SameTasks (drop_guard t.task_id q) (finish_task e r t q)
unfolding finish_task succeed fail complete store drop_guard
finish_task-SameTasks e (ok _) t q = ground arith
finish_task-SameTasks e (err m) t q = ground arith

finish-IsExclusive :
    (e : Env) (id : Text) (r : Result (Unit {0}) Text) (q : SnerdQueue)
    → IsExclusive q
    → IsExclusive (finish e id r q)
unfolding finish finish_found
finish-IsExclusive e id r q h = elim (take_task_cases id q.active) [
  | inl none_found ↦ rw none_found h
  | inr (t, rest, found, o) ↦ rw found (
      SameTasks-IsExclusive _ _ (finish_task-SameTasks e r t (record q { active = rest }))
        (record { heaps = h.heaps; at = λ k. drop_active-At k q t rest (h.at k) (o k) }))
]

pub enqueue-SameTasks :
    (t : RetryableTask) (e : Env) (q : SnerdQueue) → SameTasks q (enqueue t e q).1
unfolding enqueue dedupe accept save
enqueue-SameTasks t e q = ground arith

pub step-IsExclusive : (q : SnerdQueue) (e : Event) → IsExclusive q → IsExclusive (step q e)
unfolding step sweep register_handlers mark store_new save
step-IsExclusive q (enqueues t e) h = SameTasks-IsExclusive q _ (enqueue-SameTasks t e q) h
step-IsExclusive q (ticks e) h = process_due_tasks-IsExclusive e q h
step-IsExclusive q (sweeps e) h = record {
  heaps = h.heaps;
  at = λ k. record {
    queued = (h.at k).queued;
    executing = (h.at k).executing;
    apart = (h.at k).apart;
  };
}
step-IsExclusive q (dispatches pool) h = dispatch-IsExclusive pool q h
step-IsExclusive q (settles e id) h = settle-IsExclusive e id q h
step-IsExclusive q (begins id) h = begin-IsExclusive id q h
step-IsExclusive q (finishes e id r) h = finish-IsExclusive e id r q h
step-IsExclusive q (queues now ts) h = queue_read-IsExclusive now ts q h
step-IsExclusive q _ h = SameTasks-IsExclusive q _ (refl, refl, refl, refl, refl, refl) h

pub run-IsExclusive : (q : SnerdQueue) (es : List Event) → IsExclusive q → IsExclusive (run q es)
unfolding run
run-IsExclusive q [] h = h
run-IsExclusive q (e ∷ es) h = run-IsExclusive (step q e) es (step-IsExclusive q e h)

pub new-IsExclusive : (s : FileStore) (limits : LimitsFile) → IsExclusive (new s limits)
unfolding new contains get
new-IsExclusive s limits = record { heaps = tt; at = λ k. omega arith }

-- After any steps of the futures of a new engine, in any order: a task id is in at most one heap
-- entry or popped task and in at most one execution, never in both, and then it is marked queued or
-- executing. So no id is ever executed twice at the same time.
pub run-new-IsExclusive :
    (s : FileStore) (limits : LimitsFile) (es : List Event) (k : Text)
    → (waiting k (run (new s limits) es) + running k (run (new s limits) es) ≤ 1)
      × (waiting k (run (new s limits) es)
          ≤ one_if (contains k (run (new s limits) es).queued_tasks))
      × (running k (run (new s limits) es)
          ≤ one_if (contains k (run (new s limits) es).executing_tasks))
run-new-IsExclusive s limits es k =
    let h = (run-IsExclusive (new s limits) es (new-IsExclusive s limits)).at k in
    (omega (arith, h.queued, h.executing, h.apart), h.queued, h.executing)
