-- ===== src/Queue/Pausing.antt =====
-- A paused engine of src/queue.rs: the tasks that it has queued before go on, and no others.
-- The heap entries, popped tasks and executions of an id.
use snerdmq.Task.Priority
use snerdmq.FileStore.{FileStore}
use snerdmq.RateLimiter.{LimitsFile}
use snerdmq.Queue.{mark, store_new, new}
use snerdmq.Queue.{enqueue, Set, save, register_handlers, dedupe, accept, SnerdQueue, Env, sweep}
use snerdmq.Task.{RetryableTask}
use snerdmq.Base.{
  All, ◌≡◌, Bool, inr, ◌≤◌, ◌∷◌, ap, ◌∙◌, Text, unwrap_or, ◌+◌, [], List, arith, refl, ℕ, inl, true,
}
use snerdmq.Map.{IsMap, get}
use snerdmq.Queue.Dispatch.{
  dispatch, settle_found, start, take_popped, settle, postpone, settle_task, heap_of,
  process_due_tasks,
}
use snerdmq.Queue.Settings.{step-settings_of}
use snerdmq.Queue.Exclusive.{
  occ_heaps-insert, running, waiting, occ-pick, take_task_cases, IsExclusive, occ,
}
use snerdmq.Queue.Execute.{
  begin_found, succeed, finish, finish_found, complete, finish_task, begin_task, drop_guard, fail,
  begin, store,
}
use snerdmq.Queue.Schedule.{
  saves_new, marks, queues, Event, pauses, run, finishes, settles, ticks, step, sweeps, dispatches,
  begins, compacts, registers, enqueues,
}
use snerdmq.Queue.Exclusive.Steps.{new-IsExclusive, step-IsExclusive, run-IsExclusive}
use snerdmq.Base.Result.{ok, Result, err}

abbrev pub places : Text → SnerdQueue → ℕ
places k q = waiting k q + running k q

pub step-paused : (q : SnerdQueue) (e : Event) → q.paused ≡ true → (step q e).paused ≡ true
unfolding register_handlers
step-paused q e p = elim (step-settings_of q e) [
  | inl same ↦ ap (λ (x : Set × Set × Bool). x.2) same ∙ p
  | inr (inl (t, r)) ↦ rw r p
  | inr (inr r) ↦ rw r refl
]

take_popped-places :
    (k pool : Text) (q : SnerdQueue) (hs : List RetryableTask)
    → heap_of pool q ≡ hs
    → IsMap q.shared_pqs
    → places k (take_popped pool (Priority.pop hs) q) ≤ places k q
unfolding take_popped Priority.pop
take_popped-places k pool q [] e h = omega arith
take_popped-places k pool q (t ∷ ts) e h =
    let same : occ k (unwrap_or (get pool q.shared_pqs) []) ≡ occ k (t ∷ ts) = ap (occ k) e in
    omega
      (arith, same, occ-pick k t ts, occ_heaps-insert k pool (Priority.pick t ts).1 q.shared_pqs h)

settle_task-places :
    (k : Text) (e : Env) (t : RetryableTask) (rest : List RetryableTask) (q : SnerdQueue)
    → occ k q.popped ≡ occ k (t ∷ rest)
    → places k (settle_task e t (record q { popped = rest })) ≤ places k q
unfolding settle_task start postpone
settle_task-places k e t rest q o = ground (arith, o)

begin_task-places :
    (k : Text) (t : RetryableTask) (rest : List RetryableTask) (q : SnerdQueue)
    → occ k q.spawned ≡ occ k (t ∷ rest)
    → places k (begin_task t (record q { spawned = rest })) ≤ places k q
unfolding begin_task drop_guard
begin_task-places k t rest q o = ground (arith, o)

finish_task-places :
    (k : Text) (e : Env) (r : Result (Unit {0}) Text) (t : RetryableTask)
    (rest : List RetryableTask) (q : SnerdQueue)
    → occ k q.active ≡ occ k (t ∷ rest)
    → places k (finish_task e r t (record q { active = rest })) ≤ places k q
unfolding finish_task succeed fail complete store drop_guard
finish_task-places k e (ok x) t rest q o = ground (arith, o)
finish_task-places k e (err x) t rest q o = ground (arith, o)

enqueue-places :
    (k : Text) (t : RetryableTask) (e : Env) (q : SnerdQueue)
    → places k (enqueue t e q).1 ≤ places k q
unfolding enqueue accept dedupe save
enqueue-places k t e q = ground arith

-- The step is not the queueing of a tick that has read its tasks before.
abbrev pub IsNoLateTick : Event → Type 0
IsNoLateTick (queues now ts) = ⊥
IsNoLateTick _ = Unit

step-places :
    (k : Text) (q : SnerdQueue) (e : Event)
    → IsMap q.shared_pqs
    → q.paused ≡ true
    → IsNoLateTick e
    → places k (step q e) ≤ places k q
unfolding step sweep register_handlers process_due_tasks dispatch settle settle_found begin
    begin_found finish finish_found mark store_new save
step-places k q (enqueues t e) h p f = enqueue-places k t e q
step-places k q (ticks e) h p f = rw p (omega arith)
step-places k q (sweeps e) h p f = omega arith
step-places k q (dispatches pool) h p f = take_popped-places k pool q (heap_of pool q) refl h
step-places k q (settles e id) h p f = elim (take_task_cases id q.popped) [
  | inl gone ↦ rw gone (omega arith)
  | inr (t, rest, found, o) ↦ rw found (settle_task-places k e t rest q (o k))
]
step-places k q (begins id) h p f = elim (take_task_cases id q.spawned) [
  | inl gone ↦ rw gone (omega arith)
  | inr (t, rest, found, o) ↦ rw found (begin_task-places k t rest q (o k))
]
step-places k q (finishes e id r) h p f = elim (take_task_cases id q.active) [
  | inl gone ↦ rw gone (omega arith)
  | inr (t, rest, found, o) ↦ rw found (finish_task-places k e r t rest q (o k))
]
step-places k q (compacts writable r) h p f = omega arith
step-places k q (registers task_type) h p f = omega arith
step-places k q pauses h p f = omega arith
step-places k q (queues now ts) h p f = absurd f
step-places k q (marks t) h p f = omega arith
step-places k q (saves_new t e) h p f = omega arith

run-places :
    (k : Text) (q : SnerdQueue) (es : List Event)
    → IsExclusive q
    → q.paused ≡ true
    → All IsNoLateTick es
    → places k (run q es) ≤ places k q
unfolding run
run-places k q [] h p f = omega arith
run-places k q (e ∷ es) h p f = omega (
  arith,
  run-places k (step q e) es (step-IsExclusive q e h) (step-paused q e p) f.1,
  step-places k q e h.heaps p f.0,
)

-- Once an engine is paused, and no tick that found it unpaused is still to queue what it has read: an
-- id has no more heap entries, popped tasks and executions than when it was paused, whatever else the
-- futures do after that. So no task is queued any more, a retry included, and a task whose enqueue found
-- the engine unpaused and goes on after the pause.
pub run-pauses-places :
    (s : FileStore) (limits : LimitsFile) (before after : List Event) (k : Text)
    → All IsNoLateTick after
    → places k (run (step (run (new s limits) before) pauses) after)
      ≤ places k (run (new s limits) before)
unfolding step
run-pauses-places s limits before after k f =
    let q = run (new s limits) before in
    run-places k (step q pauses) after
      (step-IsExclusive q pauses (run-IsExclusive (new s limits) before (new-IsExclusive s limits)))
      refl f
