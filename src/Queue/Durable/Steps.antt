-- ===== src/Queue/Durable/Steps.antt =====
-- Every step of an engine of src/queue.rs, by what it does to the file store.
use snerdmq.Task.{update_retry_config, RetryableTask}
use snerdmq.FileStore.{unsynced}
use snerdmq.Base.{
  sym, arith, ◌+◌, ◌∙◌, ◌∷◌, [], some, All, Option, ℕ, List, ◌≢◌, ◌≡◌, refl, if_ind, inl,
  Option-cases, Text, inr,
}
use snerdmq.Map.{contains}
use snerdmq.Queue.{mark, sweep, SnerdQueue, Env, register_handlers}
use snerdmq.Queue.Dispatch.{
  queue_read, settle_found, rate_check, settle_task, heap_of, settle, postpone, dispatch, start,
}
use snerdmq.Queue.Durable.{untouched, IsLive, Touches-kept, saves, deletes, rewrites, Stores}
use snerdmq.Task.Priority
use snerdmq.Queue.Dispatch.{take_popped, process_due_tasks}
use snerdmq.External.{External}
use snerdmq.Queue.Execute.{
  begin_task, begin, complete, begin_found, store, finish_found, finish, rescheduled, drop_guard,
  finish_task, fail, may_retry, next_tick, succeed,
}
use snerdmq.Queue.Schedule.{
  queues, saves_new, marks, settles, finishes, ticks, dispatches, step, compacts, registers, Event,
  sweeps, pauses, enqueues, run, begins,
}
use snerdmq.Queue.Durable.Live.{
  queue_read-Queued, store_new-Kept, SameQueued, IsLiveQueue, same_live, Kept, unwritten,
  take_task_from, process_due_tasks-Queued, take_popped-Queued, enqueue-Kept, IsDurable,
}
use snerdmq.Base.Result.{err, Result, ok}
use snerdmq.FileStore.Replay.{IsSynced}

start-Kept : (k : Text) (t : RetryableTask) (q : SnerdQueue) → IsLiveQueue q → Kept k q (start t q)
unfolding start
start-Kept k t q h =
    if_ind (Kept k q) (contains t.task_id q.executing_tasks)
      (λ _. (same_live q _ (refl, refl) h, untouched))
      (λ _. (same_live q _ (refl, refl) h, untouched))

postpone-Kept :
    (k : Text) (e : Env) (t : RetryableTask) (q : SnerdQueue)
    → e.append ≢ unsynced
    → IsLive t
    → IsLiveQueue q
    → Kept k q (postpone e t q)
unfolding postpone
postpone-Kept k e t q n l h = (
  same_live q _ (refl, refl) h,
  saves (record t { retry_after_time = e.now + 60_000_000_000 }) e.append e.len n (inl l),
)

settle_task-Kept :
    (k : Text) (e : Env) (t : RetryableTask) (q : SnerdQueue)
    → e.append ≢ unsynced
    → IsLive t
    → IsLiveQueue q
    → Kept k q (settle_task e t q)
unfolding settle_task
settle_task-Kept k e t q n l h =
    let (allowed, file) = rate_check e t q.limits in
    let h' : IsLiveQueue (record q { limits = file }) = same_live q _ (refl, refl) h in
    if_ind (Kept k q) allowed (λ _. start-Kept k t (record q { limits = file }) h')
      (λ _. postpone-Kept k e t (record q { limits = file }) n l h')

settle-Kept :
    (k : Text) (e : Env) (id : Text) (q : SnerdQueue)
    → e.append ≢ unsynced
    → IsLiveQueue q
    → Kept k q (settle e id q)
unfolding settle settle_found
settle-Kept k e id q n h = elim (take_task_from IsLive id q.popped h.popped) [
  | inl none_left ↦ rw none_left (h, untouched)
  | inr (t, rest, found, i, l, ls) ↦ rw found (
      settle_task-Kept k e t (record q { popped = rest }) n l
        (record { heaps = h.heaps; popped = ls }))
]

begin-Kept : (k id : Text) (q : SnerdQueue) → IsLiveQueue q → Kept k q (begin id q)
unfolding begin begin_found begin_task drop_guard
begin-Kept k id q h =
    let queued : SameQueued q (begin id q) = (ground arith, ground arith) in
    let same : (begin id q).file_store ≡ q.file_store = ground arith in
    (same_live q (begin id q) queued h, unwritten k q (begin id q) same)

-- The end of an execution of another id, as far as the store goes.
complete-Kept :
    (k : Text) (e : Env) (t : RetryableTask) (q : SnerdQueue)
    → e.append ≢ unsynced
    → t.task_id ≢ k
    → IsLiveQueue q
    → Kept k q (complete e t q)
unfolding complete
complete-Kept k e t q n m h =
    (same_live q _ (refl, refl) h, deletes e.now e.later t.task_id e.append e.len n m)

store-Kept :
    (k : Text) (e : Env) (t : RetryableTask) (q : SnerdQueue)
    → e.append ≢ unsynced
    → t.task_id ≢ k
    → IsLiveQueue q
    → Kept k q (store t e q)
unfolding store
store-Kept k e t q n m h = (same_live q _ (refl, refl) h, saves t e.append e.len n (inr m))

succeed-Kept :
    (k : Text) (e : Env) (t : RetryableTask) (q : SnerdQueue)
    → e.append ≢ unsynced
    → t.task_id ≢ k
    → IsLiveQueue q
    → Kept k q (succeed e t q)
unfolding succeed
succeed-Kept k e t q n m h = elim (Option-cases (next_tick e t)) [
  | inl last ↦ rw (succeed, last) (complete-Kept k e t q n m h)
  | inr (next, again) ↦
      rw (succeed, again) (store-Kept k e (rescheduled next t) q n (unfold rescheduled in m) h)
]

retry_id :
    (ext : External) (now later : ℕ) (message : Option Text) (t t' : RetryableTask)
    → update_retry_config ext now later message t ≡ some t'
    → t'.task_id ≡ t.task_id
unfolding update_retry_config
retry_id ext now later message t t' e = ground arith

fail-Kept :
    (k : Text) (e : Env) (message : Text) (t : RetryableTask) (q : SnerdQueue)
    → e.append ≢ unsynced
    → t.task_id ≢ k
    → IsLiveQueue q
    → Kept k q (fail e message t q)
unfolding fail
fail-Kept k e message t q n m h =
    if_ind (Kept k q) (may_retry t)
      (λ _. elim (Option-cases (update_retry_config e.ext e.now e.later (some message) t)) [
        | inl panics ↦ rw panics (h, untouched)
        | inr (t', again) ↦ rw again (
            store-Kept k e t' q n
              (λ x. m (sym (retry_id e.ext e.now e.later (some message) t t' again) ∙ x)) h)
      ])
      (λ _. complete-Kept k e t q n m h)

drop_guard-Kept : (k id : Text) (q q' : SnerdQueue) → Kept k q q' → Kept k q (drop_guard id q')
unfolding drop_guard
drop_guard-Kept k id q q' (h, s) = (same_live q' _ (refl, refl) h, s)

finish_task-Kept :
    (k : Text) (e : Env) (r : Result (Unit {0}) Text) (t : RetryableTask) (q : SnerdQueue)
    → e.append ≢ unsynced
    → t.task_id ≢ k
    → IsLiveQueue q
    → Kept k q (finish_task e r t q)
unfolding finish_task
finish_task-Kept k e (ok x) t q n m h =
    drop_guard-Kept k t.task_id q (succeed e t q) (succeed-Kept k e t q n m h)
finish_task-Kept k e (err message) t q n m h =
    drop_guard-Kept k t.task_id q (fail e message t q) (fail-Kept k e message t q n m h)

every_task : (ts : List RetryableTask) → All (λ (t : RetryableTask). Unit {0}) ts
every_task [] = tt
every_task (t ∷ ts) = (tt, every_task ts)

finish-Kept :
    (k : Text) (e : Env) (id : Text) (r : Result (Unit {0}) Text) (q : SnerdQueue)
    → e.append ≢ unsynced
    → id ≢ k
    → IsLiveQueue q
    → Kept k q (finish e id r q)
unfolding finish finish_found
finish-Kept k e id r q n m h = elim (take_task_from (λ t. Unit) id q.active (every_task q.active)) [
  | inl none_left ↦ rw none_left (h, untouched)
  | inr (t, rest, found, i, l, ls) ↦ rw found (
      finish_task-Kept k e r t (record q { active = rest }) n (λ x. m (sym i ∙ x))
        (same_live q _ (refl, refl) h))
]

pub step-Kept :
    (k : Text) (q : SnerdQueue) (v : Event) → IsDurable k v → IsLiveQueue q → Kept k q (step q v)
unfolding step dispatch sweep register_handlers mark
step-Kept k q (enqueues t e) d h = enqueue-Kept k t e q d h
step-Kept k q (ticks e) d h =
    let (a, b) = process_due_tasks-Queued e q h in (a, unwritten k q (process_due_tasks e q) b)
step-Kept k q (queues now ts) d h =
    let (a, b) = queue_read-Queued now ts q h in (a, unwritten k q (queue_read now ts q) b)
step-Kept k q (marks t) d h = (same_live q _ (refl, refl) h, untouched)
step-Kept k q (saves_new t e) d h = store_new-Kept k t e q d h
step-Kept k q (sweeps e) d h = (same_live q _ (refl, refl) h, untouched)
step-Kept k q (dispatches pool) d h =
    let (a, b) = take_popped-Queued pool (heap_of pool q) q (h.heaps pool) h in
    (a, unwritten k q (take_popped pool (Priority.pop (heap_of pool q)) q) b)
step-Kept k q (settles e id) d h = settle-Kept k e id q d h
step-Kept k q (begins id) d h = begin-Kept k id q h
step-Kept k q (finishes e id r) d h = finish-Kept k e id r q d.0 d.1 h
step-Kept k q (compacts writable r) d h = (same_live q _ (refl, refl) h, rewrites writable r d)
step-Kept k q (registers task_type) d h = (same_live q _ (refl, refl) h, untouched)
step-Kept k q pauses d h = (same_live q _ (refl, refl) h, untouched)

-- The engine's tasks are live, and its store is synced.
abbrev pub IsSound : SnerdQueue → Type 0
IsSound q = IsLiveQueue q × IsSynced q.file_store

pub run-Kept :
    (k : Text) (q : SnerdQueue) (vs : List Event)
    → All (IsDurable k) vs
    → IsSound q
    → IsSound (run q vs) × (Stores k q.file_store → Stores k (run q vs).file_store)
unfolding run
run-Kept k q [] d h = (h, λ x. x)
run-Kept k q (v ∷ vs) d h =
    let (live, touches) = step-Kept k q v d.0 h.0 in
    let (synced, stores) = Touches-kept k q.file_store (step q v).file_store touches h.1 in
    let (sound, kept) = run-Kept k (step q v) vs d.1 (live, synced) in (sound, λ x. kept (stores x))
