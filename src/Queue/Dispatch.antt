-- ===== src/Queue/Dispatch.antt =====
-- process_due_tasks and spawn_dispatcher of src/queue.rs.
use mathlib.Core.Option
use snerdmq.Task.Priority
use snerdmq.Task.{RetryableTask}
use snerdmq.RateLimiter.{check_and_increment, LimitsFile}
use snerdmq.Base.{
  if◌then◌else◌, ◌+◌, List, ◌-◌, true, not, some, unwrap_or, ltb, leb, none, Option, text_dec, Bool,
  codes, is_none, Text, length, ◌&&◌, ◌∷◌, [], false, ite, ℕ,
}
use snerdmq.Map.{insert, contains, keys, get, remove}
use snerdmq.Queue.{SnerdQueue, Env, Set}
use snerdmq.FileStore.{read_tasks, save_task}
use snerdmq.Base.Result.{err, ok}

abbrev pub default_pool : Text
default_pool = codes "default"

unfoldable pub is_due : ℕ → RetryableTask → SnerdQueue → Bool
is_due now t q =
    leb t.execute_at now
    && leb t.retry_after_time now
    && is_none t.deleted_at
    && not (contains t.task_id q.executing_tasks)
    && not (contains t.task_id q.queued_tasks)

abbrev pub pool_of : RetryableTask → Text
pool_of t = unwrap_or t.pool default_pool

abbrev pub heap_of : Text → SnerdQueue → List RetryableTask
heap_of pool q = unwrap_or (get pool q.shared_pqs) []

-- The task goes to the heap of its pool.
unfoldable pub queue_task : RetryableTask → SnerdQueue → SnerdQueue
queue_task t q = record q {
  queued_tasks = insert t.task_id tt q.queued_tasks;
  shared_pqs = insert (pool_of t) (t ∷ heap_of (pool_of t) q) q.shared_pqs;
}

-- The loop over the tasks, with the pools that got one.
unfoldable pub queue_due : ℕ → List RetryableTask → Set → SnerdQueue → Set × SnerdQueue
unfolding is_due queue_task
queue_due now [] pools q = (pools, q)
queue_due now (t ∷ ts) pools q =
    let due = is_due now t q in
    queue_due now ts (if due then insert (pool_of t) tt pools else pools)
      (if due then queue_task t q else q)

unfoldable pub count_of : Text → SnerdQueue → ℕ
count_of pool q = unwrap_or (get pool q.dispatcher_counts) 0

-- A pool with tasks gets a dispatcher unless it has two.
unfoldable pub start_dispatcher : Text → SnerdQueue → SnerdQueue
unfolding count_of
start_dispatcher pool q =
    if ltb 0 (length (heap_of pool q)) && ltb (count_of pool q) 2
    then record q { dispatcher_counts = insert pool (count_of pool q + 1) q.dispatcher_counts }
    else q

unfoldable pub start_dispatchers : List Text → SnerdQueue → SnerdQueue
unfolding start_dispatcher
start_dispatchers [] q = q
start_dispatchers (p ∷ ps) q = start_dispatchers ps (start_dispatcher p q)

unfoldable pub after_queueing : Set × SnerdQueue → SnerdQueue
unfolding start_dispatchers
after_queueing (pools, q) = start_dispatchers (keys pools) q

-- The part of a tick that holds the locks, on the tasks that it has read before, and the start of the
-- dispatchers.
abbrev pub queue_read : ℕ → List RetryableTask → SnerdQueue → SnerdQueue
queue_read now ts q = after_queueing (queue_due now ts [] q)

-- A tick during which nothing else happens.
unfoldable pub process_due_tasks : Env → SnerdQueue → SnerdQueue
unfolding queue_due after_queueing
process_due_tasks e q = if q.paused then q else queue_read e.now (read_tasks q.file_store) q

unfoldable pub take_popped :
    Text → Option (RetryableTask × List RetryableTask) → SnerdQueue → SnerdQueue
unfolding count_of
take_popped pool (some (t, rest)) q = record q {
  shared_pqs = insert pool rest q.shared_pqs;
  popped = t ∷ q.popped;
}
take_popped pool none q = record q {
  dispatcher_counts = insert pool (count_of pool q - 1) q.dispatcher_counts;
}

-- A dispatcher of the pool has a permit: it pops the most urgent task, or ends.
unfoldable pub dispatch : Text → SnerdQueue → SnerdQueue
unfolding take_popped
dispatch pool q = take_popped pool (Priority.pop (heap_of pool q)) q

-- Whether the limiter lets the task run, and its file after.
unfoldable pub rate_check : Env → RetryableTask → LimitsFile → Bool × LimitsFile
rate_check e t file = elim t.rate_limit_group [
  | none ↦ (true, file)
  | some group ↦ elim t.max_per_minute [
    | none ↦ (true, file)
    | some limit ↦
        let (r, file') = check_and_increment e.effect e.now group limit file in
        (elim r [ ok allow ↦ allow | err x ↦ false ], file')
  ]
]

-- A task over its limit is saved with a delay of sixty seconds and leaves the queue.
unfoldable pub postpone : Env → RetryableTask → SnerdQueue → SnerdQueue
postpone e t q = record q {
  file_store =
      (save_task (record t { retry_after_time = e.now + 60_000_000_000 }) e.append e.len
        q.file_store).1;
  queued_tasks = remove t.task_id q.queued_tasks;
}

-- The task moves from queued to executing, and its execution is spawned unless it is executing.
unfoldable pub start : RetryableTask → SnerdQueue → SnerdQueue
start t q =
    if contains t.task_id q.executing_tasks
    then record q { queued_tasks = remove t.task_id q.queued_tasks }
    else record q {
      queued_tasks = remove t.task_id q.queued_tasks;
      executing_tasks = insert t.task_id tt q.executing_tasks;
      spawned = t ∷ q.spawned;
    }

-- What a dispatcher does with the task that it has popped.
unfoldable pub settle_task : Env → RetryableTask → SnerdQueue → SnerdQueue
unfolding rate_check postpone start
settle_task e t q =
    let (allowed, file) = rate_check e t q.limits in
    if allowed
    then start t (record q { limits = file })
    else postpone e t (record q { limits = file })

-- The first task with the id, and the others.
unfoldable pub take_task : Text → List RetryableTask → Option (RetryableTask × List RetryableTask)
take_task id [] = none
take_task id (t ∷ ts) =
    let rest = take_task id ts in
    ite (text_dec t.task_id id) (some (t, ts))
      (Option.map (λ (r : RetryableTask × List RetryableTask). (r.0, t ∷ r.1)) rest)

unfoldable pub settle_found :
    Env → Option (RetryableTask × List RetryableTask) → SnerdQueue → SnerdQueue
unfolding settle_task
settle_found e none q = q
settle_found e (some (t, rest)) q = settle_task e t (record q { popped = rest })

-- The dispatcher that has popped the task with the id goes on.
unfoldable pub settle : Env → Text → SnerdQueue → SnerdQueue
unfolding settle_found take_task
settle e id q = settle_found e (take_task id q.popped) q
