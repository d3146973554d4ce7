-- ===== src/Workers.antt =====
-- WorkerPoolManager of src/queue.rs and the permits of its semaphores, which all engines of a daemon
-- share. A dispatcher takes a permit of its pool's semaphore before it pops, and the execution of the
-- task holds it to its end.
pub mod Held
pub mod Pooled
pub mod Bound
pub mod Pools
use mathlib.Core.Option
use snerdmq.Base.{
  suc, ◌&&◌, ◌-◌, List, zero, not, ltb, map, leb, ite, is_some, ◌+◌, unwrap_or, if◌then◌else◌,
  text_dec, some, ◌||◌, none, [], Option, ℕ, ◌∷◌, Text,
}
use snerdmq.Map.{insert, get, contains, Map}
use snerdmq.Base.Digits.{parse_u64}
use snerdmq.Base.Bytes.{split}
use snerdmq.Task.Cron.{trim}
use snerdmq.Task.{RetryableTask}
use snerdmq.Queue.{SnerdQueue, Env}
use snerdmq.Queue.Dispatch.{default_pool, take_task, heap_of, pool_of, settle, rate_check, dispatch}
use snerdmq.Queue.Execute.{begin, finish}
use snerdmq.Queue.Schedule.{begins, finishes, Event, step, dispatches, settles}

-- Semaphores by the name of their pool, with the permits that each is made with. The default pool's
-- semaphore is the one of the name `default`.
pub record WorkerPoolManager : Type 0 where
  pub pools : Map ℕ
  pub default_pool : ℕ

-- A part of SNERD_POOLS: a name and a number of workers. none is a part that is passed over.
unfoldable pub pool_part : Text → Option (Text × ℕ)
unfolding split trim
pool_part part = elim (split b'=' part) [
  | name ∷ count ∷ [] ↦ Option.map (λ n. (trim name, n)) (parse_u64 (trim count))
  | _ ↦ none
]

-- Semaphore::new, which panics above its documented maximum of permits.
unfoldable pub semaphore : ℕ → ℕ → Option ℕ
semaphore max_permits n = if leb n max_permits then some n else none

-- The pools so far, and the semaphore of `default` if a part has named it.
unfoldable pub add_part : ℕ → Option (Text × ℕ) → Map ℕ × Option ℕ → Option (Map ℕ × Option ℕ)
unfolding semaphore
add_part max_permits none s = some s
add_part max_permits (some (name, count)) (pools, d) =
    Option.map (λ n. (insert name n pools, ite (text_dec name default_pool) (some n) d))
      (semaphore max_permits count)

unfoldable pub add_parts : ℕ → List Text → Map ℕ × Option ℕ → Option (Map ℕ × Option ℕ)
unfolding add_part pool_part Option.bind
add_parts max_permits [] s = some s
add_parts max_permits (part ∷ parts) s =
    Option.bind (add_part max_permits (pool_part part) s) (add_parts max_permits parts)

unfoldable pub with_default : ℕ → ℕ → Map ℕ × Option ℕ → Option WorkerPoolManager
unfolding semaphore
with_default max_permits default_workers (pools, some n) =
    some (record { pools = pools; default_pool = n })
with_default max_permits default_workers (pools, none) =
    Option.map (λ n. record { pools = insert default_pool n pools; default_pool = n })
      (semaphore max_permits default_workers)

-- WorkerPoolManager::new, on the value of SNERD_POOLS; none is a panic.
unfoldable pub new : ℕ → ℕ → Option Text → Option WorkerPoolManager
unfolding with_default add_parts Option.bind
new max_permits default_workers none = with_default max_permits default_workers ([], none)
new max_permits default_workers (some pools_str) =
    Option.bind (add_parts max_permits (split b',' pools_str) ([], none))
      (with_default max_permits default_workers)

-- The name of the semaphore that a dispatcher of the pool uses.
unfoldable pub semaphore_of : WorkerPoolManager → Text → Text
semaphore_of w pool = if contains pool w.pools then pool else default_pool

-- The permits that are left of a semaphore.
unfoldable pub available : Text → Map ℕ → ℕ
available s permits = unwrap_or (get s permits) 0

unfoldable pub take_permit : Text → Map ℕ → Map ℕ
unfolding available
take_permit s permits = insert s (available s permits - 1) permits

unfoldable pub give_permit : Text → Map ℕ → Map ℕ
unfolding available
give_permit s permits = insert s (available s permits + 1) permits

-- A dispatcher that finds its heap empty drops its permit again.
unfoldable pub after_pop : Text → List RetryableTask → Map ℕ → Map ℕ
unfolding take_permit
after_pop s [] permits = permits
after_pop s (t ∷ ts) permits = take_permit s permits

-- A task that is over its limit, or executing already, gives the permit back.
unfoldable pub after_settle :
    WorkerPoolManager
    → Env
    → SnerdQueue
    → Option (RetryableTask × List RetryableTask)
    → Map ℕ
    → Map ℕ
unfolding give_permit semaphore_of
after_settle w e q none permits = permits
after_settle w e q (some (t, rest)) permits =
    if (rate_check e t q.limits).0 && not (contains t.task_id q.executing_tasks)
    then permits
    else give_permit (semaphore_of w (pool_of t)) permits

-- So does the end of an execution, the early returns of execute_task included.
unfoldable pub after_begin :
    WorkerPoolManager → SnerdQueue → Option (RetryableTask × List RetryableTask) → Map ℕ → Map ℕ
unfolding give_permit semaphore_of
after_begin w q none permits = permits
after_begin w q (some (t, rest)) permits =
    if not (contains t.task_id q.completed_tasks)
      && (is_some t.webhook_url || contains t.task_type q.task_handlers)
    then permits
    else give_permit (semaphore_of w (pool_of t)) permits

unfoldable pub after_finish :
    WorkerPoolManager → Option (RetryableTask × List RetryableTask) → Map ℕ → Map ℕ
unfolding give_permit semaphore_of
after_finish w none permits = permits
after_finish w (some (t, rest)) permits = give_permit (semaphore_of w (pool_of t)) permits

-- One step of an engine with the permits. A dispatcher waits while there is no permit.
unfoldable pub work : WorkerPoolManager → Event → SnerdQueue × Map ℕ → SnerdQueue × Map ℕ
unfolding step after_pop after_settle after_begin after_finish semaphore_of available
work w (dispatches pool) (q, permits) =
    if ltb 0 (available (semaphore_of w pool) permits)
    then (dispatch pool q, after_pop (semaphore_of w pool) (heap_of pool q) permits)
    else (q, permits)
work w (settles e id) (q, permits) =
    (settle e id q, after_settle w e q (take_task id q.popped) permits)
work w (begins id) (q, permits) = (begin id q, after_begin w q (take_task id q.spawned) permits)
work w (finishes e id r) (q, permits) =
    (finish e id r q, after_finish w (take_task id q.active) permits)
work w e (q, permits) = (step q e, permits)

-- A step of one of the daemon's engines; without that engine, nothing.
unfoldable pub work_at :
    WorkerPoolManager → ℕ → Event → List SnerdQueue → Map ℕ → List SnerdQueue × Map ℕ
unfolding work
work_at w i e [] permits = ([], permits)
work_at w zero e (q ∷ qs) permits = let (q', p) = work w e (q, permits) in (q' ∷ qs, p)
work_at w (suc i) e (q ∷ qs) permits = let (qs', p) = work_at w i e qs permits in (q ∷ qs', p)

unfoldable pub work_all :
    WorkerPoolManager → List (ℕ × Event) → List SnerdQueue × Map ℕ → List SnerdQueue × Map ℕ
unfolding work_at
work_all w [] d = d
work_all w ((i, e) ∷ es) (qs, permits) = work_all w es (work_at w i e qs permits)
