-- ===== src/Queue/Execute.antt =====
-- execute_task of src/queue.rs, in two steps: up to the call of the handler or webhook, and from its
-- result on.
use mathlib.Core.Option
use snerdmq.Map
use snerdmq.Task.{RetryableTask, update_retry_config}
use snerdmq.Base.{is_some, some, if◌then◌else◌, ◌||◌, none, List, Text, Option, ℕ, ◌∷◌, Bool}
use snerdmq.Queue.{Set, SnerdQueue, Env}
use snerdmq.FileStore.{delete_task, save_task}
use snerdmq.Queue.Dispatch.{take_task}
use snerdmq.Base.Result.{ok, err, Result}
use snerdmq.Base.Int.{pred_i32, pos, ltb_ℤ}
use snerdmq.Map.{contains, Map, remove, insert}

-- ExecutingGuard::drop
unfoldable pub drop_guard : Text → SnerdQueue → SnerdQueue
drop_guard id q = record q { executing_tasks = Map.remove id q.executing_tasks }

-- The first step: nothing where the id has completed, and the end where no handler is registered.
-- The guard is made between the two, so the first return leaves the id executing.
unfoldable pub begin_task : RetryableTask → SnerdQueue → SnerdQueue
unfolding drop_guard
begin_task t q =
    if contains t.task_id q.completed_tasks
    then q
    else if is_some t.webhook_url || contains t.task_type q.task_handlers
    then record q { active = t ∷ q.active }
    else drop_guard t.task_id q

unfoldable pub begin_found : Option (RetryableTask × List RetryableTask) → SnerdQueue → SnerdQueue
unfolding begin_task
begin_found none q = q
begin_found (some (t, rest)) q = begin_task t (record q { spawned = rest })

unfoldable pub begin : Text → SnerdQueue → SnerdQueue
unfolding begin_found
begin id q = begin_found (take_task id q.spawned) q

unfoldable pub drop_hash : Option Text → Set → Set
drop_hash none hashes = hashes
drop_hash (some hash) hashes = Map.remove hash hashes

-- The end of a task: completed, deleted, and its hash forgotten.
unfoldable pub complete : Env → RetryableTask → SnerdQueue → SnerdQueue
unfolding drop_hash
complete e t q = record q {
  completed_tasks = insert t.task_id e.instant q.completed_tasks;
  file_store = (delete_task e.now e.later t.task_id e.append e.len q.file_store).1;
  active_hashes = drop_hash t.payload_hash q.active_hashes;
}

unfoldable pub next_tick : Env → RetryableTask → Option ℕ
next_tick e t = Option.bind t.cron_expression (λ expr. e.ext.upcoming expr e.now)

unfoldable pub rescheduled : ℕ → RetryableTask → RetryableTask
rescheduled next t = record t {
  execute_at = next;
  retry_count = pos 0;
  last_error_obj = none;
  last_job_error = none;
}

unfoldable pub store : RetryableTask → Env → SnerdQueue → SnerdQueue
store t e q = record q { file_store = (save_task t e.append e.len q.file_store).1 }

-- A success: the next run of a cron task is saved, any other task is complete.
unfoldable pub succeed : Env → RetryableTask → SnerdQueue → SnerdQueue
unfolding complete next_tick rescheduled store
succeed e t q = elim (next_tick e t) [
  | some next ↦ store (rescheduled next t) e q
  | none ↦ complete e t q
]

unfoldable pub may_retry : RetryableTask → Bool
may_retry t = ltb_ℤ t.retry_count (pred_i32 t.max_retries)

-- A failure: a retry is saved, or the task is complete. The panic of update_retry_config ends the
-- execution.
unfoldable pub fail : Env → Text → RetryableTask → SnerdQueue → SnerdQueue
unfolding complete may_retry store
fail e message t q =
    if may_retry t
    then elim (update_retry_config e.ext e.now e.later (some message) t) [
      | some t' ↦ store t' e q
      | none ↦ q
    ]
    else complete e t q

-- The second step, with the result; the guard is dropped at its end.
unfoldable pub finish_task : Env → Result (Unit {0}) Text → RetryableTask → SnerdQueue → SnerdQueue
unfolding succeed fail drop_guard
finish_task e (ok _) t q = drop_guard t.task_id (succeed e t q)
finish_task e (err message) t q = drop_guard t.task_id (fail e message t q)

unfoldable pub finish_found :
    Env
    → Result (Unit {0}) Text
    → Option (RetryableTask × List RetryableTask)
    → SnerdQueue
    → SnerdQueue
unfolding finish_task
finish_found e r none q = q
finish_found e r (some (t, rest)) q = finish_task e r t (record q { active = rest })

unfoldable pub finish : Env → Text → Result (Unit {0}) Text → SnerdQueue → SnerdQueue
unfolding finish_found take_task
finish e id r q = finish_found e r (take_task id q.active) q
