-- ===== src/Queue/Retry/Attempt.antt =====
-- One attempt at a task that is alone in an engine of src/queue.rs, step by step: the tick, the
-- dispatcher, and the execution that fails.
use snerdmq.Task.Priority
use snerdmq.Task.{mark_deleted, update_retry_config, RetryableTask}
use snerdmq.FileStore.{
  appended, save_task_inner, count_save, FileStore, delete_found, write_line, save_task,
  delete_task, read_tasks,
}
use snerdmq.Base.{
  some, ap, ◌∙◌, if◌then◌else◌, refl, false, true, [], ◌≤◌, none, arith, unwrap_or, Text, ℕ, ◌≡◌,
  List, ◌∷◌,
}
use snerdmq.Map.{contains, get, get-insert_self, values, remove, Map, insert, keys}
use snerdmq.Queue.{Set, SnerdQueue, Env}
use snerdmq.Queue.Dispatch.{
  queue_read, queue_due, start_dispatchers, settle_task, settle, queue_task, process_due_tasks,
  settle_found, start, take_task, is_due, dispatch, after_queueing, rate_check, start_dispatcher,
  pool_of, take_popped,
}
use snerdmq.Queue.Execute.{
  fail, finish_task, finish, may_retry, complete, drop_guard, store, finish_found, begin_task,
  begin_found, begin,
}
use snerdmq.Base.Result.{err}
use snerdmq.Base.Int.{incr_i32}

-- An engine with these tasks in these places.
abbrev pub put :
    SnerdQueue
    → Set
    → Set
    → Map (List RetryableTask)
    → Map ℕ
    → List RetryableTask
    → List RetryableTask
    → List RetryableTask
    → SnerdQueue
put q queued executing pqs counts popped spawned active = record q {
  queued_tasks = queued;
  executing_tasks = executing;
  shared_pqs = pqs;
  dispatcher_counts = counts;
  popped = popped;
  spawned = spawned;
  active = active;
}

module _ (t : RetryableTask) (q : SnerdQueue) (live : t.deleted_at ≡ none) where
  abbrev pub ids : Set
  ids = (t.task_id, tt) ∷ []

  dispatchers_lem :
      (pool : Text) (queued : Set) (pqs : Map (List RetryableTask)) (counts : Map ℕ)
      → (c : Map ℕ) × (start_dispatcher pool (put q queued [] pqs counts [] [] [])
          ≡ put q queued [] pqs c [] [] [])
  unfolding start_dispatcher
  dispatchers_lem pool queued pqs counts = (
    (start_dispatcher pool (put q queued [] pqs counts [] [] [])).dispatcher_counts,
    ground arith,
  )

  is_due_lem :
      (now : ℕ) (pqs : Map (List RetryableTask)) (counts : Map ℕ)
      → t.execute_at ≤ now
      → t.retry_after_time ≤ now
      → is_due now t (put q [] [] pqs counts [] [] []) ≡ true
  unfolding is_due contains get
  is_due_lem now pqs counts begun retry = ground (arith, live)

  queue_due_lem :
      (now : ℕ) (pqs : Map (List RetryableTask)) (counts : Map ℕ)
      → t.execute_at ≤ now
      → t.retry_after_time ≤ now
      → queue_due now (t ∷ []) [] (put q [] [] pqs counts [] [] [])
        ≡ (insert (pool_of t) tt [], queue_task t (put q [] [] pqs counts [] [] []))
  unfolding queue_due
  queue_due_lem now pqs counts begun retry = rw (is_due_lem now pqs counts begun retry) refl

  queue_task_lem :
      (pqs : Map (List RetryableTask)) (counts : Map ℕ)
      → unwrap_or (get (pool_of t) pqs) [] ≡ []
      → queue_task t (put q [] [] pqs counts [] [] [])
        ≡ put q ids [] (insert (pool_of t) (t ∷ []) pqs) counts [] [] []
  unfolding queue_task insert remove
  queue_task_lem pqs counts heap = rw heap refl

  pub tick_lem :
      (e : Env) (pqs : Map (List RetryableTask)) (counts : Map ℕ)
      → unwrap_or (get (pool_of t) pqs) [] ≡ []
      → q.paused ≡ false
      → q.file_store.tasks_cache ≡ (t.task_id, t) ∷ []
      → t.execute_at ≤ e.now
      → t.retry_after_time ≤ e.now
      → (c : Map ℕ) × (process_due_tasks e (put q [] [] pqs counts [] [] [])
          ≡ put q ids [] (insert (pool_of t) (t ∷ []) pqs) c [] [] [])
  unfolding process_due_tasks after_queueing read_tasks values start_dispatchers keys insert remove
  tick_lem e pqs counts heap paused cache begun retry =
      let (c, same) = dispatchers_lem (pool_of t) ids (insert (pool_of t) (t ∷ []) pqs) counts in
      let s = put q [] [] pqs counts [] [] [] in
      (
        c,
        ap (λ b. if b then s else queue_read e.now (read_tasks q.file_store) s) paused
            ∙ ap (λ m. queue_read e.now (values m) s) cache
            ∙ ap after_queueing (queue_due_lem e.now pqs counts begun retry)
            ∙ ap (start_dispatcher (pool_of t)) (queue_task_lem pqs counts heap)
            ∙ same,
      )

  pub dispatch_lem :
      (pqs : Map (List RetryableTask)) (c : Map ℕ)
      → dispatch (pool_of t) (put q ids [] (insert (pool_of t) (t ∷ []) pqs) c [] [] [])
        ≡ put q ids [] (insert (pool_of t) [] (insert (pool_of t) (t ∷ []) pqs)) c (t ∷ []) [] []
  unfolding dispatch take_popped Priority.pop Priority.pick
  dispatch_lem pqs c = ground (arith, get-insert_self (pool_of t) (t ∷ []) pqs)

  pub settle_lem :
      (e : Env) (pqs : Map (List RetryableTask)) (c : Map ℕ)
      → t.rate_limit_group ≡ none
      → settle e t.task_id (put q ids [] pqs c (t ∷ []) [] []) ≡ put q [] ids pqs c [] (t ∷ []) []
  unfolding settle settle_found settle_task rate_check take_task start remove insert contains get
  settle_lem e pqs c group = ground (arith, group)

  pub begin_lem :
      (pqs : Map (List RetryableTask)) (c : Map ℕ)
      → contains t.task_id q.completed_tasks ≡ false
      → contains t.task_type q.task_handlers ≡ true
      → begin t.task_id (put q [] ids pqs c [] (t ∷ []) []) ≡ put q [] ids pqs c [] [] (t ∷ [])
  unfolding begin begin_found begin_task take_task
  begin_lem pqs c incomplete handled = ground (arith, incomplete, handled)

-- What a failure leaves of a task that is retried.
abbrev pub retried : ℕ → ℕ → Text → RetryableTask → RetryableTask
retried next later message t = record t {
  retry_count = incr_i32 t.retry_count;
  retry_after_time = next;
  last_error_obj = some message;
  last_job_error = some (record { error_string = message; retry_worthy = true });
  updated_at = later;
}

module _ (t : RetryableTask) (q : SnerdQueue) (e : Env) (message : Text)
    (stays : e.append ≡ appended) (live : t.deleted_at ≡ none)
    (cache : q.file_store.tasks_cache ≡ (t.task_id, t) ∷ []) (pqs : Map (List RetryableTask))
    (c : Map ℕ) where
  abbrev pub ended : SnerdQueue
  ended = finish e t.task_id (err message) (put q [] ((t.task_id, tt) ∷ []) pqs c [] [] (t ∷ []))

  pub finish_retry_lem :
      (next : ℕ)
      → may_retry t ≡ true
      → e.ext.add_seconds e.now (e.ext.hours_to_seconds t.retry_after_hours) ≡ some next
      → (s : FileStore) × (s.tasks_cache ≡ (t.task_id, retried next e.later message t) ∷ [])
        × (ended ≡ put (record q { file_store = s }) [] [] pqs c [] [] [])
  unfolding finish finish_found finish_task fail take_task drop_guard store update_retry_config
      save_task save_task_inner count_save write_line insert remove
  finish_retry_lem next may computed = (
    (save_task (retried next e.later message t) e.append e.len q.file_store).1,
    ground (arith, cache, live, stays),
    ground (arith, may, computed),
  )

  pub finish_last_lem :
      may_retry t ≡ false
      → (contains t.task_id ended.completed_tasks ≡ true)
        × (ended.file_store.tasks_cache ≡ [])
        × (ended.executing_tasks ≡ [])
  unfolding finish finish_found finish_task fail take_task drop_guard complete delete_task
      delete_found mark_deleted save_task_inner count_save write_line remove get contains insert
  finish_last_lem may = ground (arith, cache, live, stays, may)
