-- ===== src/Queue/Retry.antt =====
-- The retry budget of src/queue.rs: how often a task that always fails is executed.
pub mod Attempt
use Prim.Native.Nat.{max}
use snerdmq.Task.Priority
use snerdmq.Task.{mark_deleted, update_retry_config, RetryableTask}
use snerdmq.FileStore.{
  appended, save_task_inner, count_save, FileStore, delete_found, write_line, save_task,
  delete_task, read_tasks,
}
use snerdmq.Base.{
  sym, subst, inr, length, Bool-cases, ◌⊎◌, inl, ltb, suc, zero, ◌+◌, ◌<◌, some, ap, ◌∙◌,
  if◌then◌else◌, refl, false, true, [], ◌≤◌, none, arith, unwrap_or, Text, ℕ, ◌≡◌, List, ◌∷◌,
}
use snerdmq.Map.{contains, get, get-insert_self, values, remove, Map, insert, keys}
use snerdmq.Queue.{Set, SnerdQueue, Env}
use snerdmq.Queue.Dispatch.{
  heap_of, queue_read, queue_due, start_dispatchers, settle_task, settle, queue_task,
  process_due_tasks, settle_found, start, take_task, is_due, dispatch, after_queueing, rate_check,
  start_dispatcher, pool_of, take_popped,
}
use snerdmq.Queue.Execute.{
  fail, finish_task, finish, may_retry, complete, drop_guard, store, finish_found, begin_task,
  begin_found, begin,
}
use snerdmq.Base.Result.{err}
use snerdmq.Base.Int.{pos, ◌-ℤ◌, pred_i32, incr_i32}
use snerdmq.Queue.Schedule.{ticks, begins, finishes, step, run, settles, Event, dispatches}
use snerdmq.Queue.Retry.Attempt.{
  finish_last_lem, retried, begin_lem, tick_lem, dispatch_lem, settle_lem, finish_retry_lem, put,
}

-- The engine has nothing queued or executing, and its store has the task alone.
pub record IsIdleWith (t : RetryableTask) (q : SnerdQueue) : Type 0 where
  pub idle : q ≡ put q [] [] q.shared_pqs q.dispatcher_counts [] [] []
  pub heap : heap_of (pool_of t) q ≡ []
  pub unpaused : q.paused ≡ false
  pub stored : q.file_store.tasks_cache ≡ (t.task_id, t) ∷ []
  pub incomplete : contains t.task_id q.completed_tasks ≡ false
  pub handled : contains t.task_type q.task_handlers ≡ true

-- Attempts one after the other, each from the tick that finds the task due to the failure of its
-- execution.
unfoldable pub attempts : Text → Text → Text → List Env → List Event
attempts pool id message [] = []
attempts pool id message (e ∷ es) =
    ticks e
    ∷ dispatches pool
    ∷ settles e id
    ∷ begins id
    ∷ finishes e id (err message)
    ∷ attempts pool id message es

-- At each attempt the task is due, the append of its outcome succeeds, and the next retry time can be
-- computed.
abbrev pub Suits : Text → RetryableTask → List Env → Type 0
Suits message t [] = Unit
Suits message t (e ∷ es) =
    (t.execute_at ≤ e.now)
    × (t.retry_after_time ≤ e.now)
    × (e.append ≡ appended)
    × ((next : ℕ) × (e.ext.add_seconds e.now (e.ext.hours_to_seconds t.retry_after_hours)
          ≡ some next)
        × Suits message (retried next e.later message t) es)

-- The task is stored with so many retries, and nothing is executing.
abbrev pub IsRetried : Text → ℕ → SnerdQueue → Type 0
IsRetried id n q =
    (contains id q.completed_tasks ≡ false)
    × (q.executing_tasks ≡ [])
    × ((u : RetryableTask) × (q.file_store.tasks_cache ≡ (id, u) ∷ []) × (u.retry_count ≡ pos n))

-- The task is complete and out of the store, and nothing is executing.
abbrev pub IsOver : Text → SnerdQueue → Type 0
IsOver id q =
    (contains id q.completed_tasks ≡ true)
    × (q.file_store.tasks_cache ≡ [])
    × (q.executing_tasks ≡ [])

may_retry_lem :
    (n c : ℕ) (t : RetryableTask)
    → t.retry_count ≡ pos c
    → t.max_retries ≡ pos n
    → n < 2147483648
    → may_retry t ≡ ltb (c + 1) n
unfolding may_retry pred_i32 ◌-ℤ◌
may_retry_lem zero c t rc mr b = ground arith
may_retry_lem (suc n) c t rc mr b = ground arith

-- The two ways in which attempts may stand with the task.
abbrev pub Attempted : Text → ℕ → ℕ → SnerdQueue → Type 0
Attempted id n done q = ((done < max 1 n) × IsRetried id done q) ⊎ ((done ≡ max 1 n) × IsOver id q)

module _ (message : Text) where
  -- An attempt leads to the end of the execution.
  attempt_lem :
      (t : RetryableTask) (q : SnerdQueue) (e : Env) (es : List Env)
      → t.deleted_at ≡ none
      → t.rate_limit_group ≡ none
      → IsIdleWith t q
      → t.execute_at ≤ e.now
      → t.retry_after_time ≤ e.now
      → (pqs : Map (List RetryableTask)) × (c : Map ℕ) × (unwrap_or (get (pool_of t) pqs) [] ≡ [])
        × (run q (attempts (pool_of t) t.task_id message (e ∷ es))
            ≡ run
                (finish e t.task_id
                  (err message)
                  (put q [] ((t.task_id, tt) ∷ []) pqs c [] [] (t ∷ [])))
                (attempts (pool_of t) t.task_id message es))
  unfolding attempts run step
  attempt_lem t q e es live group h begun retry =
      let pool = pool_of t in
      let id = t.task_id in
      let (c, ticked) =
        tick_lem t q live e q.shared_pqs q.dispatcher_counts h.heap h.unpaused h.stored begun
          retry in
      let pqs = insert pool [] (insert pool (t ∷ []) q.shared_pqs) in
      let ends : SnerdQueue → SnerdQueue =
        λ r. run (finish e id (err message) r) (attempts pool id message es) in
      (
        pqs,
        c,
        ground (arith, get-insert_self pool [] (insert pool (t ∷ []) q.shared_pqs)),
        ap (λ r. ends (begin id (settle e id (dispatch pool (process_due_tasks e r))))) h.idle
            ∙ ap (λ r. ends (begin id (settle e id (dispatch pool r)))) ticked
            ∙ ap (λ r. ends (begin id (settle e id r))) (dispatch_lem t q live q.shared_pqs c)
            ∙ ap (λ r. ends (begin id r)) (settle_lem t q live e pqs c group)
            ∙ ap ends (begin_lem t q live pqs c h.incomplete h.handled),
      )

  idle_IsRetried :
      (t : RetryableTask) (q : SnerdQueue) (c : ℕ)
      → IsIdleWith t q
      → t.retry_count ≡ pos c
      → IsRetried t.task_id c q
  idle_IsRetried t q c h rc =
      (h.incomplete, ap (λ (r : SnerdQueue). r.executing_tasks) h.idle, (t, h.stored, rc))

  none_left : (es : List Env) → length es ≡ 0 → es ≡ []
  none_left [] h = refl
  none_left (e ∷ es) h = absurd (omega arith)

  incremented :
      (c n : ℕ) (t : RetryableTask)
      → t.retry_count ≡ pos c
      → c < max 1 n
      → n < 2147483648
      → incr_i32 t.retry_count ≡ pos (c + 1)
  unfolding incr_i32
  incremented c n t rc l b = ground arith

  attempts_from :
      (n c : ℕ) (es : List Env) (t : RetryableTask) (q : SnerdQueue)
      → t.deleted_at ≡ none
      → t.rate_limit_group ≡ none
      → t.max_retries ≡ pos n
      → t.retry_count ≡ pos c
      → n < 2147483648
      → c < max 1 n
      → c + length es ≤ max 1 n
      → IsIdleWith t q
      → Suits message t es
      → Attempted t.task_id n (c + length es) (run q (attempts (pool_of t) t.task_id message es))
  unfolding run attempts
  attempts_from n c [] t q live group mr rc b l m h f =
      let same : c + 0 ≡ c = omega arith in inl (omega arith, rw same (idle_IsRetried t q c h rc))
  attempts_from n c (e ∷ es) t q live group mr rc b l m h f =
      let (pqs, k, heap, same) = attempt_lem t q e es live group h f.0 f.1 in
      let (next, computed, suits) = f.3 in
      elim (Bool-cases (may_retry t)) [
        | inl may ↦
            let (s, saved, goes) =
              finish_retry_lem t q e message f.2 live h.stored pqs k next may computed in
            let again = retried next e.later message t in
            let q' = put (record q { file_store = s }) [] [] pqs k [] [] [] in
            let total : c + length (e ∷ es) ≡ (c + 1) + length es = omega arith in
            let more : ltb (c + 1) n ≡ true = sym (may_retry_lem n c t rc mr b) ∙ may in
            let ready : IsIdleWith again q' = record {
              idle = refl;
              heap = heap;
              unpaused = h.unpaused;
              stored = saved;
              incomplete = h.incomplete;
              handled = h.handled;
            } in
            subst (λ r. Attempted t.task_id n (c + length (e ∷ es)) r)
              (sym (same ∙ ap (λ r. run r (attempts (pool_of t) t.task_id message es)) goes))
              (subst
                (λ d. Attempted t.task_id n d (run q' (attempts (pool_of t) t.task_id message es)))
                (sym total)
                (attempts_from n (c + 1) es again q' live group mr (incremented c n t rc l b) b
                  (ground arith) (omega (arith, m)) ready suits))
        | inr last ↦
            let over = finish_last_lem t q e message f.2 live h.stored pqs k last in
            let no_more : ltb (c + 1) n ≡ false = sym (may_retry_lem n c t rc mr b) ∙ last in
            let spent : length es ≡ 0 = ground arith in
            let all : c + length (e ∷ es) ≡ max 1 n = ground arith in
            inr (
              all,
              subst (IsOver t.task_id)
                  (sym (
                    same
                    ∙ ap
                        (λ us.
                          run
                            (finish e t.task_id (err message)
                              (put q [] ((t.task_id, tt) ∷ []) pqs k [] [] (t ∷ [])))
                            (attempts (pool_of t) t.task_id message us))
                        (none_left es spent)))
                  over,
            )
      ]

-- In an engine with nothing queued or executing, whose store has a live task alone that has no rate
-- limit group, no retry yet and a handler: attempts of which each fails, at times at which the task is
-- due, where each append succeeds and each next retry time can be computed. After fewer than
-- max_retries of them, where zero counts as one, the task is stored with as many retries and is not
-- complete; after max_retries it is complete and out of the store. No guard is left at the end of either.
pub run-attempts-Attempted :
    (message : Text) (n : ℕ) (es : List Env) (t : RetryableTask) (q : SnerdQueue)
    → t.deleted_at ≡ none
    → t.rate_limit_group ≡ none
    → t.max_retries ≡ pos n
    → t.retry_count ≡ pos 0
    → n < 2147483648
    → length es ≤ max 1 n
    → IsIdleWith t q
    → Suits message t es
    → Attempted t.task_id n (length es) (run q (attempts (pool_of t) t.task_id message es))
run-attempts-Attempted message n es t q live group mr rc b m h f =
    let total : 0 + length es ≡ length es = omega arith in
    subst (λ d. Attempted t.task_id n d (run q (attempts (pool_of t) t.task_id message es))) total
      (attempts_from message n 0 es t q live group mr rc b (omega arith) (omega arith) h f)
