-- ===== src/Queue/Enqueue.antt =====
-- enqueue of src/queue.rs on all its branches, and what a failed save leaves behind.
use snerdmq.Task.{RetryableTask}
use snerdmq.Base.{
  ap, text_dec, sym, subst, if_ind, true, refl, ◌⊎◌, ◌≡◌, false, Bool, none, inr, Text, Option,
  some, inl, arith, ℕ,
}
use snerdmq.Map.{contains-insert, contains, get-insert_ne, get-insert_self}
use snerdmq.Queue.{Set, dedupe, enqueue, SnerdQueue, save, accept, Env}
use snerdmq.FileStore.{save_task_inner, appended, refused, save_task, FileStore, get_latest_task}
use snerdmq.Base.Result.{os, err, ok, Result, IoError, is_ok}

-- A save of the task: it is the latest with its id, and no other id changes.
abbrev pub Saved : Text → RetryableTask → FileStore → Result Bool IoError × FileStore → Type 0
Saved k t s (r, s') =
    (is_ok r ≡ true)
    × (get_latest_task t.task_id s' ≡ some t)
    × ((t.task_id ≡ k) ⊎ (get_latest_task k s' ≡ get_latest_task k s))

-- How an enqueue ends: `q` before, `r` the result and `q'` after.
abbrev pub Enqueued :
    Text → RetryableTask → Env → SnerdQueue → Result Bool IoError × SnerdQueue → Type 0
Enqueued k t e q (r, q') =
    ((q.paused ≡ true) × (is_ok r ≡ false) × (q' ≡ q))
    ⊎ ((q.paused ≡ false)
        × ((dedupe t.payload_hash q.active_hashes).0 ≡ true)
        × (r ≡ ok false)
        × (q' ≡ q))
    ⊎ ((q.paused ≡ false)
        × ((dedupe t.payload_hash q.active_hashes).0 ≡ false)
        × Saved k (record t { deleted_at = none }) q.file_store (r, q'.file_store))

save_task-Saved :
    (k : Text) (t : RetryableTask) (len : Option ℕ) (s : FileStore)
    → t.deleted_at ≡ none
    → Saved k t s (save_task t appended len s)
unfolding save_task get_latest_task
save_task-Saved k t len s live = (
  refl,
  ground (arith, get-insert_self t.task_id t s.tasks_cache),
  (elim (text_dec t.task_id k) [
    | yes p ↦ inl p
    | no n ↦ inr (ground (arith, get-insert_ne t.task_id k t s.tasks_cache n))
  ]),
)

dedupe-Enqueued :
    (k : Text) (t : RetryableTask) (e : Env) (q : SnerdQueue) (d : Bool × Set)
    → dedupe t.payload_hash q.active_hashes ≡ d
    → q.paused ≡ false
    → e.append ≡ appended
    → Enqueued k t e q (accept d t e q)
unfolding accept save
dedupe-Enqueued k t e q (true, hashes) o p a = inr (inl (p, ap (λ x. x.0) o, refl, refl))
dedupe-Enqueued k t e q (false, hashes) o p a =
    let t' = record t { deleted_at = none } in
    inr (
      inr (
        p,
        ap (λ x. x.0) o,
        subst (λ x. Saved k t' q.file_store (save_task t' x e.len q.file_store)) (sym a)
            (save_task-Saved k t' e.len q.file_store refl),
      ))

-- Where the append succeeds: a paused engine refuses and changes nothing; a task whose hash is
-- active is dropped with success and changes nothing; any other task is the latest with its id
-- from then on, and no other id is touched.
pub enqueue-Enqueued :
    (t : RetryableTask) (k : Text) (e : Env) (q : SnerdQueue)
    → e.append ≡ appended
    → Enqueued k t e q (enqueue t e q)
unfolding enqueue
enqueue-Enqueued t k e q a =
    if_ind (Enqueued k t e q) q.paused (λ p. inl (p, refl, refl))
      (λ p. dedupe-Enqueued k t e q (dedupe t.payload_hash q.active_hashes) refl p a)

-- If the first save of a payload fails, its hash stays active all the same: the next task with that
-- payload is dropped with success, whatever its append would have done, and is not stored.
pub enqueue_after_failure :
    (t u : RetryableTask) (e e' : Env) (q : SnerdQueue) (h : Text)
    → q.paused ≡ false
    → t.payload_hash ≡ some h
    → u.payload_hash ≡ some h
    → contains h q.active_hashes ≡ false
    → e.append ≡ refused
    → ((enqueue t e q).0 ≡ err os)
      × ((enqueue t e q).1.file_store ≡ q.file_store)
      × (enqueue u e' (enqueue t e q).1 ≡ (ok false, (enqueue t e q).1))
unfolding enqueue accept dedupe save save_task save_task_inner
enqueue_after_failure t u e e' q h p th uh fresh a =
    (ground arith, ground arith, ground (arith, contains-insert h h tt q.active_hashes))
