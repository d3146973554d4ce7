-- ===== src/Queue/Due.antt =====
-- Which tasks process_due_tasks of src/queue.rs puts into the heaps.
use snerdmq.Task.{RetryableTask}
use snerdmq.Base.{
  unwrap_or, ◌⊎◌, ◌∙◌, text_dec, Bool-cases, refl, sym, subst, ◌↔◌, [], none, ◌∷◌, List, true, In,
  ◌≤◌, ◌≡◌, ℕ, if_ind, inl, Text, if◌then◌else◌, arith, inr, false, ap,
}
use snerdmq.Map.{get, get-insert_self, get-insert_ne, insert, keys, contains-insert, contains}
use snerdmq.Queue.{Env, Set, SnerdQueue}
use snerdmq.Queue.Dispatch.{
  heap_of, pool_of, process_due_tasks, after_queueing, start_dispatchers, start_dispatcher, is_due,
  queue_due, queue_task,
}
use snerdmq.FileStore.{read_tasks}

queued_mono :
    (now : ℕ) (ts : List RetryableTask) (pools : Set) (q : SnerdQueue) (k : Text)
    → contains k q.queued_tasks ≡ true
    → contains k (queue_due now ts pools q).1.queued_tasks ≡ true
unfolding queue_due
queued_mono now [] pools q k h = h
queued_mono now (t ∷ ts) pools q k h = queued_mono now ts _ _ k (
    if_ind (λ (x : SnerdQueue). contains k x.queued_tasks ≡ true) (is_due now t q)
      (λ _. unfold queue_task in ground (arith, contains-insert t.task_id k tt q.queued_tasks))
      (λ _. h))

-- The test on the times and the tombstone, and that the id is not executing.
abbrev pub IsReady : ℕ → RetryableTask → SnerdQueue → Type 0
IsReady now t q =
    (t.execute_at ≤ now)
    × (t.retry_after_time ≤ now)
    × (t.deleted_at ≡ none)
    × (contains t.task_id q.executing_tasks ≡ false)

queued_now :
    (now : ℕ) (t x : RetryableTask) (q : SnerdQueue)
    → t ≡ x
    → IsReady now t q
    → contains t.task_id (if is_due now x q then queue_task x q else q).queued_tasks ≡ true
unfolding is_due queue_task
queued_now now t x q e h = ground (
  arith,
  ap (λ (y : RetryableTask). y.task_id) e,
  ap (λ (y : RetryableTask). y.execute_at) e,
  ap (λ (y : RetryableTask). y.retry_after_time) e,
  ap (λ (y : RetryableTask). y.deleted_at) e,
  contains-insert x.task_id t.task_id tt q.queued_tasks,
)

queue_due-queued :
    (now : ℕ) (t : RetryableTask) (ts : List RetryableTask) (pools : Set) (q : SnerdQueue)
    → In t ts
    → IsReady now t q
    → contains t.task_id (queue_due now ts pools q).1.queued_tasks ≡ true
unfolding queue_due
queue_due-queued now t [] pools q i h = absurd i
queue_due-queued now t (x ∷ ts) pools q (inl e) h =
    queued_mono now ts _ _ t.task_id (queued_now now t x q e h)
queue_due-queued now t (x ∷ ts) pools q (inr i) h =
    queue_due-queued now t ts _ _ i
      (if_ind (IsReady now t) (is_due now x q) (λ _. unfold queue_task in h) (λ _. h))

after_first : ℕ → RetryableTask → SnerdQueue → SnerdQueue
after_first now x q = if is_due now x q then queue_task x q else q

after_first_cases :
    (now : ℕ) (k : Text) (x : RetryableTask) (q : SnerdQueue)
    → contains k q.queued_tasks ≡ false
    → (contains k (after_first now x q).queued_tasks ≡ false) ⊎ ((x.task_id ≡ k) × IsReady now x q)
unfolding after_first is_due queue_task
after_first_cases now k x q a = elim (text_dec x.task_id k) [
  | yes p ↦ elim (Bool-cases (is_due now x q)) [
    | inl d ↦ inr (p, (ground (arith, d), ground (arith, d), ground (arith, d), ground (arith, d)))
    | inr d ↦ inl (ground (arith, d))
  ]
  | no n ↦ inl (ground (arith, contains-insert x.task_id k tt q.queued_tasks))
]

not_due :
    (now : ℕ) (k : Text) (x : RetryableTask) (q : SnerdQueue)
    → x.task_id ≡ k
    → contains k q.queued_tasks ≡ false
    → IsReady now x q
    → is_due now x q ≡ false
    → ⊥
unfolding is_due
not_due now k x q e a h d =
    let a' : contains x.task_id q.queued_tasks ≡ false =
      subst (λ j. contains j q.queued_tasks ≡ false) (sym e) a in
    ground (arith, a', h.0, h.1, h.2, h.3, d)

executing_after_first :
    (now : ℕ) (x : RetryableTask) (q : SnerdQueue)
    → (after_first now x q).executing_tasks ≡ q.executing_tasks
unfolding after_first queue_task
executing_after_first now x q = ground arith

queue_due-only :
    (now : ℕ) (k : Text) (ts : List RetryableTask) (pools : Set) (q : SnerdQueue)
    → contains k q.queued_tasks ≡ false
    → contains k (queue_due now ts pools q).1.queued_tasks ≡ true
    → (t : RetryableTask) × In t ts × (t.task_id ≡ k) × IsReady now t q
unfolding queue_due after_first
queue_due-only now k [] pools q a b = cc
queue_due-only now k (x ∷ ts) pools q a b = elim (after_first_cases now k x q a) [
  | inl still ↦
      let (t, i, e, h) = queue_due-only now k ts _ (after_first now x q) still b in
      (
        t,
        inr i,
        e,
        (
          h.0,
          h.1,
          h.2,
          subst (λ s. contains t.task_id s ≡ false) (executing_after_first now x q) h.3,
        ),
      )
  | inr (e, h) ↦ (x, inl refl, e, h)
]

-- The task stands in the heap of its pool.
abbrev pub StandsInHeap : RetryableTask → SnerdQueue → Type 0
StandsInHeap t q = In t (heap_of (pool_of t) q)

queue_task-StandsInHeap : (t : RetryableTask) (q : SnerdQueue) → StandsInHeap t (queue_task t q)
unfolding queue_task
queue_task-StandsInHeap t q =
    subst (λ o. In t (unwrap_or o []))
      (sym (get-insert_self (pool_of t) (t ∷ heap_of (pool_of t) q) q.shared_pqs)) (inl refl)

heap-queue_task :
    (t x : RetryableTask) (pool : Text) (q : SnerdQueue)
    → In t (heap_of pool q)
    → In t (heap_of pool (queue_task x q))
unfolding queue_task
heap-queue_task t x pool q h = elim (text_dec (pool_of x) pool) [
  | yes p ↦
      let same = get-insert_self (pool_of x) (x ∷ heap_of (pool_of x) q) q.shared_pqs in
      subst
        (λ p.
          In t (unwrap_or (get p (insert (pool_of x) (x ∷ heap_of (pool_of x) q) q.shared_pqs)) []))
        p
        (subst (λ o. In t (unwrap_or o [])) (sym same)
          (inr (subst (λ p. In t (heap_of p q)) (sym p) h)))
  | no n ↦
      subst (λ o. In t (unwrap_or o []))
        (sym (get-insert_ne (pool_of x) pool (x ∷ heap_of (pool_of x) q) q.shared_pqs n)) h
]

heap-queue_due :
    (t : RetryableTask) (pool : Text) (now : ℕ) (ts : List RetryableTask) (pools : Set)
    (q : SnerdQueue)
    → In t (heap_of pool q)
    → In t (heap_of pool (queue_due now ts pools q).1)
unfolding queue_due
heap-queue_due t pool now [] pools q h = h
heap-queue_due t pool now (x ∷ ts) pools q h = heap-queue_due t pool now ts _ _ (
    if_ind (λ (r : SnerdQueue). In t (heap_of pool r)) (is_due now x q)
      (λ _. heap-queue_task t x pool q h) (λ _. h))

-- An id that the loop queues has a task in a heap.
queue_due-StandsInHeap :
    (now : ℕ) (k : Text) (ts : List RetryableTask) (pools : Set) (q : SnerdQueue)
    → contains k q.queued_tasks ≡ false
    → contains k (queue_due now ts pools q).1.queued_tasks ≡ true
    → (t : RetryableTask) × In t ts × (t.task_id ≡ k) × StandsInHeap t (queue_due now ts pools q).1
unfolding queue_due after_first
queue_due-StandsInHeap now k [] pools q a b = cc
queue_due-StandsInHeap now k (x ∷ ts) pools q a b = elim (after_first_cases now k x q a) [
  | inl still ↦
      let (t, i, e, h) = queue_due-StandsInHeap now k ts _ (after_first now x q) still b in
      (t, inr i, e, h)
  | inr (e, h) ↦ (
    x,
    inl refl,
    e,
    heap-queue_due x (pool_of x) now ts _ (after_first now x q) (
        if_ind (StandsInHeap x) (is_due now x q) (λ _. queue_task-StandsInHeap x q)
          (λ d. absurd (not_due now k x q e a h d))),
  )
]

-- A start of dispatchers leaves the queued ids and the heaps alone.
abbrev SameQueue : SnerdQueue → SnerdQueue → Type 0
SameQueue q r = (r.queued_tasks ≡ q.queued_tasks) × (r.shared_pqs ≡ q.shared_pqs)

start_dispatchers-SameQueue :
    (ps : List Text) (q r : SnerdQueue) → SameQueue q r → SameQueue q (start_dispatchers ps r)
unfolding start_dispatchers start_dispatcher
start_dispatchers-SameQueue [] q r h = h
start_dispatchers-SameQueue (p ∷ ps) q r h =
    start_dispatchers-SameQueue ps q _ (if_ind (SameQueue q) _ (λ _. h) (λ _. h))

process_due_tasks-SameQueue :
    (e : Env) (q : SnerdQueue)
    → q.paused ≡ false
    → SameQueue (queue_due e.now (read_tasks q.file_store) [] q).1 (process_due_tasks e q)
unfolding process_due_tasks after_queueing
process_due_tasks-SameQueue e q p =
    let (pools, r) = queue_due e.now (read_tasks q.file_store) [] q in
    if_ind (SameQueue r) q.paused (λ b. absurd (cc (p, b)))
      (λ _. start_dispatchers-SameQueue (keys pools) r r (refl, refl))

-- The id is marked queued, and a task of the list with it stands in the heap of its pool.
abbrev pub IsQueued : Text → List RetryableTask → SnerdQueue → Type 0
IsQueued k ts q =
    (contains k q.queued_tasks ≡ true)
    × ((t : RetryableTask) × In t ts × (t.task_id ≡ k) × StandsInHeap t q)

-- For an id that is not marked queued, and an engine that is not paused, a tick during which nothing
-- else happens marks it queued and puts a task of the store with it into the heap of that task's pool exactly if the
-- store has a live task with it whose execution time and retry time have come, and which is not
-- executing. Nothing else about the task counts: trigger_after_ids among the rest.
pub process_due_tasks_iff :
    (e : Env) (q : SnerdQueue) (k : Text)
    → q.paused ≡ false
    → contains k q.queued_tasks ≡ false
    → IsQueued k (read_tasks q.file_store) (process_due_tasks e q)
      ↔ ((t : RetryableTask) × In t (read_tasks q.file_store) × (t.task_id ≡ k) × IsReady e.now t q)
process_due_tasks_iff e q k p a =
    let (same, heaps) = process_due_tasks-SameQueue e q p in
    (
      (λ (b, c).
          queue_due-only e.now k (read_tasks q.file_store) [] q a (sym (ap (contains k) same) ∙ b)),
      (λ (t, i, named, h).
          let done =
            subst
              (λ j.
                contains j (queue_due e.now (read_tasks q.file_store) [] q).1.queued_tasks ≡ true)
              named (queue_due-queued e.now t (read_tasks q.file_store) [] q i h) in
          let (u, j, e', stands) =
            queue_due-StandsInHeap e.now k (read_tasks q.file_store) [] q a done in
          (
            ap (contains k) same ∙ done,
            (u, j, e', subst (λ m. In u (unwrap_or (get (pool_of u) m) [])) (sym heaps) stands),
          )),
    )
