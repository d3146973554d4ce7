-- ===== src/Queue/Durable/Live.antt =====
-- The tasks that an engine of src/queue.rs has queued or popped, and its ticks and dispatchers by what
-- they do to the file store.
use snerdmq.Queue.{store_new, enqueue, SnerdQueue, save, dedupe, accept, Env, Set}
use snerdmq.Task.{RetryableTask}
use snerdmq.FileStore.{unsynced, read_tasks}
use snerdmq.Base.{
  text_dec, true, subst, length, ℕ, inr, false, Text, ◌∷◌, unwrap_or, sym, ◌&&◌, some, All,
  if◌then◌else◌, ltb, arith, none, if_pos, ◌≡◌, [], ◌∙◌, ◌⊎◌, Bool-cases, ◌≢◌, List, inl, Bool,
  if_ind, if_neg, refl,
}
use snerdmq.Map.{insert, get-insert_ne, keys, get-insert_self, get, Map}
use snerdmq.Queue.Dispatch.{
  queue_read, pool_of, start_dispatchers, heap_of, is_due, count_of, process_due_tasks,
  start_dispatcher, take_popped, take_task, queue_task, after_queueing, queue_due,
}
use snerdmq.Task.Priority
use snerdmq.Queue.Durable.{Touches, IsLive, untouched, saves}
use snerdmq.Queue.Schedule.{
  marks, queues, saves_new, enqueues, finishes, settles, dispatches, registers, sweeps, begins,
  ticks, Event, pauses, compacts,
}
use snerdmq.Base.Result.{Result, IoError}
use snerdmq.FileStore.Compaction.{IsIncreasing}

pub record IsLiveQueue (q : SnerdQueue) : Type 0 where
  pub heaps : (pool : Text) → All IsLive (heap_of pool q)
  pub popped : All IsLive q.popped

-- A step that keeps this, and a task of the store with the id.
abbrev pub Kept : Text → SnerdQueue → SnerdQueue → Type 0
Kept k q q' = IsLiveQueue q' × Touches k q.file_store q'.file_store

-- Whether the step is not the end of an execution of the id, and its calls of the store are durable.
abbrev pub IsDurable : Text → Event → Type 0
IsDurable k (enqueues t e) = e.append ≢ unsynced
IsDurable k (ticks e) = Unit
IsDurable k (sweeps e) = Unit
IsDurable k (dispatches pool) = Unit
IsDurable k (settles e id) = e.append ≢ unsynced
IsDurable k (begins id) = Unit
IsDurable k (finishes e id r) = (e.append ≢ unsynced) × (id ≢ k)
IsDurable k (compacts writable r) = IsIncreasing r
IsDurable k (registers task_type) = Unit
IsDurable k pauses = Unit
IsDurable k (queues now ts) = Unit
IsDurable k (marks t) = Unit
IsDurable k (saves_new t e) = e.append ≢ unsynced

-- The same heaps and popped tasks.
abbrev pub SameQueued : SnerdQueue → SnerdQueue → Type 0
SameQueued q q' = (q'.shared_pqs ≡ q.shared_pqs) × (q'.popped ≡ q.popped)

pub same_live : (q q' : SnerdQueue) → SameQueued q q' → IsLiveQueue q → IsLiveQueue q'
same_live q q' (a, b) h = record {
  heaps = λ pool. subst (λ m. All IsLive (unwrap_or (get pool m) [])) (sym a) (h.heaps pool);
  popped = rw b h.popped;
}

pub unwritten :
    (k : Text) (q q' : SnerdQueue)
    → q'.file_store ≡ q.file_store
    → Touches k q.file_store q'.file_store
unwritten k q q' e = subst (Touches k q.file_store) (sym e) untouched

heaps_insert :
    (pool : Text) (ts : List RetryableTask) (m : Map (List RetryableTask))
    → All IsLive ts
    → ((p : Text) → All IsLive (unwrap_or (get p m) []))
    → (p : Text) → All IsLive (unwrap_or (get p (insert pool ts m)) [])
heaps_insert pool ts m h hs p = elim (text_dec pool p) [
  | yes e ↦
      subst (λ x. All IsLive (unwrap_or (get x (insert pool ts m)) [])) e
        (subst (λ o. All IsLive (unwrap_or o [])) (sym (get-insert_self pool ts m)) h)
  | no n ↦ subst (λ o. All IsLive (unwrap_or o [])) (sym (get-insert_ne pool p ts m n)) (hs p)
]

pick-IsLive :
    (best : RetryableTask) (us : List RetryableTask)
    → IsLive best
    → All IsLive us
    → IsLive (Priority.pick best us).0 × All IsLive (Priority.pick best us).1
unfolding Priority.pick
pick-IsLive best [] b h = (b, tt)
pick-IsLive best (u ∷ us) b h = elim (Bool-cases (Priority.is_greater u best)) [
  | inl g ↦ let (x, y) = pick-IsLive u us h.0 h.1 in rw g (x, (b, y))
  | inr g ↦ let (x, y) = pick-IsLive best us b h.1 in rw g (x, (h.0, y))
]

-- The task that take_task finds, and the others.
pub take_task_from :
    (P : RetryableTask → Type 0) (id : Text) (ts : List RetryableTask)
    → All P ts
    → (take_task id ts ≡ none)
      ⊎ ((t : RetryableTask) × (rest : List RetryableTask) × (take_task id ts ≡ some (t, rest))
          × (t.task_id ≡ id)
          × P t
          × All P rest)
unfolding take_task
take_task_from P id [] h = inl refl
take_task_from P id (x ∷ ts) h = elim (text_dec x.task_id id) [
  | yes p ↦ inr (x, ts, rw (if_pos _ p), p, h.0, h.1)
  | no n ↦ elim (take_task_from P id ts h.1) [
    | inl e ↦ inl (rw (if_neg _ n, e))
    | inr (t, rest, e, i, a, b) ↦ inr (t, x ∷ rest, rw (if_neg _ n, e), i, a, (h.0, b))
  ]
]

accept-Kept :
    (k : Text) (d : Bool × Set) (t : RetryableTask) (e : Env) (q : SnerdQueue)
    → e.append ≢ unsynced
    → IsLiveQueue q
    → Kept k q (accept d t e q).1
unfolding accept save
accept-Kept k (true, hashes) t e q n h = (h, untouched)
accept-Kept k (false, hashes) t e q n h = (
  same_live q _ (refl, refl) h,
  saves (record t { deleted_at = none }) e.append e.len n (inl refl),
)

pub enqueue-Kept :
    (k : Text) (t : RetryableTask) (e : Env) (q : SnerdQueue)
    → e.append ≢ unsynced
    → IsLiveQueue q
    → Kept k q (enqueue t e q).1
unfolding enqueue
enqueue-Kept k t e q n h =
    if_ind {A = Result Bool IoError × SnerdQueue} (λ x. Kept k q x.1) q.paused (λ _. (h, untouched))
      (λ _. accept-Kept k (dedupe t.payload_hash q.active_hashes) t e q n h)

queue_task-IsLiveQueue :
    (t : RetryableTask) (q : SnerdQueue) → IsLive t → IsLiveQueue q → IsLiveQueue (queue_task t q)
unfolding queue_task
queue_task-IsLiveQueue t q l h = record {
  heaps =
      heaps_insert (pool_of t) (t ∷ heap_of (pool_of t) q) q.shared_pqs (l, h.heaps (pool_of t))
        h.heaps;
  popped = h.popped;
}

is_due-IsLive : (now : ℕ) (t : RetryableTask) (q : SnerdQueue) → is_due now t q ≡ true → IsLive t
unfolding is_due
is_due-IsLive now t q e = ground arith

-- What a tick queues, with the store as it is.
abbrev pub Queued : SnerdQueue → SnerdQueue → Type 0
Queued q q' = IsLiveQueue q' × (q'.file_store ≡ q.file_store)

queue_due-Queued :
    (now : ℕ) (ts : List RetryableTask) (pools : Set) (q : SnerdQueue)
    → IsLiveQueue q
    → Queued q (queue_due now ts pools q).1
unfolding queue_due
queue_due-Queued now [] pools q h = (h, refl)
queue_due-Queued now (t ∷ ts) pools q h =
    let first : Queued q (if is_due now t q then queue_task t q else q) =
      if_ind (Queued q) (is_due now t q)
        (λ d. (queue_task-IsLiveQueue t q (is_due-IsLive now t q d) h, unfold queue_task in refl))
        (λ _. (h, refl)) in
    let (a, b) =
      queue_due-Queued now ts (if is_due now t q then insert (pool_of t) tt pools else pools)
        (if is_due now t q then queue_task t q else q) first.0 in
    (a, b ∙ first.1)

start_dispatchers-Queued :
    (ps : List Text) (q : SnerdQueue) → IsLiveQueue q → Queued q (start_dispatchers ps q)
unfolding start_dispatchers start_dispatcher
start_dispatchers-Queued [] q h = (h, refl)
start_dispatchers-Queued (p ∷ ps) q h =
    let first : Queued q (start_dispatcher p q) =
      if_ind (Queued q) (ltb 0 (length (heap_of p q)) && ltb (count_of p q) 2)
        (λ _. (same_live q _ (refl, refl) h, refl)) (λ _. (h, refl)) in
    let (a, b) = start_dispatchers-Queued ps (start_dispatcher p q) first.0 in (a, b ∙ first.1)

pub queue_read-Queued :
    (now : ℕ) (ts : List RetryableTask) (q : SnerdQueue)
    → IsLiveQueue q
    → Queued q (queue_read now ts q)
unfolding after_queueing
queue_read-Queued now ts q h =
    let out = queue_due now ts [] q in
    let (a, b) = queue_due-Queued now ts [] q h in
    let (c, d) = start_dispatchers-Queued (keys out.0) out.1 a in (c, d ∙ b)

pub process_due_tasks-Queued :
    (e : Env) (q : SnerdQueue) → IsLiveQueue q → Queued q (process_due_tasks e q)
unfolding process_due_tasks
process_due_tasks-Queued e q h =
    if_ind (Queued q) q.paused (λ _. (h, refl))
      (λ _. queue_read-Queued e.now (read_tasks q.file_store) q h)

pub store_new-Kept :
    (k : Text) (t : RetryableTask) (e : Env) (q : SnerdQueue)
    → e.append ≢ unsynced
    → IsLiveQueue q
    → Kept k q (store_new t e q)
unfolding store_new save
store_new-Kept k t e q n h = (
  same_live q _ (refl, refl) h,
  saves (record t { deleted_at = none }) e.append e.len n (inl refl),
)

pub take_popped-Queued :
    (pool : Text) (hs : List RetryableTask) (q : SnerdQueue)
    → All IsLive hs
    → IsLiveQueue q
    → Queued q (take_popped pool (Priority.pop hs) q)
unfolding take_popped Priority.pop
take_popped-Queued pool [] q a h = (same_live q _ (refl, refl) h, refl)
take_popped-Queued pool (t ∷ ts) q a h =
    let (x, y) = pick-IsLive t ts a.0 a.1 in
    (
      record {
        heaps = heaps_insert pool (Priority.pick t ts).1 q.shared_pqs y h.heaps;
        popped = (x, h.popped);
      },
      refl,
    )
