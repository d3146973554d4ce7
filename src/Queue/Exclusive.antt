-- ===== src/Queue/Exclusive.antt =====
-- The places of a task id in the engine of src/queue.rs: heap entries, popped tasks and executions.
pub mod Steps
use snerdmq.Task.Priority
use snerdmq.Task.{RetryableTask}
use snerdmq.Base.{
  sym, if_ind, ap, subst, ◌⊎◌, none, ◌+◌, ◌≤◌, unwrap_or, refl, List, if_pos, arith, Text,
  Bool-cases, ℕ, true, some, ◌∷◌, [], false, Bool, text_dec, ite, inr, ◌≡◌, if_neg, inl,
}
use snerdmq.Map.{
  insert-IsMap, contains-insert, keys, remove, insert, get, Map, contains, remove_absent, IsMap,
}
use snerdmq.Queue.{Env, Set, SnerdQueue}
use snerdmq.Queue.Dispatch.{
  queue_read, start_dispatchers, start_dispatcher, take_popped, after_queueing, is_due,
  process_due_tasks, pool_of, heap_of, queue_due, dispatch, queue_task, take_task,
}
use snerdmq.FileStore.{read_tasks}

-- How many tasks of a list have the id.
abbrev pub occ : Text → List RetryableTask → ℕ
occ k [] = 0
occ k (t ∷ ts) = ite (text_dec t.task_id k) 1 0 + occ k ts

-- The same over all heaps.
abbrev pub occ_heaps : Text → Map (List RetryableTask) → ℕ
occ_heaps k [] = 0
occ_heaps k ((p, h) ∷ m) = occ k h + occ_heaps k m

occ_heaps-remove :
    (k p : Text) (m : Map (List RetryableTask))
    → IsMap m
    → occ_heaps k (remove p m) + occ k (unwrap_or (get p m) []) ≡ occ_heaps k m
unfolding remove get
occ_heaps-remove k p [] u = omega arith
occ_heaps-remove k p ((j, h) ∷ m) u = ground (arith, occ_heaps-remove k p m u.1, remove_absent p m)

pub occ_heaps-insert :
    (k p : Text) (h : List RetryableTask) (m : Map (List RetryableTask))
    → IsMap m
    → occ_heaps k (insert p h m) + occ k (unwrap_or (get p m) []) ≡ occ_heaps k m + occ k h
unfolding insert
occ_heaps-insert k p h m u = omega (arith, occ_heaps-remove k p m u)

-- A heap's element moves and nothing else.
pub occ-pick :
    (k : Text) (best : RetryableTask) (us : List RetryableTask)
    → occ k ((Priority.pick best us).0 ∷ (Priority.pick best us).1) ≡ occ k (best ∷ us)
unfolding Priority.pick
occ-pick k best [] = refl
occ-pick k best (u ∷ us) = elim (Bool-cases (Priority.is_greater u best)) [
  | inl g ↦ rw g (omega (arith, occ-pick k u us))
  | inr g ↦ rw g (omega (arith, occ-pick k best us))
]

-- take_task finds nothing, or a task with the id, whose removal takes nothing else.
pub take_task_cases :
    (id : Text) (ts : List RetryableTask)
    → (take_task id ts ≡ none)
      ⊎ ((t : RetryableTask) × (rest : List RetryableTask) × (take_task id ts ≡ some (t, rest))
          × ((k : Text) → occ k ts ≡ occ k (t ∷ rest)))
unfolding take_task
take_task_cases id [] = inl refl
take_task_cases id (x ∷ ts) = elim (text_dec x.task_id id) [
  | yes p ↦ inr (x, ts, rw (if_pos _ p), λ k. refl)
  | no n ↦ elim (take_task_cases id ts) [
    | inl e ↦ inl (rw (if_neg _ n, e))
    | inr (t, rest, e, o) ↦ inr (t, x ∷ rest, rw (if_neg _ n, e), λ k. omega (arith, o k))
  ]
]

-- What waits for its execution, and what executes.
abbrev pub waiting : Text → SnerdQueue → ℕ
waiting k q = occ_heaps k q.shared_pqs + occ k q.popped

abbrev pub running : Text → SnerdQueue → ℕ
running k q = occ k q.spawned + occ k q.active

abbrev pub one_if : Bool → ℕ
one_if true = 1
one_if false = 0

pub record At (k : Text) (q : SnerdQueue) : Type 0 where
  pub queued : waiting k q ≤ one_if (contains k q.queued_tasks)
  pub executing : running k q ≤ one_if (contains k q.executing_tasks)
  pub apart : one_if (contains k q.queued_tasks) + one_if (contains k q.executing_tasks) ≤ 1

pub record IsExclusive (q : SnerdQueue) : Type 0 where
  pub heaps : IsMap q.shared_pqs
  pub at : (k : Text) → At k q

queue_task-At :
    (k : Text) (t : RetryableTask) (q : SnerdQueue)
    → IsMap q.shared_pqs
    → contains t.task_id q.executing_tasks ≡ false
    → contains t.task_id q.queued_tasks ≡ false
    → At k q
    → At k (queue_task t q)
unfolding queue_task
queue_task-At k t q u ne nq h = ground (
  arith,
  h.queued,
  h.executing,
  h.apart,
  occ_heaps-insert k (pool_of t) (t ∷ heap_of (pool_of t) q) q.shared_pqs u,
  contains-insert t.task_id k tt q.queued_tasks,
)

queue_task-IsExclusive :
    (t : RetryableTask) (q : SnerdQueue) (now : ℕ)
    → is_due now t q ≡ true
    → IsExclusive q
    → IsExclusive (queue_task t q)
unfolding is_due
queue_task-IsExclusive t q now d h = record {
  heaps =
      unfold queue_task in
      insert-IsMap (pool_of t) (t ∷ heap_of (pool_of t) q) q.shared_pqs h.heaps;
  at = λ k. queue_task-At k t q h.heaps (ground arith) (ground arith) (h.at k);
}

queue_due-IsExclusive :
    (now : ℕ) (ts : List RetryableTask) (pools : Set) (q : SnerdQueue)
    → IsExclusive q
    → IsExclusive (queue_due now ts pools q).1
unfolding queue_due
queue_due-IsExclusive now [] pools q h = h
queue_due-IsExclusive now (t ∷ ts) pools q h =
    queue_due-IsExclusive now ts _ _
      (if_ind IsExclusive (is_due now t q) (λ d. queue_task-IsExclusive t q now d h) (λ _. h))

-- A step that leaves the queued and executing ids, the heaps and the futures alone.
abbrev pub SameTasks : SnerdQueue → SnerdQueue → Type 0
SameTasks q r =
    (r.shared_pqs ≡ q.shared_pqs)
    × (r.popped ≡ q.popped)
    × (r.spawned ≡ q.spawned)
    × (r.active ≡ q.active)
    × (r.queued_tasks ≡ q.queued_tasks)
    × (r.executing_tasks ≡ q.executing_tasks)

pub SameTasks-IsExclusive : (q r : SnerdQueue) → SameTasks q r → IsExclusive q → IsExclusive r
SameTasks-IsExclusive q r (a, b, c, d, e, f) h = record {
  heaps = subst IsMap (sym a) h.heaps;
  at = λ k. record {
    queued = rw (a, b, e) (h.at k).queued;
    executing = rw (c, d, f) (h.at k).executing;
    apart = rw (e, f) (h.at k).apart;
  };
}

pub start_dispatchers-SameTasks :
    (ps : List Text) (q r : SnerdQueue) → SameTasks q r → SameTasks q (start_dispatchers ps r)
unfolding start_dispatchers start_dispatcher
start_dispatchers-SameTasks [] q r h = h
start_dispatchers-SameTasks (p ∷ ps) q r h =
    start_dispatchers-SameTasks ps q _ (if_ind (SameTasks q) _ (λ _. h) (λ _. h))

pub queue_read-IsExclusive :
    (now : ℕ) (ts : List RetryableTask) (q : SnerdQueue)
    → IsExclusive q
    → IsExclusive (queue_read now ts q)
unfolding after_queueing
queue_read-IsExclusive now ts q h =
    let r = queue_due now ts [] q in
    SameTasks-IsExclusive r.1 _
      (start_dispatchers-SameTasks (keys r.0) r.1 r.1 (refl, refl, refl, refl, refl, refl))
      (queue_due-IsExclusive now ts [] q h)

pub process_due_tasks-IsExclusive :
    (e : Env) (q : SnerdQueue) → IsExclusive q → IsExclusive (process_due_tasks e q)
unfolding process_due_tasks
process_due_tasks-IsExclusive e q h =
    if_ind IsExclusive q.paused (λ _. h)
      (λ _. queue_read-IsExclusive e.now (read_tasks q.file_store) q h)

take_popped-IsExclusive :
    (pool : Text) (q : SnerdQueue) (hs : List RetryableTask)
    → heap_of pool q ≡ hs
    → IsExclusive q
    → IsExclusive (take_popped pool (Priority.pop hs) q)
unfolding take_popped Priority.pop
take_popped-IsExclusive pool q [] e h =
    SameTasks-IsExclusive q _ (refl, refl, refl, refl, refl, refl) h
take_popped-IsExclusive pool q (t ∷ ts) e h =
    let picked = Priority.pick t ts in
    record {
      heaps = insert-IsMap pool picked.1 q.shared_pqs h.heaps;
      at = λ k. record {
        queued = omega (
          arith,
          (h.at k).queued,
          occ-pick k t ts,
          ap (occ k) e,
          occ_heaps-insert k pool picked.1 q.shared_pqs h.heaps,
        );
        executing = (h.at k).executing;
        apart = (h.at k).apart;
      };
    }

pub dispatch-IsExclusive :
    (pool : Text) (q : SnerdQueue) → IsExclusive q → IsExclusive (dispatch pool q)
unfolding dispatch
dispatch-IsExclusive pool q h = take_popped-IsExclusive pool q (heap_of pool q) refl h
