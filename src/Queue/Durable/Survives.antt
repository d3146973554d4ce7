-- ===== src/Queue/Durable/Survives.antt =====
-- What a crash of the process leaves of the tasks that an engine of src/queue.rs has accepted.
use snerdmq.Queue
use snerdmq.FileStore
use snerdmq.FileStore.{appended, refused, unsynced}
use snerdmq.Queue.Schedule.{marks, saves_new, queues, run, compacts}
use snerdmq.Queue.Durable.Live.{IsDurable}
use snerdmq.Queue.{new, enqueue, SnerdQueue, accept, save, Set, Env, dedupe}
use snerdmq.Task.{RetryableTask}
use snerdmq.RateLimiter.{LimitsFile}
use snerdmq.Base.{
  ◌≢◌, Option, if_ind, inr, inl, [], ◌⊎◌, true, length, none, List, false, All, ◌≡◌, ap, arith, ℕ,
  Text, ◌∷◌, ◌∙◌, refl, Bool,
}
use snerdmq.Map.{contains-insert, get}
use snerdmq.FileStore.{
  write_line, Append, save_task, save_task_inner, Reading, count_save, FileStore,
}
use snerdmq.Queue.Durable.{SameView-contains, IsLive, Touches-kept, Stores}
use snerdmq.Queue.Schedule.{
  Event, settles, registers, dispatches, sweeps, ticks, step, begins, pauses, enqueues, finishes,
}
use snerdmq.Queue.Durable.Live.{enqueue-Kept}
use snerdmq.Queue.Durable.Steps.{step-Kept, run-Kept, IsSound}
use snerdmq.Base.Result.{IoError, ok, Result}
use snerdmq.FileStore.Compaction.{IsIncreasing}
use snerdmq.FileStore.Replay.{SameView, IsSynced}
use snerdmq.FileStore.Restart.{restart_of_synced}

-- The calls of the store in a step are durable.
abbrev pub IsDurableStep : Event → Type 0
IsDurableStep (enqueues t e) = e.append ≢ unsynced
IsDurableStep (ticks e) = Unit
IsDurableStep (sweeps e) = Unit
IsDurableStep (dispatches pool) = Unit
IsDurableStep (settles e id) = e.append ≢ unsynced
IsDurableStep (begins id) = Unit
IsDurableStep (finishes e id r) = e.append ≢ unsynced
IsDurableStep (compacts writable r) = IsIncreasing r
IsDurableStep (registers task_type) = Unit
IsDurableStep pauses = Unit
IsDurableStep (queues now ts) = Unit
IsDurableStep (marks t) = Unit
IsDurableStep (saves_new t e) = e.append ≢ unsynced

longer : (n : ℕ) (id : Text) → id ≢ n ∷ id
longer n id e = let same = ap length e in absurd (omega (arith, same))

-- An id whose execution does not end with the step.
other_than : Event → Text
other_than (finishes e id r) = 0 ∷ id
other_than v = []

other_than-IsDurable : (v : Event) → IsDurableStep v → IsDurable (other_than v) v
unfolding other_than
other_than-IsDurable (enqueues t e) d = d
other_than-IsDurable (ticks e) d = d
other_than-IsDurable (sweeps e) d = d
other_than-IsDurable (dispatches pool) d = d
other_than-IsDurable (settles e id) d = d
other_than-IsDurable (begins id) d = d
other_than-IsDurable (finishes e id r) d = (d, longer 0 id)
other_than-IsDurable (compacts writable r) d = d
other_than-IsDurable (registers task_type) d = d
other_than-IsDurable pauses d = d
other_than-IsDurable (queues now ts) d = d
other_than-IsDurable (marks t) d = d
other_than-IsDurable (saves_new t e) d = d

run-IsSound :
    (q : SnerdQueue) (vs : List Event) → All IsDurableStep vs → IsSound q → IsSound (run q vs)
unfolding run
run-IsSound q [] d h = h
run-IsSound q (v ∷ vs) d h =
    let k = other_than v in
    let (live, touches) = step-Kept k q v (other_than-IsDurable v d.0) h.0 in
    let (synced, stores) = Touches-kept k q.file_store (step q v).file_store touches h.1 in
    run-IsSound (step q v) vs d.1 (live, synced)

new-IsSound : (s : FileStore) (limits : LimitsFile) → IsSynced s → IsSound (Queue.new s limits)
unfolding Queue.new get
new-IsSound s limits h = (record { heaps = λ pool. tt; popped = tt }, h)

saved-Stores :
    (t : RetryableTask) (a : Append) (len : Option ℕ) (s : FileStore) (b : Bool)
    → IsLive t
    → (save_task t a len s).0 ≡ ok b
    → Stores t.task_id (save_task t a len s).1
unfolding save_task save_task_inner count_save write_line
saved-Stores t appended len s b l e =
    ground (arith, l, contains-insert t.task_id t.task_id t s.tasks_cache)
saved-Stores t refused len s b l e = absurd (cc e)
saved-Stores t unsynced len s b l e = absurd (cc e)

-- Whether the task is dropped as a duplicate.
abbrev pub IsDuplicate : RetryableTask → SnerdQueue → Type 0
IsDuplicate t q = (dedupe t.payload_hash q.active_hashes).0 ≡ true

accept-Stores :
    (d : Bool × Set) (t : RetryableTask) (e : Env) (q : SnerdQueue) (b : Bool)
    → (accept d t e q).0 ≡ ok b
    → (d.0 ≡ true) ⊎ Stores t.task_id (accept d t e q).1.file_store
unfolding accept save
accept-Stores (true, hashes) t e q b o = inl refl
accept-Stores (false, hashes) t e q b o =
    inr (saved-Stores (record t { deleted_at = none }) e.append e.len q.file_store b refl o)

enqueue-Stores :
    (t : RetryableTask) (e : Env) (q : SnerdQueue) (b : Bool)
    → (enqueue t e q).0 ≡ ok b
    → IsDuplicate t q ⊎ Stores t.task_id (enqueue t e q).1.file_store
unfolding enqueue
enqueue-Stores t e q b =
    if_ind {A = Result Bool IoError × SnerdQueue}
      (λ x. x.0 ≡ ok b → IsDuplicate t q ⊎ Stores t.task_id x.1.file_store) q.paused
      (λ _ o. absurd (cc o))
      (λ _ o. accept-Stores (dedupe t.payload_hash q.active_hashes) t e q b o)

-- Where no append fails after its line is written and the clock goes forward in every compaction: if
-- an enqueue succeeds on an engine that was made on a synced store, whatever the futures of the engine
-- did before, then at any time after it until an execution of the task's id ends, whatever else they do,
-- FileStore::new on the log succeeds, shows the tasks of the engine's store, and has a live task with
-- the id; only a duplicate is not stored.
pub accepted_survives :
    (s : FileStore) (limits : LimitsFile) (before after : List Event) (t : RetryableTask) (e : Env)
    (b : Bool) (r : ℕ → Reading)
    → IsSynced s
    → All IsDurableStep before
    → e.append ≢ unsynced
    → (enqueue t e (run (Queue.new s limits) before)).0 ≡ ok b
    → All (IsDurable t.task_id) after
    → let q = run (Queue.new s limits) before in
      let u = run (enqueue t e q).1 after in
      (s' : FileStore) × (FileStore.new true r u.file_store.log ≡ ok s')
      × SameView s'.tasks_cache u.file_store.tasks_cache
      × (IsDuplicate t q ⊎ Stores t.task_id s')
accepted_survives s limits before after t e b r h db da o dc =
    let q = run (Queue.new s limits) before in
    let q' = (enqueue t e q).1 in
    let u = run q' after in
    let sound = run-IsSound (Queue.new s limits) before db (new-IsSound s limits h) in
    let (live, touches) = enqueue-Kept t.task_id t e q da sound.0 in
    let (synced, stores) = Touches-kept t.task_id q.file_store q'.file_store touches sound.1 in
    let (sound', kept) = run-Kept t.task_id q' after dc (live, synced) in
    let (s', made, same) = restart_of_synced r u.file_store u.file_store.log refl sound'.1 in
    (
      s',
      made,
      same,
      (elim (enqueue-Stores t e q b o) [
        | inl duplicate ↦ inl duplicate
        | inr stored ↦
            inr (
              SameView-contains t.task_id s'.tasks_cache u.file_store.tasks_cache same
              ∙ kept stored)
      ]),
    )
