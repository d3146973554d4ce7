-- ===== src/Queue.antt =====
-- src/queue.rs: the state of a queue engine, its construction, enqueue, and the eviction of completed
-- ids. The fields that a lock guards are plain fields: each step below is what runs under its locks.
-- `popped`, `spawned` and `active` stand for the futures: the task that a dispatcher has taken from a
-- heap, the executions that are spawned, and those that await their handler or webhook.
pub mod Dispatch
pub mod Execute
pub mod Schedule
pub mod Exclusive
pub mod Stuck
pub mod Enqueue
pub mod Retry
pub mod Due
pub mod Settings
pub mod Pausing
pub mod Durable
use mathlib.Core.Option
use snerdmq.Base.{
  ℕ, ◌+◌, ◌-◌, ◌*◌, Bool, true, false, Option, none, some, List, [], ◌∷◌, if◌then◌else◌, ltb,
  is_none, Text, codes,
}
use snerdmq.Base.Result.{Result, ok, err, IoError, other}
use snerdmq.External.{External}
use snerdmq.Map.{Map, get, insert, contains}
use snerdmq.Task.{RetryableTask}
use snerdmq.FileStore.{FileStore, Append, save_task, read_tasks}
use snerdmq.RateLimiter.{LimitsFile, Effect}

abbrev pub Set : Type 0
Set = Map (Unit {0})

pub record SnerdQueue : Type 0 where
  pub file_store : FileStore
  pub limits : LimitsFile
  -- the task types that have a handler, and a handler for the last failure
  pub task_handlers : Set
  pub max_retry_handlers : Set
  pub active_hashes : Set
  pub executing_tasks : Set
  pub queued_tasks : Set
  pub completed_tasks : Map ℕ
  pub shared_pqs : Map (List RetryableTask)
  pub dispatcher_counts : Map ℕ
  pub paused : Bool
  pub popped : List RetryableTask
  pub spawned : List RetryableTask
  pub active : List RetryableTask

-- What the clocks, the file system and the external libraries answer to one step.
pub record Env : Type 0 where
  pub ext : External
  pub now : ℕ
  pub later : ℕ
  pub instant : ℕ
  pub append : Append
  pub len : Option ℕ
  pub effect : Effect

abbrev pub completed_ttl : ℕ
completed_ttl = 60 * 1_000_000_000

-- HashMap::retain with the test of evict_expired_completed. Instant::duration_since stops at zero.
unfoldable pub evict_expired_completed : Map ℕ → ℕ → ℕ → Map ℕ
evict_expired_completed [] now ttl = []
evict_expired_completed ((k, at) ∷ m) now ttl =
    let rest = evict_expired_completed m now ttl in
    if ltb (now - at) ttl then (k, at) ∷ rest else rest

unfoldable pub add_hash : RetryableTask → Set → Set
add_hash t hashes =
    if is_none t.deleted_at
    then elim t.payload_hash [ some hash ↦ insert hash tt hashes | none ↦ hashes ]
    else hashes

unfoldable pub initial_hashes : List RetryableTask → Set → Set
unfolding add_hash
initial_hashes [] hashes = hashes
initial_hashes (t ∷ ts) hashes = initial_hashes ts (add_hash t hashes)

-- new_with_pools
unfoldable pub new : FileStore → LimitsFile → SnerdQueue
unfolding initial_hashes
new file_store limits = record {
  file_store = file_store;
  limits = limits;
  task_handlers = [];
  max_retry_handlers = [];
  active_hashes = initial_hashes (read_tasks file_store) [];
  executing_tasks = [];
  queued_tasks = [];
  completed_tasks = [];
  shared_pqs = [];
  dispatcher_counts = [];
  paused = false;
  popped = [];
  spawned = [];
  active = [];
}

-- register_task_handler_arc and register_max_retry_handler_arc
unfoldable pub register_handlers : Text → SnerdQueue → SnerdQueue
register_handlers task_type q = record q {
  task_handlers = insert task_type tt q.task_handlers;
  max_retry_handlers = insert task_type tt q.max_retry_handlers;
}

unfoldable pub save : RetryableTask → Env → SnerdQueue → Result Bool IoError × SnerdQueue
save t e q =
    let (r, s) = save_task t e.append e.len q.file_store in (r, record q { file_store = s })

-- Whether the task is a duplicate, and the hashes after the test.
unfoldable pub dedupe : Option Text → Set → Bool × Set
dedupe none hashes = (false, hashes)
dedupe (some hash) hashes =
    if contains hash hashes then (true, hashes) else (false, insert hash tt hashes)

unfoldable pub accept :
    Bool × Set → RetryableTask → Env → SnerdQueue → Result Bool IoError × SnerdQueue
unfolding save
accept (true, hashes) t e q = (ok false, q)
accept (false, hashes) t e q =
    save (record t { deleted_at = none }) e (record q { active_hashes = hashes })

-- The end of an enqueue that has passed its tests: the save.
unfoldable pub store_new : RetryableTask → Env → SnerdQueue → SnerdQueue
unfolding save
store_new t e q = (save (record t { deleted_at = none }) e q).1

-- The test of the hash and its insertion, in an enqueue that has passed the test of the pause.
unfoldable pub mark : RetryableTask → SnerdQueue → SnerdQueue
unfolding dedupe
mark t q = record q { active_hashes = (dedupe t.payload_hash q.active_hashes).1 }

-- An enqueue during which nothing else happens.
-- ok tells whether the save spawned a compaction.
unfoldable pub enqueue : RetryableTask → Env → SnerdQueue → Result Bool IoError × SnerdQueue
unfolding dedupe accept
enqueue t e q =
    if q.paused
    then (err (other (codes "[Snerd] Shard is paused; enqueue rejected")), q)
    else accept (dedupe t.payload_hash q.active_hashes) t e q

-- One round of start_completed_sweeper.
unfoldable pub sweep : Env → SnerdQueue → SnerdQueue
unfolding evict_expired_completed
sweep e q = record q {
  completed_tasks = evict_expired_completed q.completed_tasks e.instant completed_ttl;
}
