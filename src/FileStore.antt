-- ===== src/FileStore.antt =====
-- src/file_store.rs: the task log and the cache of the live tasks. The state of a store is that of
-- its shared fields and of the log file. What the file system answers is an argument of each call,
-- as are the readings of the clock. An append reaches the file as a whole line or not at all.
pub mod Replay
pub mod Compaction
pub mod Restart
pub mod Stale
use mathlib.Core.Option
use snerdmq.Base.{
  ℕ, suc, ◌+◌, ◌*◌, Bool, true, false, ◌&&◌, ◌||◌, Option, none, some, List, [], ◌∷◌, ◌++◌,
  if◌then◌else◌, ltb, leb, ◌==◌, Text, is_some, is_none, length, unwrap_or,
}
use snerdmq.Base.Result.{Result, ok, err, IoError, os}
use snerdmq.Map.{Map, get, insert, remove, values}
use snerdmq.Task.{RetryableTask, mark_deleted}

-- A line of the log as serde_json reads it. An unreadable line is one that is not UTF-8 or whose
-- read fails.
pub data Line : Type 0 where
  blank malformed unreadable : Line
  entry : RetryableTask → Line

pub record FileStore : Type 0 where
  -- none: the file does not exist
  pub log : Option (List Line)
  pub total_tasks : ℕ
  pub deleted_tasks : ℕ
  pub append_count : ℕ
  pub compacting : Bool
  pub tasks_cache : Map RetryableTask

-- created_at and updated_at are not stored: each is the time at which the line is parsed.
pub record Reading : Type 0 where
  pub created : ℕ
  pub updated : ℕ

unfoldable pub parsed : Reading → RetryableTask → RetryableTask
parsed r t = record t { created_at = r.created; updated_at = r.updated }

-- The variables of rebuild_metadata's loop.
pub record Loaded : Type 0 where
  pub cache : Map RetryableTask
  pub total : ℕ
  pub deleted : ℕ
  pub appended : ℕ

unfoldable pub load_task : Loaded → RetryableTask → Loaded
load_task v t =
    if is_some t.deleted_at
    then record v {
      appended = v.appended + 1;
      deleted = v.deleted + 1;
      cache = remove t.task_id v.cache;
    }
    else record v {
      appended = v.appended + 1;
      total = v.total + 1;
      cache = insert t.task_id t v.cache;
    }

-- n counts the lines that were parsed before.
unfoldable pub load_lines : (ℕ → Reading) → ℕ → Loaded → List Line → Loaded
unfolding load_task parsed
load_lines r n v [] = v
load_lines r n v (blank ∷ ls) = load_lines r n v ls
load_lines r n v (malformed ∷ ls) = load_lines r n v ls
load_lines r n v (unreadable ∷ ls) = v
load_lines r n v (entry t ∷ ls) = load_lines r (suc n) (load_task v (parsed (r n) t)) ls

abbrev pub unloaded : Loaded
unloaded = record { cache = []; total = 0; deleted = 0; appended = 0 }

store_of : List Line → Loaded → FileStore
store_of ls v = record {
  log = some ls;
  total_tasks = v.total;
  deleted_tasks = v.deleted;
  append_count = v.appended;
  compacting = false;
  tasks_cache = v.cache;
}

-- FileStore::new with its rebuild_metadata. `openable` is whether File::open succeeds.
unfoldable pub new : Bool → (ℕ → Reading) → Option (List Line) → Result FileStore IoError
unfolding store_of
new openable r none = ok (record {
  log = none;
  total_tasks = 0;
  deleted_tasks = 0;
  append_count = 0;
  compacting = false;
  tasks_cache = [];
})
new openable r (some ls) =
    if openable then ok (store_of ls (load_lines r 0 unloaded ls)) else err os

unfoldable pub read_tasks : FileStore → List RetryableTask
read_tasks s = values s.tasks_cache

unfoldable pub get_latest_task : Text → FileStore → Option RetryableTask
get_latest_task task_id s = get task_id s.tasks_cache

-- `len` is the size of the log in bytes, if its metadata can be read. Below 2^53 tasks the quotient
-- of the two counts as f64 is above 0.5 exactly when twice the first exceeds the second.
unfoldable pub should_compact : Option ℕ → FileStore → Bool
should_compact len s =
    ltb (20 * 1024 * 1024) (unwrap_or len 0)
    || (ltb 0 s.total_tasks && ltb s.total_tasks (2 * s.deleted_tasks))
    || leb 10000 s.append_count

-- How the append of one line ends: it reaches the file; it fails before the file changes; the line
-- reaches the file and sync_all fails.
pub data Append : Type 0 where
  appended refused unsynced : Append

unfoldable pub write_line : RetryableTask → FileStore → FileStore
write_line t s = record s { log = some (unwrap_or s.log [] ++ entry t ∷ []) }

unfoldable pub count_save : RetryableTask → FileStore → FileStore
count_save t s =
    if is_some t.deleted_at
    then record s {
      tasks_cache = remove t.task_id s.tasks_cache;
      append_count = s.append_count + 1;
      deleted_tasks = s.deleted_tasks + 1;
    }
    else record s {
      tasks_cache = insert t.task_id t s.tasks_cache;
      append_count = s.append_count + 1;
      total_tasks = s.total_tasks + 1;
    }

-- The value returned tells whether a compaction was spawned.
unfoldable pub save_task_inner :
    RetryableTask → Bool → Append → Option ℕ → FileStore → Result Bool IoError × FileStore
unfolding write_line count_save should_compact
save_task_inner t check_compact refused len s = (err os, s)
save_task_inner t check_compact unsynced len s = (err os, write_line t s)
save_task_inner t check_compact appended len s =
    let s' = count_save t (write_line t s) in (ok (check_compact && should_compact len s'), s')

unfoldable pub save_task :
    RetryableTask → Append → Option ℕ → FileStore → Result Bool IoError × FileStore
unfolding save_task_inner
save_task t = save_task_inner t true

unfoldable pub delete_found :
    ℕ → ℕ → Option RetryableTask → Append → Option ℕ → FileStore → Result Bool IoError × FileStore
unfolding save_task_inner mark_deleted
delete_found now later none a len s = (ok false, s)
delete_found now later (some t) a len s =
    if is_none t.deleted_at
    then save_task_inner (mark_deleted now later t) false a len s
    else (ok false, s)

-- The two times are the readings of mark_deleted.
unfoldable pub delete_task :
    ℕ → ℕ → Text → Append → Option ℕ → FileStore → Result Bool IoError × FileStore
unfolding delete_found get
delete_task now later task_id a len s = delete_found now later (get task_id s.tasks_cache) a len s

-- A line's task enters the map of a compaction if the id is new or the task is newer.
unfoldable pub compact_task : Map RetryableTask → RetryableTask → Map RetryableTask
compact_task m t = if is_some t.deleted_at then remove t.task_id m else elim (get t.task_id m) [
  | some existing ↦ if ltb existing.updated_at t.updated_at then insert t.task_id t m else m
  | none ↦ insert t.task_id t m
]

unfoldable pub compact_lines : (ℕ → Reading) → ℕ → Map RetryableTask → List Line → Map RetryableTask
unfolding compact_task parsed
compact_lines r n m [] = m
compact_lines r n m (blank ∷ ls) = compact_lines r n m ls
compact_lines r n m (malformed ∷ ls) = compact_lines r n m ls
compact_lines r n m (unreadable ∷ ls) = m
compact_lines r n m (entry t ∷ ls) = compact_lines r (suc n) (compact_task m (parsed (r n) t)) ls

unfoldable pub entries : List RetryableTask → List Line
entries [] = []
entries (t ∷ ts) = entry t ∷ entries ts

pub compacted : Map RetryableTask → FileStore → FileStore
unfolding entries values
compacted m s = record s {
  log = some (entries (values m));
  total_tasks = length m;
  deleted_tasks = 0;
  append_count = 0;
  compacting = false;
  tasks_cache = m;
}

compact_file :
    Bool → (ℕ → Reading) → Option (List Line) → FileStore → Result (Unit {0}) IoError × FileStore
unfolding compacted compact_lines
compact_file writable r none s = (err os, s)
compact_file writable r (some ls) s =
    if writable then (ok tt, compacted (compact_lines r 0 [] ls) s) else (err os, s)

-- `writable` is whether every step from opening the log to the rename succeeds.
unfoldable pub compact_log :
    Bool → (ℕ → Reading) → FileStore → Result (Unit {0}) IoError × FileStore
unfolding compact_file
compact_log writable r s = if s.compacting then (ok tt, s) else compact_file writable r s.log s
