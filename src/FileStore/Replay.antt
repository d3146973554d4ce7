-- ===== src/FileStore/Replay.antt =====
-- What the log of src/file_store.rs means: the live tasks that its lines leave, whatever the clock
-- read when they were parsed.
use mathlib.Core.Option
use snerdmq.Base.{
  is_none, none, Bool-cases, false, Bool, ◌≢◌, inr, inl, All-append, some, true, ℕ, suc, unwrap_or,
  All, ◌≡◌, refl, ap, Option, List, [], ◌∷◌, ◌++◌, if◌then◌else◌, Text, is_some, arith,
}
use snerdmq.Map.{Map, get, insert, remove, get-insert, get-remove}
use snerdmq.Task.{mark_deleted, RetryableTask}
use snerdmq.FileStore.{
  appended, save_task_inner, delete_found, refused, Append, delete_task, unsynced, write_line,
  count_save, store_of, new, load_task, load_lines, Reading, unloaded, parsed, Loaded, FileStore,
  Line, blank, malformed, unreadable, entry,
}
use snerdmq.Base.Result.{ok}

-- What survives a restart of a task.
abbrev pub durable : RetryableTask → RetryableTask
durable t = record t { created_at = 0; updated_at = 0 }

abbrev pub view : Map RetryableTask → Text → Option RetryableTask
view m k = Option.map durable (get k m)

-- Two maps that show the same tasks.
abbrev pub SameView : Map RetryableTask → Map RetryableTask → Type 0
SameView m n = (k : Text) → view m k ≡ view n k

-- The log read forward: the last line of each id counts, and a tombstone removes the id.
unfoldable pub apply_task : Map RetryableTask → RetryableTask → Map RetryableTask
apply_task m t = if is_some t.deleted_at then remove t.task_id m else insert t.task_id t m

unfoldable pub apply_line : Map RetryableTask → Line → Map RetryableTask
unfolding apply_task
apply_line m (entry t) = apply_task m t
apply_line m blank = m
apply_line m malformed = m
apply_line m unreadable = m

unfoldable pub replay : Map RetryableTask → List Line → Map RetryableTask
unfolding apply_line
replay m [] = m
replay m (l ∷ ls) = replay (apply_line m l) ls

pub replay-append :
    (m : Map RetryableTask) (ls : List Line) (l : Line)
    → replay m (ls ++ l ∷ []) ≡ apply_line (replay m ls) l
unfolding replay
replay-append m [] l = refl
replay-append m (x ∷ ls) l = replay-append (apply_line m x) ls l

abbrev pub IsReadable : Line → Type 0
IsReadable unreadable = ⊥
IsReadable _ = Unit

-- A task and its parsed line do the same to maps that show the same tasks.
pub apply_task-SameView :
    (m n : Map RetryableTask) (t u : RetryableTask)
    → durable t ≡ durable u
    → SameView m n
    → SameView (apply_task m t) (apply_task n u)
unfolding apply_task
apply_task-SameView m n t u e h k = ground (
  arith,
  h k,
  ap (λ (x : RetryableTask). x.task_id) e,
  ap (λ (x : RetryableTask). x.deleted_at) e,
  get-insert t.task_id k t m,
  get-insert u.task_id k u n,
  get-remove t.task_id k m,
  get-remove u.task_id k n,
)

pub durable-parsed : (r : Reading) (t : RetryableTask) → durable (parsed r t) ≡ durable t
unfolding parsed
durable-parsed r t = refl

cache-load_task : (v : Loaded) (t : RetryableTask) → (load_task v t).cache ≡ apply_task v.cache t
unfolding load_task apply_task
cache-load_task v t = ground arith

-- Whatever the clock read, loading the lines shows what they mean.
pub load_lines-replay :
    (r : ℕ → Reading) (n : ℕ) (v : Loaded) (m : Map RetryableTask) (ls : List Line)
    → All IsReadable ls
    → SameView v.cache m
    → SameView (load_lines r n v ls).cache (replay m ls)
unfolding load_lines replay
load_lines-replay r n v m [] a h = h
load_lines-replay r n v m (blank ∷ ls) a h = load_lines-replay r n v m ls a.1 h
load_lines-replay r n v m (malformed ∷ ls) a h = load_lines-replay r n v m ls a.1 h
load_lines-replay r n v m (unreadable ∷ ls) a h = absurd a.0
load_lines-replay r n v m (entry t ∷ ls) a h =
    load_lines-replay r (suc n) (load_task v (parsed (r n) t)) (apply_task m t) ls a.1 (
      rw (cache-load_task v (parsed (r n) t))
        (apply_task-SameView v.cache m (parsed (r n) t) t (durable-parsed (r n) t) h))

abbrev pub lines : FileStore → List Line
lines s = unwrap_or s.log []

-- The cache shows what the log means, and every line of the log can be read.
pub record IsSynced (s : FileStore) : Type 0 where
  pub shown : SameView s.tasks_cache (replay [] (lines s))
  pub readable : All IsReadable (lines s)

-- A new store is synced with the log that it reads.
pub new-IsSynced :
    (r : ℕ → Reading) (ls : List Line)
    → All IsReadable ls
    → (s : FileStore) × (new true r (some ls) ≡ ok s) × (s.log ≡ some ls) × IsSynced s
unfolding new
new-IsSynced r ls a = (
  store_of ls (load_lines r 0 unloaded ls),
  refl,
  unfold store_of in refl,
  unfold store_of in
      record { shown = load_lines-replay r 0 unloaded [] ls a (λ k. refl); readable = a },
)

cache-count_save :
    (t : RetryableTask) (s : FileStore)
    → ((count_save t s).tasks_cache ≡ apply_task s.tasks_cache t) × ((count_save t s).log ≡ s.log)
unfolding count_save apply_task
cache-count_save t s = ground arith

pub saved-IsSynced :
    (t : RetryableTask) (s : FileStore) → IsSynced s → IsSynced (count_save t (write_line t s))
unfolding write_line
saved-IsSynced t s h = record {
  shown =
      rw ((cache-count_save t (write_line t s)).0, (cache-count_save t (write_line t s)).1)
        (rw replay-append (
          unfold apply_line in
          apply_task-SameView s.tasks_cache (replay [] (lines s)) t t refl h.shown));
  readable =
      rw ((cache-count_save t (write_line t s)).1)
        (All-append IsReadable (lines s) (entry t ∷ []) h.readable (tt, tt));
}

pub save_task_inner-IsSynced :
    (t : RetryableTask) (check : Bool) (a : Append) (len : Option ℕ) (s : FileStore)
    → a ≢ unsynced
    → IsSynced s
    → IsSynced (save_task_inner t check a len s).1
unfolding save_task_inner
save_task_inner-IsSynced t check appended len s n h = saved-IsSynced t s h
save_task_inner-IsSynced t check refused len s n h = h
save_task_inner-IsSynced t check unsynced len s n h = absurd (n refl)

delete_found-IsSynced :
    (now later : ℕ) (o : Option RetryableTask) (a : Append) (len : Option ℕ) (s : FileStore)
    → a ≢ unsynced
    → IsSynced s
    → IsSynced (delete_found now later o a len s).1
unfolding delete_found
delete_found-IsSynced now later none a len s n h = h
delete_found-IsSynced now later (some t) a len s n h = elim (Bool-cases (is_none t.deleted_at)) [
  | inl live ↦ rw live (save_task_inner-IsSynced (mark_deleted now later t) false a len s n h)
  | inr gone ↦ rw gone h
]

pub delete_task-IsSynced :
    (now later : ℕ) (id : Text) (a : Append) (len : Option ℕ) (s : FileStore)
    → a ≢ unsynced
    → IsSynced s
    → IsSynced (delete_task now later id a len s).1
unfolding delete_task
delete_task-IsSynced now later id a len s n h =
    delete_found-IsSynced now later (get id s.tasks_cache) a len s n h
