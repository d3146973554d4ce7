-- ===== src/Queue/Durable.antt =====
-- What the steps of an engine of src/queue.rs do to its file store.
pub mod Live
pub mod Steps
pub mod Survives
use mathlib.Core.Option
use mathlib.Core.Option.{some-injective}
use snerdmq.FileStore.{appended}
use snerdmq.Task.{RetryableTask, mark_deleted}
use snerdmq.FileStore.{
  unreadable, refused, unsynced, blank, write_line, delete_found, Append, save_task_inner,
  compact_log, Line, delete_task, FileStore, Reading, save_task, malformed, entry, count_save,
}
use snerdmq.Base.{
  ◌⊎◌, arith, is_none, false, if_ind, Option, ap, refl, some, ◌≢◌, Text, ◌∙◌, inl, ◌∷◌, ℕ, true,
  is_some, List, inr, Bool, none, [], ◌≡◌, sym,
}
use snerdmq.Map.{contains-insert, Map, contains-remove, get, contains, get-remove, get-insert}
use snerdmq.Base.Result.{Result, IoError}
use snerdmq.FileStore.Compaction.{IsIncreasing, compact_log-IsSynced}
use snerdmq.FileStore.Replay.{
  lines, replay, delete_task-IsSynced, save_task_inner-IsSynced, SameView, durable, apply_line,
  IsSynced, apply_task,
}

abbrev pub IsLive : RetryableTask → Type 0
IsLive t = t.deleted_at ≡ none

-- A call of the store that is durable and that takes out no task with the id.
pub data Touches (k : Text) (s : FileStore) : FileStore → Type 0 where
  untouched : Touches k s s
  saves :
      (t : RetryableTask) (a : Append) (len : Option ℕ)
      → a ≢ unsynced
      → IsLive t ⊎ (t.task_id ≢ k)
      → Touches k s (save_task t a len s).1
  deletes :
      (now later : ℕ) (id : Text) (a : Append) (len : Option ℕ)
      → a ≢ unsynced
      → id ≢ k
      → Touches k s (delete_task now later id a len s).1
  rewrites :
      (writable : Bool) (r : ℕ → Reading)
      → IsIncreasing r
      → Touches k s (compact_log writable r s).1

-- A map that has each task under its own id.
abbrev IsKeyed : Map RetryableTask → Type 0
IsKeyed m = (j : Text) (t : RetryableTask) → get j m ≡ some t → t.task_id ≡ j

apply_task-IsKeyed :
    (m : Map RetryableTask) (u : RetryableTask) → IsKeyed m → IsKeyed (apply_task m u)
unfolding apply_task
apply_task-IsKeyed m u h j t e =
    ground (arith, h j t, get-insert u.task_id j u m, get-remove u.task_id j m)

replay-IsKeyed : (m : Map RetryableTask) (ls : List Line) → IsKeyed m → IsKeyed (replay m ls)
unfolding replay apply_line
replay-IsKeyed m [] h = h
replay-IsKeyed m (entry t ∷ ls) h = replay-IsKeyed (apply_task m t) ls (apply_task-IsKeyed m t h)
replay-IsKeyed m (blank ∷ ls) h = replay-IsKeyed m ls h
replay-IsKeyed m (malformed ∷ ls) h = replay-IsKeyed m ls h
replay-IsKeyed m (unreadable ∷ ls) h = replay-IsKeyed m ls h

nil-IsKeyed : IsKeyed []
unfolding get
nil-IsKeyed j t e = cc e

same_id :
    (o : Option RetryableTask) (j : Text) (t : RetryableTask)
    → Option.map durable o ≡ some (durable t)
    → ((u : RetryableTask) → o ≡ some u → u.task_id ≡ j)
    → t.task_id ≡ j
same_id none j t e h = absurd (cc e)
same_id (some u) j t e h =
    ap (λ x. x.task_id) (sym (some-injective (durable u) (durable t) e)) ∙ h u refl

-- The cache of a synced store has each task under its own id.
pub IsSynced-IsKeyed : (s : FileStore) → IsSynced s → IsKeyed s.tasks_cache
IsSynced-IsKeyed s h j t e =
    same_id (get j (replay [] (lines s))) j t (sym (h.shown j) ∙ ap (Option.map durable) e)
      (λ u f. replay-IsKeyed [] (lines s) nil-IsKeyed j u f)

abbrev pub Stores : Text → FileStore → Type 0
Stores k s = contains k s.tasks_cache ≡ true

is_some-map : (o : Option RetryableTask) → is_some (Option.map durable o) ≡ is_some o
is_some-map none = refl
is_some-map (some t) = refl

pub SameView-contains :
    (k : Text) (m n : Map RetryableTask) → SameView m n → contains k m ≡ contains k n
unfolding contains
SameView-contains k m n h = sym (is_some-map (get k m)) ∙ ap is_some (h k) ∙ is_some-map (get k n)

save-Stores :
    (k : Text) (s : FileStore) (t : RetryableTask) (check : Bool) (a : Append) (len : Option ℕ)
    → IsLive t ⊎ (t.task_id ≢ k)
    → Stores k s
    → Stores k (save_task_inner t check a len s).1
unfolding save_task_inner count_save write_line
save-Stores k s t check refused len c h = h
save-Stores k s t check unsynced len c h = h
save-Stores k s t check appended len (inl l) h =
    ground (arith, l, contains-insert t.task_id k t s.tasks_cache)
save-Stores k s t check appended len (inr n) h =
    ground (
      arith,
      contains-insert t.task_id k t s.tasks_cache,
      contains-remove t.task_id k s.tasks_cache,
    )

delete-Stores :
    (k : Text) (s : FileStore) (now later : ℕ) (id : Text) (o : Option RetryableTask) (a : Append)
    (len : Option ℕ)
    → ((t : RetryableTask) → o ≡ some t → t.task_id ≡ id)
    → id ≢ k
    → Stores k s
    → Stores k (delete_found now later o a len s).1
unfolding delete_found mark_deleted
delete-Stores k s now later id none a len key n h = h
delete-Stores k s now later id (some t) a len key n h =
    if_ind {A = Result Bool IoError × FileStore} (λ x. Stores k x.1) (is_none t.deleted_at)
      (λ _.
        save-Stores k s (mark_deleted now later t) false a len (inr (λ e. n (sym (key t refl) ∙ e)))
          h)
      (λ _. h)

pub Touches-kept :
    (k : Text) (s s' : FileStore)
    → Touches k s s'
    → IsSynced s
    → IsSynced s' × (Stores k s → Stores k s')
unfolding save_task delete_task
Touches-kept k s s' untouched h = (h, λ x. x)
Touches-kept k s s' (saves t a len d c) h =
    (save_task_inner-IsSynced t true a len s d h, save-Stores k s t true a len c)
Touches-kept k s s' (deletes now later id a len d n) h = (
  delete_task-IsSynced now later id a len s d h,
  delete-Stores k s now later id (get id s.tasks_cache) a len (λ t e. IsSynced-IsKeyed s h id t e)
      n,
)
Touches-kept k s s' (rewrites writable r up) h =
    let (synced, same) = compact_log-IsSynced writable r s up h in
    (synced, λ x. SameView-contains k _ _ same ∙ x)
