-- ===== src/FileStore/Compaction.antt =====
-- compact_log of src/file_store.rs against the meaning of the log, by the clock that the lines are
-- parsed with.
use snerdmq.Task.{RetryableTask}
use snerdmq.Base.{
  if_ind, false, true, unwrap_or, sym, ap, Bool, ◌∷◌, List, arith, some, none, inl, All, inr, refl,
  ◌∙◌, Text, Option-cases, ℕ, ◌<◌, suc, ◌≡◌, Option, [],
}
use snerdmq.Map.{Map, insert, remove, get-remove_self, get-insert, values, get, get-remove}
use snerdmq.FileStore.{
  compact_file, compact_log, entry, malformed, unreadable, compact_lines, parsed, compacted,
  entries, Line, Reading, blank, FileStore, compact_task,
}
use snerdmq.FileStore.Replay.{
  durable-parsed, lines, apply_task-SameView, apply_task, IsSynced, replay, apply_line, IsReadable,
  SameView,
}
use snerdmq.Base.Result.{IoError, Result}

-- Each reading of the clock is later than the one before.
abbrev pub IsIncreasing : (ℕ → Reading) → Type 0
IsIncreasing r = (n : ℕ) → (r n).updated < (r (suc n)).updated

abbrev Below : Map RetryableTask → ℕ → Type 0
Below m b = (k : Text) (t : RetryableTask) → get k m ≡ some t → t.updated_at < b

-- A task that is newer than all in the map always enters it.
compact_task_newer :
    (m : Map RetryableTask) (t : RetryableTask)
    → Below m t.updated_at
    → compact_task m t ≡ apply_task m t
unfolding compact_task apply_task
compact_task_newer m t h = elim (Option-cases (get t.task_id m)) [
  | inl e ↦ rw e
  | inr (x, e) ↦ rw e (ground (arith, h t.task_id x e))
]

apply_task-Below :
    (m : Map RetryableTask) (t : RetryableTask) (b : ℕ)
    → Below m t.updated_at
    → t.updated_at < b
    → Below (apply_task m t) b
unfolding apply_task
apply_task-Below m t b h l k x e =
    ground (arith, h k x, get-insert t.task_id k t m, get-remove t.task_id k m)

compact_lines-replay :
    (r : ℕ → Reading) (n : ℕ) (m m' : Map RetryableTask) (ls : List Line)
    → IsIncreasing r
    → Below m (r n).updated
    → All IsReadable ls
    → SameView m m'
    → SameView (compact_lines r n m ls) (replay m' ls)
unfolding compact_lines replay
compact_lines-replay r n m m' [] up b a h = h
compact_lines-replay r n m m' (blank ∷ ls) up b a h = compact_lines-replay r n m m' ls up b a.1 h
compact_lines-replay r n m m' (malformed ∷ ls) up b a h =
    compact_lines-replay r n m m' ls up b a.1 h
compact_lines-replay r n m m' (unreadable ∷ ls) up b a h = absurd a.0
compact_lines-replay r n m m' (entry t ∷ ls) up b a h =
    rw (compact_task_newer m (parsed (r n) t) (unfold parsed in b)) (
      compact_lines-replay r (suc n) (apply_task m (parsed (r n) t)) (apply_task m' t) ls up
        (apply_task-Below m (parsed (r n) t) (r (suc n)).updated (unfold parsed in b)
          (unfold parsed in up n))
        a.1 (apply_task-SameView m m' (parsed (r n) t) t (durable-parsed (r n) t) h))

-- Each id has one task, its own, which is not deleted.
abbrev pub IsTaskMap : Map RetryableTask → Type 0
IsTaskMap [] = Unit {0}
IsTaskMap ((k, t) ∷ m) = (get k m ≡ none) × (k ≡ t.task_id) × (t.deleted_at ≡ none) × IsTaskMap m

remove-IsTaskMap : (k : Text) (m : Map RetryableTask) → IsTaskMap m → IsTaskMap (remove k m)
unfolding get remove
remove-IsTaskMap k [] h = tt
remove-IsTaskMap k ((j, t) ∷ m) h = ground (arith, remove-IsTaskMap k m h.3, get-remove k j m)

insert-IsTaskMap :
    (t : RetryableTask) (m : Map RetryableTask)
    → t.deleted_at ≡ none
    → IsTaskMap m
    → IsTaskMap (insert t.task_id t m)
unfolding insert
insert-IsTaskMap t m l h = (get-remove_self t.task_id m, refl, l, remove-IsTaskMap t.task_id m h)

pub compact_task-IsTaskMap :
    (m : Map RetryableTask) (t : RetryableTask) → IsTaskMap m → IsTaskMap (compact_task m t)
unfolding compact_task
compact_task-IsTaskMap m t h = elim (Option-cases t.deleted_at) [
  | inl live ↦ rw live (ground (arith, insert-IsTaskMap t m live h))
  | inr (d, gone) ↦ rw gone (remove-IsTaskMap t.task_id m h)
]

compact_lines-IsTaskMap :
    (r : ℕ → Reading) (n : ℕ) (m : Map RetryableTask) (ls : List Line)
    → IsTaskMap m
    → IsTaskMap (compact_lines r n m ls)
unfolding compact_lines
compact_lines-IsTaskMap r n m [] h = h
compact_lines-IsTaskMap r n m (blank ∷ ls) h = compact_lines-IsTaskMap r n m ls h
compact_lines-IsTaskMap r n m (malformed ∷ ls) h = compact_lines-IsTaskMap r n m ls h
compact_lines-IsTaskMap r n m (unreadable ∷ ls) h = h
compact_lines-IsTaskMap r n m (entry t ∷ ls) h =
    compact_lines-IsTaskMap r (suc n) _ ls (compact_task-IsTaskMap m (parsed (r n) t) h)

abbrev or_else : Option RetryableTask → Option RetryableTask → Option RetryableTask
or_else (some t) o = some t
or_else none o = o

apply_task_live :
    (m : Map RetryableTask) (t : RetryableTask)
    → t.deleted_at ≡ none
    → apply_task m t ≡ insert t.task_id t m
unfolding apply_task
apply_task_live m t e = ground arith

-- A log that is written from a map means that map, over what was there before.
get-replay-entries :
    (k : Text) (n m : Map RetryableTask)
    → IsTaskMap m
    → get k (replay n (entries (values m))) ≡ or_else (get k m) (get k n)
unfolding replay entries values get apply_line
get-replay-entries k n [] h = refl
get-replay-entries k n ((j, t) ∷ m) h =
    ap (λ x. get k (replay x (entries (values m)))) (apply_task_live n t h.2)
    ∙ get-replay-entries k (insert t.task_id t n) m h.3
    ∙ ground (arith, get-insert t.task_id k t n, h.0, h.1)

entries-IsReadable : (ts : List RetryableTask) → All IsReadable (entries ts)
unfolding entries
entries-IsReadable [] = tt
entries-IsReadable (t ∷ ts) = (tt, entries-IsReadable ts)

compacted-IsSynced :
    (m : Map RetryableTask) (s : FileStore) → IsTaskMap m → IsSynced (compacted m s)
unfolding compacted
compacted-IsSynced m s h = record {
  shown = λ k. rw (get-replay-entries k [] m h) (unfold get in ground arith);
  readable = entries-IsReadable (values m);
}

Below-nil : (b : ℕ) → Below [] b
unfolding get
Below-nil b k t p = ground arith

compact_file-IsSynced :
    (writable : Bool) (r : ℕ → Reading) (o : Option (List Line)) (s : FileStore)
    → IsIncreasing r
    → o ≡ s.log
    → IsSynced s
    → IsSynced (compact_file writable r o s).1
      × SameView (compact_file writable r o s).1.tasks_cache s.tasks_cache
unfolding compact_file
compact_file-IsSynced writable r none s up e h = (h, λ k. refl)
compact_file-IsSynced false r (some ls) s up e h = (h, λ k. refl)
compact_file-IsSynced true r (some ls) s up e h =
    let same : lines s ≡ ls = cc (ap (λ o. unwrap_or o []) e) in
    (
      compacted-IsSynced (compact_lines r 0 [] ls) s (compact_lines-IsTaskMap r 0 [] ls tt),
      λ k.
          unfold compacted in
          compact_lines-replay r 0 [] [] ls up (Below-nil (r 0).updated) (rw same at h.readable)
            (λ j. refl) k
          ∙ sym (rw same at (h.shown k)),
    )

-- With a clock that goes forward, compaction keeps a synced store synced, and shows the same tasks.
pub compact_log-IsSynced :
    (writable : Bool) (r : ℕ → Reading) (s : FileStore)
    → IsIncreasing r
    → IsSynced s
    → IsSynced (compact_log writable r s).1
      × SameView (compact_log writable r s).1.tasks_cache s.tasks_cache
unfolding compact_log
compact_log-IsSynced writable r s up h =
    if_ind
      (λ (x : Result (Unit {0}) IoError × FileStore).
        IsSynced x.1 × SameView x.1.tasks_cache s.tasks_cache)
      s.compacting (λ busy. (h, λ k. refl))
      (λ idle. compact_file-IsSynced writable r s.log s up refl h)
