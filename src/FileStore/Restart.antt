-- ===== src/FileStore/Restart.antt =====
-- A restart of the daemon: FileStore::new on the log that a store has left behind, after any calls
-- of src/file_store.rs.
use snerdmq.Task.{RetryableTask}
use snerdmq.Base.{
  false, subst, Option, sym, [], All, unwrap_or, ◌∙◌, ◌≢◌, List, true, some, Text, refl, ◌∷◌, Bool,
  ◌≡◌, ℕ, none, ap,
}
use snerdmq.FileStore.{
  new, FileStore, Reading, Line, delete_task, unsynced, compact_log, save_task, Append,
}
use snerdmq.Base.Result.{ok}
use snerdmq.FileStore.Compaction.{IsIncreasing, compact_log-IsSynced}
use snerdmq.FileStore.Replay.{
  IsReadable, save_task_inner-IsSynced, new-IsSynced, delete_task-IsSynced, IsSynced, SameView,
  replay, lines, view,
}

-- A call with what the file system and the clock answer to it.
pub data Call : Type 0 where
  saves : RetryableTask → Append → Option ℕ → Call
  deletes : ℕ → ℕ → Text → Append → Option ℕ → Call
  compacts : Bool → (ℕ → Reading) → Call

-- No append fails after its line is written, and the clock goes forward during a compaction.
abbrev pub IsDurable : Call → Type 0
IsDurable (saves t a len) = a ≢ unsynced
IsDurable (deletes now later id a len) = a ≢ unsynced
IsDurable (compacts writable r) = IsIncreasing r

unfoldable pub call : FileStore → Call → FileStore
call s (saves t a len) = (save_task t a len s).1
call s (deletes now later id a len) = (delete_task now later id a len s).1
call s (compacts writable r) = (compact_log writable r s).1

unfoldable pub run : FileStore → List Call → FileStore
unfolding call
run s [] = s
run s (c ∷ cs) = run (call s c) cs

call-IsSynced : (s : FileStore) (c : Call) → IsDurable c → IsSynced s → IsSynced (call s c)
unfolding call save_task
call-IsSynced s (saves t a len) d h = save_task_inner-IsSynced t true a len s d h
call-IsSynced s (deletes now later id a len) d h = delete_task-IsSynced now later id a len s d h
call-IsSynced s (compacts writable r) d h = (compact_log-IsSynced writable r s d h).0

pub run-IsSynced :
    (s : FileStore) (cs : List Call) → All IsDurable cs → IsSynced s → IsSynced (run s cs)
unfolding run
run-IsSynced s [] d h = h
run-IsSynced s (c ∷ cs) d h = run-IsSynced (call s c) cs d.1 (call-IsSynced s c d.0 h)

-- Synced stores with the same lines show the same tasks.
SameView-of_lines :
    (a b : FileStore)
    → lines a ≡ lines b
    → IsSynced a
    → IsSynced b
    → SameView a.tasks_cache b.tasks_cache
SameView-of_lines a b e ha hb k = ha.shown k ∙ ap (λ ls. view (replay [] ls) k) e ∙ sym (hb.shown k)

abbrev pub fresh : FileStore
fresh = record {
  log = none;
  total_tasks = 0;
  deleted_tasks = 0;
  append_count = 0;
  compacting = false;
  tasks_cache = [];
}

pub fresh-IsSynced : IsSynced fresh
unfolding replay
fresh-IsSynced = record { shown = λ k. refl; readable = tt }

pub restart_of_synced :
    (r : ℕ → Reading) (s : FileStore) (o : Option (List Line))
    → o ≡ s.log
    → IsSynced s
    → (s' : FileStore) × (new true r o ≡ ok s') × SameView s'.tasks_cache s.tasks_cache
restart_of_synced r s none e h =
    let same : lines fresh ≡ lines s = ap (λ o. unwrap_or o []) e in
    (fresh, unfold new in refl, SameView-of_lines fresh s same fresh-IsSynced h)
restart_of_synced r s (some ls) e h =
    let loaded =
      new-IsSynced r ls (subst (λ o. All IsReadable (unwrap_or o [])) (sym e) h.readable) in
    let same : lines loaded.0 ≡ lines s = ap (λ o. unwrap_or o []) (loaded.2 ∙ e) in
    (loaded.0, loaded.1, SameView-of_lines loaded.0 s same loaded.3 h)

-- A store whose cache shows its readable log keeps doing so through any durable calls: after them a
-- restart succeeds and shows the same tasks.
pub restart_lem :
    (r : ℕ → Reading) (s : FileStore) (cs : List Call)
    → All IsDurable cs
    → IsSynced s
    → (s' : FileStore) × (new true r (run s cs).log ≡ ok s')
      × SameView s'.tasks_cache (run s cs).tasks_cache
restart_lem r s cs d h = restart_of_synced r (run s cs) (run s cs).log refl (run-IsSynced s cs d h)
