-- ===== src/FileStore/Stale.antt =====
-- compact_log of src/file_store.rs where the clock does not go forward between two lines.
use snerdmq.Task.{RetryableTask}
use snerdmq.Base.{some, none, ℕ, ◌≤◌, ◌∷◌, arith, ◌≡◌, []}
use snerdmq.Map.{remove, insert, get}
use snerdmq.FileStore.{
  load_lines, unloaded, load_task, compact_task, entry, compact_lines, parsed, Reading,
}
use snerdmq.FileStore.Replay.{view, durable}

-- If the clock reads no later for the second line of a task than for the first, compaction keeps the
-- first line and drops the second, while a restart on the same lines reads the second.
pub compact_lines-stale :
    (r : ℕ → Reading) (t u : RetryableTask)
    → u.task_id ≡ t.task_id
    → t.deleted_at ≡ none
    → u.deleted_at ≡ none
    → (r 1).updated ≤ (r 0).updated
    → (view (compact_lines r 0 [] (entry t ∷ entry u ∷ [])) t.task_id ≡ some (durable t))
      × (view (load_lines r 0 unloaded (entry t ∷ entry u ∷ [])).cache t.task_id ≡ some (durable u))
unfolding compact_lines compact_task load_lines load_task parsed get insert remove
compact_lines-stale r t u same live live' le = (ground arith, ground arith)
