-- ===== src/Tests/Storage.antt =====
-- Runs of the file store and of the commands that read its log.
use snerdmq.FileStore
use snerdmq.FileStore.{
  new, unloaded, save_task, count_save, delete_task, entry, parsed, Reading, save_task_inner,
  write_line, compact_log, compact_lines, FileStore, load_lines, Line, appended, refused, unsynced,
}
use snerdmq.Task.{RetryableTask, mark_deleted}
use snerdmq.Membership.{valid}
use snerdmq.Base.{List, true, [], ◌∷◌, arith, ◌↔◌, ◌≢◌, ◌≡◌, codes, some, ◌⊎◌, false, ℕ, refl, In}
use snerdmq.Map.{get, insert}
use snerdmq.Cli.{replay_shard, recovered, latest_state, cmd_validate}
use snerdmq.FileStore.Restart.{
  compacts, run, restart_lem, deletes, saves, Call, call, fresh-IsSynced, fresh,
}
use snerdmq.Tests.Data.{mail, two_shards, clock, io_ok}
use snerdmq.Base.Result.{ok}
use snerdmq.FileStore.Compaction.{IsIncreasing}
use snerdmq.FileStore.Stale.{compact_lines-stale}
use snerdmq.FileStore.Replay.{SameView, durable, view}
use snerdmq.Cli.Health.{HasOrphan, cmd_validate-false, HasBadShard}
use snerdmq.Cli.Replay.{replay_after_success}

-- A failed retry of the first task, and its later success.
abbrev failed_once : RetryableTask
failed_once = record (mail (codes "a")) { last_error_obj = some (codes "no") }

abbrev calls : List Call
calls =
    saves (mail (codes "a")) appended (some 0)
    ∷ saves (mail (codes "b")) appended (some 0)
    ∷ deletes 1 2 (codes "a") appended (some 0)
    ∷ compacts true clock
    ∷ saves (mail (codes "c")) refused (some 0)
    ∷ []

appended-durable : appended ≢ unsynced
appended-durable = λ e. cc e

refused-durable : refused ≢ unsynced
refused-durable = λ e. cc e

clock-IsIncreasing : IsIncreasing clock
clock-IsIncreasing n = omega arith

restart_lem_example :
    (s' : FileStore) × (FileStore.new true clock (run fresh calls).log ≡ ok s')
    × SameView s'.tasks_cache (run fresh calls).tasks_cache
restart_lem_example =
    restart_lem clock fresh calls
      (
        appended-durable,
        (appended-durable, (appended-durable, (clock-IsIncreasing, (refused-durable, tt)))),
      )
      fresh-IsSynced

-- A clock that was set back between two readings.
abbrev stuck_clock : ℕ → Reading
stuck_clock n = record { created = 0; updated = 0 }

compact_lines-stale_example :
    (view
        (compact_lines stuck_clock 0 [] (entry (mail (codes "a")) ∷ entry failed_once ∷ []))
        (codes "a")
      ≡ some (durable (mail (codes "a"))))
    × (view
          (load_lines stuck_clock 0 unloaded
            (entry (mail (codes "a")) ∷ entry failed_once ∷ [])).cache
          (codes "a")
        ≡ some (durable failed_once))
compact_lines-stale_example =
    compact_lines-stale stuck_clock (mail (codes "a")) failed_once refl refl refl (omega arith)

abbrev failed_store : FileStore
failed_store = run fresh (saves failed_once appended (some 0) ∷ [])

replay_after_success_example :
    (k : ℕ) × (new_log : List Line) × (replay_shard clock
        (codes "all")
        9
        (delete_task 7 8 (codes "a") appended (some 0) failed_store).1.log
      ≡ ok (some new_log))
    × In (entry (recovered 9 (parsed (clock k) (mark_deleted 7 8 failed_once)))) new_log
unfolding run call save_task save_task_inner write_line count_save get insert latest_state
replay_after_success_example =
    replay_after_success clock 7 8 9 (some 0) (codes "no") failed_once failed_store
      (entry failed_once ∷ []) refl refl refl refl refl

cmd_validate-false_example :
    (cmd_validate io_ok (λ d. true) (codes "shard-9" ∷ []) 5 10 (valid two_shards) ≡ false)
    ↔ (HasBadShard (λ d. true) 5 10 two_shards 0 2 ⊎ HasOrphan two_shards (codes "shard-9" ∷ []))
cmd_validate-false_example =
    cmd_validate-false io_ok (λ d. true) (codes "shard-9" ∷ []) 5 10 two_shards refl
