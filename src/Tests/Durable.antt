-- ===== src/Tests/Durable.antt =====
-- A run of an engine up to a crash.
use snerdmq.Queue
use snerdmq.Queue.Schedule
use snerdmq.FileStore
use snerdmq.FileStore.{appended, unsynced}
use snerdmq.Queue.{sweep}
use snerdmq.Queue.Schedule.{compacts}
use snerdmq.FileStore.{new, unsynced, save_task, FileStore}
use snerdmq.Base.{◌∷◌, [], ◌⊎◌, some, ◌≢◌, arith, codes, false, ◌≡◌, true, List, refl}
use snerdmq.Queue.Durable.{Stores}
use snerdmq.Queue.Schedule.{Event, ticks, sweeps, step, settles, finishes, begins, dispatches}
use snerdmq.Queue.Durable.Survives.{accepted_survives, IsDuplicate}
use snerdmq.Tests.Data.{mail, clock, env_at}
use snerdmq.Base.Result.{ok}
use snerdmq.FileStore.Replay.{SameView}
use snerdmq.FileStore.Restart.{fresh, fresh-IsSynced}

durable_append : appended ≢ unsynced
durable_append = λ e. cc e

b_is_other : codes "b" ≢ codes "a"
b_is_other e = ground (arith, e)

-- The task is queued and being executed when the process dies, after a compaction of the log.
abbrev under_way : List Schedule.Event
under_way =
    ticks (env_at 2)
    ∷ dispatches (codes "default")
    ∷ settles (env_at 3) (codes "a")
    ∷ begins (codes "a")
    ∷ compacts true clock
    ∷ finishes (env_at 4) (codes "b") (ok tt)
    ∷ []

accepted_survives_example :
    let q = Schedule.run (Queue.new fresh (some [])) (sweeps (env_at 0) ∷ []) in
    let u = Schedule.run (Queue.enqueue (mail (codes "a")) (env_at 1) q).1 under_way in
    (s' : FileStore) × (FileStore.new true clock u.file_store.log ≡ ok s')
    × SameView s'.tasks_cache u.file_store.tasks_cache
    × (IsDuplicate (mail (codes "a")) q ⊎ Stores (codes "a") s')
accepted_survives_example =
    accepted_survives fresh (some []) (sweeps (env_at 0) ∷ []) under_way (mail (codes "a"))
      (env_at 1) false clock fresh-IsSynced (tt, tt) durable_append
      (unfold Schedule.run Schedule.step sweep Queue.enqueue Queue.new save_task in refl)
      (tt, (tt, (durable_append, (tt, ((λ n. omega arith), ((durable_append, b_is_other), tt))))))
