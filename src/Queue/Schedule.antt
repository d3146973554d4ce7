-- ===== src/Queue/Schedule.antt =====
-- Any interleaving of the futures of a queue engine of src/queue.rs: each event is one step of one of
-- them, and an event whose future does not exist changes nothing. `ticks` and `enqueues` are ticks and
-- enqueues without an interruption. An interrupted one has its tests and its read of the store without
-- an effect, and then its effects as steps of their own: `queues` is the locked part of a tick that has
-- read these tasks before, at whatever time, and `marks` and `saves_new` are the two effects of an enqueue
-- that has found the engine unpaused before. They stand here for any tasks, at any time.
use snerdmq.Task.{RetryableTask}
use snerdmq.Base.{ℕ, ◌∷◌, true, List, [], Text, Bool}
use snerdmq.Queue.{Env, register_handlers, enqueue, SnerdQueue, sweep}
use snerdmq.FileStore.{Reading, compact_log}
use snerdmq.Queue.{mark, store_new}
use snerdmq.Queue.Dispatch.{queue_read, settle, process_due_tasks, dispatch}
use snerdmq.Queue.Execute.{begin, finish}
use snerdmq.Base.Result.{Result}

pub data Event : Type 0 where
  enqueues : RetryableTask → Env → Event
  ticks sweeps : Env → Event
  dispatches : Text → Event
  settles : Env → Text → Event
  begins : Text → Event
  finishes : Env → Text → Result (Unit {0}) Text → Event
  compacts : Bool → (ℕ → Reading) → Event
  registers : Text → Event
  pauses : Event
  queues : ℕ → List RetryableTask → Event
  marks : RetryableTask → Event
  saves_new : RetryableTask → Env → Event

unfoldable pub step : SnerdQueue → Event → SnerdQueue
step q (enqueues t e) = (enqueue t e q).1
step q (ticks e) = process_due_tasks e q
step q (sweeps e) = sweep e q
step q (dispatches pool) = dispatch pool q
step q (settles e id) = settle e id q
step q (begins id) = begin id q
step q (finishes e id r) = finish e id r q
step q (compacts writable r) = record q { file_store = (compact_log writable r q.file_store).1 }
step q (registers task_type) = register_handlers task_type q
step q pauses = record q { paused = true }
step q (queues now ts) = queue_read now ts q
step q (marks t) = mark t q
step q (saves_new t e) = store_new t e q

unfoldable pub run : SnerdQueue → List Event → SnerdQueue
unfolding step
run q [] = q
run q (e ∷ es) = run (step q e) es
