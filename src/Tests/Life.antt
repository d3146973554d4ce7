-- ===== src/Tests/Life.antt =====
-- Runs of a daemon from its start to its end.
use snerdmq.Queue
use snerdmq.Task
use snerdmq.Task.{NewTask}
use snerdmq.Base.{inl}
use snerdmq.Base.Int.{pos}
use snerdmq.Protocol.{ack}
use snerdmq.Sharding.{route_shard}
use snerdmq.Runtime.Engines.{handle_enqueue}
use snerdmq.FileStore.{save_task}
use snerdmq.Runtime.Daemon.{handle_new_task}
use snerdmq.Tests.Data.{toy_external}
use snerdmq.Runtime.Acknowledged.{HasAccepted, handle_new_task-HasAccepted}
use snerdmq.FileStore
use snerdmq.Queue.Schedule.{ticks}
use snerdmq.Runtime.Pending.{run}
use snerdmq.FileStore.{FileStore}
use snerdmq.Protocol.{membership, stats, register}
use snerdmq.Membership.{valid}
use snerdmq.Base.{
  refl, true, All, false, ◌≡◌, ◌+◌, [], arith, ◌/◌, ◌∷◌, suc, text_dec, none, List, In, some, ◌++◌,
  ite, Text, codes, ◌*◌,
}
use snerdmq.Map.{get}
use snerdmq.Runtime.Pending.{Event, started, reads, receives}
use snerdmq.Tests.Data.{mail, two_shards, env_at, clock, io_ok}
use snerdmq.Base.Result.{ok, os, IoError, err}
use snerdmq.Runtime.Counters.{trace, dead_in, successes_in, failures_in, acks_in}
use snerdmq.Runtime.Daemon.{
  call_handler, handle_register, result_of, handle_result, register_all, message, Answered, receive,
}
use snerdmq.Runtime.Shutdown.{shutdown, poll_interval}
use snerdmq.Runtime.Engines.{keys_of, ShardEngine}
use snerdmq.Runtime.Awaited.{receive-handle_result}
use snerdmq.Runtime.Start.{
  membership_event, start_engines, standby_round, build_engines, publish, boot, build_engine, Disk,
}
use snerdmq.Runtime.Counters.Shown.{started-Shows, Shows}
use snerdmq.Runtime.Shutdown.Ends.{ShutDown, shutdown-ShutDown}
use snerdmq.Runtime.Start.Handlers.{boot-moves-IsServing}
use snerdmq.Runtime.Start.Handlers.Steps.{IsServing}
use snerdmq.Runtime.Start.Moves.{Move, publishes, works, does, moves}
use snerdmq.Runtime.Start.Late.{publish_late, Ignores}
use snerdmq.Runtime.Start.Failing.{start_engines_fails}
use snerdmq.FileStore.Restart.{fresh}

abbrev display : IoError → Text
display e = codes "error"

-- Two shards without a log.
abbrev empty_disk : Text → Disk
empty_disk k = record { openable = true; readings = clock; log = none; limits = some [] }

abbrev booted_engines : List ShardEngine
booted_engines =
    record { key = codes "shard-0"; queue = Queue.new fresh (some []) }
    ∷ record { key = codes "shard-1"; queue = Queue.new fresh (some []) }
    ∷ []

abbrev both_shards : List Text
both_shards = codes "shard-0" ∷ codes "shard-1" ∷ []

abbrev booted : Answered
booted =
    (membership (codes "q") 2 both_shards 1 ∷ [], record (started []) { engines = booted_engines })

boots : boot empty_disk (ok two_shards) (ok both_shards) (started []) [] ≡ some booted
unfolding boot start_engines build_engines build_engine FileStore.new publish membership_event
boots = refl

abbrev register_mail : Event
register_mail = reads (env_at 1) 0 (message (register (codes "mail")))

-- The type is registered before the engine of another shard is built and published.
abbrev in_time : List Move
in_time =
    does register_mail
    ∷ works 0 (ticks (env_at 2))
    ∷ publishes empty_disk (ok two_shards) (codes "shard-1" ∷ []) (codes "mail" ∷ [])
    ∷ []

boot-moves-IsServing_example : IsServing (codes "mail") (moves display booted.1 in_time)
boot-moves-IsServing_example =
    boot-moves-IsServing (codes "mail") display empty_disk (ok two_shards) (ok both_shards) []
      booted in_time boots ((λ i. inl refl), tt)

-- The type is registered while the engine of shard-0 is about to be published.
publish_late_example :
    let new = (build_engines empty_disk [] (codes "shard-0" ∷ [])).1 in
    let d' = (publish (ok two_shards) new (handle_register (codes "mail") (started [])).1).1 in
    In (codes "mail") d'.registered
    × (keys_of new ≡ codes "shard-0" ∷ [])
    × (d'.engines ≡ register_all (codes "mail") [] ++ new)
    × All (Ignores (mail (codes "a"))) new
publish_late_example =
    publish_late empty_disk (ok two_shards) (codes "shard-0" ∷ []) (started []) (mail (codes "a"))
      (λ i. i) refl (unfold build_engines build_engine FileStore.new in refl)

-- The log of shard-1 cannot be opened.
abbrev bad_disk : Text → Disk
bad_disk k = record {
  openable = false;
  readings = clock;
  log = ite (text_dec k (codes "shard-0")) none (some []);
  limits = some [];
}

start_engines_fails_example :
    let engine : ShardEngine = record {
      key = codes "shard-0";
      queue = Queue.new fresh (some []);
    } in
    let (r, running, flocks') =
      start_engines bad_disk (ok two_shards) both_shards (started []) [] in
    (r ≡ err os)
    × ((standby_round bad_disk (ok two_shards) (ok both_shards) (started []) []).1.1 ≡ started [])
    × (get (codes "shard-0") flocks' ≡ none)
    × In engine running
    × (engine.queue.paused ≡ false)
unfolding text_dec
start_engines_fails_example =
    start_engines_fails bad_disk (ok two_shards) (codes "shard-0") (codes "shard-1" ∷ [])
      (started []) [] (record { key = codes "shard-0"; queue = Queue.new fresh (some []) }) os
      (unfold build_engine FileStore.new in refl)
      (unfold build_engines build_engine FileStore.new in refl)

-- An engine with a task that never ends, so that the wait takes its whole timeout of half a second.
abbrev busy_engines : List ShardEngine
busy_engines =
    record {
      key = codes "shard-0";
      queue = record (Queue.new fresh (some [])) { executing_tasks = (codes "a", tt) ∷ [] };
    }
    ∷ []

shutdown-ShutDown_example :
    ShutDown
      (codes "me")
      (λ n. [])
      0
      (λ n. n * poll_interval)
      500_000_000
      busy_engines
      (shutdown
        (λ n. io_ok)
        (codes "me")
        (λ n. [])
        0
        (λ n. n * poll_interval)
        500_000_000
        (suc (500_000_000 / poll_interval + 1))
        (started busy_engines)
        (valid two_shards))
shutdown-ShutDown_example =
    shutdown-ShutDown (λ n. io_ok) (codes "me") (λ n. []) 0 (λ n. n * poll_interval) 500_000_000
      (started busy_engines) two_shards (omega arith) (λ n. omega arith) (λ n. refl) (λ n. refl)
      (tt, tt)

-- The handler of task a waits while stats are asked for, and gets a failure without a message.
receive-handle_result_example :
    let d = run display (started []) (register_mail ∷ []) in
    let waiting =
      run display
        (call_handler (codes "mail") (mail (codes "a")) d).1
        (reads (env_at 2) 5 (message stats) ∷ []) in
    (receive d.next_channel waiting ≡ none)
    × ((handle_result (codes "a") (codes "error") none waiting).0 ≡ [])
    × (receive d.next_channel (handle_result (codes "a") (codes "error") none waiting).1
        ≡ some (result_of (codes "error") none))
receive-handle_result_example =
    receive-handle_result display [] (register_mail ∷ []) (reads (env_at 2) 5 (message stats) ∷ [])
      (codes "mail") (codes "error") (mail (codes "a")) none (tt, tt)

started-Shows_example :
    let vs : List Event =
      register_mail ∷ receives (ok tt) ∷ receives (err (codes "no")) ∷ receives (ok tt) ∷ [] in
    Shows
      (run display (started []) vs).metrics
      (acks_in (trace display (started []) vs))
      (successes_in vs)
      (failures_in vs)
      (dead_in (trace display (started []) vs))
started-Shows_example =
    started-Shows display []
      (register_mail ∷ receives (ok tt) ∷ receives (err (codes "no")) ∷ receives (ok tt) ∷ [])

abbrev new_mail : NewTask
new_mail = record {
  task_id = codes "a";
  task_type = codes "mail";
  task_data = codes "hello";
  max_retries = pos 3;
  retry_after_hours = 0;
  rate_limit_group = none;
  max_per_minute = none;
  auto_dedupe = none;
  urgency_score = none;
  execute_at_opt = none;
  cron_opt = none;
  webhook_url = none;
  max_execution_seconds = none;
  pool = none;
  trigger_after_ids = none;
}

abbrev one_engine : List ShardEngine
one_engine = record { key = codes "shard-0"; queue = Queue.new fresh (some []) } ∷ []

acknowledged :
    In
      (ack (some (codes "a")) (codes "Enqueued successfully") (some (codes "shard-0")))
      (handle_new_task display (env_at 1) new_mail (started one_engine)).0
unfolding handle_new_task Task.new handle_enqueue route_shard text_dec Queue.enqueue Queue.new
    save_task
acknowledged = inl refl

handle_new_task-HasAccepted_example :
    HasAccepted
      (Task.new toy_external 1 1 new_mail)
      (codes "shard-0")
      (handle_new_task display (env_at 1) new_mail (started one_engine)).1.engines
handle_new_task-HasAccepted_example =
    handle_new_task-HasAccepted display (env_at 1) new_mail (started one_engine)
      (codes "Enqueued successfully") (codes "shard-0") acknowledged
