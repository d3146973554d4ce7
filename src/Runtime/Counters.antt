-- ===== src/Runtime/Counters.antt =====
-- What the daemon of src/main.rs prints and its handlers receive, counted.
pub mod Shown
use snerdmq.Task
use snerdmq.Protocol.{
  enqueue, membership, test_pause_heartbeat, ack, result, OutgoingMessage, register,
  max_retries_reached, stats, error, execute, progress,
}
use snerdmq.Task.{NewTask}
use snerdmq.Base.{
  some, ◌^◌, suc, arith, ◌+◌, ap, [], Text, ℕ, ◌∙◌, Option, ◌≡◌, none, List, ◌++◌, false, ◌∷◌, ◌%◌,
}
use snerdmq.Map.{get}
use snerdmq.Queue.{Env}
use snerdmq.Runtime.Daemon.{
  blank, InputLine, Answered, handle, resolve, invalid, handle_new_task, handle_stats,
  handle_result, call_max_retry, Daemon, Metrics, answer_enqueue, handle_line, fetch_add,
  handler_timed_out, handler_received, call_handler, message, result_of, handle_register,
}
use snerdmq.Runtime.Pending.{
  step, Event, run, started, calls, gives_up, receives, times_out, after_line, reads,
}
use snerdmq.Base.Result.{Result, err, ok, IoError}
use snerdmq.Runtime.Engines.{
  no_shards, enqueued, shutting_down, handle_enqueue, ShardEngine, Reply, enqueue_failed,
}

-- What an event prints.
unfoldable pub lines_of : Option Answered → List OutgoingMessage
lines_of none = []
lines_of (some (out, d)) = out

unfoldable pub printed : (IoError → Text) → Daemon → Event → List OutgoingMessage
unfolding lines_of
printed display d (reads env uptime l) = lines_of (handle_line display env uptime false l d)
printed display d (calls task_type t) = (call_handler task_type t d).0 ∷ []
printed display d (gives_up task_type t) = (call_max_retry task_type t d).0 ∷ []
printed display d (times_out t) = []
printed display d (receives r) = []

unfoldable pub trace : (IoError → Text) → Daemon → List Event → List OutgoingMessage
unfolding printed
trace display d [] = []
trace display d (e ∷ es) = printed display d e ++ trace display (step display d e) es

-- The acknowledgements that name a shard, and the messages of a last failure.
abbrev pub acks_in : List OutgoingMessage → ℕ
acks_in [] = 0
acks_in (ack id text (some shard) ∷ ms) = suc (acks_in ms)
acks_in (_ ∷ ms) = acks_in ms

abbrev pub dead_in : List OutgoingMessage → ℕ
dead_in [] = 0
dead_in (max_retries_reached id task_type payload ∷ ms) = suc (dead_in ms)
dead_in (_ ∷ ms) = dead_in ms

-- The successes and the failures that handlers receive.
abbrev pub successes_in : List Event → ℕ
successes_in [] = 0
successes_in (receives (ok x) ∷ es) = suc (successes_in es)
successes_in (_ ∷ es) = successes_in es

abbrev pub failures_in : List Event → ℕ
failures_in [] = 0
failures_in (receives (err x) ∷ es) = suc (failures_in es)
failures_in (_ ∷ es) = failures_in es

pub acks_in-append : (xs ys : List OutgoingMessage) → acks_in (xs ++ ys) ≡ acks_in xs + acks_in ys
acks_in-append [] ys = omega arith
acks_in-append (ack id text (some shard) ∷ ms) ys = omega (arith, acks_in-append ms ys)
acks_in-append (ack id text none ∷ ms) ys = acks_in-append ms ys
acks_in-append (execute a b c e ∷ ms) ys = acks_in-append ms ys
acks_in-append (max_retries_reached a b c ∷ ms) ys = acks_in-append ms ys
acks_in-append (progress a b ∷ ms) ys = acks_in-append ms ys
acks_in-append (error a b ∷ ms) ys = acks_in-append ms ys
acks_in-append (stats a ∷ ms) ys = acks_in-append ms ys
acks_in-append (membership a b c e ∷ ms) ys = acks_in-append ms ys

pub dead_in-append : (xs ys : List OutgoingMessage) → dead_in (xs ++ ys) ≡ dead_in xs + dead_in ys
dead_in-append [] ys = omega arith
dead_in-append (max_retries_reached a b c ∷ ms) ys = omega (arith, dead_in-append ms ys)
dead_in-append (ack a b c ∷ ms) ys = dead_in-append ms ys
dead_in-append (execute a b c e ∷ ms) ys = dead_in-append ms ys
dead_in-append (progress a b ∷ ms) ys = dead_in-append ms ys
dead_in-append (error a b ∷ ms) ys = dead_in-append ms ys
dead_in-append (stats a ∷ ms) ys = dead_in-append ms ys
dead_in-append (membership a b c e ∷ ms) ys = dead_in-append ms ys
