-- ===== src/Runtime/Daemon.antt =====
-- The loop of main in src/main.rs over the lines of stdin, with the handlers that a registration makes
-- and the engines that are started. What it prints is the list of messages that a step returns.
use snerdmq.Task.{RetryableTask, NewTask}
use snerdmq.Task
use snerdmq.Protocol.{
  enqueue, ack, stats, error, result, ShardStat, register, test_pause_heartbeat, progress,
  IncomingMessage, max_retries_reached, execute, OutgoingMessage,
}
use snerdmq.Base.{
  true, text_dec, ite, ◌++◌, is_none, unwrap_or, Text, none, codes, ◌∷◌, false, suc, some, ◌==◌,
  ◌^◌, [], List, if◌then◌else◌, Bool, Option, ℕ, ◌||◌, ◌%◌, ◌+◌,
}
use snerdmq.Map.{get, remove, insert, Map}
use snerdmq.Base.Result.{IoError, err, ok, Result}
use snerdmq.Runtime.Engines.{
  shutting_down, enqueue_failed, handle_enqueue, no_shards, Reply, enqueued, ShardEngine,
}
use snerdmq.Queue.{Env, register_handlers}
use snerdmq.FileStore.{read_tasks}

-- Counters are u64. The time since start_time is an argument of handle_stats.
pub record Metrics : Type 0 where
  pub total_enqueued : ℕ
  pub total_executed : ℕ
  pub total_failed : ℕ
  pub total_dlq : ℕ

-- What a daemon changes of its Runtime, with the maps of main: the fields of Runtime that stay the same
-- are arguments of the steps that use them. A oneshot channel is a number; `pending_executions` has
-- the senders by task id, and `sent` what was sent.
pub record Daemon : Type 0 where
  pub engines : List ShardEngine
  pub registered : List Text
  pub shutting_down : Bool
  pub test_heartbeat_paused : Bool
  pub pending_executions : Map ℕ
  pub sent : List (ℕ × Result (Unit {0}) Text)
  pub next_channel : ℕ
  pub metrics : Metrics

-- A line of stdin as serde_json reads it.
pub data InputLine : Type 0 where
  blank : InputLine
  invalid : Text → InputLine
  message : IncomingMessage → InputLine

unfoldable pub fetch_add : ℕ → ℕ
fetch_add n = (n + 1) % 2 ^ 64

-- The handler of a registered type, up to its wait for the result.
unfoldable pub call_handler : Text → RetryableTask → Daemon → OutgoingMessage × Daemon
call_handler task_type t d = (
  execute t.task_id task_type t.task_data t.max_execution_seconds,
  record d {
    pending_executions = insert t.task_id d.next_channel d.pending_executions;
    next_channel = suc d.next_channel;
  },
)

-- What was sent on a channel.
unfoldable pub sent_on : ℕ → List (ℕ × Result (Unit {0}) Text) → Option (Result (Unit {0}) Text)
sent_on n [] = none
sent_on n ((m, r) ∷ sent) = let rest = sent_on n sent in if m == n then some r else rest

-- Whether a sender of the channel is left.
unfoldable pub has_sender : ℕ → Map ℕ → Bool
has_sender n [] = false
has_sender n ((id, m) ∷ pending) = m == n || has_sender n pending

-- What the wait on a channel gives, none while it goes on. A dropped sender is an error of recv.
unfoldable pub receive : ℕ → Daemon → Option (Result (Unit {0}) Text)
unfolding sent_on has_sender
receive n d = elim (sent_on n d.sent) [
  | some r ↦ some r
  | none ↦ if has_sender n d.pending_executions then none else some (err (codes "channel closed"))
]

-- The end of a handler with what it has received, and the counters.
unfoldable pub handler_received : Result (Unit {0}) Text → Daemon → Daemon
unfolding fetch_add
handler_received (ok _) d = record d {
  metrics = record (d.metrics) { total_executed = fetch_add d.metrics.total_executed };
}
handler_received (err e) d = record d {
  metrics = record (d.metrics) { total_failed = fetch_add d.metrics.total_failed };
}

-- The end of a handler whose task has run for max_execution_seconds.
unfoldable pub handler_timed_out : RetryableTask → Daemon → Daemon
handler_timed_out t d = record d { pending_executions = remove t.task_id d.pending_executions }

-- The handler for the last failure.
unfoldable pub call_max_retry : Text → RetryableTask → Daemon → OutgoingMessage × Daemon
unfolding fetch_add
call_max_retry task_type t d = (
  max_retries_reached t.task_id task_type t.task_data,
  record d { metrics = record (d.metrics) { total_dlq = fetch_add d.metrics.total_dlq } },
)

abbrev pub Answered : Type 0
Answered = List OutgoingMessage × Daemon

unfoldable pub register_all : Text → List ShardEngine → List ShardEngine
unfolding register_handlers
register_all task_type [] = []
register_all task_type (e ∷ es) =
    record e { queue = register_handlers task_type e.queue } ∷ register_all task_type es

-- Runtime::register_handler and the acknowledgement.
unfoldable pub handle_register : Text → Daemon → Answered
unfolding register_all
handle_register task_type d = (
  ack none (codes "Registered handler for " ++ task_type) none ∷ [],
  record d {
    registered = d.registered ++ task_type ∷ [];
    engines = register_all task_type d.engines;
  },
)

-- What is printed for an enqueue, and counted. `display` prints an io::Error.
unfoldable pub answer_enqueue : (IoError → Text) → Text → Reply → Daemon → Answered
unfolding fetch_add
answer_enqueue display task_id shutting_down d =
    (error (some task_id) (codes "[Snerd] Daemon is shutting down; enqueue rejected") ∷ [], d)
answer_enqueue display task_id no_shards d =
    (error (some task_id) (codes "[Snerd] No shards owned by this instance") ∷ [], d)
answer_enqueue display task_id (enqueue_failed e) d =
    (error (some task_id) (codes "Failed to enqueue: " ++ display e) ∷ [], d)
answer_enqueue display task_id (enqueued shard) d = (
  ack (some task_id) (codes "Enqueued successfully") (some shard) ∷ [],
  record d { metrics = record (d.metrics) { total_enqueued = fetch_add d.metrics.total_enqueued } },
)

unfoldable pub handle_new_task : (IoError → Text) → Env → NewTask → Daemon → Answered
unfolding answer_enqueue
handle_new_task display env a d =
    let t = Task.new env.ext env.now env.later a in
    let (reply, es) = handle_enqueue d.shutting_down t env d.engines in
    answer_enqueue display a.task_id reply (record d { engines = es })

unfoldable pub result_of : Text → Option Text → Result (Unit {0}) Text
result_of status error_msg =
    ite (text_dec status (codes "success")) (ok tt)
      (err (unwrap_or error_msg (codes "Unknown error")))

-- The sender of the task's channel is taken out of the map and used.
unfoldable pub resolve : Text → Result (Unit {0}) Text → Option ℕ → Daemon → Answered
resolve task_id r none d =
    (error none (codes "Received result for unknown/expired task_id " ++ task_id) ∷ [], d)
resolve task_id r (some channel) d = (
  [],
  record d {
    pending_executions = remove task_id d.pending_executions;
    sent = (channel, r) ∷ d.sent;
  },
)

unfoldable pub handle_result : Text → Text → Option Text → Daemon → Answered
unfolding result_of resolve
handle_result task_id status error_msg d =
    resolve task_id (result_of status error_msg) (get task_id d.pending_executions) d

unfoldable pub live_count : List RetryableTask → ℕ
live_count [] = 0
live_count (t ∷ ts) = if is_none t.deleted_at then suc (live_count ts) else live_count ts

unfoldable pub depth_of : ShardEngine → ℕ
unfolding live_count
depth_of e = live_count (read_tasks e.queue.file_store)

unfoldable pub shard_stats : List ShardEngine → ℕ × List ShardStat
unfolding depth_of
shard_stats [] = (0, [])
shard_stats (e ∷ es) =
    let (depth, rest) = shard_stats es in
    (depth_of e + depth, record { shard = e.key; depth = depth_of e } ∷ rest)

unfoldable pub handle_stats : ℕ → Daemon → Answered
unfolding shard_stats
handle_stats uptime d = (
  stats (record {
    total_enqueued = d.metrics.total_enqueued;
    total_executed = d.metrics.total_executed;
    total_failed = d.metrics.total_failed;
    total_dlq = d.metrics.total_dlq;
    queue_depth = (shard_stats d.engines).0;
    uptime_secs = uptime;
    per_shard = some (shard_stats d.engines).1;
  })
      ∷ [],
  d,
)

-- The match on a message.
unfoldable pub handle : (IoError → Text) → Env → ℕ → IncomingMessage → Daemon → Answered
unfolding handle_register handle_new_task handle_result handle_stats
handle display env uptime (register task_type) d = handle_register task_type d
handle display env uptime (enqueue a) d = handle_new_task display env a d
handle display env uptime (progress task_id info) d = (progress task_id info ∷ [], d)
handle display env uptime (result task_id status error_msg) d =
    handle_result task_id status error_msg d
handle display env uptime stats d = handle_stats uptime d
handle display env uptime test_pause_heartbeat d = (
  ack none (codes "Heartbeat paused for testing") none ∷ [],
  record d { test_heartbeat_paused = true },
)

-- One round of the loop; none ends it. The flag is the one that the signal watcher sets.
unfoldable pub handle_line :
    (IoError → Text) → Env → ℕ → Bool → InputLine → Daemon → Option Answered
unfolding handle
handle_line display env uptime shutdown_flag blank d = some ([], d)
handle_line display env uptime shutdown_flag (invalid e) d =
    if shutdown_flag then none else some (error none (codes "Invalid JSON: " ++ e) ∷ [], d)
handle_line display env uptime shutdown_flag (message m) d =
    if shutdown_flag then none else some (handle display env uptime m d)
