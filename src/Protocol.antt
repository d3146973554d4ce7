-- ===== src/Protocol.antt =====
-- The messages of src/protocol.rs between the daemon and an SDK. serde reads and prints them as JSON
-- lines.
use snerdmq.Task.{NewTask}
use snerdmq.Base.{ℕ, List, Option, Text}

pub data IncomingMessage : Type 0 where
  register : Text → IncomingMessage
  -- the fields of Enqueue are the arguments of RetryableTask::new
  enqueue : NewTask → IncomingMessage
  progress : Text → Text → IncomingMessage
  result : Text → Text → Option Text → IncomingMessage
  stats : IncomingMessage
  -- in debug builds
  test_pause_heartbeat : IncomingMessage

pub record ShardStat : Type 0 where
  pub shard : Text
  pub depth : ℕ

pub record Stats : Type 0 where
  pub total_enqueued : ℕ
  pub total_executed : ℕ
  pub total_failed : ℕ
  pub total_dlq : ℕ
  pub queue_depth : ℕ
  pub uptime_secs : ℕ
  pub per_shard : Option (List ShardStat)

pub data OutgoingMessage : Type 0 where
  execute : Text → Text → Text → Option ℕ → OutgoingMessage
  max_retries_reached : Text → Text → Text → OutgoingMessage
  ack : Option Text → Text → Option Text → OutgoingMessage
  progress : Text → Text → OutgoingMessage
  error : Option Text → Text → OutgoingMessage
  stats : Stats → OutgoingMessage
  membership : Text → ℕ → List Text → ℕ → OutgoingMessage
