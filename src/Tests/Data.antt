-- ===== src/Tests/Data.antt =====
-- The data of the concrete runs.
-- An instance of the external libraries: seconds add up, a schedule fires a second later.
use snerdmq.Task.{RetryableTask}
use snerdmq.External.{External}
use snerdmq.Membership.{Io, second, Membership}
use snerdmq.RateLimiter.{done}
use snerdmq.Base.{none, true, [], length, ◌*◌, ◌∷◌, codes, ℕ, Text, some, ◌+◌}
use snerdmq.Queue.{Env}
use snerdmq.FileStore.{appended, Reading}
use snerdmq.Base.Int.{pos, negsuc}

abbrev pub toy_external : External
toy_external = record {
  parse_from_rfc3339 = λ s. none;
  upcoming = λ expr now. some (now + second);
  xxh64 = λ s. length s;
  hours_to_seconds = λ h. pos (h * 3600);
  add_seconds = λ t s. elim s [ pos n ↦ some (t + n * second) | negsuc n ↦ none ];
}

abbrev pub env_at : ℕ → Env
env_at now = record {
  ext = toy_external;
  now = now;
  later = now;
  instant = now;
  append = appended;
  len = some 0;
  effect = done;
}

-- A task with an id, no payload hash and three attempts.
abbrev pub mail : Text → RetryableTask
mail id = record {
  task_id = id;
  retry_count = pos 0;
  max_retries = pos 3;
  retry_after_hours = 0;
  retry_after_time = 0;
  task_data = codes "hello";
  task_type = codes "mail";
  last_error_obj = none;
  last_job_error = none;
  rate_limit_group = none;
  max_per_minute = none;
  auto_dedupe = none;
  urgency_score = none;
  payload_hash = none;
  deleted_at = none;
  execute_at = 0;
  pool = none;
  trigger_after_ids = none;
  cron_expression = none;
  webhook_url = none;
  max_execution_seconds = none;
  created_at = 0;
  updated_at = 0;
}

abbrev pub io_ok : Io
io_ok = record { locks = true; writes = true }

abbrev pub two_shards : Membership
two_shards = record {
  queue = codes "q";
  shards = 2;
  version = 1;
  claims = (codes "shard-0", record { owner = codes "me"; lease_expiry = 100 }) ∷ [];
}

abbrev pub clock : ℕ → Reading
clock n = record { created = n; updated = n }
