-- ===== src/Task.antt =====
-- src/task.rs: the task record, its constructor and its state changes.
pub mod Cron
pub mod Priority
use snerdmq.Base.{
  ℕ, ◌+◌, Bool, true, false, Option, none, some, List, ◌++◌, if◌then◌else◌, Text, unwrap_or, ◌≡◌,
  refl,
}
use snerdmq.Base.Digits.{hex}
use snerdmq.Base.Int.{ℤ, pos, incr_i32}
use snerdmq.External.{External}
use Cron.{parse_cron_syntax}
use mathlib.Core.Option

pub record JobErrorReturn : Type 0 where
  pub error_string : Text
  pub retry_worthy : Bool

-- An f64 field holds the bits of the number.
pub record RetryableTask : Type 0 where
  pub task_id : Text
  pub retry_count : ℤ
  pub max_retries : ℤ
  pub retry_after_hours : ℕ
  pub retry_after_time : ℕ
  pub task_data : Text
  pub task_type : Text
  pub last_error_obj : Option Text
  pub last_job_error : Option JobErrorReturn
  pub rate_limit_group : Option Text
  pub max_per_minute : Option ℤ
  pub auto_dedupe : Option Bool
  pub urgency_score : Option ℕ
  pub payload_hash : Option Text
  pub deleted_at : Option ℕ
  pub execute_at : ℕ
  pub pool : Option Text
  pub trigger_after_ids : Option (List Text)
  pub cron_expression : Option Text
  pub webhook_url : Option Text
  pub max_execution_seconds : Option ℕ
  pub created_at : ℕ
  pub updated_at : ℕ

-- The arguments of RetryableTask::new, in its order.
pub record NewTask : Type 0 where
  pub task_id : Text
  pub task_type : Text
  pub task_data : Text
  pub max_retries : ℤ
  pub retry_after_hours : ℕ
  pub rate_limit_group : Option Text
  pub max_per_minute : Option ℤ
  pub auto_dedupe : Option Bool
  pub urgency_score : Option ℕ
  pub execute_at_opt : Option Text
  pub cron_opt : Option Text
  pub webhook_url : Option Text
  pub max_execution_seconds : Option ℕ
  pub pool : Option Text
  pub trigger_after_ids : Option (List Text)

-- The time of the first run: an explicit time that parses, else the next tick of a cron
-- expression if no explicit time is given, else now. The schedule reads the clock once more.
first_execution : External → ℕ → ℕ → Option Text → Option Text → ℕ
first_execution ext now later (some exec_str) parsed_cron =
    unwrap_or (ext.parse_from_rfc3339 exec_str) now
first_execution ext now later none (some cron_expr) = unwrap_or (ext.upcoming cron_expr later) now
first_execution ext now later none none = now

unfoldable pub new : External → ℕ → ℕ → NewTask → RetryableTask
unfolding first_execution
new ext now later a = record {
  task_id = a.task_id;
  task_type = a.task_type;
  task_data = a.task_data;
  max_retries = a.max_retries;
  retry_after_hours = a.retry_after_hours;
  retry_count = pos 0;
  retry_after_time = now;
  last_error_obj = none;
  last_job_error = none;
  rate_limit_group = a.rate_limit_group;
  max_per_minute = a.max_per_minute;
  auto_dedupe = a.auto_dedupe;
  urgency_score = a.urgency_score;
  payload_hash =
      if unwrap_or a.auto_dedupe false
      then some (hex (ext.xxh64 (a.task_type ++ a.task_data)))
      else none;
  deleted_at = none;
  execute_at =
      first_execution ext now later a.execute_at_opt (Option.map parse_cron_syntax a.cron_opt);
  cron_expression = Option.map parse_cron_syntax a.cron_opt;
  webhook_url = a.webhook_url;
  max_execution_seconds = a.max_execution_seconds;
  pool = a.pool;
  trigger_after_ids = a.trigger_after_ids;
  created_at = now;
  updated_at = now;
}

-- The clock is read twice.
unfoldable pub mark_deleted : ℕ → ℕ → RetryableTask → RetryableTask
mark_deleted now later t = record t { deleted_at = some now; updated_at = later }

job_error : Text → JobErrorReturn
job_error msg = record { error_string = msg; retry_worthy = true }

-- none: the addition of the delay to the current time panics.
unfoldable pub update_retry_config :
    External → ℕ → ℕ → Option Text → RetryableTask → Option RetryableTask
unfolding job_error
update_retry_config ext now later error_msg t =
    Option.map
      (λ next. record t {
        retry_count = incr_i32 t.retry_count;
        retry_after_time = next;
        last_error_obj = error_msg;
        last_job_error = Option.map job_error error_msg;
        updated_at = later;
      })
      (ext.add_seconds now (ext.hours_to_seconds t.retry_after_hours))
