-- ===== src/External.antt =====
-- What the daemon calls of crates that are not part of the repository: chrono, cron and
-- xxhash-rust, and the floating-point product of RetryableTask::update_retry_config. Times are
-- nanoseconds since the least time that chrono represents.
use snerdmq.Base.{ℕ, Option, Text}
use snerdmq.Base.Int.{ℤ}

pub record External : Type 0 where
  -- DateTime::parse_from_rfc3339(s) converted to UTC; none is a parse error
  pub parse_from_rfc3339 : Text → Option ℕ
  -- Schedule::from_str(expr), then upcoming(Utc).next() at the given time; none where either fails
  pub upcoming : Text → ℕ → Option ℕ
  -- xxh64(bytes, 0)
  pub xxh64 : Text → ℕ
  -- (hours * 3600.0) as i64, on the bits of the f64
  pub hours_to_seconds : ℕ → ℤ
  -- t + Duration::seconds(s); none is the panic of chrono when the sum is out of range
  pub add_seconds : ℕ → ℤ → Option ℕ
