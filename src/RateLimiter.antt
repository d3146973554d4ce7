-- ===== src/RateLimiter.antt =====
-- src/rate_limiter.rs: the counters of rate_limits.json. The state is the file; a missing file and
-- one that does not parse are read as no counters. Times are nanoseconds.
pub mod Windows
use snerdmq.Base.{
  ℕ, ◌+◌, ◌-◌, ◌*◌, ◌/◌, Bool, true, false, Option, none, some, List, [], ◌∷◌, if◌then◌else◌, ltb,
  leb, Text, unwrap_or,
}
use snerdmq.Base.Int.{ℤ, pos, negsuc, ltb_ℤ, incr_i32}
use snerdmq.Base.Result.{Result, ok, err, IoError, os}
use snerdmq.Map.{Map, get, insert}

pub record RateWindow : Type 0 where
  pub count : ℤ
  pub window_start : ℕ

-- none: the file is missing, empty, or does not parse
abbrev pub LimitsFile : Type 0
LimitsFile = Option (Map RateWindow)

-- How a call's file operations end: all succeed; one fails before the file is truncated; one fails
-- after, and leaves no counters; only sync_all or unlock fails, after the write.
pub data Effect : Type 0 where
  done refused emptied unsynced : Effect

-- (now - start).num_seconds() >= 60; the difference of a start in the future is not positive.
unfoldable pub is_over : ℕ → RateWindow → Bool
is_over now w = leb 60 ((now - w.window_start) / 1_000_000_000)

unfoldable pub fresh_window : ℕ → RateWindow
fresh_window now = record { count = pos 0; window_start = now }

-- The window that the call counts in.
unfoldable pub current : ℕ → Option RateWindow → RateWindow
unfolding is_over fresh_window
current now none = fresh_window now
current now (some w) = if is_over now w then fresh_window now else w

-- The test and the count on a window.
unfoldable pub admit : ℤ → RateWindow → Bool × RateWindow
admit limit w =
    if ltb_ℤ w.count limit then (true, record w { count = incr_i32 w.count }) else (false, w)

unfoldable pub check_and_increment :
    Effect → ℕ → Text → ℤ → LimitsFile → Result Bool IoError × LimitsFile
unfolding current admit
check_and_increment refused now group limit file = (err os, file)
check_and_increment emptied now group limit file = (err os, none)
check_and_increment unsynced now group limit file =
    let limits = unwrap_or file [] in
    (err os, some (insert group (admit limit (current now (get group limits))).1 limits))
check_and_increment done now group limit file =
    let limits = unwrap_or file [] in
    let (allow, w) = admit limit (current now (get group limits)) in
    (ok allow, some (insert group w limits))
