-- ===== src/Task/Cron/Syntax.antt =====
-- The cron expressions that parse_cron_syntax of src/task.rs reads.
-- A schedule: every n units, or the fields of a cron expression, at least two.
use snerdmq.Base.{◌==◌, List, Text, All, ℕ, ◌<◌, codes, ◌++◌, ◌∷◌, length, ◌≡◌, if◌then◌else◌}
use snerdmq.Base.Digits.{decimal}
use snerdmq.Task.Cron.{parse_cron_syntax}
use snerdmq.Task.Cron.Fields.{parse_cron_syntax-join, join, IsField}
use snerdmq.Task.Cron.Shorthands.{parse_cron_syntax-shorthand}

pub data CronSchedule : Type 0 where
  every_seconds every_minutes every_hours every_days : ℕ → CronSchedule
  fields : Text → Text → List Text → CronSchedule

-- How a schedule is written, the fields with one space between each two.
abbrev pub written : CronSchedule → Text
written (every_seconds n) = decimal n ++ codes "s"
written (every_minutes n) = decimal n ++ codes "m"
written (every_hours n) = decimal n ++ codes "h"
written (every_days n) = decimal n ++ codes "d"
written (fields f g fs) = join (f ∷ g ∷ fs)

-- What it stands for, with a field for the seconds in front and one for the year behind.
abbrev pub expanded : CronSchedule → Text
expanded (every_seconds n) = codes "*/" ++ decimal n ++ codes " * * * * *"
expanded (every_minutes n) = codes "0 */" ++ decimal n ++ codes " * * * *"
expanded (every_hours n) = codes "0 0 */" ++ decimal n ++ codes " * * *"
expanded (every_days n) = codes "0 0 0 */" ++ decimal n ++ codes " * *"
expanded (fields f g fs) =
    if length fs == 3
    then codes "0 " ++ join (f ∷ g ∷ fs) ++ codes " *"
    else if length fs == 4
    then join (f ∷ g ∷ fs) ++ codes " *"
    else join (f ∷ g ∷ fs)

-- A count is a u32, and a field has a character and no white space.
abbrev pub IsProper : CronSchedule → Type 0
IsProper (every_seconds n) = n < 4294967296
IsProper (every_minutes n) = n < 4294967296
IsProper (every_hours n) = n < 4294967296
IsProper (every_days n) = n < 4294967296
IsProper (fields f g fs) = All IsField (f ∷ g ∷ fs)

-- The text that a written schedule becomes: a count n below 2^32 with s, m, h or d becomes the
-- expression with */n in the field of that unit, whether or not a cron of that n exists; five fields
-- get a seconds field of 0 and a year field of *, six get the year field, and any other number of
-- fields from two on is kept as it is. When such an expression fires is not stated.
pub parse_cron_syntax-written :
    (s : CronSchedule) → IsProper s → parse_cron_syntax (written s) ≡ expanded s
parse_cron_syntax-written (every_seconds n) h = (parse_cron_syntax-shorthand n h).0
parse_cron_syntax-written (every_minutes n) h = (parse_cron_syntax-shorthand n h).1
parse_cron_syntax-written (every_hours n) h = (parse_cron_syntax-shorthand n h).2
parse_cron_syntax-written (every_days n) h = (parse_cron_syntax-shorthand n h).3
parse_cron_syntax-written (fields f g fs) h = (parse_cron_syntax-join f g fs h).1
