-- ===== src/Task/Cron.antt =====
-- parse_cron_syntax of src/task.rs, with the methods of str that it calls.
pub mod Shorthands
pub mod Fields
pub mod Syntax
use mathlib.Core.Option
use snerdmq.Base.{
  ◌*◌, map, ℕ, ◌≡◌, refl, Bool, ◌&&◌, ◌||◌, Option, none, some, List, [], ◌∷◌, ◌++◌, Text, codes,
  leb, ◌==◌, if◌then◌else◌, length,
}
use snerdmq.Base.Digits.{decimal, parse_u32}

-- char::is_whitespace
unfoldable pub is_whitespace : ℕ → Bool
is_whitespace c =
    (leb 9 c && leb c 13)
    || c == 0x20
    || c == 0x85
    || c == 0xa0
    || c == 0x1680
    || (leb 0x2000 c && leb c 0x200a)
    || c == 0x2028
    || c == 0x2029
    || c == 0x202f
    || c == 0x205f
    || c == 0x3000

unfoldable pub trim_start : Text → Text
unfolding is_whitespace
trim_start [] = []
trim_start (c ∷ cs) = let rest = trim_start cs in if is_whitespace c then rest else c ∷ cs

unfoldable pub trim_end_char : ℕ → Text → Text
unfolding is_whitespace
trim_end_char c [] = if is_whitespace c then [] else c ∷ []
trim_end_char c (d ∷ ds) = c ∷ d ∷ ds

unfoldable pub trim_end : Text → Text
unfolding trim_end_char
trim_end [] = []
trim_end (c ∷ cs) = trim_end_char c (trim_end cs)

-- str::trim
unfoldable pub trim : Text → Text
unfolding trim_start trim_end
trim s = trim_end (trim_start s)

-- str::strip_suffix, for a suffix of one character
unfoldable pub strip_suffix : ℕ → Text → Option Text
strip_suffix s [] = none
strip_suffix s (c ∷ []) = if c == s then some [] else none
strip_suffix s (c ∷ d ∷ cs) = Option.map (λ r. c ∷ r) (strip_suffix s (d ∷ cs))

unfoldable pub flush : Text → List Text → List Text
flush [] ws = ws
flush (c ∷ cs) ws = (c ∷ cs) ∷ ws

unfoldable pub split_from : Text → Text → List Text
unfolding flush is_whitespace
split_from w [] = flush w []
split_from w (c ∷ cs) =
    let next = split_from [] cs in
    let more = split_from (w ++ c ∷ []) cs in if is_whitespace c then flush w next else more

-- str::split_whitespace
unfoldable pub split_whitespace : Text → List Text
unfolding split_from
split_whitespace = split_from []

unfoldable pub shorthand : ℕ → Text → Option ℕ
unfolding strip_suffix parse_u32 Option.bind
shorthand suffix s = Option.bind (strip_suffix suffix s) parse_u32

-- The forms with five and with six fields get the fields that the cron crate wants.
unfoldable pub with_fields : Text → Text
unfolding split_whitespace
with_fields input =
    if length (split_whitespace input) == 5
    then codes "0 " ++ input ++ codes " *"
    else if length (split_whitespace input) == 6
    then input ++ codes " *"
    else input

unfoldable pub expand : Text → Text
expand input = elim (shorthand b's' input) [
  | some num ↦ codes "*/" ++ decimal num ++ codes " * * * * *"
  | none ↦ elim (shorthand b'm' input) [
    | some num ↦ codes "0 */" ++ decimal num ++ codes " * * * *"
    | none ↦ elim (shorthand b'h' input) [
      | some num ↦ codes "0 0 */" ++ decimal num ++ codes " * * *"
      | none ↦ elim (shorthand b'd' input) [
        | some num ↦ codes "0 0 0 */" ++ decimal num ++ codes " * *"
        | none ↦ with_fields input
      ]
    ]
  ]
]

unfoldable pub parse_cron_syntax : Text → Text
unfolding trim expand
parse_cron_syntax input = expand (trim input)

minutes_example : parse_cron_syntax (codes " 15m") ≡ codes "0 */15 * * * *"
unfolding parse_cron_syntax shorthand with_fields decimal
minutes_example = refl

standard_example : parse_cron_syntax (codes "0 * * * *") ≡ codes "0 0 * * * * *"
unfolding parse_cron_syntax shorthand with_fields decimal
standard_example = refl
