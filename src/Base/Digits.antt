-- ===== src/Base/Digits.antt =====
-- Printing and parsing of unsigned numbers as std does it: `{}` and `{:x}` of `format!`, and
-- `str::parse` for u32 and i64.
use Prim.Native.Nat.{ℕ, zero, suc, ◌+◌, ◌-◌, ◌*◌, ◌/◌, ◌%◌, ◌<◌, ◌≤◌}
use mathlib.Core.Path.{◌≡◌, refl, ap, ◌∙◌}
use mathlib.Core.Bool.{Bool, true, ◌&&◌}
use native.Mathlib.Nat.{add-sub_cancel_left}
use mathlib.Core.Logic.{◌≢◌, inl, inr}
use mathlib.Core.Option.{Option, none, some}
use mathlib.Core.List.{List, [], ◌∷◌, map}
use native.Mathlib.Omega.{arith}
use mathlib.Core.Option
use snerdmq.Base.Int.{ℤ, pos, negsuc}
use snerdmq.Base.Tests.{ltb, leb, ◌==◌, if◌then◌else◌, Bool-cases}
use snerdmq.Base.Lists.{All}
use snerdmq.Base.Bytes.{Text, codes}

-- The digits of n before those of acc. Each round divides by ten, so n + 1 rounds are enough.
unfoldable pub digits_from : ℕ → ℕ → ℕ → List ℕ → List ℕ
digits_from b zero n acc = acc
digits_from b (suc f) n acc =
    let rest = digits_from b f (n / b) ((n % b) ∷ acc) in if ltb n b then n ∷ acc else rest

unfoldable pub digit_char : ℕ → ℕ
digit_char d = if ltb d 10 then b'0' + d else b'a' + (d - 10)

-- format!("{}", n)
unfoldable pub decimal : ℕ → Text
unfolding digits_from digit_char
decimal n = map digit_char (digits_from 10 (suc n) n [])

-- format!("{:x}", n)
unfoldable pub hex : ℕ → Text
unfolding digits_from digit_char
hex n = map digit_char (digits_from 16 (suc n) n [])

is_digit : ℕ → Bool
is_digit c = leb b'0' c && leb c b'9'

unfoldable pub parse_digits : ℕ → Text → Option ℕ
unfolding is_digit
parse_digits acc [] = some acc
parse_digits acc (c ∷ cs) =
    let rest = parse_digits (acc * 10 + (c - b'0')) cs in if is_digit c then rest else none

-- A number of `bits` bits overflows exactly when its value does, as the running value only grows.
in_range : ℕ → Option ℕ → Option ℕ
in_range bound none = none
in_range bound (some n) = if ltb n bound then some n else none

unfoldable pub parse_unsigned : ℕ → Text → Option ℕ
unfolding parse_digits in_range
parse_unsigned bound [] = none
parse_unsigned bound (c ∷ []) = in_range bound (parse_digits 0 (c ∷ []))
parse_unsigned bound (c ∷ d ∷ cs) =
    in_range bound (parse_digits 0 (if c == b'+' then d ∷ cs else c ∷ d ∷ cs))

-- s.parse::<u32>().ok()
unfoldable pub parse_u32 : Text → Option ℕ
unfolding parse_unsigned
parse_u32 = parse_unsigned 4294967296

-- s.parse::<usize>().ok() and s.parse::<u64>().ok(), on 64 bits
unfoldable pub parse_u64 : Text → Option ℕ
unfolding parse_unsigned
parse_u64 = parse_unsigned 18446744073709551616

abbrev IsDigits : List ℕ → Type 0
IsDigits = All (λ d. d < 10)

digits_from-IsDigits : (f n : ℕ) (acc : List ℕ) → IsDigits acc → IsDigits (digits_from 10 f n acc)
unfolding digits_from
digits_from-IsDigits zero n acc h = h
digits_from-IsDigits (suc f) n acc h =
    ground (arith, digits_from-IsDigits f (n / 10) ((n % 10) ∷ acc))

-- The value of digits, most significant first.
value : ℕ → List ℕ → ℕ
value acc [] = acc
value acc (d ∷ ds) = value (acc * 10 + d) ds

value-digits_from :
    (f n : ℕ) (acc : List ℕ) → n < f → value 0 (digits_from 10 f n acc) ≡ value n acc
unfolding digits_from value
value-digits_from zero n acc h = absurd (omega arith)
value-digits_from (suc f) n acc h = elim (Bool-cases (ltb n 10)) [
  | inl small ↦ rw small (ap (λ k. value k acc) (omega arith))
  | inr big ↦ rw big (
      rw (value-digits_from f (n / 10) ((n % 10) ∷ acc) (ground arith))
        (ap (λ k. value k acc) (omega arith)))
]

digit_char_lem : (d : ℕ) → d < 10 → digit_char d ≡ 48 + d
unfolding digit_char
digit_char_lem d h = ground arith

is_digit-add : (d : ℕ) → d < 10 → is_digit (48 + d) ≡ true
unfolding is_digit
is_digit-add d h = ground arith

parse_digits-value :
    (a : ℕ) (ds : List ℕ) → IsDigits ds → parse_digits a (map digit_char ds) ≡ some (value a ds)
unfolding parse_digits value
parse_digits-value a [] h = refl
parse_digits-value a (d ∷ ds) h =
    rw (digit_char_lem d h.0, is_digit-add d h.0, add-sub_cancel_left 48 d)
      (parse_digits-value (a * 10 + d) ds h.1)

digits_from-ne-nil : (f n x : ℕ) (acc : List ℕ) → digits_from 10 f n (x ∷ acc) ≢ []
unfolding digits_from
digits_from-ne-nil zero n x acc = λ e. cc
digits_from-ne-nil (suc f) n x acc =
    ground (arith, digits_from-ne-nil f (n / 10) (n % 10) (x ∷ acc))

map-ne-nil : (ds : List ℕ) → ds ≢ [] → map digit_char ds ≢ []
map-ne-nil [] h e = h refl
map-ne-nil (d ∷ ds) h e = cc

pub decimal-ne-nil : (n : ℕ) → decimal n ≢ []
unfolding decimal digits_from
decimal-ne-nil n = map-ne-nil _ (ground (arith, digits_from-ne-nil n (n / 10) (n % 10) []))

pub parse_digits-decimal : (n : ℕ) → parse_digits 0 (decimal n) ≡ some n
unfolding decimal value
parse_digits-decimal n =
    parse_digits-value 0 _ (digits_from-IsDigits (suc n) n [] tt)
    ∙ ap some (value-digits_from (suc n) n [] (omega arith))

parse_unsigned_of_digits :
    (bound n : ℕ) (t : Text)
    → t ≢ []
    → parse_digits 0 t ≡ some n
    → n < bound
    → parse_unsigned bound t ≡ some n
unfolding parse_unsigned parse_digits
parse_unsigned_of_digits bound n [] h e l = absurd (h refl)
parse_unsigned_of_digits bound n (c ∷ []) h e l = ground arith
parse_unsigned_of_digits bound n (c ∷ d ∷ cs) h e l = ground arith

-- A decimal digit's character.
abbrev pub IsDigitChar : ℕ → Type 0
IsDigitChar c = (48 ≤ c) × (c ≤ 57)

chars-IsDigitChar : (ds : List ℕ) → IsDigits ds → All IsDigitChar (map digit_char ds)
unfolding digit_char
chars-IsDigitChar [] h = tt
chars-IsDigitChar (d ∷ ds) h = ((ground arith, ground arith), chars-IsDigitChar ds h.1)

pub decimal-IsDigitChar : (n : ℕ) → All IsDigitChar (decimal n)
unfolding decimal
decimal-IsDigitChar n = chars-IsDigitChar _ (digits_from-IsDigits (suc n) n [] tt)

-- What `{}` prints `parse::<u32>` reads back.
pub parse_u32-decimal : (n : ℕ) → n < 4294967296 → parse_u32 (decimal n) ≡ some n
unfolding parse_u32
parse_u32-decimal n h =
    parse_unsigned_of_digits 4294967296 n (decimal n) (decimal-ne-nil n) (parse_digits-decimal n) h

-- Different numbers print differently.
pub decimal-injective : (m n : ℕ) → decimal m ≡ decimal n → m ≡ n
decimal-injective m n e = cc (parse_digits-decimal m, parse_digits-decimal n)

decimal_example : decimal 1205 ≡ codes "1205"
unfolding decimal
decimal_example = refl

hex_example : hex 48879 ≡ codes "beef"
unfolding hex
hex_example = refl

-- -n
negated : ℕ → ℤ
negated zero = pos 0
negated (suc n) = negsuc n

-- s.parse::<i64>().ok()
unfoldable pub parse_i64 : Text → Option ℤ
unfolding parse_unsigned parse_digits in_range negated
parse_i64 [] = none
parse_i64 (c ∷ []) = Option.map pos (parse_unsigned 9223372036854775808 (c ∷ []))
parse_i64 (c ∷ d ∷ cs) =
    if c == b'-'
    then Option.map negated (in_range 9223372036854775809 (parse_digits 0 (d ∷ cs)))
    else Option.map pos (parse_unsigned 9223372036854775808 (c ∷ d ∷ cs))
