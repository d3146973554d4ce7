-- ===== src/Task/Cron/Shorthands.antt =====
-- What parse_cron_syntax of src/task.rs makes of the shorthands, `10s`, `15m`, `2h` and `1d`.
use snerdmq.Base.{
  ℕ, ◌≡◌, refl, true, false, none, some, [], ◌∷◌, ◌++◌, Text, codes, ◌==◌, arith, ap, ◌<◌, All, ◌∙◌,
  All-append,
}
use snerdmq.Base.Digits.{decimal, parse_u32-decimal, decimal-IsDigitChar, IsDigitChar}
use snerdmq.Task.Cron.{
  is_whitespace, trim_start, trim_end_char, trim_end, trim, strip_suffix, shorthand, expand,
  parse_cron_syntax,
}

abbrev IsPlain : ℕ → Type 0
IsPlain c = is_whitespace c ≡ false

digit-IsPlain : (c : ℕ) → IsDigitChar c → IsPlain c
unfolding is_whitespace
digit-IsPlain c h = ground arith

digits-IsPlain : (t : Text) → All IsDigitChar t → All IsPlain t
digits-IsPlain [] h = tt
digits-IsPlain (c ∷ cs) h = (digit-IsPlain c h.0, digits-IsPlain cs h.1)

trim_end_plain : (t : Text) → All IsPlain t → trim_end t ≡ t
unfolding trim_end trim_end_char
trim_end_plain [] h = refl
trim_end_plain (c ∷ []) h = rw h.0
trim_end_plain (c ∷ d ∷ cs) h = rw (trim_end_plain (d ∷ cs) h.1)

trim_plain : (t : Text) → All IsPlain t → trim t ≡ t
unfolding trim trim_start
trim_plain [] h = trim_end_plain [] tt
trim_plain (c ∷ cs) h = rw h.0 (trim_end_plain (c ∷ cs) h)

eq_self : (s : ℕ) → (s == s) ≡ true
eq_self s = ground arith

strip_suffix-append : (s : ℕ) (t : Text) → strip_suffix s (t ++ s ∷ []) ≡ some t
unfolding strip_suffix
strip_suffix-append s [] = rw eq_self
strip_suffix-append s (c ∷ []) = rw eq_self
strip_suffix-append s (c ∷ d ∷ cs) = rw (strip_suffix-append s (d ∷ cs))

strip_suffix-append_ne :
    (s x : ℕ) (t : Text) → (x == s) ≡ false → strip_suffix s (t ++ x ∷ []) ≡ none
unfolding strip_suffix
strip_suffix-append_ne s x [] h = rw h
strip_suffix-append_ne s x (c ∷ []) h = rw h
strip_suffix-append_ne s x (c ∷ d ∷ cs) h = rw (strip_suffix-append_ne s x (d ∷ cs) h)

shorthand_self : (s n : ℕ) → n < 4294967296 → shorthand s (decimal n ++ s ∷ []) ≡ some n
unfolding shorthand
shorthand_self s n h = rw (strip_suffix-append s (decimal n)) (parse_u32-decimal n h)

shorthand_ne : (s x n : ℕ) → (x == s) ≡ false → shorthand s (decimal n ++ x ∷ []) ≡ none
unfolding shorthand
shorthand_ne s x n h = rw (strip_suffix-append_ne s x (decimal n) h)

trim-shorthand :
    (x n : ℕ) → IsPlain x → parse_cron_syntax (decimal n ++ x ∷ []) ≡ expand (decimal n ++ x ∷ [])
unfolding parse_cron_syntax
trim-shorthand x n h = ap expand (
    trim_plain _
      (All-append IsPlain (decimal n) (x ∷ []) (digits-IsPlain _ (decimal-IsDigitChar n)) (h, tt)))

-- Below 2^32 each of the four shorthands becomes the expression with */n in the field of its unit.
pub parse_cron_syntax-shorthand :
    (n : ℕ)
    → n < 4294967296
    → (parse_cron_syntax (decimal n ++ codes "s") ≡ codes "*/" ++ decimal n ++ codes " * * * * *")
      × (parse_cron_syntax (decimal n ++ codes "m") ≡ codes "0 */" ++ decimal n ++ codes " * * * *")
      × (parse_cron_syntax (decimal n ++ codes "h") ≡ codes "0 0 */" ++ decimal n ++ codes " * * *")
      × (parse_cron_syntax (decimal n ++ codes "d") ≡ codes "0 0 0 */" ++ decimal n ++ codes " * *")
unfolding is_whitespace expand
parse_cron_syntax-shorthand n h = (
  trim-shorthand b's' n refl ∙ rw (shorthand_self b's' n h, expand),
  trim-shorthand b'm' n refl ∙ rw (shorthand_ne b's' b'm' n refl, shorthand_self b'm' n h, expand),
  trim-shorthand b'h' n refl
      ∙ rw (
        shorthand_ne b's' b'h' n refl,
        shorthand_ne b'm' b'h' n refl,
        shorthand_self b'h' n h,
        expand,
      ),
  trim-shorthand b'd' n refl
      ∙ rw (
        shorthand_ne b's' b'd' n refl,
        shorthand_ne b'm' b'd' n refl,
        shorthand_ne b'h' b'd' n refl,
        shorthand_self b'd' n h,
        expand,
      ),
)
