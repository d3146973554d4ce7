-- ===== src/Task/Cron/Fields.antt =====
-- What parse_cron_syntax of src/task.rs makes of cron fields with one space between each two.
use mathlib.Core.List.{append-nil, append_assoc}
use snerdmq.Base.{
  some, ◌==◌, ◌⊎◌, codes, ◌+◌, length, ◌-◌, inr, arith, ◌*◌, Option-cases, inl, Bool-cases,
  if◌then◌else◌, none, ℕ, refl, List, sym, Text, ◌≡◌, [], ◌++◌, All, ◌∷◌, ◌∙◌, ap, false,
}
use snerdmq.Task.Cron.{
  parse_cron_syntax, shorthand, strip_suffix, expand, with_fields, trim_end_char, trim_start,
  trim_end, trim, split_whitespace, split_from, is_whitespace, flush,
}
use snerdmq.Base.Digits.{parse_unsigned, parse_digits, parse_u32}

abbrev IsWord : Text → Type 0
IsWord = All (λ c. is_whitespace c ≡ false)

-- A field has a character, and no white space.
abbrev pub IsField : Text → Type 0
IsField [] = ⊥
IsField (c ∷ cs) = IsWord (c ∷ cs)

-- The fields with a space between each two.
unfoldable pub join : List Text → Text
join [] = []
join (f ∷ []) = f
join (f ∷ g ∷ fs) = f ++ (32 ∷ join (g ∷ fs))

split_from-word : (w f cs : Text) → IsWord f → split_from w (f ++ cs) ≡ split_from (w ++ f) cs
unfolding split_from
split_from-word w [] cs h = rw append-nil refl
split_from-word w (c ∷ f) cs h =
    rw h.0 (split_from-word (w ++ c ∷ []) f cs h.1 ∙ rw append_assoc refl)

split_from-end : (f : Text) → IsField f → split_from [] f ≡ f ∷ []
unfolding split_from flush
split_from-end [] h = absurd h
split_from-end (c ∷ f) h =
    ap (split_from []) (sym (append-nil (c ∷ f))) ∙ split_from-word [] (c ∷ f) [] h

flush-field : (f : Text) (ws : List Text) → IsField f → flush f ws ≡ f ∷ ws
unfolding flush
flush-field [] ws h = absurd h
flush-field (c ∷ f) ws h = refl

IsWord-of : (f : Text) → IsField f → IsWord f
IsWord-of [] h = tt
IsWord-of (c ∷ f) h = h

-- Fields that are written with one space between each two are read back.
split_whitespace-join : (fs : List Text) → All IsField fs → split_whitespace (join fs) ≡ fs
unfolding split_whitespace join
split_whitespace-join [] h = unfold split_from flush in refl
split_whitespace-join (f ∷ []) h = split_from-end f h.0
split_whitespace-join (f ∷ g ∷ fs) h =
    split_from-word [] f (32 ∷ join (g ∷ fs)) (IsWord-of f h.0)
    ∙ (unfold split_from is_whitespace in flush-field f (split_from [] (join (g ∷ fs))) h.0)
    ∙ ap (λ ws. f ∷ ws) (split_whitespace-join (g ∷ fs) h.1)

-- trim leaves a text alone whose first and last characters are not white space.
trim_end-append :
    (xs : Text) (c : ℕ) (s : Text)
    → trim_end (c ∷ s) ≡ c ∷ s
    → trim_end (xs ++ (c ∷ s)) ≡ xs ++ (c ∷ s)
unfolding trim_end trim_end_char
trim_end-append [] c s h = h
trim_end-append (x ∷ []) c s h = ap (trim_end_char x) h
trim_end-append (x ∷ y ∷ xs) c s h = ap (trim_end_char x) (trim_end-append (y ∷ xs) c s h)

trim_end-word : (f : Text) → IsWord f → trim_end f ≡ f
unfolding trim_end trim_end_char
trim_end-word [] h = refl
trim_end-word (c ∷ []) h = rw h.0
trim_end-word (c ∷ d ∷ cs) h = rw (trim_end-word (d ∷ cs) h.1)

-- A joined list of fields starts with a character of its first.
join-cons :
    (g : Text) (fs : List Text)
    → IsField g
    → (c : ℕ) × (s : Text) × (join (g ∷ fs) ≡ c ∷ s) × (is_whitespace c ≡ false)
unfolding join
join-cons [] fs h = absurd h
join-cons (c ∷ g) [] h = (c, g, refl, h.0)
join-cons (c ∷ g) (f ∷ fs) h = (c, g ++ (32 ∷ join (f ∷ fs)), refl, h.0)

trim_end-join :
    (g : Text) (fs : List Text) → All IsField (g ∷ fs) → trim_end (join (g ∷ fs)) ≡ join (g ∷ fs)
unfolding join
trim_end-join g [] h = trim_end-word g (IsWord-of g h.0)
trim_end-join g (f ∷ fs) h =
    let (c, s, e, p) = join-cons f fs h.1.0 in
    let rest : trim_end (c ∷ s) ≡ c ∷ s = ap trim_end (sym e) ∙ trim_end-join f fs h.1 ∙ e in
    ap (λ x. trim_end (g ++ (32 ∷ x))) e
    ∙ trim_end-append g 32 (c ∷ s) (trim_end-append (32 ∷ []) c s rest)
    ∙ ap (λ x. g ++ (32 ∷ x)) (sym e)

trim-join :
    (g : Text) (fs : List Text) → All IsField (g ∷ fs) → trim (join (g ∷ fs)) ≡ join (g ∷ fs)
unfolding trim
trim-join g fs h =
    let (c, s, e, p) = join-cons g fs h.0 in
    ap (λ x. trim_end (trim_start x)) e
    ∙ (unfold trim_start in rw p refl)
    ∙ ap trim_end (sym e)
    ∙ trim_end-join g fs h

-- A text with a space inside is no shorthand.
parse_digits-space : (acc : ℕ) (xs ys : Text) → parse_digits acc (xs ++ (32 ∷ ys)) ≡ none
unfolding parse_digits
parse_digits-space acc [] ys = refl
parse_digits-space acc (x ∷ xs) ys =
    rw (parse_digits-space (acc * 10 + (x - 48)) xs ys) (ground arith)

parse_u32-space : (f ys : Text) → IsField f → parse_u32 (f ++ (32 ∷ ys)) ≡ none
unfolding parse_u32 parse_unsigned
parse_u32-space [] ys h = absurd h
parse_u32-space (c ∷ []) ys h = elim (Bool-cases (c == b'+')) [
  | inl plus ↦ rw plus (rw (parse_digits-space 0 [] ys) refl)
  | inr ne ↦ rw ne (rw (parse_digits-space 0 (c ∷ []) ys) refl)
]
parse_u32-space (c ∷ d ∷ f) ys h = elim (Bool-cases (c == b'+')) [
  | inl plus ↦ rw plus (rw (parse_digits-space 0 (d ∷ f) ys) refl)
  | inr ne ↦ rw ne (rw (parse_digits-space 0 (c ∷ d ∷ f) ys) refl)
]

strip_suffix-space :
    (k : ℕ) (xs : Text) (c : ℕ) (s : Text)
    → (strip_suffix k (xs ++ (32 ∷ c ∷ s)) ≡ none)
      ⊎ ((r : Text) × (strip_suffix k (xs ++ (32 ∷ c ∷ s)) ≡ some (xs ++ (32 ∷ r))))
unfolding strip_suffix
strip_suffix-space k [] c s = elim (Option-cases (strip_suffix k (c ∷ s))) [
  | inl e ↦ inl (rw e refl)
  | inr (r, e) ↦ inr (r, rw e refl)
]
strip_suffix-space k (x ∷ []) c s = elim (Option-cases (strip_suffix k (c ∷ s))) [
  | inl e ↦ inl (rw e refl)
  | inr (r, e) ↦ inr (r, rw e refl)
]
strip_suffix-space k (x ∷ y ∷ xs) c s = elim (strip_suffix-space k (y ∷ xs) c s) [
  | inl e ↦ inl (rw e refl)
  | inr (r, e) ↦ inr (r, rw e refl)
]

shorthand-space :
    (k : ℕ) (f : Text) (c : ℕ) (s : Text) → IsField f → shorthand k (f ++ (32 ∷ c ∷ s)) ≡ none
unfolding shorthand
shorthand-space k f c s h = elim (strip_suffix-space k f c s) [
  | inl e ↦ rw e refl
  | inr (r, e) ↦ rw e (parse_u32-space f r h)
]

shorthand-join :
    (k : ℕ) (f g : Text) (fs : List Text)
    → All IsField (f ∷ g ∷ fs)
    → shorthand k (join (f ∷ g ∷ fs)) ≡ none
unfolding join
shorthand-join k f g fs h =
    let (c, s, e, p) = join-cons g fs h.1.0 in
    ap (λ x. shorthand k (f ++ (32 ∷ x))) e ∙ shorthand-space k f c s h.0

parse_cron_syntax-two :
    (f g : Text) (fs : List Text)
    → All IsField (f ∷ g ∷ fs)
    → parse_cron_syntax (join (f ∷ g ∷ fs)) ≡ with_fields (join (f ∷ g ∷ fs))
unfolding parse_cron_syntax expand
parse_cron_syntax-two f g fs h =
    ap expand (trim-join f (g ∷ fs) h)
    ∙ rw (
      shorthand-join b's' f g fs h,
      shorthand-join b'm' f g fs h,
      shorthand-join b'h' f g fs h,
      shorthand-join b'd' f g fs h,
      expand,
    )

-- Two or more fields with one space between each two are read as these fields: five of them get a
-- seconds field of 0 in front and a year field of * behind, six get the year field, and any other
-- number of fields stays as it is. None of them is taken for a shorthand.
pub parse_cron_syntax-join :
    (f g : Text) (fs : List Text)
    → All IsField (f ∷ g ∷ fs)
    → (split_whitespace (join (f ∷ g ∷ fs)) ≡ f ∷ g ∷ fs)
      × (parse_cron_syntax (join (f ∷ g ∷ fs)) ≡ (
          if length fs == 3
          then codes "0 " ++ join (f ∷ g ∷ fs) ++ codes " *"
          else if length fs == 4
          then join (f ∷ g ∷ fs) ++ codes " *"
          else join (f ∷ g ∷ fs)))
unfolding with_fields
parse_cron_syntax-join f g fs h =
    let words = split_whitespace-join (f ∷ g ∷ fs) h in
    (words, parse_cron_syntax-two f g fs h ∙ rw words (ground arith))
