-- ===== src/Base/Bytes.antt =====
-- Rust's `String` and `&str`: the list of a text's characters, as Unicode scalar values.
use Prim.Native.Nat.{ℕ}
use Prim.Native.Char.{code}
use Prim.Native.String.{String}
use mathlib.Core.Path.{◌≡◌, refl, ap₂}
use mathlib.Core.Logic.{◌≢◌}
use mathlib.Core.List.{List, [], ◌∷◌}
use native.Mathlib.Decide.{ℕ_discrete}
use snerdmq.Base.Tests.{if◌then◌else◌, ◌==◌}

abbrev pub Text : Type 0
Text = List ℕ

-- The characters of a literal.
abbrev pub codes : String → Text
codes String.[] = []
codes (String.◌∷◌ c s) = code c ∷ codes s

cons_dec : {x y : ℕ} {xs ys : Text} → Dec (x ≡ y) → Dec (xs ≡ ys) → Dec (x ∷ xs ≡ y ∷ ys)
cons_dec (yes p) (yes q) = yes (ap₂ ◌∷◌ p q)
cons_dec (yes p) (no q) = no (λ e. q (cc))
cons_dec (no p) d = no (λ e. p (cc))

pub nil-ne-cons : {y : ℕ} {ys : Text} → ◌≢◌ {A = Text} [] (y ∷ ys)
nil-ne-cons e = cc

pub cons-ne-nil : {y : ℕ} {ys : Text} → ◌≢◌ {A = Text} (y ∷ ys) []
cons-ne-nil e = cc

unfoldable pub text_dec : Discrete Text
unfolding cons_dec ℕ_discrete
text_dec [] [] = yes refl
text_dec [] (y ∷ ys) = no nil-ne-cons
text_dec (x ∷ xs) [] = no cons-ne-nil
text_dec (x ∷ xs) (y ∷ ys) = cons_dec (ℕ_discrete x y) (text_dec xs ys)

-- Adds a character to the first piece.
prepend : ℕ → List Text → List Text
prepend c [] = (c ∷ []) ∷ []
prepend c (p ∷ ps) = (c ∷ p) ∷ ps

-- str::split at a character
unfoldable pub split : ℕ → Text → List Text
unfolding prepend
split sep [] = [] ∷ []
split sep (c ∷ cs) = let rest = split sep cs in if c == sep then [] ∷ rest else prepend c rest
