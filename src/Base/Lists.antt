-- ===== src/Base/Lists.antt =====
-- Lists measured by native numbers, and predicates over their elements.
use Prim.Native.Nat.{ℕ, zero, suc, ◌+◌}
use mathlib.Core.Path.{◌≡◌, refl, sym, subst}
use mathlib.Core.List.{List, [], ◌∷◌, ◌++◌}
use mathlib.Core.Logic.{◌⊎◌, inl, inr}
use mathlib.Core.Option.{Option, none, some}
use native.Mathlib.Omega.{arith}

module _ {ℓ} {A : Type ℓ} where
  abbrev pub length : List A → ℕ
  length [] = 0
  length (x ∷ xs) = suc (length xs)

  pub length-append : (xs ys : List A) → length (xs ++ ys) ≡ length xs + length ys
  length-append [] ys = omega arith
  length-append (x ∷ xs) ys = omega (arith, length-append xs ys)

  abbrev pub get_elem? : List A → ℕ → Option A
  get_elem? [] i = none
  get_elem? (x ∷ xs) zero = some x
  get_elem? (x ∷ xs) (suc i) = get_elem? xs i

module _ {ℓ κ} {A : Type ℓ} (P : A → Type κ) where
  abbrev pub All : List A → Type κ
  All [] = Unit
  All (x ∷ xs) = P x × All xs

  pub All-append : (xs ys : List A) → All xs → All ys → All (xs ++ ys)
  All-append [] ys hx hy = hy
  All-append (x ∷ xs) ys hx hy = (hx.0, All-append xs ys hx.1 hy)

-- Membership that computes.
abbrev pub In : {A : Type 0} → A → List A → Type 0
In x [] = ⊥
In x (y ∷ ys) = (x ≡ y) ⊎ In x ys

module _ {A : Type 0} where
  pub In-append_left : (x : A) (xs ys : List A) → In x xs → In x (xs ++ ys)
  In-append_left x [] ys h = absurd h
  In-append_left x (y ∷ xs) ys (inl e) = inl e
  In-append_left x (y ∷ xs) ys (inr h) = inr (In-append_left x xs ys h)

  pub In-append_last : (x k : A) (xs : List A) → In x (xs ++ k ∷ []) → In x xs ⊎ (x ≡ k)
  In-append_last x k [] (inl e) = inr e
  In-append_last x k [] (inr h) = absurd h
  In-append_last x k (y ∷ xs) (inl e) = inl (inl e)
  In-append_last x k (y ∷ xs) (inr h) = elim (In-append_last x k xs h) [
    | inl i ↦ inl (inr i)
    | inr e ↦ inr e
  ]

  pub In-append_self : (k : A) (xs : List A) → In k (xs ++ k ∷ [])
  In-append_self k [] = inl refl
  In-append_self k (x ∷ xs) = inr (In-append_self k xs)

  pub All-map :
      (P Q : A → Type 0) (ks : List A) → ((k : A) → In k ks → P k → Q k) → All P ks → All Q ks
  All-map P Q [] f h = tt
  All-map P Q (k ∷ ks) f h = (f k (inl refl) h.0, All-map P Q ks (λ j i. f j (inr i)) h.1)

  pub All-In : (ks : List A) → All (λ k. In k ks) ks
  All-In [] = tt
  All-In (k ∷ ks) =
      (inl refl, All-map (λ x. In x ks) (λ x. In x (k ∷ ks)) ks (λ x i h. inr h) (All-In ks))

  pub In-append_right : (x : A) (xs ys : List A) → In x ys → In x (xs ++ ys)
  In-append_right x [] ys h = h
  In-append_right x (y ∷ xs) ys h = inr (In-append_right x xs ys h)

  pub In-append_cases : (x : A) (xs ys : List A) → In x (xs ++ ys) → In x xs ⊎ In x ys
  In-append_cases x [] ys h = inr h
  In-append_cases x (y ∷ xs) ys (inl e) = inl (inl e)
  In-append_cases x (y ∷ xs) ys (inr h) = elim (In-append_cases x xs ys h) [
    | inl i ↦ inl (inr i)
    | inr i ↦ inr i
  ]

-- No element twice.
abbrev pub Distinct : {A : Type 0} → List A → Type 0
Distinct [] = Unit
Distinct (x ∷ xs) = (In x xs → ⊥) × Distinct xs

module _ {A : Type 0} where
  pub Distinct-left : (xs ys : List A) → Distinct (xs ++ ys) → Distinct xs
  Distinct-left [] ys h = tt
  Distinct-left (x ∷ xs) ys h = ((λ i. h.0 (In-append_left x xs ys i)), Distinct-left xs ys h.1)

  pub Distinct-apart : (x : A) (xs ys : List A) → Distinct (xs ++ ys) → In x xs → In x ys → ⊥
  Distinct-apart x (y ∷ xs) ys h (inl e) j =
      h.0 (In-append_right y xs ys (subst (λ z. In z ys) e j))
  Distinct-apart x (y ∷ xs) ys h (inr i) j = Distinct-apart x xs ys h.1 i j
  Distinct-apart x [] ys h i j = i

  pub Distinct-last : (k : A) (xs : List A) → (In k xs → ⊥) → Distinct xs → Distinct (xs ++ k ∷ [])
  Distinct-last k [] n h = ((λ i. i), tt)
  Distinct-last k (x ∷ xs) n h = (
    (λ i. elim (In-append_last x k xs i) [ inl j ↦ h.0 j | inr e ↦ n (inl (sym e)) ]),
    Distinct-last k xs (λ i. n (inr i)) h.1,
  )
