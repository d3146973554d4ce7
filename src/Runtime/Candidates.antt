-- ===== src/Runtime/Candidates.antt =====
-- The candidates of acquire_shards in src/main.rs.

-- No candidate is among the shards taken before it.
use snerdmq.Membership.{shard_key, keys_where}
use snerdmq.Base.{
  ◌++◌, suc, subst, Bool, ◌∷◌, In-append_last, ◌<◌, [], In-append_self, zero, inl, sym, arith, ℕ,
  if_ind, inr, In-append_left, ◌≡◌, In, List, Text,
}
use snerdmq.Membership.Claimable.{shard_key-injective}

abbrev pub Fresh : List Text → List Text → Type 0
Fresh taken [] = Unit
Fresh taken (k ∷ ks) = (In k taken → ⊥) × Fresh (taken ++ k ∷ []) ks

pub Fresh-fewer : (a b ks : List Text) → ((x : Text) → In x a → In x b) → Fresh b ks → Fresh a ks
Fresh-fewer a b [] f h = tt
Fresh-fewer a b (k ∷ ks) f h = (
  (λ i. h.0 (f k i)),
  Fresh-fewer (a ++ k ∷ []) (b ++ k ∷ []) ks
      (λ x i. elim (In-append_last x k a i) [
        | inl j ↦ In-append_left x b (k ∷ []) (f x j)
        | inr e ↦ subst (λ y. In y (b ++ k ∷ [])) (sym e) (In-append_self k b)
      ])
      h.1,
)

pub Fresh-keys_where :
    (test : Text → Bool) (taken : List Text) (from n : ℕ)
    → ((x : Text) → In x taken → (j : ℕ) × (j < from) × (x ≡ shard_key j))
    → Fresh taken (keys_where test from n)
unfolding keys_where
Fresh-keys_where test taken from zero f = tt
Fresh-keys_where test taken from (suc n) f =
    if_ind (Fresh taken) (test (shard_key from))
      (λ _. (
        (λ i.
            let (j, l, e) = f (shard_key from) i in
            let same : from ≡ j = shard_key-injective from j e in absurd (omega arith)),
        Fresh-keys_where test (taken ++ shard_key from ∷ []) (suc from) n (λ x i.
            elim (In-append_last x (shard_key from) taken i) [
              | inl i' ↦ let (j, l, e) = f x i' in (j, omega arith, e)
              | inr e ↦ (from, omega arith, e)
            ]),
      ))
      (λ _.
        Fresh-keys_where test taken (suc from) n
          (λ x i. let (j, l, e) = f x i in (j, omega arith, e)))
