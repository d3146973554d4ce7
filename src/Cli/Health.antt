-- ===== src/Cli/Health.antt =====
-- cmd_validate of src/main.rs: what makes a queue degraded.
use snerdmq.Base.{◌∷◌, subst, sym, ◌↔◌, [], ℕ_discrete}
use snerdmq.Membership.{
  with_lock, read_unlocked, valid, load, Io, shard_key, Claim, is_lapsed, Membership,
}
use snerdmq.Base.{
  ◌⊎◌, zero, Bool-cases, ℕ_discrete, List, inl, ◌<◌, In, ◌≡◌, some, arith, inr, Text, refl, true,
  false, ◌≤◌, Option-cases, ℕ, Bool, ◌+◌, suc,
}
use snerdmq.Map.{get}
use snerdmq.Cli.{no_orphans, cmd_validate, shards_healthy, shard_healthy, is_orphan}

-- A shard from the number on, n of them, without its directory or with a lapsed claim.
abbrev pub HasBadShard : (Text → Bool) → ℕ → ℕ → Membership → ℕ → ℕ → Type 0
HasBadShard dir_exists now skew m from n =
    (j : ℕ) × (from ≤ j)
    × (j < from + n)
    × ((dir_exists (shard_key j) ≡ false)
        ⊎ ((c : Claim) × (get (shard_key j) m.claims ≡ some c) × (is_lapsed c now skew ≡ true)))

abbrev pub HasOrphan : Membership → List Text → Type 0
HasOrphan m names = (name : Text) × In name names × (is_orphan m name ≡ true)

module _ (dir_exists : Text → Bool) (now skew : ℕ) (m : Membership) where
  shard_healthy-false :
      (key : Text)
      → shard_healthy dir_exists now skew m key ≡ false
      → (dir_exists key ≡ false)
        ⊎ ((c : Claim) × (get key m.claims ≡ some c) × (is_lapsed c now skew ≡ true))
  unfolding shard_healthy
  shard_healthy-false key h = elim (Bool-cases (dir_exists key)) [
    | inr f ↦ inl f
    | inl t ↦ elim (Option-cases (get key m.claims)) [
      | inr (c, e) ↦ inr (c, e, ground arith)
      | inl e ↦ absurd (ground arith)
    ]
  ]

  shards_healthy-false :
      (from n : ℕ)
      → shards_healthy dir_exists now skew m from n ≡ false
      → HasBadShard dir_exists now skew m from n
  unfolding shards_healthy
  shards_healthy-false from zero h = absurd (cc)
  shards_healthy-false from (suc n) h =
      elim (Bool-cases (shards_healthy dir_exists now skew m (suc from) n)) [
        | inr f ↦
            let (j, l, u, bad) = shards_healthy-false (suc from) n f in
            (j, omega arith, omega arith, bad)
        | inl t ↦ (from, omega arith, omega arith, shard_healthy-false (shard_key from) (rw t at h))
      ]

  bad_shard-unhealthy :
      (key : Text)
      → (dir_exists key ≡ false)
        ⊎ ((c : Claim) × (get key m.claims ≡ some c) × (is_lapsed c now skew ≡ true))
      → shard_healthy dir_exists now skew m key ≡ false
  unfolding shard_healthy
  bad_shard-unhealthy key (inl f) = ground arith
  bad_shard-unhealthy key (inr (c, e, l)) = ground arith

  bad_shard-false :
      (from n : ℕ)
      → HasBadShard dir_exists now skew m from n
      → shards_healthy dir_exists now skew m from n ≡ false
  unfolding shards_healthy
  bad_shard-false from zero (j, l, u, bad) = absurd (omega arith)
  bad_shard-false from (suc n) (j, l, u, bad) = elim (ℕ_discrete j from) [
    | yes e ↦
        let here = bad_shard-unhealthy (shard_key from) (
          subst
            (λ i.
              (dir_exists (shard_key i) ≡ false)
              ⊎ ((c : Claim) × (get (shard_key i) m.claims ≡ some c)
                  × (is_lapsed c now skew ≡ true)))
            e bad) in
        ground (arith, here)
    | no d ↦ rw (bad_shard-false (suc from) n (j, omega arith, omega arith, bad)) refl
  ]

orphan-false : (m : Membership) (names : List Text) → HasOrphan m names → no_orphans m names ≡ false
unfolding no_orphans
orphan-false m [] (name, h, o) = absurd h
orphan-false m (n ∷ names) (name, inl e, o) = rw (sym e) (rw o refl)
orphan-false m (n ∷ names) (name, inr h, o) =
    let rest = orphan-false m names (name, h, o) in ground (arith, rest)

no_orphans-false :
    (m : Membership) (names : List Text) → no_orphans m names ≡ false → HasOrphan m names
unfolding no_orphans
no_orphans-false m [] h = absurd (cc)
no_orphans-false m (n ∷ names) h = elim (Bool-cases (is_orphan m n)) [
  | inl o ↦ (n, inl refl, o)
  | inr f ↦ let (name, i, o) = no_orphans-false m names (rw f at h) in (name, inr i, o)
]

-- Where the lock is taken, validate reports a valid membership file as degraded exactly when some
-- shard of the queue has no directory or a lapsed claim, or the directory has an orphan.
pub cmd_validate-false :
    (i : Io) (dir_exists : Text → Bool) (names : List Text) (now skew : ℕ) (m : Membership)
    → i.locks ≡ true
    → (cmd_validate i dir_exists names now skew (valid m) ≡ false)
      ↔ (HasBadShard dir_exists now skew m 0 m.shards ⊎ HasOrphan m names)
unfolding cmd_validate load with_lock read_unlocked
cmd_validate-false i dir_exists names now skew m l = rw l (
  (λ h. elim (Bool-cases (shards_healthy dir_exists now skew m 0 m.shards)) [
    | inl t ↦ inr (no_orphans-false m names (rw t at h))
    | inr f ↦ inl (shards_healthy-false dir_exists now skew m 0 m.shards f)
  ]),
  (λ h. elim h [
    | inl b ↦ rw (bad_shard-false dir_exists now skew m 0 m.shards b) refl
    | inr o ↦ let f = orphan-false m names o in ground (arith, f)
  ]),
)
