-- ===== src/Membership/Claimable.antt =====
-- claimable_shards of src/membership.rs against claim.
use snerdmq.Membership.{
  claimable_shards, Membership, shard_key, valid, Io, claim, keys_where, is_claimable,
}
use snerdmq.Base.{
  subst, ap, sym, ◌∙◌, ◌↔◌, zero, ◌<◌, arith, if_ind, Bool-cases, ◌≤◌, Bool, refl, In, suc, ◌+◌, ℕ,
  inl, true, inr, ◌≡◌, Text, ℕ_discrete,
}
use snerdmq.Base.Digits.{decimal-injective}
use snerdmq.Base.Result.{is_ok}

pub shard_key-injective : (i j : ℕ) → shard_key i ≡ shard_key j → i ≡ j
unfolding shard_key
shard_key-injective i j e = decimal-injective i j (cc)

keys_where_sound :
    (test : Text → Bool) (k : Text) (from n : ℕ)
    → In k (keys_where test from n)
    → (i : ℕ) × (from ≤ i) × (i < from + n) × (k ≡ shard_key i) × (test k ≡ true)
unfolding keys_where
keys_where_sound test k from zero h = absurd h
keys_where_sound test k from (suc n) h = elim (Bool-cases (test (shard_key from))) [
  | inl t ↦ elim (rw t at h) [
    | inl e ↦ (from, omega arith, omega arith, e, rw e t)
    | inr r ↦
        let (i, l, u, e, p) = keys_where_sound test k (suc from) n r in
        (i, omega arith, omega arith, e, p)
  ]
  | inr f ↦
      let (i, l, u, e, p) = keys_where_sound test k (suc from) n (rw f at h) in
      (i, omega arith, omega arith, e, p)
]

keys_where_complete :
    (test : Text → Bool) (i from n : ℕ)
    → from ≤ i
    → i < from + n
    → test (shard_key i) ≡ true
    → In (shard_key i) (keys_where test from n)
unfolding keys_where
keys_where_complete test i from zero l u t = absurd (omega arith)
keys_where_complete test i from (suc n) l u t = elim (ℕ_discrete i from) [
  | yes e ↦ rw e (rw (rw e at t) (inl refl))
  | no d ↦
      let rest = keys_where_complete test i (suc from) n (omega arith) (omega arith) t in
      if_ind (λ ks. In (shard_key i) ks) (test (shard_key from)) (λ _. inr rest) (λ _. rest)
]

-- Whether a claim succeeds depends on the entry as claimable_shards tests it.
is_claimable-claim :
    (i : Io) (shard owner : Text) (now skew : ℕ) (m : Membership)
    → i.locks ≡ true
    → i.writes ≡ true
    → is_ok (claim i shard owner now skew (valid m)).0 ≡ is_claimable m now skew owner shard
unfolding claim is_claimable
is_claimable-claim i shard owner now skew m l w = ground arith

-- Where the lock and the write succeed, claimable_shards lists exactly the keys of the queue's shards
-- whose claim by the same owner at the same time would succeed.
pub claimable_shards_iff :
    (i : Io) (owner k : Text) (now skew : ℕ) (m : Membership)
    → i.locks ≡ true
    → i.writes ≡ true
    → In k (claimable_shards m now skew owner) ↔ (
        (j : ℕ) × (j < m.shards)
        × (k ≡ shard_key j)
        × (is_ok (claim i k owner now skew (valid m)).0 ≡ true))
unfolding claimable_shards
claimable_shards_iff i owner k now skew m l w =
    let test = is_claimable m now skew owner in
    let same = is_claimable-claim i k owner now skew m l w in
    (
      (λ h.
          let (j, lo, up, e, p) = keys_where_sound test k 0 m.shards h in
          (j, omega arith, e, same ∙ p)),
      (λ h.
          let (j, lt, e, p) = h in
          let p' : test (shard_key j) ≡ true = ap test (sym e) ∙ sym same ∙ p in
          subst (λ x. In x (keys_where test 0 m.shards)) (sym e)
            (keys_where_complete test j 0 m.shards (omega arith) (omega arith) p')),
    )
