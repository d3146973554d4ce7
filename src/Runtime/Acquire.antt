-- ===== src/Runtime/Acquire.antt =====
-- What acquire_shards of src/main.rs has in its hands when it succeeds.
use snerdmq.Runtime.{
  acquire_loaded, acquire_shards, acquire_from, attempt, after_claim, try_lock_shard, after_lock,
  Acquired, after_revert, Shared, Turn,
}
use snerdmq.Membership.{
  MembershipError, Membership, claimable_shards, load, is_claimable, lease, Outcome, Claim, Io,
  revert_claim, ClaimOutcome, claim,
}
use snerdmq.Base.{
  All-map, In-append_left, All-In, Bool-cases, length-append, length, ◌≤◌, suc, leb, if_ind,
  All-append, Bool, ◌∙◌, subst, Text, arith, [], ◌∷◌, refl, ◌≢◌, In, All, ℕ, List, ◌≡◌, inl, some,
  inr, ◌++◌, ◌⊎◌, sym,
}
use snerdmq.Map.{Map, contains, insert, get-insert_ne, get, get-insert_self}
use snerdmq.Base.Result.{Result, IoError, err, ok}
use snerdmq.Membership.Exclusion.{holder}
use snerdmq.Runtime.Candidates.{Fresh-fewer, Fresh, Fresh-keys_where}
use snerdmq.Membership.Others.{revert_ne, claim_ne, claim_own}

-- The daemon has the shard: the entry of membership.json and the lock are its own.
abbrev pub Has : Text → Shared → Text → Type 0
Has owner s k =
    ((c : Claim) × (holder k s.file ≡ some c) × (c.owner ≡ owner)) × (get k s.flocks ≡ some owner)

-- Other daemons leave alone what this one has.
abbrev pub Respects : Text → Turn → Type 0
Respects owner t = (s : Shared) (k : Text) → Has owner s k → Has owner (t.others s) k

-- What a round leaves if the loop goes on after it.
abbrev Round : Text → Text → List Text → Acquired → Type 0
Round owner k taken (ok taken', s) =
    All (Has owner s) taken' × ((taken' ≡ taken) ⊎ (taken' ≡ taken ++ k ∷ []))
Round owner k taken (err e, s) = Unit

module _ (owner k : Text) (taken : List Text) (new : In k taken → ⊥) where
  ne_taken : (j : Text) → In j taken → k ≢ j
  ne_taken j i e = new (subst (λ x. In x taken) (sym e) i)

  after_revert-Round :
      (s : Shared) (o : Outcome (Unit {0}))
      → ((j : Text) → k ≢ j → holder j o.1 ≡ holder j s.file)
      → All (Has owner s) taken
      → Round owner k taken (after_revert taken s o)
  unfolding after_revert
  after_revert-Round s (err e, f) same h = tt
  after_revert-Round s (ok _, f) same h = (
    All-map (Has owner s) (Has owner (record s { file = f })) taken
        (λ j i m. ((m.0.0, same j (ne_taken j i) ∙ m.0.1, m.0.2), m.1)) h,
    inl refl,
  )

  lock-Round :
      (s : Shared)
      → All (Has owner s) taken
      → (c : Claim) → holder k s.file ≡ some c
      → c.owner ≡ owner
      → All (Has owner (record s { flocks = insert k owner s.flocks })) (taken ++ k ∷ [])
  lock-Round s h c e o =
      All-append (Has owner _) taken (k ∷ [])
        (All-map (Has owner s) (Has owner _) taken
          (λ j i m. (m.0, get-insert_ne k j owner s.flocks (ne_taken j i) ∙ m.1)) h)
        (((c, e, o), get-insert_self k owner s.flocks), tt)

  after_lock-Round :
      (t : Turn) (s : Shared)
      → All (Has owner s) taken
      → (c : Claim) → holder k s.file ≡ some c
      → c.owner ≡ owner
      → Round owner k taken (after_lock t owner k taken s (try_lock_shard t.opens owner k s.flocks))
  unfolding after_lock try_lock_shard
  after_lock-Round t s h c e o =
      if_ind {A = Result Bool IoError × Map Text}
        (λ x. Round owner k taken (after_lock t owner k taken s x)) t.opens
        (λ _.
          if_ind {A = Result Bool IoError × Map Text}
            (λ x. Round owner k taken (after_lock t owner k taken s x)) (contains k s.flocks)
            (λ _.
              after_revert-Round s (revert_claim t.revert_io k owner s.file)
                (λ j n. revert_ne t.revert_io k j owner s.file n) h)
            (λ _. (lock-Round s h c e o, inr refl)))
        (λ _. tt)

  after_claim-Round :
      (t : Turn) (s : Shared) (o : Outcome ClaimOutcome)
      → ((j : Text) → k ≢ j → holder j o.1 ≡ holder j s.file)
      → ((out : ClaimOutcome)
          → o.0 ≡ ok out
          → (c : Claim) × (holder k o.1 ≡ some c) × (c.owner ≡ owner))
      → All (Has owner s) taken
      → Round owner k taken (after_claim t owner k taken s o)
  unfolding after_claim
  after_claim-Round t s (err e, f) same own h = tt
  after_claim-Round t s (ok out, f) same own h =
      let (c, e, o) = own out refl in
      after_lock-Round t (record s { file = f })
        (All-map (Has owner s) (Has owner (record s { file = f })) taken
          (λ j i m. ((m.0.0, same j (ne_taken j i) ∙ m.0.1, m.0.2), m.1)) h)
        c e o

  attempt-Round :
      (t : Turn) (skew : ℕ) (s : Shared)
      → Respects owner t
      → All (Has owner s) taken
      → Round owner k taken (attempt t skew owner k taken s)
  unfolding attempt
  attempt-Round t skew s r h =
      let f = (t.others s).file in
      after_claim-Round t (t.others s) (claim t.claim_io k owner t.now skew f)
        (λ j n. claim_ne t.claim_io k j owner t.now skew f n)
        (λ out e. (
          lease owner t.now,
          claim_own t.claim_io k owner t.now skew f out e,
          unfold lease in refl,
        ))
        (All-map (Has owner s) (Has owner (t.others s)) taken (λ j i m. r s j m) h)

-- What the loop leaves if it succeeds.
abbrev Owned : Text → ℕ → (Text → Type 0) → Acquired → Type 0
Owned owner max_shards Q (ok out, s) = All (Has owner s) out × All Q out × (length out ≤ max_shards)
Owned owner max_shards Q (err e, s) = Unit

module _ (owner : Text) (max_shards skew : ℕ) (turn : ℕ → Turn) (Q : Text → Type 0)
    (r : (n : ℕ) → Respects owner (turn n)) where
  -- The rest of the loop after a round, where `next` is the loop from there on.
  after-Round-Owned :
      (k : Text) (taken : List Text) (a : Acquired) (next : List Text → Shared → Acquired)
      → Round owner k taken a
      → ((taken' : List Text) (s' : Shared)
          → (taken' ≡ taken) ⊎ (taken' ≡ taken ++ k ∷ [])
          → All (Has owner s') taken'
          → Owned owner max_shards Q (next taken' s'))
      → Owned owner max_shards Q (elim a.0 [ err e ↦ (err e, a.1) | ok taken' ↦ next taken' a.1 ])
  after-Round-Owned k taken (ok taken', s') next h f = f taken' s' h.1 h.0
  after-Round-Owned k taken (err e, s') next h f = tt

  acquire_from-Owned :
      (n : ℕ) (taken ks : List Text) (s : Shared)
      → Fresh taken ks
      → All Q taken
      → All Q ks
      → All (Has owner s) taken
      → length taken ≤ max_shards
      → Owned owner max_shards Q (acquire_from turn max_shards skew owner n taken ks s)
  unfolding acquire_from
  acquire_from-Owned n taken [] s fr qt qk h l = (h, qt, l)
  acquire_from-Owned n taken (k ∷ ks) s fr qt qk h l =
      elim (Bool-cases (leb max_shards (length taken))) [
        | inl full ↦ rw full (h, qt, l)
        | inr room ↦ rw room (
            after-Round-Owned k taken (attempt (turn n) skew owner k taken s)
              (λ taken' s'. acquire_from turn max_shards skew owner (suc n) taken' ks s')
              (attempt-Round owner k taken fr.0 (turn n) skew s (r n) h)
              (λ taken' s' cases h'. elim cases [
                | inl e ↦
                    acquire_from-Owned (suc n) taken' ks s'
                      (subst (λ x. Fresh x ks) (sym e)
                        (Fresh-fewer taken (taken ++ k ∷ []) ks
                          (λ x i. In-append_left x taken (k ∷ []) i) fr.1))
                      (subst (All Q) (sym e) qt) qk.1 h' (rw e l)
                | inr e ↦
                    acquire_from-Owned (suc n) taken' ks s' (subst (λ x. Fresh x ks) (sym e) fr.1)
                      (subst (All Q) (sym e) (All-append Q taken (k ∷ []) qt (qk.0, tt))) qk.1 h'
                      (rw e (ground (arith, length-append taken (k ∷ []), room)))
              ]))
      ]

acquired-Owned :
    (i : Io) (now max_shards skew : ℕ) (owner : Text) (turn : ℕ → Turn) (s : Shared)
    (o : Result Membership MembershipError)
    → ((n : ℕ) → Respects owner (turn n))
    → (load i s.file).0 ≡ o
    → Owned owner max_shards
        (λ k.
          (m : Membership) × ((load i s.file).0 ≡ ok m) × In k (claimable_shards m now skew owner))
        (acquire_loaded now turn max_shards skew owner s o)
unfolding acquire_loaded
acquired-Owned i now max_shards skew owner turn s (err e) r h = tt
acquired-Owned i now max_shards skew owner turn s (ok m) r h =
    let ks = claimable_shards m now skew owner in
    acquire_from-Owned owner max_shards skew turn
      (λ k.
        (m' : Membership) × ((load i s.file).0 ≡ ok m') × In k (claimable_shards m' now skew owner))
      r 0 [] ks s
      (unfold claimable_shards in
        Fresh-keys_where (is_claimable m now skew owner) [] 0 m.shards (λ x j. absurd j))
      tt
      (All-map (λ k. In k ks)
        (λ k.
          (m' : Membership) × ((load i s.file).0 ≡ ok m')
          × In k (claimable_shards m' now skew owner))
        ks (λ k j q. (m, h, q)) (All-In ks))
      tt (omega arith)

-- Where the other daemons leave alone what this one has, a call of acquire_shards that succeeds
-- returns at most max_shards shards, all of them claimable in the file that it loaded, and at its end
-- each has both a claim of this daemon in membership.json and its lock.
pub acquire_shards-Has :
    (i : Io) (now max_shards skew : ℕ) (owner : Text) (turn : ℕ → Turn) (s s' : Shared)
    (out : List Text)
    → ((n : ℕ) → Respects owner (turn n))
    → acquire_shards i now turn max_shards skew owner s ≡ (ok out, s')
    → All (Has owner s') out
      × All
          (λ k.
            (m : Membership) × ((load i s.file).0 ≡ ok m)
            × In k (claimable_shards m now skew owner))
          out
      × (length out ≤ max_shards)
unfolding acquire_shards
acquire_shards-Has i now max_shards skew owner turn s s' out r e =
    subst (Owned owner max_shards _) e (acquired-Owned i now max_shards skew owner turn s _ r refl)
