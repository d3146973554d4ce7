-- ===== src/Membership/Claims.antt =====
-- What each operation of src/membership.rs does, on all its branches.
use snerdmq.Membership.{
  bump, lease_lost, second, revert_claim, Outcome, put_claim, missing, renew, release,
  lease_duration, lease, MembershipFile, owned_by_other, valid, renewed, ClaimOutcome, claimed, Io,
  Membership, MembershipError, is_lapsed, taken_over, Claim, claim,
}
use snerdmq.Base.{
  inr, inl, text_dec, ◌*◌, ◌^◌, refl, ◌%◌, Text, some, ◌≡◌, ℕ, arith, ◌≤◌, true, ◌+◌, ◌⊎◌, none,
  ◌≢◌, Option, ◌<◌,
}
use snerdmq.Map.{get-insert_self, get-remove_self, get-insert_ne, get}
use snerdmq.Base.{subst, sym, false}
use snerdmq.Base.Result.{Result-cases, is_ok, err, ok, Result}
use snerdmq.Membership.Exclusion.{holder}

-- How a claim on a shard ends, by the entry that it finds.
abbrev pub Decides :
    Text → Text → ℕ → ℕ → Option Claim → Result ClaimOutcome MembershipError → Type 0
Decides shard owner now skew none r = r ≡ ok claimed
Decides shard owner now skew (some c) r =
    ((c.owner ≡ owner) × (r ≡ ok renewed))
    ⊎ ((c.owner ≢ owner) × (c.lease_expiry + skew < now) × (r ≡ ok (taken_over c.owner)))
    ⊎ ((c.owner ≢ owner) × (now ≤ c.lease_expiry + skew) × (r ≡ err (owned_by_other shard c.owner)))

claim_entry-Decides :
    (i : Io) (shard owner : Text) (now skew : ℕ) (m : Membership) (o : Option Claim)
    → i.locks ≡ true
    → i.writes ≡ true
    → get shard m.claims ≡ o
    → Decides shard owner now skew o (claim i shard owner now skew (valid m)).0
unfolding claim is_lapsed
claim_entry-Decides i shard owner now skew m none l w e = ground arith
claim_entry-Decides i shard owner now skew m (some c) l w e = ground arith

-- A claim that succeeds leaves the caller's lease of thirty seconds on the shard, every other
-- shard's entry as it was, and a version that is one higher.
claim_ok :
    (i : Io) (shard owner j : Text) (now skew : ℕ) (m : Membership) {out : ClaimOutcome}
    → (claim i shard owner now skew (valid m)).0 ≡ ok out
    → (m' : Membership) × ((claim i shard owner now skew (valid m)).1 ≡ valid m')
      × (get shard m'.claims ≡ some (record { owner = owner; lease_expiry = now + 30 * second }))
      × ((shard ≡ j) ⊎ (get j m'.claims ≡ get j m.claims))
      × (m'.version ≡ (m.version + 1) % 2 ^ 64)
      × (m'.shards ≡ m.shards)
unfolding claim
claim_ok i shard owner j now skew m h = (
  bump (put_claim shard (lease owner now) m),
  ground arith,
  unfold bump put_claim lease in get-insert_self shard _ m.claims,
  (elim (text_dec shard j) [
    | yes p ↦ inl p
    | no n ↦ inr (unfold bump put_claim lease in get-insert_ne shard j _ m.claims n)
  ]),
  (unfold bump put_claim in refl),
  (unfold bump put_claim in refl),
)

-- A call that succeeds, or that leaves the file as it was.
abbrev SucceedsOrKeeps : {A : Type 0} → MembershipFile → Outcome A → Type 0
SucceedsOrKeeps f out = (is_ok out.0 ≡ true) ⊎ (out.1 ≡ f)

claim-SucceedsOrKeeps :
    (i : Io) (shard owner : Text) (now skew : ℕ) (f : MembershipFile)
    → SucceedsOrKeeps f (claim i shard owner now skew f)
unfolding claim
claim-SucceedsOrKeeps i shard owner now skew missing = ground arith
claim-SucceedsOrKeeps i shard owner now skew f = ground arith

-- What a claim leaves in the file, for the shard and another one.
abbrev pub Leaves :
    Text
    → Text
    → Text
    → ℕ
    → Membership
    → Result ClaimOutcome MembershipError
    → MembershipFile
    → Type 0
Leaves shard owner j now m (ok out) f =
    (m' : Membership) × (f ≡ valid m')
    × (get shard m'.claims ≡ some (record { owner = owner; lease_expiry = now + 30 * second }))
    × ((shard ≡ j) ⊎ (get j m'.claims ≡ get j m.claims))
    × (m'.version ≡ (m.version + 1) % 2 ^ 64)
    × (m'.shards ≡ m.shards)
Leaves shard owner j now m (err e) f = f ≡ valid m

kept_on_err :
    {A : Type 0} (f : MembershipFile) (out : Outcome A) (e : MembershipError)
    → out.0 ≡ err e
    → SucceedsOrKeeps f out
    → out.1 ≡ f
kept_on_err f out e h (inl o) = let bad : false ≡ true = rw h at o in absurd (cc bad)
kept_on_err f out e h (inr k) = k

claim-Leaves :
    (i : Io) (shard owner j : Text) (now skew : ℕ) (m : Membership)
    → Leaves shard owner j now m
        (claim i shard owner now skew (valid m)).0
        (claim i shard owner now skew (valid m)).1
claim-Leaves i shard owner j now skew m =
    let out = claim i shard owner now skew (valid m) in
    elim (Result-cases out.0) [
      | inl (x, e) ↦
          subst (λ r. Leaves shard owner j now m r out.1) (sym e)
            (claim_ok i shard owner j now skew m e)
      | inr (x, e) ↦
          subst (λ r. Leaves shard owner j now m r out.1) (sym e)
            (kept_on_err (valid m) out x e (claim-SucceedsOrKeeps i shard owner now skew (valid m)))
    ]

-- Where the lock and the write succeed, a claim is decided by the entry alone: a free shard is
-- claimed, one's own is renewed, another's is taken over exactly after its lease and the skew
-- margin, and refused until then with the owner's name. A claim that succeeds leaves the caller's
-- lease of thirty seconds on the shard, every other shard's entry and the number of shards as they
-- were, and a version that is one higher modulo 2^64; one that is refused leaves the file as it was.
pub claim-Decides :
    (i : Io) (shard owner j : Text) (now skew : ℕ) (m : Membership)
    → i.locks ≡ true
    → i.writes ≡ true
    → let (r, f) = claim i shard owner now skew (valid m) in
      Decides shard owner now skew (get shard m.claims) r × Leaves shard owner j now m r f
claim-Decides i shard owner j now skew m l w = (
  claim_entry-Decides i shard owner now skew m (get shard m.claims) l w refl,
  claim-Leaves i shard owner j now skew m,
)

renew-SucceedsOrKeeps :
    (i : Io) (shard owner : Text) (now : ℕ) (f : MembershipFile)
    → SucceedsOrKeeps f (renew i shard owner now f)
unfolding renew
renew-SucceedsOrKeeps i shard owner now missing = ground arith
renew-SucceedsOrKeeps i shard owner now f = ground arith

release-SucceedsOrKeeps :
    (i : Io) (shard owner : Text) (f : MembershipFile) → SucceedsOrKeeps f (release i shard owner f)
unfolding release
release-SucceedsOrKeeps i shard owner missing = ground arith
release-SucceedsOrKeeps i shard owner f = ground arith

revert_claim-SucceedsOrKeeps :
    (i : Io) (shard owner : Text) (f : MembershipFile)
    → SucceedsOrKeeps f (revert_claim i shard owner f)
unfolding revert_claim
revert_claim-SucceedsOrKeeps i shard owner missing = ground arith
revert_claim-SucceedsOrKeeps i shard owner f = ground arith

-- Each of claim, renew, release and revert_claim succeeds or leaves membership.json as it was,
-- whatever the file holds and whether or not its lock and its write succeed.
failure_keeps_file :
    (i : Io) (shard owner : Text) (now skew : ℕ) (f : MembershipFile)
    → SucceedsOrKeeps f (claim i shard owner now skew f)
      × SucceedsOrKeeps f (renew i shard owner now f)
      × SucceedsOrKeeps f (release i shard owner f)
      × SucceedsOrKeeps f (revert_claim i shard owner f)
failure_keeps_file i shard owner now skew f = (
  claim-SucceedsOrKeeps i shard owner now skew f,
  renew-SucceedsOrKeeps i shard owner now f,
  release-SucceedsOrKeeps i shard owner f,
  revert_claim-SucceedsOrKeeps i shard owner f,
)

-- How a renewal and a release of a shard end, by the entry that they find.
abbrev OwnerOnly : Text → Text → ℕ → Option Claim → Outcome (Unit {0}) → Outcome (Unit {0}) → Type 0
OwnerOnly shard owner now none a b = (a.0 ≡ err (lease_lost shard)) × (b.0 ≡ err (lease_lost shard))
OwnerOnly shard owner now (some c) a b =
    ((c.owner ≡ owner)
      × (a.0 ≡ ok tt)
      × (holder shard a.1 ≡ some (record { owner = owner; lease_expiry = now + 30 * second }))
      × (b.0 ≡ ok tt)
      × (holder shard b.1 ≡ none))
    ⊎ ((c.owner ≢ owner) × (a.0 ≡ err (lease_lost shard)) × (b.0 ≡ err (lease_lost shard)))

OwnerOnly-entry :
    (i : Io) (shard owner : Text) (now : ℕ) (m : Membership) (o : Option Claim)
    → i.locks ≡ true
    → i.writes ≡ true
    → get shard m.claims ≡ o
    → OwnerOnly shard owner now o
        (renew i shard owner now (valid m))
        (release i shard owner (valid m))
unfolding renew release holder
OwnerOnly-entry i shard owner now m none l w e = ground arith
OwnerOnly-entry i shard owner now m (some c) l w e = ground (
  arith,
  get-insert_self shard (record { owner = owner; lease_expiry = now + lease_duration }) m.claims,
  get-remove_self shard m.claims,
)

-- Where the lock and the write succeed, renewal and release succeed for the owner of the entry and
-- for nobody else, whose call fails with a lost lease; a renewal sets the lease to thirty seconds
-- from now, and a release frees the shard.
renew-release-OwnerOnly :
    (i : Io) (shard owner : Text) (now : ℕ) (m : Membership)
    → i.locks ≡ true
    → i.writes ≡ true
    → OwnerOnly shard owner now
        (get shard m.claims)
        (renew i shard owner now (valid m))
        (release i shard owner (valid m))
renew-release-OwnerOnly i shard owner now m l w = OwnerOnly-entry i shard owner now m _ l w refl
