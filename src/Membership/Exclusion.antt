-- ===== src/Membership/Exclusion.antt =====
-- Exclusive ownership of shards: what daemons with src/membership.rs can do to each other's claims,
-- over any interleaving of their operations.
use snerdmq.Membership.{
  lease_duration, release, revert_claim, unparsable, unreadable, Io, Claim, claim, valid,
  Membership, MembershipFile, renew, is_lapsed, init, missing,
}
use snerdmq.Base.{
  All, arith, text_dec, ◌≤◌, some, ◌+◌, ◌∷◌, Option, List, ◌≡◌, ◌≢◌, ℕ, Text, none, [],
}
use snerdmq.Map.{get-remove_ne, get-insert_ne, get}

-- The claim on a shard, if membership.json has one.
unfoldable pub holder : Text → MembershipFile → Option Claim
holder shard (valid m) = get shard m.claims
holder shard missing = none
holder shard unreadable = none
holder shard (unparsable message) = none

-- One operation of one daemon, by its own clock and skew margin.
pub data Event : Type 0 where
  inits : Io → Text → ℕ → Event
  claims : Io → Text → Text → ℕ → ℕ → Event
  renews : Io → Text → Text → ℕ → Event
  releases reverts : Io → Text → Text → Event

unfoldable pub step : MembershipFile → Event → MembershipFile
step f (inits i queue shards) = (init i queue shards f).1
step f (claims i shard owner now skew) = (claim i shard owner now skew f).1
step f (renews i shard owner now) = (renew i shard owner now f).1
step f (releases i shard owner) = (release i shard owner f).1
step f (reverts i shard owner) = (revert_claim i shard owner f).1

unfoldable pub run : MembershipFile → List Event → MembershipFile
unfolding step
run f [] = f
run f (e ∷ es) = run (step f e) es

-- An operation of another owner, and no claim after the lease and the skew margin have passed.
abbrev pub IsForeign : Claim → Event → Type 0
IsForeign c (inits i queue shards) = Unit
IsForeign c (claims i shard owner now skew) = (owner ≢ c.owner) × (now ≤ c.lease_expiry + skew)
IsForeign c (renews i shard owner now) = owner ≢ c.owner
IsForeign c (releases i shard owner) = owner ≢ c.owner
IsForeign c (reverts i shard owner) = owner ≢ c.owner

module _ (shard : Text) (c : Claim) where
  claim_kept :
      (m : Membership) (i : Io) (s owner : Text) (now skew : ℕ)
      → get shard m.claims ≡ some c
      → owner ≢ c.owner
      → now ≤ c.lease_expiry + skew
      → holder shard (claim i s owner now skew (valid m)).1 ≡ some c
  unfolding claim holder is_lapsed
  claim_kept m i s owner now skew h o l = elim (text_dec s shard) [
    | yes p ↦ rw p (ground arith)
    | no p ↦ ground (
      arith,
      h,
      get-insert_ne s shard (record { owner = owner; lease_expiry = now + lease_duration }) m.claims
          p,
    )
  ]

  renew_kept :
      (m : Membership) (i : Io) (s owner : Text) (now : ℕ)
      → get shard m.claims ≡ some c
      → owner ≢ c.owner
      → holder shard (renew i s owner now (valid m)).1 ≡ some c
  unfolding renew holder
  renew_kept m i s owner now h o = elim (text_dec s shard) [
    | yes p ↦ rw p (ground arith)
    | no p ↦ ground (
      arith,
      get-insert_ne s shard (record { owner = owner; lease_expiry = now + lease_duration }) m.claims
          p,
    )
  ]

  release_kept :
      (m : Membership) (i : Io) (s owner : Text)
      → get shard m.claims ≡ some c
      → owner ≢ c.owner
      → holder shard (release i s owner (valid m)).1 ≡ some c
  unfolding release holder
  release_kept m i s owner h o = elim (text_dec s shard) [
    | yes p ↦ rw p (ground arith)
    | no p ↦ ground (arith, get-remove_ne s shard m.claims p)
  ]

  revert_kept :
      (m : Membership) (i : Io) (s owner : Text)
      → get shard m.claims ≡ some c
      → owner ≢ c.owner
      → holder shard (revert_claim i s owner (valid m)).1 ≡ some c
  unfolding revert_claim holder
  revert_kept m i s owner h o = elim (text_dec s shard) [
    | yes p ↦ rw p (ground arith)
    | no p ↦ ground (arith, get-remove_ne s shard m.claims p)
  ]

  init_kept :
      (m : Membership) (i : Io) (queue : Text) (shards : ℕ)
      → get shard m.claims ≡ some c
      → holder shard (init i queue shards (valid m)).1 ≡ some c
  unfolding init holder
  init_kept m i queue shards h = ground arith

  step_kept_valid :
      (m : Membership) (e : Event)
      → get shard m.claims ≡ some c
      → IsForeign c e
      → holder shard (step (valid m) e) ≡ some c
  unfolding step
  step_kept_valid m (inits i queue shards) h f = init_kept m i queue shards h
  step_kept_valid m (claims i s owner now skew) h f = claim_kept m i s owner now skew h f.0 f.1
  step_kept_valid m (renews i s owner now) h f = renew_kept m i s owner now h f
  step_kept_valid m (releases i s owner) h f = release_kept m i s owner h f
  step_kept_valid m (reverts i s owner) h f = revert_kept m i s owner h f

  step_kept :
      (file : MembershipFile) (e : Event)
      → holder shard file ≡ some c
      → IsForeign c e
      → holder shard (step file e) ≡ some c
  unfolding holder
  step_kept (valid m) e h f = unfold holder in step_kept_valid m e h f
  step_kept missing e h f = cc
  step_kept unreadable e h f = cc
  step_kept (unparsable message) e h f = cc

  -- Whatever other owners do, and however their reads and writes of the file end, a claim stays as
  -- it is, as long as none of them claims by a clock past its lease and the skew margin.
  pub run_kept :
      (file : MembershipFile) (es : List Event)
      → holder shard file ≡ some c
      → All (IsForeign c) es
      → holder shard (run file es) ≡ some c
  unfolding run
  run_kept file [] h f = h
  run_kept file (e ∷ es) h f = run_kept (step file e) es (step_kept file e h f.0) f.1
