-- ===== src/Membership/Others.antt =====
-- What the operations of src/membership.rs on one shard leave of the other shards' entries.
use snerdmq.Membership.{
  unparsable, renew, unreadable, release, MembershipFile, claim, valid, lease_duration,
  ClaimOutcome, missing, Io, lease, revert_claim,
}
use snerdmq.Base.{ℕ, Text, arith, some, ◌≡◌, ◌≢◌, ◌+◌}
use snerdmq.Map.{get-remove_ne, get-insert_ne, get-insert_self}
use snerdmq.Base.Result.{ok}
use snerdmq.Membership.Exclusion.{holder}

pub claim_ne :
    (i : Io) (j k owner : Text) (now skew : ℕ) (f : MembershipFile)
    → j ≢ k
    → holder k (claim i j owner now skew f).1 ≡ holder k f
unfolding claim holder
claim_ne i j k owner now skew missing n = ground arith
claim_ne i j k owner now skew unreadable n = ground arith
claim_ne i j k owner now skew (unparsable message) n = ground arith
claim_ne i j k owner now skew (valid m) n =
    ground (arith, get-insert_ne j k (lease owner now) m.claims n)

pub revert_ne :
    (i : Io) (j k owner : Text) (f : MembershipFile)
    → j ≢ k
    → holder k (revert_claim i j owner f).1 ≡ holder k f
unfolding revert_claim holder
revert_ne i j k owner missing n = ground arith
revert_ne i j k owner unreadable n = ground arith
revert_ne i j k owner (unparsable message) n = ground arith
revert_ne i j k owner (valid m) n = ground (arith, get-remove_ne j k m.claims n)

pub claim_own :
    (i : Io) (k owner : Text) (now skew : ℕ) (f : MembershipFile) (out : ClaimOutcome)
    → (claim i k owner now skew f).0 ≡ ok out
    → holder k (claim i k owner now skew f).1 ≡ some (lease owner now)
unfolding claim holder lease
claim_own i k owner now skew missing out h = ground arith
claim_own i k owner now skew unreadable out h = ground arith
claim_own i k owner now skew (unparsable message) out h = ground arith
claim_own i k owner now skew (valid m) out h =
    ground (arith, get-insert_self k (lease owner now) m.claims)

pub renew_ne :
    (i : Io) (j k owner : Text) (now : ℕ) (f : MembershipFile)
    → j ≢ k
    → holder k (renew i j owner now f).1 ≡ holder k f
unfolding renew holder
renew_ne i j k owner now missing n = ground arith
renew_ne i j k owner now unreadable n = ground arith
renew_ne i j k owner now (unparsable message) n = ground arith
renew_ne i j k owner now (valid m) n = ground (
  arith,
  get-insert_ne j k (record { owner = owner; lease_expiry = now + lease_duration }) m.claims n,
)

pub release_ne :
    (i : Io) (j k owner : Text) (f : MembershipFile)
    → j ≢ k
    → holder k (release i j owner f).1 ≡ holder k f
unfolding release holder
release_ne i j k owner missing n = ground arith
release_ne i j k owner unreadable n = ground arith
release_ne i j k owner (unparsable message) n = ground arith
release_ne i j k owner (valid m) n = ground (arith, get-remove_ne j k m.claims n)
