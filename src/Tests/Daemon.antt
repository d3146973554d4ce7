-- ===== src/Tests/Daemon.antt =====
-- Runs of the daemon on its shards.
use snerdmq.Queue.{new}
use snerdmq.Runtime.{acquire_shards, Shared, Turn}
use snerdmq.Membership.{
  claim, revert_claim, claimable_shards, load, second, Claim, owned_by_other, valid, Membership,
}
use snerdmq.Base.{arith, codes, ◌≡◌, ◌≢◌, [], ◌∷◌, refl, ◌+◌, List, true, none, ◌*◌}
use snerdmq.Map.{contains, insert, Map, get}
use snerdmq.Tests.Data.{io_ok, two_shards}
use snerdmq.Base.Result.{err, ok}
use snerdmq.Runtime.Race.{acquire_shards_raced}
use snerdmq.Runtime.Engines.{ShardEngine}
use snerdmq.FileStore.Restart.{fresh}
use snerdmq.Base.Digits.{decimal}

-- Nothing else happens between two steps.
abbrev alone : Turn
alone = record { others = λ s. s; claim_io = io_ok; now = 50; opens = true; revert_io = io_ok }

-- The first shard is the daemon's own, and the lock of the second is held.
abbrev half_locked : Shared
half_locked = record { file = valid two_shards; flocks = (codes "shard-1", codes "you") ∷ [] }

abbrev renewed_claims : Map Claim
renewed_claims =
    (codes "shard-0", record { owner = codes "me"; lease_expiry = 50 + 30 * second }) ∷ []

abbrev half_taken : Shared
half_taken = record {
  file = valid (record { queue = codes "q"; shards = 2; version = 4; claims = renewed_claims });
  flocks = (codes "shard-0", codes "me") ∷ (codes "shard-1", codes "you") ∷ [];
}

takes_half :
    acquire_shards io_ok 50 (λ n. alone) 2 10 (codes "me") half_locked
    ≡ (ok (codes "shard-0" ∷ []), half_taken)
unfolding acquire_shards load claimable_shards get decimal claim contains insert revert_claim
takes_half = refl

-- Another daemon takes shard-1 before this one's turn.
abbrev taken_first : Membership
taken_first = record two_shards {
  claims = (codes "shard-0", record { owner = codes "you"; lease_expiry = 100 }) ∷ [];
}

abbrev no_claims : Membership
no_claims = record two_shards { claims = [] }

abbrev rival_turn : Turn
rival_turn = record alone { others = λ s. record s { file = valid taken_first } }

you-ne-me : codes "you" ≢ codes "me"
you-ne-me e = absurd (cc e)

acquire_shards_raced_example :
    (acquire_shards io_ok 50
      (λ n. rival_turn)
      1
      10
      (codes "me")
      (record { file = valid no_claims; flocks = [] })).0
    ≡ err (owned_by_other (codes "shard-0") (codes "you"))
unfolding claimable_shards get decimal
acquire_shards_raced_example =
    acquire_shards_raced io_ok 50 1 10 (codes "me") (codes "shard-0") (codes "shard-1" ∷ [])
      (λ n. rival_turn) (record { file = valid no_claims; flocks = [] }) no_claims taken_first
      (record { owner = codes "you"; lease_expiry = 100 }) refl refl refl (omega arith) refl refl
      refl refl you-ne-me (omega arith)

abbrev engines : List ShardEngine
engines =
    record { key = codes "shard-0"; queue = new fresh none }
    ∷ record { key = codes "shard-1"; queue = new fresh none }
    ∷ []
