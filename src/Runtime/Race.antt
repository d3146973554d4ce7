-- ===== src/Runtime/Race.antt =====
-- acquire_shards of src/main.rs where another daemon claims a candidate after membership.json is read.
use snerdmq.Runtime.{
  acquire_loaded, Turn, attempt, after_claim, acquire_from, acquire_shards, Shared,
}
use snerdmq.Membership.{
  valid, claim, with_lock, read_unlocked, is_lapsed, owned_by_other, claimable_shards, Claim, Io,
  load, Membership,
}
use snerdmq.Base.{◌+◌, ◌<◌, ◌≡◌, List, some, Text, arith, true, ◌≤◌, ℕ, ◌≢◌, ◌∷◌}
use snerdmq.Map.{get}
use snerdmq.Base.Result.{err}

-- If another daemon has claimed the first candidate when its turn comes, acquire_shards fails with
-- the refusal of that claim, however many other shards are free.
pub acquire_shards_raced :
    (i : Io) (now max_shards skew : ℕ) (owner k : Text) (ks : List Text) (turn : ℕ → Turn)
    (s : Shared) (m m' : Membership) (c : Claim)
    → i.locks ≡ true
    → s.file ≡ valid m
    → claimable_shards m now skew owner ≡ k ∷ ks
    → 0 < max_shards
    → (turn 0).claim_io.locks ≡ true
    → (turn 0).claim_io.writes ≡ true
    → ((turn 0).others s).file ≡ valid m'
    → get k m'.claims ≡ some c
    → c.owner ≢ owner
    → (turn 0).now ≤ c.lease_expiry + skew
    → (acquire_shards i now turn max_shards skew owner s).0 ≡ err (owned_by_other k c.owner)
unfolding acquire_shards acquire_loaded load with_lock read_unlocked acquire_from attempt
    after_claim claim is_lapsed
acquire_shards_raced i now max_shards skew owner k ks turn s m m' c il sf cs some_left tl tw of g ne
      le =
    rw (il, sf, cs) (ground arith)
