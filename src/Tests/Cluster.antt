-- ===== src/Tests/Cluster.antt =====
-- Runs of the membership file, the layout and the routing.
use snerdmq.Membership.Exclusion
use snerdmq.Membership.Exclusion.{Event, run_kept, renews, releases, holder, claims, run}
use snerdmq.Membership.{
  init_unlocked, exists, claimable_shards, claim, Claim, shard_key, valid, missing,
}
use snerdmq.Base.{In, ◌≢◌, List, ◌∷◌, [], codes, arith, ℕ, ◌↔◌, ◌≡◌, true, refl, none, ◌<◌, some}
use snerdmq.Map.{get}
use snerdmq.Sharding.Layout.{
  migrate_legacy_unlocked, Moves, StorageDir, free, no_lock, held, started, resolve_layout, legacy,
  resolve_seen,
}
use snerdmq.Tests.Data.{io_ok, two_shards}
use snerdmq.Base.Result.{is_ok}
use snerdmq.Membership.Claims.{claim-Decides, Decides, Leaves}
use snerdmq.Membership.Claimable.{claimable_shards_iff}
use snerdmq.Sharding.Layout.Adoption.{resolve_layout_adopts, resolve_layout_joins}

abbrev mine : Claim
mine = record { owner = codes "me"; lease_expiry = 100 }

abbrev rivals : List Event
rivals =
    claims io_ok (codes "shard-0") (codes "you") 50 10
    ∷ renews io_ok (codes "shard-0") (codes "you") 60
    ∷ releases io_ok (codes "shard-0") (codes "you")
    ∷ claims io_ok (codes "shard-1") (codes "you") 90 10
    ∷ []

you-ne-me : codes "you" ≢ codes "me"
you-ne-me e = absurd (cc e)

run_kept_example : holder (codes "shard-0") (run (valid two_shards) rivals) ≡ some mine
unfolding holder get
run_kept_example =
    run_kept (codes "shard-0") mine (valid two_shards) rivals refl
      ((you-ne-me, omega arith), (you-ne-me, (you-ne-me, ((you-ne-me, omega arith), tt))))

claim-Decides_example :
    let (r, f) = claim io_ok (codes "shard-0") (codes "you") 200 10 (valid two_shards) in
    Decides (codes "shard-0") (codes "you") 200 10 (get (codes "shard-0") two_shards.claims) r
    × Leaves (codes "shard-0") (codes "you") (codes "shard-1") 200 two_shards r f
claim-Decides_example =
    claim-Decides io_ok (codes "shard-0") (codes "you") (codes "shard-1") 200 10 two_shards refl
      refl

claimable_shards_iff_example :
    In (codes "shard-1") (claimable_shards two_shards 50 10 (codes "you")) ↔ (
      (j : ℕ) × (j < 2)
      × (codes "shard-1" ≡ shard_key j)
      × (is_ok (claim io_ok (codes "shard-1") (codes "you") 50 10 (valid two_shards)).0 ≡ true))
claimable_shards_iff_example =
    claimable_shards_iff io_ok (codes "you") (codes "shard-1") 50 10 two_shards refl refl

abbrev legacy_dir : StorageDir
legacy_dir = record {
  membership = missing;
  legacy_log = some (codes "tasks");
  root_lock = free;
  shard0_log = none;
  shard0_lock = no_lock;
}

abbrev held_dir : StorageDir
held_dir = record legacy_dir { root_lock = held }

abbrev all_move : Moves
all_move = record { opens = true; creates = true; moves_log = true; moves_lock = true }

abbrev moved_dir : StorageDir
moved_dir = record {
  membership = valid (record { queue = codes "q"; shards = 1; version = 0; claims = [] });
  legacy_log = none;
  root_lock = no_lock;
  shard0_log = some (codes "tasks");
  shard0_lock = free;
}

boots : resolve_layout io_ok all_move (codes "q") 4 legacy_dir ≡ (started 1, moved_dir)
unfolding resolve_layout exists migrate_legacy_unlocked init_unlocked
boots = refl

resolve_layout_adopts_example :
    (◌≡◌ {A = ℕ} 1 1)
    × (moved_dir.shard0_log ≡ some (codes "tasks"))
    × (moved_dir.legacy_log ≡ none)
    × (moved_dir.root_lock ≡ no_lock)
resolve_layout_adopts_example =
    resolve_layout_adopts io_ok all_move (codes "q") 4 1 legacy_dir moved_dir (codes "tasks") refl
      refl boots

abbrev claimed_dir : StorageDir
claimed_dir = record moved_dir {
  membership =
      Exclusion.run moved_dir.membership (claims io_ok (codes "shard-0") (codes "me") 0 0 ∷ []);
}

resolve_layout_joins_example :
    resolve_seen io_ok all_move (codes "p") 7 legacy claimed_dir ≡ (started 1, claimed_dir)
resolve_layout_joins_example =
    resolve_layout_joins io_ok io_ok all_move all_move (codes "q") (codes "p") 4 7 1 legacy_dir
      moved_dir claimed_dir (claims io_ok (codes "shard-0") (codes "me") 0 0 ∷ []) legacy refl boots
      refl
