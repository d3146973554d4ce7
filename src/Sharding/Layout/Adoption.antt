-- ===== src/Sharding/Layout/Adoption.antt =====
-- resolve_layout of src/sharding.rs on legacy directories, and the boots that follow or race a boot.
use snerdmq.Membership
use mathlib.Core.Option.{some-injective}
use snerdmq.Base.{Option, ap, ◌∙◌}
use snerdmq.Membership.Exclusion
use snerdmq.Membership.Exclusion.{inits, claims, renews, releases, reverts}
use snerdmq.Base.{sym, List, ◌∷◌}
use snerdmq.Membership.{
  release, renew, claim, init, revert_claim, io, write_unlocked, exists, already_initialized,
  MembershipError, init_unlocked, Io, unreadable, MembershipFile, read_unlocked, missing, load,
  valid, Membership, Outcome, unparsable,
}
use snerdmq.Base.{
  [], true, codes, inr, Bool-cases, inl, some, arith, ◌⊎◌, none, subst, ◌≡◌, refl, ℕ, Text, if_ind,
}
use snerdmq.Base.Result.{other, os, err, ok, Result, IoError}
use snerdmq.Sharding.Layout.{
  adopt, detect_layout, empty_dir, move_lock, after_init, sharded, migrate_files,
  migrate_legacy_unlocked, held, resolve_layout, after_probe, initialise, move_log, adopted,
  no_lock, resolve_seen, legacy, probe_lock, StorageLayout, Moves, failed, boot_of, StorageDir,
  started, Boot,
}

-- The file declares k shards.
abbrev pub Declares : ℕ → MembershipFile → Type 0
Declares k f = (m : Membership) × (f ≡ valid m) × (m.shards ≡ k)

abbrev StartsWith : Boot × StorageDir → Type 0
StartsWith (started k, d) = Declares k d.membership
StartsWith _ = Unit

read-StartsWith :
    (f : MembershipFile) (d : StorageDir)
    → d.membership ≡ f
    → StartsWith (boot_of (Membership.read_unlocked f), d)
unfolding boot_of Membership.read_unlocked
read-StartsWith missing d e = tt
read-StartsWith unreadable d e = tt
read-StartsWith (unparsable message) d e = tt
read-StartsWith (valid m) d e = (m, e, refl)

load-StartsWith :
    (i : Io) (d : StorageDir) → StartsWith (boot_of (Membership.load i d.membership).0, d)
unfolding Membership.load boot_of
load-StartsWith i d =
    if_ind {A = Outcome Membership} (λ r. StartsWith (boot_of r.0, d)) i.locks
      (λ _. read-StartsWith d.membership d refl) (λ _. tt)

-- init_unlocked writes a membership with the given number of shards, or fails.
init_cases :
    (i : Io) (queue : Text) (n : ℕ) (f : MembershipFile)
    → ((m : Membership) × (Membership.init_unlocked i queue n f ≡ (ok tt, valid m))
        × (m.shards ≡ n))
      ⊎ ((e : MembershipError) × (Membership.init_unlocked i queue n f ≡ (err e, f)))
unfolding Membership.init_unlocked
init_cases i queue n f = elim (Bool-cases (Membership.exists f)) [
  | inl there ↦ inr (already_initialized, rw there)
  | inr absent ↦ elim (Bool-cases i.writes) [
    | inl w ↦ inl (
      record { queue = queue; shards = n; version = 0; claims = [] },
      rw absent (unfold Membership.write_unlocked in rw w),
      refl,
    )
    | inr w ↦ inr (io os, rw absent (unfold Membership.write_unlocked in rw w))
  ]
]

after_init-StartsWith :
    (i : Io) (queue : Text) (n : ℕ) (report : MembershipFile → Boot) (d : StorageDir)
    → ((m : Membership)
        → m.shards ≡ n
        → StartsWith (report (valid m), record d { membership = valid m }))
    → StartsWith (after_init report d (Membership.init_unlocked i queue n d.membership))
unfolding after_init
after_init-StartsWith i queue n report d h = elim (init_cases i queue n d.membership) [
  | inl (m, e, s) ↦ rw e (h m s)
  | inr (x, e) ↦ rw e tt
]

adopted-StartsWith :
    (i : Io) (queue : Text) (r : Result (Unit {0}) IoError × StorageDir)
    → StartsWith (adopted i queue r)
unfolding adopted
adopted-StartsWith i queue (err e, d) = tt
adopted-StartsWith i queue (ok _, d) =
    after_init-StartsWith i queue 1 (λ f. started 1) d (λ m s. (m, refl, s))

adopt-StartsWith :
    (i : Io) (v : Moves) (queue : Text) (d : StorageDir) → StartsWith (adopt i v queue d)
unfolding adopt
adopt-StartsWith i v queue d =
    if_ind StartsWith (Membership.exists d.membership) (λ _. read-StartsWith d.membership d refl)
      (λ _. adopted-StartsWith i queue (migrate_legacy_unlocked v d))

initialise-StartsWith :
    (i : Io) (queue : Text) (requested : ℕ) (d : StorageDir)
    → StartsWith (initialise i queue requested d)
unfolding initialise
initialise-StartsWith i queue requested d =
    if_ind StartsWith (Membership.exists d.membership) (λ _. read-StartsWith d.membership d refl)
      (λ _.
        after_init-StartsWith i queue requested (λ f. boot_of (Membership.read_unlocked f)) d
          (λ m s. read-StartsWith (valid m) (record d { membership = valid m }) refl))

resolve_seen-StartsWith :
    (i : Io) (v : Moves) (queue : Text) (requested : ℕ) (seen : StorageLayout) (d : StorageDir)
    → StartsWith (resolve_seen i v queue requested seen d)
unfolding resolve_seen
resolve_seen-StartsWith i v queue requested sharded d = load-StartsWith i d
resolve_seen-StartsWith i v queue requested legacy d =
    if_ind StartsWith i.locks (λ _. adopt-StartsWith i v queue d) (λ _. tt)
resolve_seen-StartsWith i v queue requested empty_dir d =
    if_ind StartsWith i.locks (λ _. initialise-StartsWith i queue requested d) (λ _. tt)

-- Once the file declares k shards, every boot that gets the lock starts with k and changes nothing,
-- whatever it saw before it got the lock.
join_lem :
    (i : Io) (v : Moves) (queue : Text) (requested : ℕ) (seen : StorageLayout) (d : StorageDir)
    (k : ℕ)
    → i.locks ≡ true
    → Declares k d.membership
    → resolve_seen i v queue requested seen d ≡ (started k, d)
unfolding resolve_seen adopt initialise boot_of Membership.load Membership.exists
    Membership.read_unlocked
join_lem i v queue requested sharded d k l (m, e, s) = ground arith
join_lem i v queue requested legacy d k l (m, e, s) = ground arith
join_lem i v queue requested empty_dir d k l (m, e, s) = ground arith

-- The count that the file declares.
shards_of : MembershipFile → Option ℕ
shards_of (valid m) = some m.shards
shards_of missing = none
shards_of unreadable = none
shards_of (unparsable message) = none

shards_of-Declares : (k : ℕ) (f : MembershipFile) → shards_of f ≡ some k → Declares k f
unfolding shards_of
shards_of-Declares k (valid m) e = (m, refl, some-injective m.shards k e)
shards_of-Declares k missing e = cc
shards_of-Declares k unreadable e = cc
shards_of-Declares k (unparsable message) e = cc

shards_of-step :
    (m : Membership) (e : Exclusion.Event) → shards_of (Exclusion.step (valid m) e) ≡ some m.shards
unfolding Exclusion.step shards_of Membership.init Membership.claim Membership.renew
    Membership.release Membership.revert_claim
shards_of-step m (inits i queue shards) = ground arith
shards_of-step m (claims i shard owner now skew) = ground arith
shards_of-step m (renews i shard owner now) = ground arith
shards_of-step m (releases i shard owner) = ground arith
shards_of-step m (reverts i shard owner) = ground arith

step-Declares :
    (k : ℕ) (f : MembershipFile) (e : Exclusion.Event)
    → Declares k f
    → Declares k (Exclusion.step f e)
step-Declares k f e (m, same, s) =
    shards_of-Declares k (Exclusion.step f e)
      (ap (λ f. shards_of (Exclusion.step f e)) same ∙ shards_of-step m e ∙ ap some s)

-- No operation of a store changes the count.
run-Declares :
    (k : ℕ) (f : MembershipFile) (es : List Exclusion.Event)
    → Declares k f
    → Declares k (Exclusion.run f es)
unfolding Exclusion.run
run-Declares k f [] h = h
run-Declares k f (e ∷ es) h = run-Declares k (Exclusion.step f e) es (step-Declares k f e h)

-- If a boot starts with k shards, and after it any sequence of claims, renewals, releases, reverts and
-- inits has been at membership.json, whatever became of the other files: a boot that gets the membership
-- lock starts with k shards and changes nothing, whatever count it requests, and whatever layout it
-- saw before it got the lock. So two daemons that boot together on one directory agree. That shards
-- are added in between is not covered.
pub resolve_layout_joins :
    (i i' : Io) (v v' : Moves) (queue queue' : Text) (requested requested' k : ℕ)
    (d d' later : StorageDir) (es : List Exclusion.Event) (seen : StorageLayout)
    → i'.locks ≡ true
    → resolve_layout i v queue requested d ≡ (started k, d')
    → later.membership ≡ Exclusion.run d'.membership es
    → resolve_seen i' v' queue' requested' seen later ≡ (started k, later)
unfolding resolve_layout
resolve_layout_joins i i' v v' queue queue' requested requested' k d d' later es seen l e same =
    join_lem i' v' queue' requested' seen later k l (
      subst (Declares k) (sym same) (
        run-Declares k d'.membership es
          (subst StartsWith e (resolve_seen-StartsWith i v queue requested (detect_layout d) d))))

-- A boot on a legacy directory whose root lock another daemon holds fails and moves nothing.
resolve_layout_held :
    (i : Io) (v : Moves) (queue : Text) (requested : ℕ) (d : StorageDir) (log : Text)
    → d.membership ≡ missing
    → d.legacy_log ≡ some log
    → d.root_lock ≡ held
    → i.locks ≡ true
    → (e : IoError) × (resolve_layout i v queue requested d ≡ (failed e, d))
unfolding resolve_layout resolve_seen adopt adopted migrate_legacy_unlocked probe_lock after_probe
    Membership.exists
resolve_layout_held i v queue requested d log m g h l = elim (Bool-cases v.opens) [
  | inl o ↦ (other (codes "Another daemon is already running on storage"), ground arith)
  | inr o ↦ (os, ground arith)
]

-- A boot that adopts a legacy directory starts with one shard, and the log stands in shard-0 with
-- its content, and nowhere else.
pub resolve_layout_adopts :
    (i : Io) (v : Moves) (queue : Text) (requested k : ℕ) (d d' : StorageDir) (log : Text)
    → d.membership ≡ missing
    → d.legacy_log ≡ some log
    → resolve_layout i v queue requested d ≡ (started k, d')
    → (k ≡ 1) × (d'.shard0_log ≡ some log) × (d'.legacy_log ≡ none) × (d'.root_lock ≡ no_lock)
unfolding resolve_layout resolve_seen adopt adopted after_init migrate_legacy_unlocked probe_lock
    after_probe migrate_files move_log move_lock Membership.exists Membership.init_unlocked
resolve_layout_adopts i v queue requested k d d' log m g e = ground arith
