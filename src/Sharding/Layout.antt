-- ===== src/Sharding/Layout.antt =====
-- Boot-time layout of src/sharding.rs: detect_layout, migrate_legacy_unlocked and resolve_layout,
-- over the files of the storage directory that they read and move.
pub mod Adoption
use snerdmq.Membership
use snerdmq.Membership.{
  MembershipError, init_unlocked, exists, Io, load, read_unlocked, Membership, MembershipFile,
}
use snerdmq.Base.{if◌then◌else◌, Option, none, Bool, ℕ, codes, is_some, Text, ◌&&◌}
use snerdmq.Base.Result.{Result, ok, IoError, os, err, other}

-- A `.lock` file, and whether another process holds its flock.
pub data LockFile : Type 0 where
  no_lock free held : LockFile

pub record StorageDir : Type 0 where
  pub membership : MembershipFile
  -- the content of tasks/tasks.log
  pub legacy_log : Option Text
  pub root_lock : LockFile
  -- the content of shard-0/tasks/tasks.log
  pub shard0_log : Option Text
  pub shard0_lock : LockFile

-- Which steps of a migration succeed.
pub record Moves : Type 0 where
  pub opens : Bool
  pub creates : Bool
  pub moves_log : Bool
  pub moves_lock : Bool

pub data StorageLayout : Type 0 where
  sharded legacy empty_dir : StorageLayout

unfoldable pub detect_layout : StorageDir → StorageLayout
detect_layout d =
    if Membership.exists d.membership
    then sharded
    else if is_some d.legacy_log
    then legacy
    else empty_dir

-- Fails if a daemon of the old layout holds the root lock, or the lock cannot be opened.
probe_lock : Moves → LockFile → Result (Unit {0}) IoError
probe_lock v no_lock = ok tt
probe_lock v free = if v.opens then ok tt else err os
probe_lock v held =
    if v.opens then err (other (codes "Another daemon is already running on storage")) else err os

move_log : StorageDir → StorageDir
move_log d = record d { legacy_log = none; shard0_log = d.legacy_log }

move_lock : Moves → LockFile → StorageDir → Result (Unit {0}) IoError × StorageDir
move_lock v no_lock d = (ok tt, d)
move_lock v l d =
    if v.moves_lock then (ok tt, record d { root_lock = no_lock; shard0_lock = l }) else (err os, d)

migrate_files : Moves → StorageDir → Result (Unit {0}) IoError × StorageDir
unfolding move_log move_lock
migrate_files v d =
    if v.creates && v.moves_log && is_some d.legacy_log
    then move_lock v d.root_lock (move_log d)
    else (err os, d)

after_probe :
    Result (Unit {0}) IoError → Moves → StorageDir → Result (Unit {0}) IoError × StorageDir
unfolding migrate_files
after_probe (err e) v d = (err e, d)
after_probe (ok _) v d = migrate_files v d

unfoldable pub migrate_legacy_unlocked : Moves → StorageDir → Result (Unit {0}) IoError × StorageDir
unfolding probe_lock after_probe
migrate_legacy_unlocked v d = after_probe (probe_lock v d.root_lock) v d

-- How a boot ends. with_lock_held panics if it cannot take .membership.lock.
pub data Boot : Type 0 where
  started : ℕ → Boot
  failed : IoError → Boot
  panicked : Boot

-- io_err, whose message is the debug print of the error
as_io : MembershipError → IoError
as_io e = other (codes "membership error")

boot_of : Result Membership MembershipError → Boot
unfolding as_io
boot_of (ok m) = started m.shards
boot_of (err e) = failed (as_io e)

-- What a boot reports after init_unlocked has ended with a result and a file.
after_init :
    (MembershipFile → Boot)
    → StorageDir
    → Result (Unit {0}) MembershipError × MembershipFile
    → Boot × StorageDir
unfolding as_io
after_init report d (ok _, f) = (report f, record d { membership = f })
after_init report d (err e, f) = (failed (as_io e), record d { membership = f })

-- What follows a migration: if it succeeded, the membership of one shard.
adopted : Io → Text → Result (Unit {0}) IoError × StorageDir → Boot × StorageDir
unfolding after_init
adopted i queue (err e, d) = (failed e, d)
adopted i queue (ok _, d) =
    after_init (λ f. started 1) d (Membership.init_unlocked i queue 1 d.membership)

adopt : Io → Moves → Text → StorageDir → Boot × StorageDir
unfolding adopted boot_of
adopt i v queue d =
    if Membership.exists d.membership
    then (boot_of (Membership.read_unlocked d.membership), d)
    else adopted i queue (migrate_legacy_unlocked v d)

-- The branch of a fresh directory: initialise, unless another daemon has done it, and read back.
initialise : Io → Text → ℕ → StorageDir → Boot × StorageDir
unfolding boot_of after_init
initialise i queue requested d =
    if Membership.exists d.membership
    then (boot_of (Membership.read_unlocked d.membership), d)
    else after_init (λ f. boot_of (Membership.read_unlocked f)) d
        (Membership.init_unlocked i queue requested d.membership)

-- The part of resolve_layout after the detection: `seen` is what detect_layout saw, and the
-- directory is the one at the time when the lock is held.
unfoldable pub resolve_seen : Io → Moves → Text → ℕ → StorageLayout → StorageDir → Boot × StorageDir
unfolding boot_of adopt initialise
resolve_seen i v queue requested sharded d = (boot_of (Membership.load i d.membership).0, d)
resolve_seen i v queue requested legacy d = if i.locks then adopt i v queue d else (panicked, d)
resolve_seen i v queue requested empty_dir d =
    if i.locks then initialise i queue requested d else (panicked, d)

unfoldable pub resolve_layout : Io → Moves → Text → ℕ → StorageDir → Boot × StorageDir
unfolding resolve_seen detect_layout
resolve_layout i v queue requested d = resolve_seen i v queue requested (detect_layout d) d
