-- ===== src/Runtime/Launch.antt =====
-- The start of a daemon in src/main.rs, from the settings to the first engines: the directory, its
-- layout, Runtime::new, acquire_shards and the boot.
pub mod Owned
use mathlib.Core.Option
use snerdmq.Workers
use snerdmq.Workers.{WorkerPoolManager}
use snerdmq.Runtime.Pending
use snerdmq.Runtime.{Acquired, acquire_shards, Turn, Shared}
use snerdmq.Membership.{skew_margin_from, MembershipError, Io, Membership, owner_id}
use snerdmq.Base.{
  map, sym, if_ind, refl, subst, length, Bool, none, [], codes, ℕ, arith, ◌∷◌, All, ◌≤◌, inl,
  Option, if◌then◌else◌, ◌≡◌, some, List, inr, Text,
}
use snerdmq.Map.{Map}
use snerdmq.Sharding.Layout.{started, failed, panicked, resolve_layout, Boot, StorageDir, Moves}
use snerdmq.Base.Result.{IoError, err, Result-cases, Result, ok}
use snerdmq.Runtime.Daemon.{Answered, Daemon}
use snerdmq.Runtime.Engines.{keys_of}
use snerdmq.Runtime.Acquire.{acquire_shards-Has, Respects, Has}
use snerdmq.Runtime.Start.{start_engines, publish, boot, Disk, build_engines}
use snerdmq.Runtime.Cluster.Keys.{publish-keys, keys}
use snerdmq.Cli.Args.{settings}

-- The fields of Runtime that stay the same, without its directory.
pub record Runtime : Type 0 where
  pub owner : Text
  pub skew : ℕ
  pub max_shards : ℕ
  pub worker_pools : WorkerPoolManager

-- Runtime::new, where a semaphore has at most `max_permits`; none is the panic of skew_margin or of
-- WorkerPoolManager::new.
unfoldable pub new : ℕ → (Text → Option Text) → ℕ → ℕ → ℕ → Option Runtime
unfolding Option.bind
new max_permits var pid max_shards max_workers =
    Option.bind (skew_margin_from (var (codes "SNERD_CLOCK_SKEW_MARGIN"))) (λ skew.
      Option.map
        (λ worker_pools. record {
          owner = owner_id (var (codes "HOSTNAME")) (var (codes "COMPUTERNAME")) pid;
          skew = skew;
          max_shards = max_shards;
          worker_pools = worker_pools;
        })
        (Workers.new max_permits max_workers (var (codes "SNERD_POOLS"))))

-- What the file system, the clocks and the other daemons do during a start.
pub record Surroundings : Type 0 where
  pub creates_dir : Bool
  pub layout_io : Io
  pub moves : Moves
  pub load_io : Io
  pub load_time : ℕ
  pub turn : ℕ → Turn
  pub disk : Text → Disk
  pub loaded : Result Membership MembershipError

-- How a start ends: with what it prints and a daemon, with an exit code, or with a panic.
pub data Launched : Type 0 where
  runs : Answered → Launched
  exits : ℕ → Launched
  panics : Launched

unfoldable pub after_boot : Option Answered → Launched
after_boot (some a) = runs a
after_boot none = exits 1

unfoldable pub booted : Surroundings → Acquired → Launched × Shared
unfolding after_boot boot
booted x (r, s) = (after_boot (boot x.disk x.loaded r (Pending.started []) s.flocks), s)

unfoldable pub with_runtime :
    Surroundings → Map Text → StorageDir → Option Runtime → Launched × Shared
unfolding booted acquire_shards
with_runtime x flocks d none = (panics, record { file = d.membership; flocks = flocks })
with_runtime x flocks d (some r) = booted x (
    acquire_shards x.load_io x.load_time x.turn r.max_shards r.skew r.owner
      (record { file = d.membership; flocks = flocks }))

unfoldable pub after_layout :
    Surroundings → Map Text → Option Runtime → Boot × StorageDir → Launched × Shared
unfolding with_runtime
after_layout x flocks r (started n, d) = with_runtime x flocks d r
after_layout x flocks r (failed e, d) = (exits 1, record { file = d.membership; flocks = flocks })
after_layout x flocks r (panicked, d) = (panics, record { file = d.membership; flocks = flocks })

unfoldable pub launch :
    ℕ → Surroundings → (Text → Option Text) → ℕ → Map Text → StorageDir → Launched × Shared
unfolding after_layout new resolve_layout settings
launch max_permits x var pid flocks d =
    if x.creates_dir
    then after_layout x flocks
        (new max_permits var pid (settings var).max_shards (settings var).max_workers)
        (resolve_layout x.layout_io x.moves (codes "snerdmq-daemon") (settings var).requested_shards
          d)
    else (panics, record { file = d.membership; flocks = flocks })
