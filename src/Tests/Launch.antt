-- ===== src/Tests/Launch.antt =====
-- The start of a daemon on an empty directory, with the default settings.
use snerdmq.Membership
use snerdmq.FileStore
use snerdmq.Queue
use snerdmq.Workers
use mathlib.Core.Option
use snerdmq.Protocol.{membership}
use snerdmq.Runtime.Pending.{started}
use snerdmq.FileStore.Restart.{fresh}
use snerdmq.Runtime.{Turn, Shared, acquire_shards}
use snerdmq.Runtime.Launch.{new, Surroundings, launch, runs, Runtime}
use snerdmq.Membership.{
  init_unlocked, Membership, exists, claimable_shards, second, missing, claim, owner_id, valid,
  load, skew_margin_from,
}
use snerdmq.Base.{true, [], ◌*◌, ◌≡◌, none, ◌+◌, codes, some, refl, Text, ◌∷◌, Option}
use snerdmq.Map.{insert, get, contains}
use snerdmq.Tests.Data.{io_ok, two_shards, clock}
use snerdmq.Base.Digits.{decimal}
use snerdmq.Base.Result.{ok}
use snerdmq.Runtime.Daemon.{Answered}
use snerdmq.Runtime.Start.{
  build_engines, build_engine, membership_event, publish, boot, start_engines,
}
use snerdmq.Runtime.Launch.Owned.{HasAll, launch-HasAll}
use snerdmq.Sharding.Layout.{no_lock, resolve_layout, StorageDir}
use snerdmq.Cli.Args.{settings}
use snerdmq.Queue.Dispatch.{default_pool}

abbrev unset : Text → Option Text
unset name = none

abbrev nobody : Turn
nobody = record { others = λ s. s; claim_io = io_ok; now = 50; opens = true; revert_io = io_ok }

abbrev first_start : Surroundings
first_start = record {
  creates_dir = true;
  layout_io = io_ok;
  moves = record { opens = true; creates = true; moves_log = true; moves_lock = true };
  load_io = io_ok;
  load_time = 40;
  turn = λ n. nobody;
  disk = λ k. record { openable = true; readings = clock; log = none; limits = some [] };
  loaded = ok two_shards;
}

abbrev empty_storage : StorageDir
empty_storage = record {
  membership = missing;
  legacy_log = none;
  root_lock = no_lock;
  shard0_log = none;
  shard0_lock = no_lock;
}

abbrev host : Text
host = codes "unknown-host@pid-7"

abbrev key : Text
key = codes "shard-0"

abbrev first_runtime : Runtime
first_runtime = record {
  owner = host;
  skew = 5 * second;
  max_shards = 1;
  worker_pools = record { pools = (default_pool, 100) ∷ []; default_pool = 100 };
}

made :
    new 1_000_000 unset 7 (settings unset).max_shards (settings unset).max_workers
    ≡ some first_runtime
unfolding new Workers.new insert settings owner_id skew_margin_from decimal Option.bind
made = refl

abbrev first_daemon : Answered
first_daemon = (
  membership (codes "q") 2 (key ∷ []) 1 ∷ [],
  record (started []) { engines = record { key = key; queue = Queue.new fresh (some []) } ∷ [] },
)

abbrev first_shared : Shared
first_shared = record {
  file = valid (record {
    queue = codes "snerdmq-daemon";
    shards = 1;
    version = 1;
    claims = (key, record { owner = host; lease_expiry = 50 + 30 * second }) ∷ [];
  });
  flocks = (key, host) ∷ [];
}

starts_daemon :
    launch 1_000_000 first_start unset 7 [] empty_storage ≡ (runs first_daemon, first_shared)
unfolding launch new Workers.new settings owner_id skew_margin_from decimal Option.bind
    resolve_layout acquire_shards load claimable_shards claim get contains insert boot start_engines
    build_engines build_engine FileStore.new publish membership_event Membership.exists
    Membership.init_unlocked
starts_daemon = refl

launch-HasAll_example : HasAll host 1 first_daemon.1 first_shared
launch-HasAll_example =
    launch-HasAll 1_000_000 first_start unset 7 [] empty_storage first_runtime first_daemon
      first_shared made (λ n s k h. h) starts_daemon
