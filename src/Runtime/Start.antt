-- ===== src/Runtime/Start.antt =====
-- start_engines and build_engine of src/main.rs, and their callers: the boot of a daemon, and the rounds
-- of the loop that a standby runs until it has a shard. A lock lives as long as its engine is kept.
pub mod Serving
pub mod Moves
pub mod Handlers
pub mod Late
pub mod Failing
use snerdmq.FileStore
use snerdmq.Queue
use snerdmq.RateLimiter.{LimitsFile}
use snerdmq.Runtime.{drop_locks}
use snerdmq.Protocol.{membership, OutgoingMessage}
use snerdmq.Membership.{MembershipError, Membership}
use snerdmq.Base.{
  some, List, ℕ, none, if◌then◌else◌, ◌++◌, Bool, [], not, Text, false, ◌∷◌, true, Option, ◌||◌,
}
use snerdmq.Map.{Map}
use snerdmq.Queue.{register_handlers, SnerdQueue}
use snerdmq.FileStore.{new, FileStore, Reading, Line}
use snerdmq.Base.Result.{err, ◌>>=◌, Result, ok, IoError}
use snerdmq.Runtime.Daemon.{Answered, Daemon}
use snerdmq.Runtime.Engines.{ShardEngine, keys_of}

-- What a shard has on disk: its log, whether that can be opened and the readings of its lines, and
-- its rate_limits.json.
pub record Disk : Type 0 where
  pub openable : Bool
  pub readings : ℕ → Reading
  pub log : Option (List Line)
  pub limits : LimitsFile

-- Every handler that is registered is put on a new engine.
unfoldable pub replay_handlers : List Text → SnerdQueue → SnerdQueue
replay_handlers [] q = q
replay_handlers (task_type ∷ types) q = replay_handlers types (register_handlers task_type q)

unfoldable pub build_engine : (Text → Disk) → List Text → Text → Result ShardEngine IoError
unfolding replay_handlers
build_engine disk registered shard =
    FileStore.new (disk shard).openable (disk shard).readings (disk shard).log >>= λ store.
    ok (record {
      key = shard;
      queue = replay_handlers registered (Queue.new store (disk shard).limits);
    })

-- The engines that are built, each with its processor running, and whether there was no error.
unfoldable pub build_engines :
    (Text → Disk) → List Text → List Text → Result (Unit {0}) IoError × List ShardEngine
unfolding build_engine
build_engines disk registered [] = (ok tt, [])
build_engines disk registered (shard ∷ shards) = elim (build_engine disk registered shard) [
  | err e ↦ (err e, [])
  | ok engine ↦ let (r, rest) = build_engines disk registered shards in (r, engine ∷ rest)
]

-- The event that names the daemon's shards, if membership.json can be read.
unfoldable pub membership_event :
    Result Membership MembershipError → List Text → List OutgoingMessage
membership_event (err e) owned = []
membership_event (ok m) owned = membership m.queue m.shards owned m.version ∷ []

-- The engines take part in the routing from here on.
unfoldable pub publish : Result Membership MembershipError → List ShardEngine → Daemon → Answered
unfolding membership_event keys_of
publish loaded new d =
    let es = d.engines ++ new in (membership_event loaded (keys_of es), record d { engines = es })

-- What start_engines leaves: its result, and the engines whose processors it has started. On an error
-- none is published, and the locks of all the claimed shards are dropped.
unfoldable pub start_engines :
    (Text → Disk)
    → Result Membership MembershipError
    → List Text
    → Daemon
    → Map Text
    → Result Answered IoError × List ShardEngine × Map Text
unfolding build_engines publish drop_locks
start_engines disk loaded shards d flocks =
    let (r, new) = build_engines disk d.registered shards in
    elim r [
      | ok _ ↦ (ok (publish loaded new d), new, flocks)
      | err e ↦ (err e, new, drop_locks shards flocks)
    ]

-- The start of main after resolve_layout, with the result of acquire_shards; none is exit(1).
unfoldable pub boot :
    (Text → Disk)
    → Result Membership MembershipError
    → Result (List Text) MembershipError
    → Daemon
    → Map Text
    → Option Answered
unfolding start_engines
boot disk loaded (err e) d flocks = none
boot disk loaded (ok []) d flocks = some ([], d)
boot disk loaded (ok (k ∷ ks)) d flocks = elim (start_engines disk loaded (k ∷ ks) d flocks).0 [
  | ok a ↦ some a
  | err e ↦ none
]

-- Vec::is_empty
unfoldable pub is_empty : List ShardEngine → Bool
is_empty [] = true
is_empty (e ∷ es) = false

-- Whether the standby loop goes on after a round.
pub data Standby : Type 0 where
  returns continues : Standby

unfoldable pub promoted : Result Answered IoError → Daemon → Standby × Answered
promoted (ok a) d = (returns, a)
promoted (err e) d = (continues, ([], d))

-- One round of the standby loop during which nothing else happens. What acquire_shards gives is only
-- asked for by a standby.
unfoldable pub standby_round :
    (Text → Disk)
    → Result Membership MembershipError
    → Result (List Text) MembershipError
    → Daemon
    → Map Text
    → Standby × Answered
unfolding promoted start_engines is_empty
standby_round disk loaded acquired d flocks =
    if d.shutting_down || not (is_empty d.engines) then (returns, ([], d)) else elim acquired [
      | err e ↦ (continues, ([], d))
      | ok [] ↦ (continues, ([], d))
      | ok (k ∷ ks) ↦ promoted (start_engines disk loaded (k ∷ ks) d flocks).0 d
    ]
