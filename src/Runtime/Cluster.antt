-- ===== src/Runtime/Cluster.antt =====
-- Several daemons of src/main.rs that share a queue directory. Each step is one of one daemon, and any
-- daemon may take the next: a round of acquire_shards, start_engines on what it has taken, a round of
-- its loop or handlers, a step of one of its engines, a tick of its heartbeat, the parts of its
-- shutdown, and its end.

use snerdmq.Queue.Schedule
use snerdmq.Runtime.Pending
use snerdmq.Runtime.{Acquired, drop_locks, attempt, Turn, Shared}
use snerdmq.Membership.{MembershipFile, Membership, Io, release, MembershipError}
use snerdmq.Base.{List, ℕ, text_dec, Text, [], ite}
use snerdmq.Map.{Map}
use snerdmq.Runtime.Pending.{step, Event, started}
use snerdmq.Base.Result.{ok, IoError, Result, err}
use snerdmq.Runtime.Daemon.{Daemon, Answered}
use snerdmq.Runtime.Engines.{keys_of, heartbeat, ShardEngine, pause_all}
use snerdmq.Runtime.Start.{Disk, start_engines}
use snerdmq.Runtime.Start.Moves.{step_engine}
pub mod Keys
pub mod Locks
pub mod Moved
pub mod Mutual
pub mod Takeover
pub mod Frozen
pub mod Stuck

-- The shards that acquire_shards has taken so far, and what runs.
pub record Node : Type 0 where
  pub claiming : List Text
  pub daemon : Daemon

-- Daemons are named by their owner ids.
pub record System : Type 0 where
  pub shared : Shared
  pub nodes : Text → Node

abbrev pub update : (Text → Node) → Text → Node → Text → Node
update nodes a n b = ite (text_dec a b) n (nodes b)

abbrev pub idle : Node
idle = record { claiming = []; daemon = started [] }

-- The list of a call that goes on, and none of it after an error, which drops the locks.
abbrev pub taken_of : Result (List Text) MembershipError → List Text
taken_of (ok ks) = ks
taken_of (err e) = []

unfoldable pub after_attempt : Text → System → Acquired → System
after_attempt a s (r, shared) = record {
  shared = shared;
  nodes = update s.nodes a (record (s.nodes a) { claiming = taken_of r });
}

abbrev pub daemon_of : Daemon → Result Answered IoError → Daemon
daemon_of d (ok answer) = answer.1
daemon_of d (err e) = d

unfoldable pub after_start :
    Text → System → Result Answered IoError × List ShardEngine × Map Text → System
after_start a s (r, running, flocks) = record {
  shared = record (s.shared) { flocks = flocks };
  nodes = update s.nodes a (record { claiming = []; daemon = daemon_of (s.nodes a).daemon r });
}

unfoldable pub with_engines : Text → System → List ShardEngine → MembershipFile → System
with_engines a s es f = record {
  shared = record (s.shared) { file = f };
  nodes =
      update s.nodes a (record (s.nodes a) { daemon = record (s.nodes a).daemon { engines = es } });
}

abbrev pub after_beat : Text → System → List ShardEngine × MembershipFile → System
after_beat a s (es, f) = with_engines a s es f

unfoldable pub with_daemon : Text → System → Daemon → System
with_daemon a s d = record s { nodes = update s.nodes a (record (s.nodes a) { daemon = d }) }

-- The end of a process, whatever ends it, closes the files that hold its locks.
unfoldable pub after_exit : Text → System → System
unfolding drop_locks keys_of
after_exit a s = record {
  shared = record (s.shared) {
    flocks =
        drop_locks (keys_of (s.nodes a).daemon.engines)
          (drop_locks (s.nodes a).claiming s.shared.flocks);
  };
  nodes = update s.nodes a idle;
}

pub data Step (s : System) : System → Type 0 where
  tries :
      (a k : Text) (t : Turn) (skew : ℕ)
      → Step s (
          after_attempt a s
            (attempt (record t { others = λ x. x }) skew a k (s.nodes a).claiming s.shared))
  starts :
      (a : Text) (disk : Text → Disk) (loaded : Result Membership MembershipError)
      → Step s (
          after_start a s
            (start_engines disk loaded (s.nodes a).claiming (s.nodes a).daemon s.shared.flocks))
  does :
      (a : Text) (display : IoError → Text) (v : Pending.Event)
      → Step s (with_daemon a s (Pending.step display (s.nodes a).daemon v))
  works :
      (a : Text) (i : ℕ) (v : Schedule.Event)
      → Step s (with_engines a s (step_engine i v (s.nodes a).daemon.engines) s.shared.file)
  beats :
      (a : Text) (i : ℕ → Io) (now : ℕ → ℕ)
      → Step s (after_beat a s (heartbeat i a now 0 (s.nodes a).daemon.engines s.shared.file))
  pauses :
      (a : Text) → Step s (with_engines a s (pause_all (s.nodes a).daemon.engines) s.shared.file)
  releases :
      (a k : Text) (i : Io)
      → Step s (record s { shared = record (s.shared) { file = (release i k a s.shared.file).1 } })
  exits : (a : Text) → Step s (after_exit a s)

-- A directory with any membership.json, and no daemon.
abbrev pub quiet : MembershipFile → System
quiet f = record { shared = record { file = f; flocks = [] }; nodes = λ a. idle }

pub data Reach (f : MembershipFile) : System → Type 0 where
  here : Reach f (quiet f)
  next : {s u : System} → Reach f s → Step s u → Reach f u
