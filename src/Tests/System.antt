-- ===== src/Tests/System.antt =====
-- Runs of several daemons on one directory, and of a whole process.
use snerdmq.Runtime.Start.Moves.{step_engine}
use snerdmq.Queue.Schedule
use snerdmq.Queue.Dispatch.{process_due_tasks}
use snerdmq.Queue
use snerdmq.Protocol.{result}
use snerdmq.Queue.Schedule.{pauses, ticks}
use snerdmq.Runtime.Pending.{started, reads}
use snerdmq.Runtime.Heartbeat.{IsGivenBack}
use snerdmq.FileStore.Restart.{fresh}
use snerdmq.Membership.{revert_claim, is_lapsed}
use snerdmq.FileStore
use snerdmq.Runtime.Engines.{pause_all, ShardEngine, keys_of}
use snerdmq.Runtime.Cluster.Keys.{keys}
use snerdmq.Runtime.{attempt, Turn}
use snerdmq.Membership.{claimed, valid, second, claim}
use snerdmq.Base.{
  false, All, arith, In-append_left, ◌++◌, ◌≡◌, ◌∷◌, Distinct, none, Text, [], In, some, ◌*◌, inl,
  ℕ, codes, refl, true, text_dec,
}
use snerdmq.Map.{insert, get, contains}
use snerdmq.Tests.Data.{mail, env_at, two_shards, clock, io_ok}
use snerdmq.Base.Result.{ok, IoError}
use snerdmq.Runtime.Cluster.{
  Step, with_engines, after_exit, after_attempt, quiet, Reach, tries, starts, next, after_start,
  System, here,
}
use snerdmq.Runtime.Start.{Disk, publish, build_engines, build_engine, start_engines}
use snerdmq.Runtime.Cluster.Moved.{IsExclusive}
use snerdmq.Runtime.Cluster.Mutual.{no_shared_engine, Reach-IsExclusive}
use snerdmq.Runtime.Cluster.Takeover.{takeover}
use snerdmq.Runtime.Process.{
  step, run, Event, signalled, does, Process, polls, live_step, Config, works,
}
use snerdmq.Runtime.Daemon.{message, call_handler, InputLine}
use snerdmq.Runtime.Process.Released.{quiet_shutdown}
use snerdmq.Runtime.Process.Ended.{line_cuts_drain}
use snerdmq.Runtime.Cluster.Stuck.{stuck_shard, stays, goes}
use snerdmq.Runtime.Cluster.Frozen.{ArePausedAt}

abbrev display : IoError → Text
display e = codes "error"

abbrev empty_disk : Text → Disk
empty_disk k = record { openable = true; readings = clock; log = none; limits = some [] }

-- The claim of the first daemon on shard-0 has lapsed by its own clock when the other one comes.
abbrev at_time : ℕ → Turn
at_time now = record {
  others = λ s. s;
  claim_io = io_ok;
  now = now;
  opens = true;
  revert_io = io_ok;
}

abbrev me : Text
me = codes "me"

abbrev you : Text
you = codes "you"

abbrev shard : Text
shard = codes "shard-0"

abbrev tried : Text → ℕ → System → System
tried a now s = after_attempt a s (attempt (at_time now) 10 a shard (s.nodes a).claiming s.shared)

abbrev begun : Text → System → System
begun a s = after_start a s (
    start_engines empty_disk (ok two_shards) (s.nodes a).claiming (s.nodes a).daemon
      s.shared.flocks)

-- One daemon has an engine for shard-0, and another has claimed the shard past the lease.
abbrev shared_by_two : System
shared_by_two = tried you (100 * second) (begun me (tried me 50 (quiet (valid two_shards))))

reached : Reach (valid two_shards) shared_by_two
reached =
    next (next (next here (tries me shard (at_time 50) 10)) (starts me empty_disk (ok two_shards)))
      (tries you shard (at_time (100 * second)) 10)

has_engine : In shard (keys (shared_by_two.nodes me).daemon)
unfolding after_attempt after_start attempt claim get contains insert start_engines build_engines
    build_engine FileStore.new publish keys_of text_dec
has_engine = inl refl

no_shared_engine_example : (me ≡ me) × Distinct (keys (shared_by_two.nodes me).daemon)
no_shared_engine_example =
    no_shared_engine (valid two_shards) shared_by_two me me shard reached has_engine has_engine

Reach-IsExclusive_example : IsExclusive shared_by_two
Reach-IsExclusive_example = Reach-IsExclusive (valid two_shards) shared_by_two reached

takeover_example :
    let alone = record (at_time (200 * second)) { others = λ x. x } in
    let s' = after_exit me shared_by_two in
    let taken = (s'.nodes you).claiming in
    let r = attempt alone 10 you shard taken s'.shared in
    (get shard
        (attempt alone 10 you shard
          (shared_by_two.nodes you).claiming
          shared_by_two.shared).1.flocks
      ≡ some me)
    × (r.0 ≡ ok (taken ++ shard ∷ []))
    × (get shard r.1.flocks ≡ some you)
unfolding after_attempt text_dec after_start claim attempt get contains insert start_engines
    FileStore.new revert_claim is_lapsed
takeover_example =
    takeover (valid two_shards) shared_by_two me you shard (at_time (200 * second)) 10 claimed
      reached (λ e. cc e)
      (In-append_left shard (keys (shared_by_two.nodes me).daemon) (shared_by_two.nodes me).claiming
        has_engine)
      refl refl

-- The first daemon has lost its lease, and the other one comes again.
abbrev after_loss : System
after_loss =
    with_engines me shared_by_two (pause_all (shared_by_two.nodes me).daemon.engines)
      shared_by_two.shared.file

abbrev after_retry : System
after_retry = tried you (200 * second) after_loss

stuck_shard_example :
    ArePausedAt shard (after_retry.nodes me).daemon.engines
    × (get shard after_retry.shared.flocks ≡ some me)
    × ((b : Text) → In shard (keys (after_retry.nodes b).daemon) → me ≡ b)
unfolding with_engines pause_all keys_of after_attempt after_start attempt claim get contains insert
    start_engines build_engines build_engine FileStore.new publish text_dec
stuck_shard_example =
    stuck_shard (valid two_shards) after_loss after_retry me shard (next reached (Step.pauses me))
      (inl refl) ((λ m. refl), tt)
      (goes stays (tries you shard (at_time (200 * second)) 10) (λ x. x))

abbrev process_config : Config
process_config = record { display = display; owner = me; drain_timeout = 500_000_000 }

abbrev engine_of : Text → ShardEngine
engine_of k = record {
  key = k;
  queue = record (Queue.new fresh (some [])) { executing_tasks = (codes "a", tt) ∷ [] };
}

-- A daemon whose engine executes a task that waits for its result.
abbrev serving : Process
serving = record {
  daemon = (call_handler (codes "mail") (mail (codes "a")) (started (engine_of shard ∷ []))).1;
  file = valid two_shards;
  shutdown_flag = false;
  deadline = none;
  exit_code = none;
}

abbrev ticked : Event
ticked = works 0 (ticks (env_at 2))

-- The result of task a.
abbrev answer : InputLine
answer = message (result (codes "a") (codes "success") none)

line_cuts_drain_example :
    let r = run process_config serving (
      (signalled 1 ∷ ticked ∷ polls (λ n. io_ok) 2 ∷ [])
      ++ does (reads (env_at 3) 3 answer) ∷ polls (λ n. io_ok) 900_000_000 ∷ []) in
    (r.exit_code ≡ some 0)
    × (r.file ≡ valid two_shards)
    × (keys r.daemon ≡ keys serving.daemon)
    × (r.daemon.sent ≡ serving.daemon.sent)
line_cuts_drain_example =
    line_cuts_drain process_config serving 1 (ticked ∷ polls (λ n. io_ok) 2 ∷ [])
      (polls (λ n. io_ok) 900_000_000 ∷ []) (env_at 3) 3 answer refl refl (λ e. cc e)
      (unfold run step live_step step_engine call_handler Schedule.step process_due_tasks in refl)

quiet_shutdown_example :
    let r =
      run process_config serving (
        (signalled 1 ∷ ticked ∷ polls (λ n. io_ok) 2 ∷ [])
        ++ polls (λ n. io_ok) 500_000_001 ∷ []) in
    (r.exit_code ≡ some 0)
    × All (λ (e : ShardEngine). e.queue.paused ≡ true) r.daemon.engines
    × (keys r.daemon ≡ keys serving.daemon)
    × All (IsGivenBack me r.file) (keys serving.daemon)
quiet_shutdown_example =
    quiet_shutdown process_config serving 1 (ticked ∷ polls (λ n. io_ok) 2 ∷ []) (λ n. io_ok)
      500_000_001 two_shards refl refl refl (unfold keys_of call_handler in ((λ i. i), tt))
      (tt, (((λ n. refl), (λ n. refl)), tt)) ((λ n. refl), (λ n. refl)) (omega arith)
