-- ===== src/Lib.antt =====
-- snerdmq is a task queue daemon: tasks arrive as JSON lines, are kept in an append-only log, are
-- handed to their handlers when they are due, and are retried when they fail. A queue directory has
-- several shards, each with an engine of its own, and daemons that share the directory claim shards
-- by leases in membership.json.
--
-- The parts, and the files that model them:
--
-- Task (src/task.rs): the record RetryableTask, `new`, `mark_deleted` and `update_retry_config`.
--   Task/Cron is `parse_cron_syntax`, with what it reads in Task/Cron/Syntax; Task/Priority is the
--   order of PriorityTask and a pop of the heap. What chrono, cron and xxhash compute is the record
--   External, an argument of the definitions; an f64 is its bits.
-- FileStore (src/file_store.rs): the log as a list of lines, the counters and the cache.
--   FileStore/Replay has the meaning of a log; Compaction, Restart and Stale are about compact_log
--   and FileStore::new against it.
-- RateLimiter (src/rate_limiter.rs): `check_and_increment` on the content of rate_limits.json.
-- Queue (src/queue.rs): one engine. Queue itself has the state, construction and enqueue,
--   Queue/Dispatch has `process_due_tasks` and `spawn_dispatcher`, Queue/Execute has `execute_task`.
--   Queue/Schedule runs any sequence of steps of the futures, for which the lists `popped`, `spawned` and
--   `active` stand. A step may span several critical sections: `enqueue` and `process_due_tasks` are
--   one step each where nothing comes in between, and for the case that something does, Queue/Schedule
--   has their effects as steps of their own, after tests and reads at any earlier time. An engine calls FileStore and RateLimiter; Queue/Durable is about what it leaves on disk at a crash,
--   and Queue/Retry about a task that always fails.
--   What a handler or webhook answers comes with the step `finish`.
-- Workers (src/queue.rs): WorkerPoolManager and the permits of its semaphores along the steps of all
--   engines of a daemon; it runs the steps of Queue/Schedule.
-- Membership (src/membership.rs): the operations of MembershipStore on membership.json, whose
--   content, a missing or unreadable file included, is the state. The lock makes each operation one
--   step.
-- Sharding (src/sharding.rs): `fnv1a64` and `route_shard`. Sharding/Layout has `resolve_layout` with
--   the migration of a legacy directory; it calls Membership.
-- Runtime (src/main.rs): acquire_shards with `try_lock_shard` of src/sharding.rs, on the file and the
--   locks that daemons share, with what other daemons do before each round as an argument.
--   Runtime/Engines has the heartbeat, the releases of shutdown and the routing of an enqueue
--   message; it calls Membership, Sharding and the engines of Queue.
--   Runtime/Launch is the start of main, from the settings over resolve_layout, Runtime::new and
--   acquire_shards to the first engines.
--   Runtime/Start has start_engines with its callers, the boot and the standby loop; Runtime/Daemon
--   has the loop of main over the messages of Protocol (src/protocol.rs), with the handlers that a
--   registration makes and the counters of Metrics; Runtime/Acknowledged is about what an
--   acknowledgement says. Runtime/Pending runs any sequence of lines and handlers' steps, and
--   Runtime/Start/Moves adds the engines' steps and the standby loop, where a round that builds engines
--   is one step or has its publication as a step of its own. Runtime/Shutdown is
--   Runtime::shutdown, with the engines' steps in each sleep. Runtime/Process is the whole process
--   from its boot on: the loop, the handlers, the engines, the heartbeat, the standby and the signal
--   watcher, up to the exit code. Runtime/Cluster is any number of daemons on one directory, whose
--   steps are those of the other files: they share membership.json and the locks, and the end of a
--   process drops its locks. Runtime/Cluster/Mutual is about who has a shard, Takeover and Stuck about
--   how it passes to another daemon, or does not.
-- Cli (src/main.rs): the arguments and settings in Cli/Args, cmd_add_shards and cmd_validate, and
--   cmd_replay: Cli has its work on one log, Cli/Recovery the loop over the shards with their locks.
-- Base and Map are shared: lists, characters, integers, decimal numbers, results, and the maps of the
--   source as association lists with the last insertion first. Tests has concrete runs.
--
-- Results of the file system, the clocks and the external crates are arguments of the operations.
-- An append to the log reaches the file whole or not at all. Times are natural numbers of
-- nanoseconds since the least time of chrono, and sums of a time and a lease stay below its
-- maximum. An i32 wraps around where it is incremented or decremented; u64 versions and the hash
-- are taken modulo 2^64. Counters of tasks are natural numbers. The order in which a HashMap is
-- traversed is the order of the association list, and the order of equal elements of a heap is the
-- one that `pick` gives. A oneshot channel is a number, with what was sent on it kept in a list. A
-- shutdown flag is read at the start of a line, and each event of a daemon happens as a whole. In
-- Runtime/Cluster no other program takes a lock, and daemons have different owner ids.
--
-- Fuel: the digits of n are found in n + 1 rounds, since each round divides by ten, and the
-- wait of a shutdown ends in two rounds more than its timeout has sleeps, which is part of its theorem.
--
-- Not modelled: timers and signals, which only decide when a modelled step runs; HTTP; the JSON of
-- serde; and everything that prints to the log. src/lib.rs has module declarations only.
pub mod Base
pub mod Map
pub mod External
pub mod Task
pub mod FileStore
pub mod Membership
pub mod Sharding
pub mod RateLimiter
pub mod Queue
pub mod Workers
pub mod Protocol
pub mod Runtime
pub mod Cli
pub mod Tests
