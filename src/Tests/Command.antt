-- ===== src/Tests/Command.antt =====
-- Runs of the worker pools, the pause of an engine, and the commands.
use snerdmq.Workers
use snerdmq.Base.Digits.{parse_u64}
use snerdmq.Base.{text_dec}
use snerdmq.Map.{insert}
use snerdmq.Queue
use snerdmq.Workers.Bound
use snerdmq.Queue.Schedule
use snerdmq.Cli.{strip_prefix}
use snerdmq.Workers.{new, available, WorkerPoolManager, work_all, semaphore_of}
use snerdmq.Membership.{valid, load, shard_key}
use snerdmq.Base.{List, ℕ, ◌≡◌, ◌+◌, some, true, false, ◌≤◌, [], refl, ◌∷◌, codes, arith, none}
use snerdmq.Map.{get, contains}
use snerdmq.Queue.Pausing.{places, run-pauses-places}
use snerdmq.Queue.Schedule.{
  run, saves_new, dispatches, ticks, Event, step, pauses, settles, enqueues,
}
use snerdmq.Tests.Data.{two_shards, clock, mail, env_at, io_ok}
use snerdmq.Base.Digits.{decimal}
use snerdmq.Base.Result.{is_ok}
use snerdmq.Workers.Bound.{started, all_in_flight, work_all-bound, all_executing}
use snerdmq.Task.Cron.{parse_cron_syntax, is_whitespace}
use snerdmq.Task.Cron.Syntax.{written, parse_cron_syntax-written, expanded, fields}
use snerdmq.Cli.Args.{replay, parse_args}
use snerdmq.FileStore.Restart.{fresh}
use snerdmq.Cli.Recovery.{Visit, cmd_replay}
use snerdmq.Cli.Recovery.Held.{cmd_replay_held}
use snerdmq.Cli.Args.Printing.{parse_args-print_command, print_command}

abbrev pools : WorkerPoolManager
pools = record { pools = (codes "default", 1) ∷ (codes "mail", 2) ∷ []; default_pool = 1 }

pools_made : Workers.new 1000 1 (some (codes "mail=2")) ≡ some pools
unfolding Workers.new parse_u64 text_dec insert
pools_made = refl

work_all-bound_example :
    let es : List (ℕ × Event) =
      (0, enqueues (mail (codes "a")) (env_at 1))
      ∷ (0, ticks (env_at 2))
      ∷ (0, dispatches (codes "default"))
      ∷ (0, settles (env_at 3) (codes "a"))
      ∷ [] in
    let s = semaphore_of pools (codes "default") in
    let (qs, permits) = work_all pools es (Bound.started ((fresh, some []) ∷ []), pools.pools) in
    (n : ℕ) × (get s pools.pools ≡ some n)
    × (available s permits + all_in_flight pools s qs ≡ n)
    × (all_executing pools s qs ≤ n)
work_all-bound_example =
    work_all-bound 1000 1 (some (codes "mail=2")) pools (codes "default") ((fresh, some []) ∷ [])
      ((0, enqueues (mail (codes "a")) (env_at 1))
        ∷ (0, ticks (env_at 2))
        ∷ (0, dispatches (codes "default"))
        ∷ (0, settles (env_at 3) (codes "a"))
        ∷ [])
      pools_made

abbrev queued_life : List Event
queued_life = enqueues (mail (codes "a")) (env_at 1) ∷ ticks (env_at 2) ∷ []

run-pauses-places_example :
    places (codes "a") (
      Schedule.run (Schedule.step (Schedule.run (Queue.new fresh none) queued_life) pauses) (
        enqueues (mail (codes "b")) (env_at 3)
        ∷ saves_new (mail (codes "c")) (env_at 3)
        ∷ ticks (env_at 4)
        ∷ []))
    ≤ places (codes "a") (Schedule.run (Queue.new fresh none) queued_life)
run-pauses-places_example =
    run-pauses-places fresh none queued_life
      (enqueues (mail (codes "b")) (env_at 3)
        ∷ saves_new (mail (codes "c")) (env_at 3)
        ∷ ticks (env_at 4)
        ∷ [])
      (codes "a") (tt, (tt, (tt, tt)))

-- Every five minutes on weekdays.
parse_cron_syntax-written_example :
    parse_cron_syntax
      (written (fields (codes "*/5") (codes "*") (codes "*" ∷ codes "*" ∷ codes "1-5" ∷ [])))
    ≡ expanded (fields (codes "*/5") (codes "*") (codes "*" ∷ codes "*" ∷ codes "1-5" ∷ []))
unfolding is_whitespace
parse_cron_syntax-written_example =
    parse_cron_syntax-written
      (fields (codes "*/5") (codes "*") (codes "*" ∷ codes "*" ∷ codes "1-5" ∷ []))
      (
        (refl, (refl, (refl, tt))),
        ((refl, tt), ((refl, tt), ((refl, tt), ((refl, (refl, (refl, tt))), tt)))),
      )

parse_args-print_command_example :
    parse_args (codes "snerdmq" ∷ print_command (replay (codes "mail") (codes "data")))
    ≡ replay (codes "mail") (codes "data")
unfolding strip_prefix
parse_args-print_command_example =
    parse_args-print_command (codes "snerdmq") (replay (codes "mail") (codes "data")) refl

abbrev visit_ok : Visit
visit_ok = record { opens = true; readable = true; appendable = true; readings = clock; now = 60 }

-- A daemon holds shard-1.
cmd_replay_held_example :
    (is_ok
        (cmd_replay
          (λ e. codes "error")
          io_ok
          (λ n. visit_ok)
          (codes "all")
          ((codes "shard-1", codes "you") ∷ [])
          (valid two_shards)
          ((codes "shard-1", []) ∷ [])).0
      ≡ false)
    × (get
          (codes "shard-1")
          (cmd_replay
            (λ e. codes "error")
            io_ok
            (λ n. visit_ok)
            (codes "all")
            ((codes "shard-1", codes "you") ∷ [])
            (valid two_shards)
            ((codes "shard-1", []) ∷ [])).1
        ≡ get (codes "shard-1") ((codes "shard-1", []) ∷ []))
unfolding load contains get shard_key decimal
cmd_replay_held_example =
    cmd_replay_held (λ e. codes "error") io_ok (λ n. visit_ok) (codes "all") (codes "shard-1")
      ((codes "shard-1", codes "you") ∷ []) (valid two_shards) ((codes "shard-1", []) ∷ [])
      two_shards 1 refl refl (omega arith) refl
