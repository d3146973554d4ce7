-- ===== src/Tests/Engine.antt =====
-- Runs of a queue engine.
use mathlib.Core.Option
use mathlib.Core.List.{Perm}
use snerdmq.Task.{RetryableTask}
use snerdmq.RateLimiter.{fresh_window, is_over}
use snerdmq.Base.{
  none, codes, In, ◌≡◌, false, arith, ◌+◌, ◌∷◌, All, Text, some, refl, ◌++◌, [], ◌≤◌, List, ◌↔◌,
}
use snerdmq.Map.{keys, insert, values, get, contains}
use snerdmq.Queue.{
  register_handlers, new, SnerdQueue, Env, enqueue, accept, dedupe, initial_hashes, save,
}
use snerdmq.FileStore.{delete_task, refused, save_task, save_task_inner, read_tasks}
use snerdmq.Queue.Schedule.{
  run, sweeps, begins, settles, finishes, Event, dispatches, enqueues, ticks, step, registers,
}
use snerdmq.Tests.Data.{env_at, mail}
use snerdmq.Base.Result.{ok, os, err}
use snerdmq.Base.Int.{pos}
use snerdmq.Queue.Stuck.{run-begin-IsStuck, IsStuck}
use snerdmq.Queue.Dispatch.{dispatch, settle, default_pool, process_due_tasks}
use snerdmq.Queue.Enqueue.{enqueue-Enqueued, Enqueued, enqueue_after_failure}
use snerdmq.Queue.Due.{IsQueued, IsReady, process_due_tasks_iff}
use snerdmq.Queue.Exclusive.{one_if, waiting, running}
use snerdmq.Queue.Execute.{finish, begin}
use snerdmq.Queue.Exclusive.Steps.{run-new-IsExclusive}
use snerdmq.RateLimiter.Windows.{admitted, two_bursts, admitted-le-limit, admitted-two_bursts}
use snerdmq.Task.Priority.{pop, is_nan}
use snerdmq.Task.Priority.Order.{urgency, pop_greatest}
use snerdmq.FileStore.Restart.{fresh}
use snerdmq.Queue.Retry.{run-attempts-Attempted, attempts, Attempted}

abbrev mail_life : List Event
mail_life =
    registers (codes "mail")
    ∷ enqueues (mail (codes "a")) (env_at 1)
    ∷ ticks (env_at 2)
    ∷ dispatches default_pool
    ∷ settles (env_at 3) (codes "a")
    ∷ begins (codes "a")
    ∷ finishes (env_at 4) (codes "a") (ok tt)
    ∷ []

-- The same id again, before the sweeper has evicted it.
abbrev mail_twice : List Event
mail_twice =
    mail_life
    ++ (enqueues (mail (codes "a")) (env_at 5)
        ∷ ticks (env_at 6)
        ∷ dispatches default_pool
        ∷ settles (env_at 7) (codes "a")
        ∷ [])

abbrev idle : SnerdQueue
idle = new fresh none

abbrev queued_mail : SnerdQueue
queued_mail = run idle (enqueues (mail (codes "a")) (env_at 1) ∷ [])

run-new-IsExclusive_example :
    (waiting (codes "a") (run idle mail_twice) + running (codes "a") (run idle mail_twice) ≤ 1)
    × (waiting (codes "a") (run idle mail_twice)
        ≤ one_if (contains (codes "a") (run idle mail_twice).queued_tasks))
    × (running (codes "a") (run idle mail_twice)
        ≤ one_if (contains (codes "a") (run idle mail_twice).executing_tasks))
run-new-IsExclusive_example = run-new-IsExclusive fresh none mail_twice (codes "a")

run-begin-IsStuck_example :
    IsStuck
      (codes "a")
      (run (begin (codes "a") (run idle mail_twice)) ((sweeps (env_at 100_000_000_000) ∷ [])))
unfolding new run step contains get settle dispatch pop process_due_tasks enqueue finish begin
    register_handlers keys read_tasks values save_task insert Option.bind delete_task
run-begin-IsStuck_example =
    run-begin-IsStuck fresh none mail_twice (sweeps (env_at 100_000_000_000) ∷ [])
      (mail (codes "a")) [] refl refl

enqueue-Enqueued_example :
    Enqueued
      (codes "b")
      (mail (codes "a"))
      (env_at 1)
      idle
      (enqueue (mail (codes "a")) (env_at 1) idle)
enqueue-Enqueued_example = enqueue-Enqueued (mail (codes "a")) (codes "b") (env_at 1) idle refl

abbrev hashed_mail : Text → RetryableTask
hashed_mail id = record (mail id) { payload_hash = some (codes "5") }

abbrev full_disk : Env
full_disk = record (env_at 1) { append = refused }

enqueue_after_failure_example :
    ((enqueue (hashed_mail (codes "a")) full_disk idle).0 ≡ err os)
    × ((enqueue (hashed_mail (codes "a")) full_disk idle).1.file_store ≡ fresh)
    × (enqueue
          (hashed_mail (codes "b"))
          (env_at 2)
          (enqueue (hashed_mail (codes "a")) full_disk idle).1
        ≡ (ok false, (enqueue (hashed_mail (codes "a")) full_disk idle).1))
unfolding new initial_hashes read_tasks values contains get
enqueue_after_failure_example =
    enqueue_after_failure (hashed_mail (codes "a")) (hashed_mail (codes "b")) full_disk (env_at 2)
      idle (codes "5") refl refl refl refl refl

process_due_tasks_iff_example :
    IsQueued
      (codes "a")
      (read_tasks queued_mail.file_store)
      (process_due_tasks (env_at 2) queued_mail)
    ↔ ((t : RetryableTask) × In t (read_tasks queued_mail.file_store)
        × (t.task_id ≡ codes "a")
        × IsReady 2 t queued_mail)
unfolding new run step enqueue dedupe accept save save_task save_task_inner contains get
process_due_tasks_iff_example = process_due_tasks_iff (env_at 2) queued_mail (codes "a") refl refl

-- The task alone in an engine that has its handler.
abbrev stored_mail : SnerdQueue
stored_mail = record (new fresh none) {
  file_store = record fresh { tasks_cache = (codes "a", mail (codes "a")) ∷ [] };
  task_handlers = (codes "mail", tt) ∷ [];
}

abbrev three_times : List Env
three_times = env_at 1 ∷ env_at 2 ∷ env_at 3 ∷ []

run-attempts-Attempted_example :
    Attempted
      (codes "a")
      3
      3
      (run stored_mail (attempts default_pool (codes "a") (codes "no") three_times))
unfolding new contains get initial_hashes read_tasks values
run-attempts-Attempted_example =
    run-attempts-Attempted (codes "no") 3 three_times (mail (codes "a")) stored_mail refl refl refl
      refl (omega arith) (omega arith)
      (record {
        idle = refl;
        heap = refl;
        unpaused = refl;
        stored = refl;
        incomplete = refl;
        handled = refl;
      })
      (
        omega arith,
        omega arith,
        refl,
        (
          1,
          refl,
          (
            omega arith,
            omega arith,
            refl,
            (2, refl, (omega arith, omega arith, refl, (3, refl, tt))),
          ),
        ),
      )

pop_greatest_example :
    (b : RetryableTask) × (r : List RetryableTask) × (pop (mail (codes "a") ∷ mail (codes "b") ∷ [])
      ≡ some (b, r))
    × Perm (mail (codes "a") ∷ mail (codes "b") ∷ []) (b ∷ r)
    × All (λ u. urgency u ≤ urgency b) r
unfolding is_nan
pop_greatest_example = pop_greatest (mail (codes "a")) (mail (codes "b") ∷ []) (refl, (refl, tt))

admitted-le-limit_example : admitted (codes "g") (pos 2) (0 ∷ 1 ∷ 2 ∷ []) (some []) ≤ 2
unfolding get is_over fresh_window
admitted-le-limit_example =
    admitted-le-limit (codes "g") 2 0 (1 ∷ 2 ∷ []) [] (omega arith) refl (refl, (refl, tt))

admitted-two_bursts_example : admitted (codes "g") (pos 2) (two_bursts 1 0) (some []) ≡ 4
unfolding get
admitted-two_bursts_example = admitted-two_bursts (codes "g") 1 0 [] (omega arith) refl
