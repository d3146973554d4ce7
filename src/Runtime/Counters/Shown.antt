-- ===== src/Runtime/Counters/Shown.antt =====
-- The counters of Metrics in src/main.rs through the events of a daemon.
use snerdmq.Runtime.Counters.{
  lines_of, printed, trace, acks_in, dead_in, successes_in, failures_in, acks_in-append,
  dead_in-append,
}
use snerdmq.Task
use snerdmq.Protocol.{enqueue, test_pause_heartbeat, result, register, stats, progress}
use snerdmq.Task.{NewTask}
use snerdmq.Base.{
  some, ◌^◌, arith, ◌+◌, ap, [], Text, ℕ, ◌∙◌, Option, ◌≡◌, none, List, false, ◌∷◌, ◌%◌,
}
use snerdmq.Map.{get}
use snerdmq.Queue.{Env}
use snerdmq.Runtime.Daemon.{
  blank, InputLine, handle, resolve, invalid, handle_new_task, handle_stats, handle_result,
  call_max_retry, Daemon, Metrics, answer_enqueue, handle_line, fetch_add, handler_timed_out,
  handler_received, call_handler, message, result_of, handle_register,
}
use snerdmq.Runtime.Pending.{
  step, Event, run, started, calls, gives_up, receives, times_out, after_line, reads,
}
use snerdmq.Base.Result.{Result, err, ok, IoError}
use snerdmq.Runtime.Engines.{
  no_shards, enqueued, shutting_down, handle_enqueue, ShardEngine, Reply, enqueue_failed,
}

-- The counters show these numbers, up to the wrap-around of a u64.
abbrev pub Shows : Metrics → ℕ → ℕ → ℕ → ℕ → Type 0
Shows m a b c e =
    (m.total_enqueued ≡ a % 2 ^ 64)
    × (m.total_executed ≡ b % 2 ^ 64)
    × (m.total_failed ≡ c % 2 ^ 64)
    × (m.total_dlq ≡ e % 2 ^ 64)

same_add : (x a : ℕ) → x ≡ a % 2 ^ 64 → x ≡ (a + 0) % 2 ^ 64
same_add x a h = omega (arith, h)

fetch_add-mod : (x a : ℕ) → x ≡ a % 2 ^ 64 → fetch_add x ≡ (a + 1) % 2 ^ 64
unfolding fetch_add
fetch_add-mod x a h = omega (arith, h)

keep-Shows : (m : Metrics) (a b c e : ℕ) → Shows m a b c e → Shows m (a + 0) (b + 0) (c + 0) (e + 0)
keep-Shows m a b c e (h, i, j, k) = (same_add _ a h, same_add _ b i, same_add _ c j, same_add _ e k)

answer_enqueue-Shows :
    (display : IoError → Text) (id : Text) (r : Reply) (d : Daemon) (a b c e : ℕ)
    → Shows d.metrics a b c e
    → Shows
        (answer_enqueue display id r d).1.metrics
        (a + acks_in (answer_enqueue display id r d).0)
        (b + 0)
        (c + 0)
        (e + dead_in (answer_enqueue display id r d).0)
unfolding answer_enqueue
answer_enqueue-Shows display id shutting_down d a b c e h = keep-Shows d.metrics a b c e h
answer_enqueue-Shows display id no_shards d a b c e h = keep-Shows d.metrics a b c e h
answer_enqueue-Shows display id (enqueue_failed x) d a b c e h = keep-Shows d.metrics a b c e h
answer_enqueue-Shows display id (enqueued shard) d a b c e h =
    let (x, y, z, w) = keep-Shows d.metrics a b c e h in (fetch_add-mod _ a h.0, y, z, w)

resolve-Shows :
    (id : Text) (r : Result (Unit {0}) Text) (o : Option ℕ) (d : Daemon) (a b c e : ℕ)
    → Shows d.metrics a b c e
    → Shows
        (resolve id r o d).1.metrics
        (a + acks_in (resolve id r o d).0)
        (b + 0)
        (c + 0)
        (e + dead_in (resolve id r o d).0)
unfolding resolve
resolve-Shows id r none d a b c e h = keep-Shows d.metrics a b c e h
resolve-Shows id r (some n) d a b c e h = keep-Shows d.metrics a b c e h

handle_new_task-Shows :
    (display : IoError → Text) (env : Env) (t : NewTask) (d : Daemon) (a b c e : ℕ)
    → Shows d.metrics a b c e
    → Shows
        (handle_new_task display env t d).1.metrics
        (a + acks_in (handle_new_task display env t d).0)
        (b + 0)
        (c + 0)
        (e + dead_in (handle_new_task display env t d).0)
unfolding handle_new_task
handle_new_task-Shows display env t d a b c e h =
    let task = Task.new env.ext env.now env.later t in
    let (reply, es) = handle_enqueue d.shutting_down task env d.engines in
    answer_enqueue-Shows display t.task_id reply (record d { engines = es }) a b c e h

line-Shows :
    (display : IoError → Text) (env : Env) (uptime : ℕ) (l : InputLine) (d : Daemon) (a b c e : ℕ)
    → Shows d.metrics a b c e
    → Shows
        (after_line d (handle_line display env uptime false l d)).metrics
        (a + acks_in (lines_of (handle_line display env uptime false l d)))
        (b + 0)
        (c + 0)
        (e + dead_in (lines_of (handle_line display env uptime false l d)))
unfolding after_line lines_of handle_line handle handle_register handle_result handle_stats
line-Shows display env uptime blank d a b c e h = keep-Shows d.metrics a b c e h
line-Shows display env uptime (invalid x) d a b c e h = keep-Shows d.metrics a b c e h
line-Shows display env uptime (message (register task_type)) d a b c e h =
    keep-Shows d.metrics a b c e h
line-Shows display env uptime (message (enqueue t)) d a b c e h =
    handle_new_task-Shows display env t d a b c e h
line-Shows display env uptime (message (progress task_id info)) d a b c e h =
    keep-Shows d.metrics a b c e h
line-Shows display env uptime (message (result task_id status error_msg)) d a b c e h =
    resolve-Shows task_id (result_of status error_msg) (get task_id d.pending_executions) d a b c e
      h
line-Shows display env uptime (message stats) d a b c e h = keep-Shows d.metrics a b c e h
line-Shows display env uptime (message test_pause_heartbeat) d a b c e h =
    keep-Shows d.metrics a b c e h

step-Shows :
    (display : IoError → Text) (d : Daemon) (v : Event) (a b c e : ℕ)
    → Shows d.metrics a b c e
    → Shows
        (step display d v).metrics
        (a + acks_in (printed display d v))
        (b + successes_in (v ∷ []))
        (c + failures_in (v ∷ []))
        (e + dead_in (printed display d v))
unfolding step printed call_handler call_max_retry handler_timed_out handler_received
step-Shows display d (reads env uptime l) a b c e h = line-Shows display env uptime l d a b c e h
step-Shows display d (calls task_type t) a b c e h = keep-Shows d.metrics a b c e h
step-Shows display d (gives_up task_type t) a b c e h =
    let (x, y, z, w) = keep-Shows d.metrics a b c e h in (x, y, z, fetch_add-mod _ e h.3)
step-Shows display d (times_out t) a b c e h = keep-Shows d.metrics a b c e h
step-Shows display d (receives (ok r)) a b c e h =
    let (x, y, z, w) = keep-Shows d.metrics a b c e h in (x, fetch_add-mod _ b h.1, z, w)
step-Shows display d (receives (err r)) a b c e h =
    let (x, y, z, w) = keep-Shows d.metrics a b c e h in (x, y, fetch_add-mod _ c h.2, w)

successes_in-cons :
    (v : Event) (vs : List Event) → successes_in (v ∷ vs) ≡ successes_in (v ∷ []) + successes_in vs
successes_in-cons (reads env uptime l) vs = omega arith
successes_in-cons (calls task_type t) vs = omega arith
successes_in-cons (gives_up task_type t) vs = omega arith
successes_in-cons (times_out t) vs = omega arith
successes_in-cons (receives (ok r)) vs = omega arith
successes_in-cons (receives (err r)) vs = omega arith

failures_in-cons :
    (v : Event) (vs : List Event) → failures_in (v ∷ vs) ≡ failures_in (v ∷ []) + failures_in vs
failures_in-cons (reads env uptime l) vs = omega arith
failures_in-cons (calls task_type t) vs = omega arith
failures_in-cons (gives_up task_type t) vs = omega arith
failures_in-cons (times_out t) vs = omega arith
failures_in-cons (receives (ok r)) vs = omega arith
failures_in-cons (receives (err r)) vs = omega arith

run-Shows :
    (display : IoError → Text) (d : Daemon) (vs : List Event) (a b c e : ℕ)
    → Shows d.metrics a b c e
    → Shows
        (run display d vs).metrics
        (a + acks_in (trace display d vs))
        (b + successes_in vs)
        (c + failures_in vs)
        (e + dead_in (trace display d vs))
unfolding run trace
run-Shows display d [] a b c e h = keep-Shows d.metrics a b c e h
run-Shows display d (v ∷ vs) a b c e h =
    let rest = trace display (step display d v) vs in
    let out = printed display d v in
    let (x, y, z, w) =
      run-Shows display (step display d v) vs (a + acks_in out) (b + successes_in (v ∷ []))
        (c + failures_in (v ∷ [])) (e + dead_in out) (step-Shows display d v a b c e h) in
    (
      x ∙ ap (λ n. n % 2 ^ 64) (omega (arith, acks_in-append out rest)),
      y ∙ ap (λ n. n % 2 ^ 64) (omega (arith, successes_in-cons v vs)),
      z ∙ ap (λ n. n % 2 ^ 64) (omega (arith, failures_in-cons v vs)),
      w ∙ ap (λ n. n % 2 ^ 64) (omega (arith, dead_in-append out rest)),
    )

-- After any events of a daemon that has just been started, its counters show, modulo 2^64: how many
-- acknowledgements with a shard it has printed, how many successes and how many failures its handlers
-- have received, and how many messages of a last failure it has printed.
pub started-Shows :
    (display : IoError → Text) (es : List ShardEngine) (vs : List Event)
    → Shows
        (run display (started es) vs).metrics
        (acks_in (trace display (started es) vs))
        (successes_in vs)
        (failures_in vs)
        (dead_in (trace display (started es) vs))
started-Shows display es vs =
    let (x, y, z, w) =
      run-Shows display (started es) vs 0 0 0 0
        (omega arith, omega arith, omega arith, omega arith) in
    (omega (arith, x), omega (arith, y), omega (arith, z), omega (arith, w))
