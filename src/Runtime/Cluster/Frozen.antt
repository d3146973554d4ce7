-- ===== src/Runtime/Cluster/Frozen.antt =====
-- The engines of a shard in src/main.rs over a step of their daemon: whether they are paused.

use snerdmq.Task
use snerdmq.Queue.Schedule
use snerdmq.Runtime.Pending
use snerdmq.Queue.{enqueue, new, register_handlers, Env, Set, SnerdQueue}
use snerdmq.Task.{NewTask, RetryableTask}
use snerdmq.Map.{get}
use snerdmq.Sharding.{route_shard}
use snerdmq.Membership.{Io, MembershipFile}
use snerdmq.Queue.Settings.{enqueue-settings_of}
use snerdmq.Queue.Pausing.{step-paused}
use snerdmq.Runtime.Acknowledged.{handle_enqueue-some, handle_enqueue-none, answer_enqueue-engines}
use snerdmq.Protocol.{result, progress, test_pause_heartbeat, register, stats}
use snerdmq.Queue
use snerdmq.Protocol
use snerdmq.Base.{
  refl, List, ◌∙◌, if_neg, zero, All, if_pos, Option, text_dec, some, Bool, suc, ◌∷◌, sym, Text,
  none, inl, inr, false, ℕ, ◌≡◌, [], subst, ap, true, Option-cases,
}
use snerdmq.Runtime.Daemon.{
  blank, message, invalid, call_max_retry, resolve, handle, Daemon, handler_timed_out,
  handler_received, result_of, InputLine, handle_result, handle_register, handle_new_task,
  handle_stats, call_handler, handle_line, register_all,
}
use snerdmq.Runtime.Pending.{Event, step, reads, calls, gives_up, times_out, receives, after_line}
use snerdmq.Base.Result.{IoError, Result, err, ok}
use snerdmq.Runtime.Engines.{
  keys_of, enqueue_at, Reply, ShardEngine, heartbeat, reply_of, pause_all, handle_enqueue, beat,
  pause,
}
use snerdmq.Runtime.Cluster.Keys.{beat-key}
use snerdmq.Runtime.Start.Moves.{step_engine}

-- The engines of the shard are paused.
abbrev pub ArePausedAt : Text → List ShardEngine → Type 0
ArePausedAt k es = All (λ (e : ShardEngine). e.key ≡ k → e.queue.paused ≡ true) es

register_all-ArePausedAt :
    (k task_type : Text) (es : List ShardEngine)
    → ArePausedAt k es
    → ArePausedAt k (register_all task_type es)
unfolding register_all register_handlers
register_all-ArePausedAt k task_type [] h = tt
register_all-ArePausedAt k task_type (e ∷ es) h = (h.0, register_all-ArePausedAt k task_type es h.1)

enqueue-paused :
    (t : RetryableTask) (env : Env) (q : SnerdQueue) → (Queue.enqueue t env q).1.paused ≡ q.paused
enqueue-paused t env q = ap (λ (x : Set × Set × Bool). x.2) (enqueue-settings_of t env q)

enqueue_at-ArePausedAt :
    (k shard : Text) (t : RetryableTask) (env : Env) (es : List ShardEngine)
    → ArePausedAt k es
    → ArePausedAt k (enqueue_at shard t env es).1
unfolding enqueue_at
enqueue_at-ArePausedAt k shard t env [] h = tt
enqueue_at-ArePausedAt k shard t env (e ∷ es) h =
    let (r, q) = Queue.enqueue t env e.queue in
    let (reply, rest) = enqueue_at shard t env es in
    let here : Reply × List ShardEngine = (reply_of shard r, record e { queue = q } ∷ es) in
    let there : Reply × List ShardEngine = (reply, e ∷ rest) in
    elim (text_dec e.key shard) [
      | yes p ↦
          subst (λ (x : Reply × List ShardEngine). ArePausedAt k x.1)
            (sym (if_pos (text_dec e.key shard) p here there))
            ((λ m. enqueue-paused t env e.queue ∙ h.0 m), h.1)
      | no n ↦
          subst (λ (x : Reply × List ShardEngine). ArePausedAt k x.1)
            (sym (if_neg (text_dec e.key shard) n here there))
            (h.0, enqueue_at-ArePausedAt k shard t env es h.1)
    ]

handle_enqueue-ArePausedAt :
    (k : Text) (b : Bool) (t : RetryableTask) (env : Env) (es : List ShardEngine)
    → ArePausedAt k es
    → ArePausedAt k (handle_enqueue b t env es).1
handle_enqueue-ArePausedAt k true t env es h = unfold handle_enqueue in h
handle_enqueue-ArePausedAt k false t env es h =
    elim (Option-cases (route_shard t.task_id (keys_of es))) [
      | inl e ↦
          subst (λ (x : Reply × List ShardEngine). ArePausedAt k x.1)
            (sym (handle_enqueue-none t env es e)) h
      | inr (shard, e) ↦
          subst (λ (x : Reply × List ShardEngine). ArePausedAt k x.1)
            (sym (handle_enqueue-some t env es shard e)) (enqueue_at-ArePausedAt k shard t env es h)
    ]

new_task-ArePausedAt :
    (k : Text) (display : IoError → Text) (env : Env) (a : NewTask) (d : Daemon)
    → ArePausedAt k d.engines
    → ArePausedAt k (handle_new_task display env a d).1.engines
unfolding handle_new_task
new_task-ArePausedAt k display env a d h =
    let t = Task.new env.ext env.now env.later a in
    let out = handle_enqueue d.shutting_down t env d.engines in
    subst (ArePausedAt k)
      (sym (answer_enqueue-engines display a.task_id out.0 (record d { engines = out.1 })))
      (handle_enqueue-ArePausedAt k d.shutting_down t env d.engines h)

resolve-ArePausedAt :
    (k id : Text) (r : Result (Unit {0}) Text) (o : Option ℕ) (d : Daemon)
    → ArePausedAt k d.engines
    → ArePausedAt k (resolve id r o d).1.engines
unfolding resolve
resolve-ArePausedAt k id r none d h = h
resolve-ArePausedAt k id r (some n) d h = h

line-ArePausedAt :
    (k : Text) (display : IoError → Text) (env : Env) (uptime : ℕ) (l : InputLine) (d : Daemon)
    → ArePausedAt k d.engines
    → ArePausedAt k (after_line d (handle_line display env uptime false l d)).engines
unfolding after_line handle_line handle handle_register handle_result handle_stats
line-ArePausedAt k display env uptime blank d h = h
line-ArePausedAt k display env uptime (invalid e) d h = h
line-ArePausedAt k display env uptime (message (register task_type)) d h =
    register_all-ArePausedAt k task_type d.engines h
line-ArePausedAt k display env uptime (message (Protocol.enqueue a)) d h =
    new_task-ArePausedAt k display env a d h
line-ArePausedAt k display env uptime (message (progress task_id info)) d h = h
line-ArePausedAt k display env uptime (message (result task_id status error_msg)) d h =
    resolve-ArePausedAt k task_id (result_of status error_msg) (get task_id d.pending_executions) d
      h
line-ArePausedAt k display env uptime (message stats) d h = h
line-ArePausedAt k display env uptime (message test_pause_heartbeat) d h = h

received-ArePausedAt :
    (k : Text) (r : Result (Unit {0}) Text) (d : Daemon)
    → ArePausedAt k d.engines
    → ArePausedAt k (handler_received r d).engines
unfolding handler_received
received-ArePausedAt k (ok _) d h = h
received-ArePausedAt k (err e) d h = h

pub step-ArePausedAt :
    (k : Text) (display : IoError → Text) (d : Daemon) (v : Pending.Event)
    → ArePausedAt k d.engines
    → ArePausedAt k (Pending.step display d v).engines
unfolding Pending.step call_handler call_max_retry handler_timed_out
step-ArePausedAt k display d (reads env uptime l) h = line-ArePausedAt k display env uptime l d h
step-ArePausedAt k display d (calls task_type t) h = h
step-ArePausedAt k display d (gives_up task_type t) h = h
step-ArePausedAt k display d (times_out t) h = h
step-ArePausedAt k display d (receives r) h = received-ArePausedAt k r d h

pub step_engine-ArePausedAt :
    (k : Text) (i : ℕ) (v : Schedule.Event) (es : List ShardEngine)
    → ArePausedAt k es
    → ArePausedAt k (step_engine i v es)
unfolding step_engine
step_engine-ArePausedAt k i v [] h = tt
step_engine-ArePausedAt k zero v (x ∷ xs) h = ((λ m. step-paused x.queue v (h.0 m)), h.1)
step_engine-ArePausedAt k (suc i) v (x ∷ xs) h = (h.0, step_engine-ArePausedAt k i v xs h.1)

pub pause_all-ArePausedAt : (k : Text) (es : List ShardEngine) → ArePausedAt k (pause_all es)
unfolding pause_all pause
pause_all-ArePausedAt k [] = tt
pause_all-ArePausedAt k (e ∷ es) = ((λ m. refl), pause_all-ArePausedAt k es)

-- The heartbeat pauses engines, and looks at none that is paused.
beat_paused :
    (i : Io) (owner : Text) (now : ℕ) (e : ShardEngine) (f : MembershipFile)
    → e.queue.paused ≡ true
    → (beat i owner now e f).0.queue.paused ≡ true
unfolding beat
beat_paused i owner now e f h = rw (beat, h) refl

pub heartbeat-ArePausedAt :
    (k : Text) (i : ℕ → Io) (owner : Text) (now : ℕ → ℕ) (n : ℕ) (es : List ShardEngine)
    (f : MembershipFile)
    → ArePausedAt k es
    → ArePausedAt k (heartbeat i owner now n es f).0
unfolding heartbeat
heartbeat-ArePausedAt k i owner now n [] f h = tt
heartbeat-ArePausedAt k i owner now n (e ∷ es) f h = (
  (λ m. beat_paused (i n) owner (now n) e f (h.0 (sym (beat-key (i n) owner (now n) e f) ∙ m))),
  heartbeat-ArePausedAt k i owner now (suc n) es (beat (i n) owner (now n) e f).1 h.1,
)
