-- ===== src/Runtime/Cluster/Keys.antt =====
-- The shards of the engines of main.rs over a step of their daemon.
use snerdmq.Task
use snerdmq.Queue.Schedule
use snerdmq.Task.{NewTask, RetryableTask}
use snerdmq.Queue.{Env}
use snerdmq.Map.{get}
use snerdmq.Runtime.Routing.{handle_enqueue-Handled}
use snerdmq.Membership.{Membership, Io, MembershipError, lease_lost, renew, Outcome, MembershipFile}
use snerdmq.Runtime.Start.{Disk, build_engines, publish}
use snerdmq.Runtime.Start.Moves.{step_engine}
use snerdmq.Runtime.Start.Late.{build_engines-keys}
use snerdmq.Protocol.{result, progress, test_pause_heartbeat, enqueue, register, stats}
use snerdmq.Base.{
  In, sym, ◌≢◌, All, ap, inl, suc, some, if_ind, ℕ, List, inr, none, [], true, Option, ◌++◌, ◌≡◌,
  Bool, refl, ◌∷◌, false, ◌∙◌, Text, zero,
}
use snerdmq.Runtime.Daemon.{
  blank, call_handler, handler_received, handle_register, handle, register_all, answer_enqueue,
  call_max_retry, result_of, resolve, handler_timed_out, handle_result, message, Daemon,
  handle_line, invalid, handle_stats, InputLine, handle_new_task,
}
use snerdmq.Runtime.Pending.{Event, step, reads, gives_up, receives, times_out, after_line, calls}
use snerdmq.Base.Result.{IoError, err, Result, ok}
use snerdmq.Runtime.Engines.{
  enqueued, heartbeat, handle_enqueue, after_renew, pause_all, beat, Reply, pause, enqueue_failed,
  shutting_down, keys_of, no_shards, ShardEngine,
}

abbrev pub keys : Daemon → List Text
keys d = keys_of d.engines

register_all-keys :
    (task_type : Text) (es : List ShardEngine) → keys_of (register_all task_type es) ≡ keys_of es
unfolding register_all keys_of
register_all-keys task_type [] = refl
register_all-keys task_type (e ∷ es) = ap (λ ks. e.key ∷ ks) (register_all-keys task_type es)

handle_enqueue-keys :
    (b : Bool) (t : RetryableTask) (env : Env) (es : List ShardEngine)
    → keys_of (handle_enqueue b t env es).1 ≡ keys_of es
unfolding handle_enqueue
handle_enqueue-keys true t env es = refl
handle_enqueue-keys false t env es = elim (handle_enqueue-Handled t env es) [
  | inl (e, o) ↦ ap (λ x. keys_of x.1) o
  | inr (k, r, i, (a, b)) ↦ b
]

answer_enqueue-keys :
    (display : IoError → Text) (id : Text) (r : Reply) (d : Daemon)
    → keys (answer_enqueue display id r d).1 ≡ keys d
unfolding answer_enqueue
answer_enqueue-keys display id shutting_down d = refl
answer_enqueue-keys display id no_shards d = refl
answer_enqueue-keys display id (enqueue_failed e) d = refl
answer_enqueue-keys display id (enqueued shard) d = refl

handle_new_task-keys :
    (display : IoError → Text) (env : Env) (a : NewTask) (d : Daemon)
    → keys (handle_new_task display env a d).1 ≡ keys d
unfolding handle_new_task
handle_new_task-keys display env a d =
    let t = Task.new env.ext env.now env.later a in
    let out = handle_enqueue d.shutting_down t env d.engines in
    answer_enqueue-keys display a.task_id out.0 (record d { engines = out.1 })
    ∙ handle_enqueue-keys d.shutting_down t env d.engines

resolve-keys :
    (id : Text) (r : Result (Unit {0}) Text) (o : Option ℕ) (d : Daemon)
    → keys (resolve id r o d).1 ≡ keys d
unfolding resolve
resolve-keys id r none d = refl
resolve-keys id r (some n) d = refl

line-keys :
    (display : IoError → Text) (env : Env) (uptime : ℕ) (l : InputLine) (d : Daemon)
    → keys (after_line d (handle_line display env uptime false l d)) ≡ keys d
unfolding after_line handle_line handle handle_register handle_result handle_stats
line-keys display env uptime blank d = refl
line-keys display env uptime (invalid e) d = refl
line-keys display env uptime (message (register task_type)) d =
    register_all-keys task_type d.engines
line-keys display env uptime (message (enqueue a)) d = handle_new_task-keys display env a d
line-keys display env uptime (message (progress task_id info)) d = refl
line-keys display env uptime (message (result task_id status error_msg)) d =
    resolve-keys task_id (result_of status error_msg) (get task_id d.pending_executions) d
line-keys display env uptime (message stats) d = refl
line-keys display env uptime (message test_pause_heartbeat) d = refl

received-keys : (r : Result (Unit {0}) Text) (d : Daemon) → keys (handler_received r d) ≡ keys d
unfolding handler_received
received-keys (ok _) d = refl
received-keys (err e) d = refl

-- The loop and the handlers change no engine's shard.
pub step-keys :
    (display : IoError → Text) (d : Daemon) (v : Event) → keys (step display d v) ≡ keys d
unfolding step call_handler call_max_retry handler_timed_out
step-keys display d (reads env uptime l) = line-keys display env uptime l d
step-keys display d (calls task_type t) = refl
step-keys display d (gives_up task_type t) = refl
step-keys display d (times_out t) = refl
step-keys display d (receives r) = received-keys r d

pub step_engine-keys :
    (i : ℕ) (v : Schedule.Event) (es : List ShardEngine) → keys_of (step_engine i v es) ≡ keys_of es
unfolding step_engine keys_of
step_engine-keys i v [] = refl
step_engine-keys zero v (x ∷ xs) = refl
step_engine-keys (suc i) v (x ∷ xs) = ap (λ ks. x.key ∷ ks) (step_engine-keys i v xs)

pub pause_all-keys : (es : List ShardEngine) → keys_of (pause_all es) ≡ keys_of es
unfolding pause_all pause keys_of
pause_all-keys [] = refl
pause_all-keys (x ∷ xs) = ap (λ ks. x.key ∷ ks) (pause_all-keys xs)

after_renew-key : (e : ShardEngine) (o : Outcome (Unit {0})) → (after_renew e o).0.key ≡ e.key
unfolding after_renew pause
after_renew-key e (ok _, f) = refl
after_renew-key e (err x, f) = elim x as (λ z. (after_renew e (err z, f)).0.key ≡ e.key) [
  | lease_lost s ↦ refl
  | _ ↦ refl
]

pub beat-key :
    (i : Io) (owner : Text) (now : ℕ) (e : ShardEngine) (f : MembershipFile)
    → (beat i owner now e f).0.key ≡ e.key
unfolding beat
beat-key i owner now e f =
    if_ind {A = ShardEngine × MembershipFile} (λ x. x.0.key ≡ e.key) e.queue.paused (λ _. refl)
      (λ _. after_renew-key e (renew i e.key owner now f))

pub heartbeat-keys :
    (i : ℕ → Io) (owner : Text) (now : ℕ → ℕ) (n : ℕ) (es : List ShardEngine) (f : MembershipFile)
    → keys_of (heartbeat i owner now n es f).0 ≡ keys_of es
unfolding heartbeat keys_of
heartbeat-keys i owner now n [] f = refl
heartbeat-keys i owner now n (e ∷ es) f =
    rw
      (
        beat-key (i n) owner (now n) e f,
        heartbeat-keys i owner now (suc n) es (beat (i n) owner (now n) e f).1,
      )
      refl

keys_of-append : (a b : List ShardEngine) → keys_of (a ++ b) ≡ keys_of a ++ keys_of b
unfolding keys_of
keys_of-append [] b = refl
keys_of-append (e ∷ es) b = ap (λ ks. e.key ∷ ks) (keys_of-append es b)

-- After a start without an error the daemon has the shards that it was started with too.
pub publish-keys :
    (disk : Text → Disk) (loaded : Result Membership MembershipError) (shards : List Text)
    (d : Daemon)
    → (build_engines disk d.registered shards).0 ≡ ok tt
    → keys (publish loaded (build_engines disk d.registered shards).1 d).1 ≡ keys d ++ shards
unfolding publish
publish-keys disk loaded shards d b =
    keys_of-append d.engines (build_engines disk d.registered shards).1
    ∙ ap (λ ks. keys d ++ ks) (build_engines-keys disk d.registered shards b)

-- A shard that is not among the keys is no engine's.
pub ne_key :
    (k : Text) (es : List ShardEngine)
    → (In k (keys_of es) → ⊥)
    → All (λ (d : ShardEngine). d.key ≢ k) es
unfolding keys_of
ne_key k [] n = tt
ne_key k (e ∷ es) n = ((λ s. n (inl (sym s))), ne_key k es (λ i. n (inr i)))
