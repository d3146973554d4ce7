-- ===== src/Runtime/Start/Handlers/Steps.antt =====
-- The handlers of a registered type through the steps of a daemon of src/main.rs that start no engine.
use snerdmq.Runtime.Start.Moves.{step_engine}
use snerdmq.Runtime.Start.Serving.{
  Serves, ServesAll, step-ServesAll, register_all-ServesAll, handle_enqueue-ServesAll,
}
use snerdmq.Task
use snerdmq.Queue.Schedule
use snerdmq.Runtime.Pending
use snerdmq.Protocol.{enqueue, stats, test_pause_heartbeat, register, progress, result}
use snerdmq.Base.{In-append_last, All-map, sym, In}
use snerdmq.Task.{RetryableTask, NewTask}
use snerdmq.Base.{
  inr, some, List, Option, ℕ, false, none, Text, subst, ◌∷◌, zero, suc, refl, [], ◌≡◌, inl, All,
}
use snerdmq.Map.{get}
use snerdmq.Queue.{Env}
use snerdmq.Runtime.Daemon.{
  register_all, blank, handle_new_task, InputLine, handler_received, handle_line, invalid, resolve,
  Daemon, result_of, handle_stats, message, call_max_retry, handle_result, handle_register,
  handler_timed_out, handle, call_handler, answer_enqueue,
}
use snerdmq.Runtime.Pending.{after_line, gives_up, times_out, calls, reads, receives}
use snerdmq.Base.Result.{Result, err, IoError, ok}
use snerdmq.Runtime.Engines.{
  no_shards, enqueued, enqueue_failed, Reply, handle_enqueue, shutting_down, ShardEngine,
}
use snerdmq.Runtime.Pending.{started}

-- Once the type is registered, every engine has its handlers.
abbrev pub IsServing : Text → Daemon → Type 0
IsServing u d = In u d.registered → All (ServesAll (u ∷ [])) d.engines

-- Of the registered types one.
serves_one :
    (u : Text) (types : List Text) (e : ShardEngine)
    → In u types
    → ServesAll types e
    → ServesAll (u ∷ []) e
serves_one u [] e i h = absurd i
serves_one u (t ∷ types) e (inl same) h = (subst (Serves e.queue) (sym same) h.0, tt)
serves_one u (t ∷ types) e (inr i) h = serves_one u types e i h.1

pub each_serves_one :
    (u : Text) (types : List Text) (es : List ShardEngine)
    → In u types
    → All (ServesAll types) es
    → All (ServesAll (u ∷ [])) es
each_serves_one u types es i h =
    All-map (ServesAll types) (ServesAll (u ∷ [])) es (λ e _. serves_one u types e i) h

each_serves_none : (es : List ShardEngine) → All (ServesAll []) es
each_serves_none [] = tt
each_serves_none (e ∷ es) = (tt, each_serves_none es)

register-IsServing :
    (u task_type : Text) (d : Daemon) → IsServing u d → IsServing u (handle_register task_type d).1
unfolding handle_register
register-IsServing u task_type d h i = elim (In-append_last u task_type d.registered i) [
  | inl before ↦
      each_serves_one u (u ∷ task_type ∷ []) (register_all task_type d.engines) (inl refl)
        (register_all-ServesAll task_type (u ∷ []) d.engines (h before))
  | inr now ↦
      each_serves_one u (task_type ∷ []) (register_all task_type d.engines) (inl now)
        (register_all-ServesAll task_type [] d.engines (each_serves_none d.engines))
]

pub step_engine-ServesAll :
    (i : ℕ) (e : Schedule.Event) (es : List ShardEngine) (types : List Text)
    → All (ServesAll types) es
    → All (ServesAll types) (step_engine i e es)
unfolding step_engine
step_engine-ServesAll i e [] types h = tt
step_engine-ServesAll zero e (x ∷ xs) types h = (step-ServesAll x.queue e types h.0, h.1)
step_engine-ServesAll (suc i) e (x ∷ xs) types h = (h.0, step_engine-ServesAll i e xs types h.1)

-- The other parts of a daemon do not matter.
abbrev SameHandlers : Daemon → Daemon → Type 0
SameHandlers d d' = (d'.engines ≡ d.engines) × (d'.registered ≡ d.registered)

SameHandlers-IsServing :
    (u : Text) (d d' : Daemon) → SameHandlers d d' → IsServing u d → IsServing u d'
SameHandlers-IsServing u d d' (a, b) h = rw (a, b) h

answer_enqueue-SameHandlers :
    (display : IoError → Text) (id : Text) (r : Reply) (d : Daemon)
    → SameHandlers d (answer_enqueue display id r d).1
unfolding answer_enqueue
answer_enqueue-SameHandlers display id shutting_down d = (refl, refl)
answer_enqueue-SameHandlers display id no_shards d = (refl, refl)
answer_enqueue-SameHandlers display id (enqueue_failed e) d = (refl, refl)
answer_enqueue-SameHandlers display id (enqueued shard) d = (refl, refl)

handle_new_task-IsServing :
    (u : Text) (display : IoError → Text) (env : Env) (a : NewTask) (d : Daemon)
    → IsServing u d
    → IsServing u (handle_new_task display env a d).1
unfolding handle_new_task
handle_new_task-IsServing u display env a d h =
    let t = Task.new env.ext env.now env.later a in
    let (reply, es) = handle_enqueue d.shutting_down t env d.engines in
    let d' : Daemon = record d { engines = es } in
    SameHandlers-IsServing u d' (answer_enqueue display a.task_id reply d').1
      (answer_enqueue-SameHandlers display a.task_id reply d')
      (λ i. handle_enqueue-ServesAll d.shutting_down t env (u ∷ []) d.engines (h i))

resolve-SameHandlers :
    (id : Text) (r : Result (Unit {0}) Text) (o : Option ℕ) (d : Daemon)
    → SameHandlers d (resolve id r o d).1
unfolding resolve
resolve-SameHandlers id r none d = (refl, refl)
resolve-SameHandlers id r (some n) d = (refl, refl)

line-IsServing :
    (u : Text) (display : IoError → Text) (env : Env) (uptime : ℕ) (l : InputLine) (d : Daemon)
    → IsServing u d
    → IsServing u (after_line d (handle_line display env uptime false l d))
unfolding after_line handle_line handle handle_result handle_stats
line-IsServing u display env uptime blank d h = h
line-IsServing u display env uptime (invalid e) d h = h
line-IsServing u display env uptime (message (register task_type)) d h =
    register-IsServing u task_type d h
line-IsServing u display env uptime (message (enqueue a)) d h =
    handle_new_task-IsServing u display env a d h
line-IsServing u display env uptime (message (progress task_id info)) d h = h
line-IsServing u display env uptime (message (result task_id status error_msg)) d h =
    SameHandlers-IsServing u d
      (resolve task_id (result_of status error_msg) (get task_id d.pending_executions) d).1
      (resolve-SameHandlers task_id (result_of status error_msg) (get task_id d.pending_executions)
        d)
      h
line-IsServing u display env uptime (message stats) d h = h
line-IsServing u display env uptime (message test_pause_heartbeat) d h = h

pub step-IsServing :
    (u : Text) (display : IoError → Text) (d : Daemon) (e : Pending.Event)
    → IsServing u d
    → IsServing u (Pending.step display d e)
unfolding Pending.step call_handler call_max_retry handler_timed_out handler_received
step-IsServing u display d (reads env uptime l) h = line-IsServing u display env uptime l d h
step-IsServing u display d (calls task_type t) h = h
step-IsServing u display d (gives_up task_type t) h = h
step-IsServing u display d (times_out t) h = h
step-IsServing u display d (receives (ok x)) h = h
step-IsServing u display d (receives (err x)) h = h
