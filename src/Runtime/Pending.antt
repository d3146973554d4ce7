-- ===== src/Runtime/Pending.antt =====
-- The results of executions between the handlers and the loop of main in src/main.rs.
use snerdmq.Task
use snerdmq.Protocol.{enqueue, progress, stats, register, test_pause_heartbeat, result}
use snerdmq.Task.{RetryableTask, NewTask}
use snerdmq.Base.{
  sym, arith, ◌∙◌, text_dec, suc, All, Option, false, Text, [], ◌≡◌, ℕ, some, ◌<◌, none, refl, ◌∷◌,
  List, ◌≢◌,
}
use snerdmq.Map.{get, get-remove, get-insert, get-insert_ne}
use snerdmq.Queue.{Env}
use snerdmq.Base.Result.{Result, err, IoError, ok}
use snerdmq.Runtime.Daemon.{
  blank, invalid, handle_result, result_of, handle_register, sent_on, resolve, handle_stats, handle,
  handle_line, handle_new_task, handler_received, Answered, handler_timed_out, Daemon, call_handler,
  message, answer_enqueue, InputLine, call_max_retry,
}
use snerdmq.Runtime.Engines.{
  ShardEngine, enqueued, Reply, no_shards, handle_enqueue, shutting_down, enqueue_failed,
}

-- What the loop and the handlers do, one at a time.
pub data Event : Type 0 where
  reads : Env → ℕ → InputLine → Event
  calls : Text → RetryableTask → Event
  gives_up : Text → RetryableTask → Event
  times_out : RetryableTask → Event
  receives : Result (Unit {0}) Text → Event

unfoldable pub after_line : Daemon → Option Answered → Daemon
after_line d none = d
after_line d (some (out, d')) = d'

unfoldable pub step : (IoError → Text) → Daemon → Event → Daemon
unfolding after_line
step display d (reads env uptime l) = after_line d (handle_line display env uptime false l d)
step display d (calls task_type t) = (call_handler task_type t d).1
step display d (gives_up task_type t) = (call_max_retry task_type t d).1
step display d (times_out t) = handler_timed_out t d
step display d (receives r) = handler_received r d

unfoldable pub run : (IoError → Text) → Daemon → List Event → Daemon
unfolding step
run display d [] = d
run display d (e ∷ es) = run display (step display d e) es

-- A daemon that has started, with nothing awaited.
abbrev pub started : List ShardEngine → Daemon
started es = record {
  engines = es;
  registered = [];
  shutting_down = false;
  test_heartbeat_paused = false;
  pending_executions = [];
  sent = [];
  next_channel = 0;
  metrics = record { total_enqueued = 0; total_executed = 0; total_failed = 0; total_dlq = 0 };
}

-- Not a result, a call or a timeout for the id.
abbrev pub IsOther : Text → Event → Type 0
IsOther id (reads env uptime (message (result task_id status error_msg))) = task_id ≢ id
IsOther id (reads env uptime l) = Unit
IsOther id (calls task_type t) = t.task_id ≢ id
IsOther id (gives_up task_type t) = Unit
IsOther id (times_out t) = t.task_id ≢ id
IsOther id (receives r) = Unit

-- The state that the waits look at.
abbrev pub SameWaits : Daemon → Daemon → Type 0
SameWaits d d' =
    (d'.pending_executions ≡ d.pending_executions)
    × (d'.sent ≡ d.sent)
    × (d'.next_channel ≡ d.next_channel)

pub answer_enqueue-SameWaits :
    (display : IoError → Text) (id : Text) (r : Reply) (d : Daemon)
    → SameWaits d (answer_enqueue display id r d).1
unfolding answer_enqueue
answer_enqueue-SameWaits display id shutting_down d = (refl, refl, refl)
answer_enqueue-SameWaits display id no_shards d = (refl, refl, refl)
answer_enqueue-SameWaits display id (enqueue_failed e) d = (refl, refl, refl)
answer_enqueue-SameWaits display id (enqueued shard) d = (refl, refl, refl)

pub handle_new_task-SameWaits :
    (display : IoError → Text) (env : Env) (a : NewTask) (d : Daemon)
    → SameWaits d (handle_new_task display env a d).1
unfolding handle_new_task
handle_new_task-SameWaits display env a d =
    answer_enqueue-SameWaits display a.task_id
      (handle_enqueue d.shutting_down (snerdmq.Task.new env.ext env.now env.later a) env
        d.engines).0
      (record d {
        engines =
            (handle_enqueue d.shutting_down (snerdmq.Task.new env.ext env.now env.later a) env
              d.engines).1;
      })

pub handler_received-SameWaits :
    (r : Result (Unit {0}) Text) (d : Daemon) → SameWaits d (handler_received r d)
unfolding handler_received
handler_received-SameWaits (ok _) d = (refl, refl, refl)
handler_received-SameWaits (err e) d = (refl, refl, refl)

-- Channels are numbered in the order of the calls.
pub record IsNumbered (d : Daemon) : Type 0 where
  pub senders : (j : Text) (c : ℕ) → get j d.pending_executions ≡ some c → c < d.next_channel
  pub results : All (λ (r : ℕ × Result (Unit {0}) Text). r.0 < d.next_channel) d.sent

-- A handler waits for the result of the id on channel n, and nothing has come.
pub record Waits (id : Text) (n : ℕ) (d : Daemon) : Type 0 where
  pub registered : get id d.pending_executions ≡ some n
  pub alone : (j : Text) → j ≢ id → get j d.pending_executions ≢ some n
  pub unsent : sent_on n d.sent ≡ none
  pub below : n < d.next_channel

SameWaits-IsNumbered : (d d' : Daemon) → SameWaits d d' → IsNumbered d → IsNumbered d'
SameWaits-IsNumbered d d' (a, b, c) h = record {
  senders = λ j n e. rw c (h.senders j n (rw a at e));
  results = rw (b, c) h.results;
}

pub SameWaits-Waits :
    (id : Text) (n : ℕ) (d d' : Daemon) → SameWaits d d' → Waits id n d → Waits id n d'
SameWaits-Waits id n d d' (a, b, c) h = record {
  registered = rw a h.registered;
  alone = λ j ne e. h.alone j ne (rw a at e);
  unsent = rw b h.unsent;
  below = rw c h.below;
}

All-weaken :
    (n : ℕ) (rs : List (ℕ × Result (Unit {0}) Text))
    → All (λ (r : ℕ × Result (Unit {0}) Text). r.0 < n) rs
    → All (λ (r : ℕ × Result (Unit {0}) Text). r.0 < suc n) rs
All-weaken n [] h = tt
All-weaken n (r ∷ rs) h = (omega (arith, h.0), All-weaken n rs h.1)

pub unsent-above :
    (n : ℕ) (rs : List (ℕ × Result (Unit {0}) Text))
    → All (λ (r : ℕ × Result (Unit {0}) Text). r.0 < n) rs
    → sent_on n rs ≡ none
unfolding sent_on
unsent-above n [] h = refl
unsent-above n ((m, r) ∷ rs) h = rw (unsent-above n rs h.1) (ground (arith, h.0))

call_handler-IsNumbered :
    (task_type : Text) (t : RetryableTask) (d : Daemon)
    → IsNumbered d
    → IsNumbered (call_handler task_type t d).1
unfolding call_handler
call_handler-IsNumbered task_type t d h = record {
  senders = λ j c e. elim (text_dec t.task_id j) [
    | yes p ↦ ground (arith, get-insert t.task_id j d.next_channel d.pending_executions)
    | no n ↦
        let low =
          h.senders j c
            (sym (get-insert_ne t.task_id j d.next_channel d.pending_executions n) ∙ e) in
        omega (arith, low)
  ];
  results = All-weaken d.next_channel d.sent h.results;
}

resolve-IsNumbered :
    (id : Text) (r : Result (Unit {0}) Text) (o : Option ℕ) (d : Daemon)
    → o ≡ get id d.pending_executions
    → IsNumbered d
    → IsNumbered (resolve id r o d).1
unfolding resolve
resolve-IsNumbered id r none d e h = h
resolve-IsNumbered id r (some n) d e h = record {
  senders = λ j c f. h.senders j c (ground (arith, get-remove id j d.pending_executions));
  results = (h.senders id n (sym e), h.results);
}

times_out-IsNumbered :
    (t : RetryableTask) (d : Daemon) → IsNumbered d → IsNumbered (handler_timed_out t d)
unfolding handler_timed_out
times_out-IsNumbered t d h = record {
  senders = λ j c f. h.senders j c (ground (arith, get-remove t.task_id j d.pending_executions));
  results = h.results;
}

line-IsNumbered :
    (display : IoError → Text) (env : Env) (uptime : ℕ) (l : InputLine) (d : Daemon)
    → IsNumbered d
    → IsNumbered (after_line d (handle_line display env uptime false l d))
unfolding after_line handle_line handle handle_register handle_result handle_stats
line-IsNumbered display env uptime blank d h = h
line-IsNumbered display env uptime (invalid e) d h = h
line-IsNumbered display env uptime (message (register task_type)) d h =
    SameWaits-IsNumbered d _ (refl, refl, refl) h
line-IsNumbered display env uptime (message (enqueue a)) d h =
    SameWaits-IsNumbered d (handle_new_task display env a d).1
      (handle_new_task-SameWaits display env a d) h
line-IsNumbered display env uptime (message (progress task_id info)) d h = h
line-IsNumbered display env uptime (message (result task_id status error_msg)) d h =
    resolve-IsNumbered task_id (result_of status error_msg) (get task_id d.pending_executions) d
      refl h
line-IsNumbered display env uptime (message stats) d h = h
line-IsNumbered display env uptime (message test_pause_heartbeat) d h =
    SameWaits-IsNumbered d _ (refl, refl, refl) h

step-IsNumbered :
    (display : IoError → Text) (d : Daemon) (e : Event)
    → IsNumbered d
    → IsNumbered (step display d e)
unfolding step call_max_retry
step-IsNumbered display d (reads env uptime l) h = line-IsNumbered display env uptime l d h
step-IsNumbered display d (calls task_type t) h = call_handler-IsNumbered task_type t d h
step-IsNumbered display d (gives_up task_type t) h = SameWaits-IsNumbered d _ (refl, refl, refl) h
step-IsNumbered display d (times_out t) h = times_out-IsNumbered t d h
step-IsNumbered display d (receives r) h =
    SameWaits-IsNumbered d (handler_received r d) (handler_received-SameWaits r d) h

pub run-IsNumbered :
    (display : IoError → Text) (d : Daemon) (es : List Event)
    → IsNumbered d
    → IsNumbered (run display d es)
unfolding run
run-IsNumbered display d [] h = h
run-IsNumbered display d (e ∷ es) h =
    run-IsNumbered display (step display d e) es (step-IsNumbered display d e h)

pub started-IsNumbered : (es : List ShardEngine) → IsNumbered (started es)
unfolding get
started-IsNumbered es = record { senders = λ j c e. cc; results = tt }
