-- ===== src/Runtime/Awaited.antt =====
-- The result that an execution awaits, through the loop of main in src/main.rs.
use mathlib.Core.Option.{some-injective}
use snerdmq.Protocol.{register, result, progress, stats, test_pause_heartbeat, enqueue}
use snerdmq.Task.{RetryableTask}
use snerdmq.Base.{
  ap, text_dec, some, List, if_pos, ℕ, [], if_neg, ◌≡◌, ◌∷◌, Text, arith, true, All, refl, ◌≢◌,
  false, none, ◌∙◌, sym, Option,
}
use snerdmq.Map.{get-insert_self, Map, get, get-remove, get-insert, get-remove_ne, get-insert_ne}
use snerdmq.Queue.{Env}
use snerdmq.Runtime.Daemon.{
  blank, handler_received, receive, handler_timed_out, InputLine, handle_result, message, result_of,
  Daemon, call_handler, call_max_retry, resolve, handle_stats, handle_line, handle_register,
  handle_new_task, sent_on, invalid, handle, has_sender,
}
use snerdmq.Runtime.Pending.{
  run, step, Event, started, run-IsNumbered, times_out, calls, started-IsNumbered, SameWaits-Waits,
  reads, receives, Waits, gives_up, handle_new_task-SameWaits, handler_received-SameWaits,
  unsent-above, IsOther, IsNumbered, after_line,
}
use snerdmq.Base.Result.{IoError, Result}
use snerdmq.Runtime.Engines.{ShardEngine}

has_sender-get :
    (id : Text) (n : ℕ) (pending : Map ℕ) → get id pending ≡ some n → has_sender n pending ≡ true
unfolding has_sender get
has_sender-get id n [] e = cc
has_sender-get id n ((j, m) ∷ pending) e = elim (text_dec j id) [
  | yes p ↦ let same : m ≡ n = some-injective m n (rw (if_pos _ p) at e) in ground arith
  | no q ↦ rw (has_sender-get id n pending (rw (if_neg _ q) at e)) (ground arith)
]

call_handler-Waits :
    (task_type : Text) (t : RetryableTask) (d : Daemon)
    → IsNumbered d
    → Waits t.task_id d.next_channel (call_handler task_type t d).1
unfolding call_handler
call_handler-Waits task_type t d h = record {
  registered = get-insert_self t.task_id d.next_channel d.pending_executions;
  alone = λ j ne e.
      let low = h.senders j d.next_channel (
        sym (get-insert_ne t.task_id j d.next_channel d.pending_executions (λ x. ne (sym x)))
        ∙ e) in
      absurd (omega (arith, low));
  unsent = unsent-above d.next_channel d.sent h.results;
  below = omega arith;
}

module _ (id : Text) (n : ℕ) where
  resolve-Waits :
      (j : Text) (r : Result (Unit {0}) Text) (o : Option ℕ) (d : Daemon)
      → j ≢ id
      → o ≡ get j d.pending_executions
      → Waits id n d
      → Waits id n (resolve j r o d).1
  unfolding resolve
  resolve-Waits j r none d ne e h = h
  resolve-Waits j r (some m) d ne e h = record {
    registered = get-remove_ne j id d.pending_executions ne ∙ h.registered;
    alone = λ k kn f. h.alone k kn (ground (arith, get-remove j k d.pending_executions));
    unsent =
        let apart : m ≢ n = λ s. h.alone j ne (sym e ∙ ap some s) in
        unfold sent_on in rw h.unsent (ground arith);
    below = h.below;
  }

  times_out-Waits :
      (t : RetryableTask) (d : Daemon)
      → t.task_id ≢ id
      → Waits id n d
      → Waits id n (handler_timed_out t d)
  unfolding handler_timed_out
  times_out-Waits t d ne h = record {
    registered = get-remove_ne t.task_id id d.pending_executions ne ∙ h.registered;
    alone = λ k kn f. h.alone k kn (ground (arith, get-remove t.task_id k d.pending_executions));
    unsent = h.unsent;
    below = h.below;
  }

  calls-Waits :
      (task_type : Text) (t : RetryableTask) (d : Daemon)
      → t.task_id ≢ id
      → Waits id n d
      → Waits id n (call_handler task_type t d).1
  unfolding call_handler
  calls-Waits task_type t d ne h = record {
    registered = get-insert_ne t.task_id id d.next_channel d.pending_executions ne ∙ h.registered;
    alone = λ k kn f. elim (text_dec t.task_id k) [
      | yes p ↦
          let same : d.next_channel ≡ n = some-injective d.next_channel n (
            sym (ground (arith, get-insert t.task_id k d.next_channel d.pending_executions)) ∙ f) in
          absurd (omega (arith, h.below))
      | no q ↦
          h.alone k kn (sym (get-insert_ne t.task_id k d.next_channel d.pending_executions q) ∙ f)
    ];
    unsent = h.unsent;
    below = omega (arith, h.below);
  }

  line-Waits :
      (display : IoError → Text) (env : Env) (uptime : ℕ) (l : InputLine) (d : Daemon)
      → IsOther id (reads env uptime l)
      → Waits id n d
      → Waits id n (after_line d (handle_line display env uptime false l d))
  unfolding after_line handle_line handle handle_register handle_result handle_stats
  line-Waits display env uptime blank d o h = h
  line-Waits display env uptime (invalid e) d o h = h
  line-Waits display env uptime (message (register task_type)) d o h =
      SameWaits-Waits id n d _ (refl, refl, refl) h
  line-Waits display env uptime (message (enqueue a)) d o h =
      SameWaits-Waits id n d (handle_new_task display env a d).1
        (handle_new_task-SameWaits display env a d) h
  line-Waits display env uptime (message (progress task_id info)) d o h = h
  line-Waits display env uptime (message (result task_id status error_msg)) d o h =
      resolve-Waits task_id (result_of status error_msg) (get task_id d.pending_executions) d o refl
        h
  line-Waits display env uptime (message stats) d o h = h
  line-Waits display env uptime (message test_pause_heartbeat) d o h =
      SameWaits-Waits id n d _ (refl, refl, refl) h

  step-Waits :
      (display : IoError → Text) (d : Daemon) (e : Event)
      → IsOther id e
      → Waits id n d
      → Waits id n (step display d e)
  unfolding step call_max_retry
  step-Waits display d (reads env uptime l) o h = line-Waits display env uptime l d o h
  step-Waits display d (calls task_type t) o h = calls-Waits task_type t d o h
  step-Waits display d (gives_up task_type t) o h = SameWaits-Waits id n d _ (refl, refl, refl) h
  step-Waits display d (times_out t) o h = times_out-Waits t d o h
  step-Waits display d (receives r) o h =
      SameWaits-Waits id n d (handler_received r d) (handler_received-SameWaits r d) h

  run-Waits :
      (display : IoError → Text) (d : Daemon) (es : List Event)
      → All (IsOther id) es
      → Waits id n d
      → Waits id n (run display d es)
  unfolding run
  run-Waits display d [] o h = h
  run-Waits display d (e ∷ es) o h =
      run-Waits display (step display d e) es o.1 (step-Waits display d e o.0 h)

receive-Waits : (id : Text) (n : ℕ) (d : Daemon) → Waits id n d → receive n d ≡ none
unfolding receive
receive-Waits id n d h =
    rw (receive, h.unsent, has_sender-get id n d.pending_executions h.registered) refl

handle_result-Waits :
    (id : Text) (n : ℕ) (d : Daemon) (status : Text) (error_msg : Option Text)
    → Waits id n d
    → ((handle_result id status error_msg d).0 ≡ [])
      × (receive n (handle_result id status error_msg d).1 ≡ some (result_of status error_msg))
unfolding handle_result resolve receive sent_on
handle_result-Waits id n d status error_msg h = rw h.registered (ground arith)

-- After any events, a handler is called for a task; then come events that are no result, call or
-- timeout for its id. Until then the handler waits, and the next result for the id, which prints
-- nothing, is what it receives: success, or the message of the failure.
pub receive-handle_result :
    (display : IoError → Text) (es : List ShardEngine) (before after : List Event)
    (task_type status : Text) (t : RetryableTask) (error_msg : Option Text)
    → All (IsOther t.task_id) after
    → let d = run display (started es) before in
      let waiting = run display (call_handler task_type t d).1 after in
      (receive d.next_channel waiting ≡ none)
      × ((handle_result t.task_id status error_msg waiting).0 ≡ [])
      × (receive d.next_channel (handle_result t.task_id status error_msg waiting).1
          ≡ some (result_of status error_msg))
receive-handle_result display es before after task_type status t error_msg o =
    let d = run display (started es) before in
    let h = run-Waits t.task_id d.next_channel display (call_handler task_type t d).1 after o (
      call_handler-Waits task_type t d
        (run-IsNumbered display (started es) before (started-IsNumbered es))) in
    let (silent, got) = handle_result-Waits t.task_id d.next_channel _ status error_msg h in
    (receive-Waits t.task_id d.next_channel _ h, silent, got)
