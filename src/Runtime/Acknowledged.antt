-- ===== src/Runtime/Acknowledged.antt =====
-- What an acknowledgement of an enqueue message says in src/main.rs.
use snerdmq.Queue
use snerdmq.FileStore.{appended, refused, unsynced}
use mathlib.Core.Option.{some-injective}
use snerdmq.Task.{RetryableTask, NewTask}
use snerdmq.Task
use snerdmq.Protocol.{OutgoingMessage, ack}
use snerdmq.Sharding.{route_shard}
use snerdmq.FileStore.{
  refused, unsynced, save_task, get_latest_task, write_line, save_task_inner, count_save, Append,
}
use snerdmq.Base.{
  [], some, Option-cases, Bool-cases, sym, refl, if_pos, ℕ, Option, ◌∷◌, ◌≡◌, if_neg, subst,
  text_dec, Text, inr, false, Bool, none, In, if_ind, List, inl, ◌⊎◌, ap, true,
}
use snerdmq.Map.{contains, get-insert_self}
use snerdmq.Queue.{save, dedupe, Set, SnerdQueue, Env, accept}
use snerdmq.Base.Result.{Result, ok, IoError, err}
use snerdmq.Runtime.Daemon.{answer_enqueue, Daemon, handle_new_task}
use snerdmq.Runtime.Engines.{
  keys_of, handle_enqueue, reply_of, enqueued, shutting_down, no_shards, ShardEngine, Reply,
  enqueue_failed, enqueue_at,
}

-- The task is the latest with its id, or another task with its payload hash is active.
abbrev pub IsAccepted : RetryableTask → SnerdQueue → Type 0
IsAccepted t q =
    (get_latest_task t.task_id q.file_store ≡ some (record t { deleted_at = none }))
    ⊎ ((h : Text) × (t.payload_hash ≡ some h) × (contains h q.active_hashes ≡ true))

-- Where the result is ok, the task is accepted.
abbrev OkAccepts : RetryableTask → Result Bool IoError × SnerdQueue → Type 0
OkAccepts t (ok b, q) = IsAccepted t q
OkAccepts t (err e, q) = Unit

saved-OkAccepts :
    (t : RetryableTask) (a : Append) (len : Option ℕ) (q : SnerdQueue)
    → let (r, s) = save_task (record t { deleted_at = none }) a len q.file_store in
      OkAccepts t (r, record q { file_store = s })
unfolding save_task save_task_inner count_save write_line get_latest_task
saved-OkAccepts t appended len q =
    inl (get-insert_self t.task_id (record t { deleted_at = none }) q.file_store.tasks_cache)
saved-OkAccepts t refused len q = tt
saved-OkAccepts t unsynced len q = tt

dedupe-cases :
    (o : Option Text) (hashes hashes' : Set)
    → dedupe o hashes ≡ (true, hashes')
    → (h : Text) × (o ≡ some h) × (contains h hashes ≡ true)
unfolding dedupe
dedupe-cases none hashes hashes' e =
    let bad : false ≡ true = ap (λ (x : Bool × Set). x.0) e in absurd (cc bad)
dedupe-cases (some h) hashes hashes' e = elim (Bool-cases (contains h hashes)) [
  | inl c ↦ (h, refl, c)
  | inr c ↦
      let bad : false ≡ true = ap (λ (x : Bool × Set). x.0) (rw (dedupe, c) at e) in absurd (cc bad)
]

accept-OkAccepts :
    (d : Bool × Set) (t : RetryableTask) (env : Env) (q : SnerdQueue)
    → dedupe t.payload_hash q.active_hashes ≡ d
    → OkAccepts t (accept d t env q)
unfolding accept save
accept-OkAccepts (true, hashes) t env q e =
    inr (dedupe-cases t.payload_hash q.active_hashes hashes e)
accept-OkAccepts (false, hashes) t env q e =
    saved-OkAccepts t env.append env.len (record q { active_hashes = hashes })

enqueue-OkAccepts :
    (t : RetryableTask) (env : Env) (q : SnerdQueue) → OkAccepts t (Queue.enqueue t env q)
unfolding Queue.enqueue
enqueue-OkAccepts t env q =
    if_ind (OkAccepts t) q.paused (λ p. tt)
      (λ p. accept-OkAccepts (dedupe t.payload_hash q.active_hashes) t env q refl)

-- An engine with the key has accepted the task.
abbrev pub HasAccepted : RetryableTask → Text → List ShardEngine → Type 0
HasAccepted t shard es = (e : ShardEngine) × In e es × (e.key ≡ shard) × IsAccepted t e.queue

abbrev Answers : RetryableTask → Reply × List ShardEngine → Type 0
Answers t (enqueued shard, es) = HasAccepted t shard es
Answers t (shutting_down, es) = Unit
Answers t (no_shards, es) = Unit
Answers t (enqueue_failed e, es) = Unit

taken-Answers :
    (t : RetryableTask) (shard : Text) (e : ShardEngine) (es : List ShardEngine)
    (o : Result Bool IoError × SnerdQueue)
    → e.key ≡ shard
    → OkAccepts t o
    → Answers t (reply_of shard o.0, record e { queue = o.1 } ∷ es)
unfolding reply_of
taken-Answers t shard e es (ok b, q) k h = (record e { queue = q }, inl refl, k, h)
taken-Answers t shard e es (err x, q) k h = tt

after-Answers :
    (t : RetryableTask) (e : ShardEngine) (o : Reply × List ShardEngine)
    → Answers t o
    → Answers t (o.0, e ∷ o.1)
after-Answers t e (enqueued shard, es) (x, i, k, h) = (x, inr i, k, h)
after-Answers t e (shutting_down, es) h = tt
after-Answers t e (no_shards, es) h = tt
after-Answers t e (enqueue_failed x, es) h = tt

enqueue_at-Answers :
    (shard : Text) (t : RetryableTask) (env : Env) (es : List ShardEngine)
    → Answers t (enqueue_at shard t env es)
unfolding enqueue_at
enqueue_at-Answers shard t env [] = tt
enqueue_at-Answers shard t env (e ∷ es) =
    let (reply, rest) = enqueue_at shard t env es in
    let (r, q) = Queue.enqueue t env e.queue in
    let here : Reply × List ShardEngine = (reply_of shard r, record e { queue = q } ∷ es) in
    let there : Reply × List ShardEngine = (reply, e ∷ rest) in
    elim (text_dec e.key shard) [
      | yes p ↦ subst (Answers t) (sym (if_pos (text_dec e.key shard) p here there)) (
          taken-Answers t shard e es (Queue.enqueue t env e.queue) p
            (enqueue-OkAccepts t env e.queue))
      | no n ↦
          subst (Answers t) (sym (if_neg (text_dec e.key shard) n here there))
            (after-Answers t e (enqueue_at shard t env es) (enqueue_at-Answers shard t env es))
    ]

pub handle_enqueue-some :
    (t : RetryableTask) (env : Env) (es : List ShardEngine) (shard : Text)
    → route_shard t.task_id (keys_of es) ≡ some shard
    → handle_enqueue false t env es ≡ enqueue_at shard t env es
unfolding handle_enqueue
handle_enqueue-some t env es shard e = rw (handle_enqueue, e) refl

pub handle_enqueue-none :
    (t : RetryableTask) (env : Env) (es : List ShardEngine)
    → route_shard t.task_id (keys_of es) ≡ none
    → handle_enqueue false t env es ≡ (no_shards, es)
unfolding handle_enqueue
handle_enqueue-none t env es e = rw (handle_enqueue, e) refl

handle_enqueue-Answers :
    (b : Bool) (t : RetryableTask) (env : Env) (es : List ShardEngine)
    → Answers t (handle_enqueue b t env es)
handle_enqueue-Answers true t env es = unfold handle_enqueue in tt
handle_enqueue-Answers false t env es = elim (Option-cases (route_shard t.task_id (keys_of es))) [
  | inl e ↦ subst (Answers t) (sym (handle_enqueue-none t env es e)) tt
  | inr (shard, e) ↦
      subst (Answers t) (sym (handle_enqueue-some t env es shard e))
        (enqueue_at-Answers shard t env es)
]

-- The shard that a message acknowledges.
abbrev acked : OutgoingMessage → Option Text
acked (ack id text shard) = shard
acked _ = none

answer_enqueue-Answers :
    (display : IoError → Text) (id text shard : Text) (t : RetryableTask) (reply : Reply)
    (es : List ShardEngine) (d : Daemon)
    → Answers t (reply, es)
    → In (ack (some id) text (some shard)) (answer_enqueue display id reply d).0
    → HasAccepted t shard es
unfolding answer_enqueue
answer_enqueue-Answers display id text shard t (enqueued s) es d h (inl e) =
    subst (λ x. HasAccepted t x es) (sym (some-injective shard s (ap acked e))) h
answer_enqueue-Answers display id text shard t shutting_down es d h (inl e) =
    let bad : some shard ≡ none = ap acked e in absurd (cc bad)
answer_enqueue-Answers display id text shard t no_shards es d h (inl e) =
    let bad : some shard ≡ none = ap acked e in absurd (cc bad)
answer_enqueue-Answers display id text shard t (enqueue_failed x) es d h (inl e) =
    let bad : some shard ≡ none = ap acked e in absurd (cc bad)
answer_enqueue-Answers display id text shard t (enqueued s) es d h (inr x) = absurd x
answer_enqueue-Answers display id text shard t shutting_down es d h (inr x) = absurd x
answer_enqueue-Answers display id text shard t no_shards es d h (inr x) = absurd x
answer_enqueue-Answers display id text shard t (enqueue_failed e) es d h (inr x) = absurd x

pub answer_enqueue-engines :
    (display : IoError → Text) (id : Text) (reply : Reply) (d : Daemon)
    → (answer_enqueue display id reply d).1.engines ≡ d.engines
unfolding answer_enqueue
answer_enqueue-engines display id (enqueued s) d = refl
answer_enqueue-engines display id shutting_down d = refl
answer_enqueue-engines display id no_shards d = refl
answer_enqueue-engines display id (enqueue_failed x) d = refl

-- If an enqueue message is acknowledged with a shard, then the daemon has an engine of that shard in
-- whose store the task is the latest with its id, or in which its payload hash is marked as active.
pub handle_new_task-HasAccepted :
    (display : IoError → Text) (env : Env) (a : NewTask) (d : Daemon) (text shard : Text)
    → In (ack (some a.task_id) text (some shard)) (handle_new_task display env a d).0
    → HasAccepted
        (Task.new env.ext env.now env.later a)
        shard
        (handle_new_task display env a d).1.engines
unfolding handle_new_task
handle_new_task-HasAccepted display env a d text shard i =
    let t = Task.new env.ext env.now env.later a in
    let (reply, es) = handle_enqueue d.shutting_down t env d.engines in
    let d' : Daemon = record d { engines = es } in
    subst (HasAccepted t shard) (sym (answer_enqueue-engines display a.task_id reply d')) (
      answer_enqueue-Answers display a.task_id text shard t reply es d'
        (handle_enqueue-Answers d.shutting_down t env d.engines) i)
