-- ===== src/Runtime/Start/Serving.antt =====
-- The handlers of an engine, through what src/main.rs and src/queue.rs do to one.
use snerdmq.Queue
use snerdmq.Queue.Schedule
use snerdmq.Base.{ap, Option-cases}
use snerdmq.Task.{RetryableTask}
use snerdmq.Sharding.{route_shard}
use snerdmq.Base.{
  inr, List, All-append, false, Bool, Text, sym, subst, ◌∷◌, text_dec, arith, if_neg, true, [], ◌≡◌,
  if_pos, inl, ◌++◌, All,
}
use snerdmq.Map.{contains, contains-insert}
use snerdmq.Queue.{Env, SnerdQueue, register_handlers, Set}
use snerdmq.Runtime.Daemon.{register_all}
use snerdmq.Queue.Settings.{enqueue-settings_of, step-settings_of, settings_of}
use snerdmq.Base.Result.{Result, err, IoError, ok}
use snerdmq.Runtime.Engines.{keys_of, Reply, reply_of, handle_enqueue, enqueue_at, ShardEngine}
use snerdmq.FileStore
use snerdmq.Base.Result.{◌>>=◌, Result-cases}
use snerdmq.FileStore.{FileStore}
use snerdmq.Runtime.Start.{build_engine, build_engines, replay_handlers, Disk}

-- The engine has the handlers of the type.
abbrev pub Serves : SnerdQueue → Text → Type 0
Serves q task_type =
    (contains task_type q.task_handlers ≡ true) × (contains task_type q.max_retry_handlers ≡ true)

abbrev pub ServesAll : List Text → ShardEngine → Type 0
ServesAll types e = All (Serves e.queue) types

-- Handlers that are there stay there through a registration.
register-Serves :
    (task_type u : Text) (q : SnerdQueue) → Serves q u → Serves (register_handlers task_type q) u
unfolding register_handlers
register-Serves task_type u q h = (
  ground (arith, contains-insert task_type u tt q.task_handlers, h.0),
  ground (arith, contains-insert task_type u tt q.max_retry_handlers, h.1),
)

register_self :
    (task_type : Text) (q : SnerdQueue) → Serves (register_handlers task_type q) task_type
unfolding register_handlers
register_self task_type q = (
  ground (arith, contains-insert task_type task_type tt q.task_handlers),
  ground (arith, contains-insert task_type task_type tt q.max_retry_handlers),
)

register-ServesAll :
    (task_type : Text) (q : SnerdQueue) (types : List Text)
    → All (Serves q) types
    → All (Serves (register_handlers task_type q)) types
register-ServesAll task_type q [] h = tt
register-ServesAll task_type q (u ∷ types) h =
    (register-Serves task_type u q h.0, register-ServesAll task_type q types h.1)

same-ServesAll :
    (q q' : SnerdQueue) (types : List Text)
    → settings_of q' ≡ settings_of q
    → All (Serves q) types
    → All (Serves q') types
same-ServesAll q q' [] e h = tt
same-ServesAll q q' (t ∷ types) e h =
    let a : q'.task_handlers ≡ q.task_handlers = ap (λ (x : Set × Set × Bool). x.0) e in
    let b : q'.max_retry_handlers ≡ q.max_retry_handlers = ap (λ (x : Set × Set × Bool). x.1) e in
    ((rw a h.0.0, rw b h.0.1), same-ServesAll q q' types e h.1)

pub step-ServesAll :
    (q : SnerdQueue) (e : Schedule.Event) (types : List Text)
    → All (Serves q) types
    → All (Serves (Schedule.step q e)) types
step-ServesAll q e types h = elim (step-settings_of q e) [
  | inl same ↦ same-ServesAll q (Schedule.step q e) types same h
  | inr (inl (task_type, r)) ↦
      subst (λ x. All (Serves x) types) (sym r) (register-ServesAll task_type q types h)
  | inr (inr r) ↦ subst (λ x. All (Serves x) types) (sym r) h
]

-- A registration reaches all the engines.
pub register_all-ServesAll :
    (task_type : Text) (types : List Text) (es : List ShardEngine)
    → All (ServesAll types) es
    → All (ServesAll (types ++ task_type ∷ [])) (register_all task_type es)
unfolding register_all
register_all-ServesAll task_type types [] h = tt
register_all-ServesAll task_type types (e ∷ es) h = (
  All-append (Serves (register_handlers task_type e.queue)) types (task_type ∷ [])
      (register-ServesAll task_type e.queue types h.0) (register_self task_type e.queue, tt),
  register_all-ServesAll task_type types es h.1,
)

enqueue_at-ServesAll :
    (shard : Text) (t : RetryableTask) (env : Env) (types : List Text) (es : List ShardEngine)
    → All (ServesAll types) es
    → All (ServesAll types) (enqueue_at shard t env es).1
unfolding enqueue_at
enqueue_at-ServesAll shard t env types [] h = tt
enqueue_at-ServesAll shard t env types (e ∷ es) h =
    let (reply, rest) = enqueue_at shard t env es in
    let (r, q) = Queue.enqueue t env e.queue in
    let here : Reply × List ShardEngine = (reply_of shard r, record e { queue = q } ∷ es) in
    let there : Reply × List ShardEngine = (reply, e ∷ rest) in
    elim (text_dec e.key shard) [
      | yes p ↦
          subst (λ (x : Reply × List ShardEngine). All (ServesAll types) x.1)
            (sym (if_pos (text_dec e.key shard) p here there))
            (same-ServesAll e.queue q types (enqueue-settings_of t env e.queue) h.0, h.1)
      | no n ↦
          subst (λ (x : Reply × List ShardEngine). All (ServesAll types) x.1)
            (sym (if_neg (text_dec e.key shard) n here there))
            (h.0, enqueue_at-ServesAll shard t env types es h.1)
    ]

pub handle_enqueue-ServesAll :
    (b : Bool) (t : RetryableTask) (env : Env) (types : List Text) (es : List ShardEngine)
    → All (ServesAll types) es
    → All (ServesAll types) (handle_enqueue b t env es).1
unfolding handle_enqueue
handle_enqueue-ServesAll true t env types es h = h
handle_enqueue-ServesAll false t env types es h =
    elim (Option-cases (route_shard t.task_id (keys_of es))) [
      | inl e ↦ rw (All, e) h
      | inr (shard, e) ↦ rw (All, e) (enqueue_at-ServesAll shard t env types es h)
    ]

-- An engine that is built has the handlers.
replay-Serves :
    (types : List Text) (u : Text) (q : SnerdQueue)
    → Serves q u
    → Serves (replay_handlers types q) u
unfolding replay_handlers
replay-Serves [] u q h = h
replay-Serves (t ∷ types) u q h =
    replay-Serves types u (register_handlers t q) (register-Serves t u q h)

replay-ServesAll :
    (types : List Text) (q : SnerdQueue) → All (Serves (replay_handlers types q)) types
unfolding replay_handlers
replay-ServesAll [] q = tt
replay-ServesAll (t ∷ types) q = (
  replay-Serves types t (register_handlers t q) (register_self t q),
  replay-ServesAll types (register_handlers t q),
)

module _ (disk : Text → Disk) (types : List Text) where
  -- What holds of an engine that is built.
  abbrev Built : Result ShardEngine IoError → Type 0
  Built (ok e) = ServesAll types e
  Built (err e) = Unit

  build_engine-Built : (shard : Text) → Built (build_engine disk types shard)
  unfolding build_engine
  build_engine-Built shard = from_store (FileStore.new _ _ _)
    where
      from_store :
          (r : Result FileStore IoError)
          → Built (
              r >>= λ store. ok (record {
                key = shard;
                queue = replay_handlers types (Queue.new store (disk shard).limits);
              }))
      from_store (ok store) = replay-ServesAll types (Queue.new store (disk shard).limits)
      from_store (err e) = tt

  pub build_engines-ServesAll :
      (shards : List Text) → All (ServesAll types) (build_engines disk types shards).1
  unfolding build_engines
  build_engines-ServesAll [] = tt
  build_engines-ServesAll (shard ∷ shards) = elim (Result-cases (build_engine disk types shard)) [
    | inl (e, h) ↦
        rw (All, h) (subst Built h (build_engine-Built shard), build_engines-ServesAll shards)
    | inr (e, h) ↦ rw (All, h) tt
  ]
