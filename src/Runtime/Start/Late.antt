-- ===== src/Runtime/Start/Late.antt =====
-- start_engines of src/main.rs in a standby whose loop registers a type meanwhile.
-- Handlers that are not replayed are not there.
use snerdmq.FileStore
use snerdmq.Queue
use snerdmq.Task.{RetryableTask}
use snerdmq.Base.Result.{Result-cases}
use snerdmq.Queue.{new, register_handlers, SnerdQueue}
use snerdmq.Membership.{Membership, MembershipError}
use snerdmq.Base.{
  In, sym, All, false, ◌∷◌, In-append_self, ◌≢◌, List, subst, [], refl, none, inr, ◌++◌, ◌≡◌, inl,
  Text, arith, ◌∙◌,
}
use snerdmq.Map.{contains-insert, get, contains}
use snerdmq.Queue.Execute.{begin_task, store, drop_guard}
use snerdmq.Base.Result.{IoError, ok, Result, Result-cases, err}
use snerdmq.Runtime.Daemon.{Daemon, register_all, handle_register}
use snerdmq.Runtime.Engines.{ShardEngine, keys_of}
use snerdmq.Runtime.Start.{replay_handlers, Disk, publish, build_engine, build_engines}

replay_absent :
    (types : List Text) (u : Text) (q : SnerdQueue)
    → (In u types → ⊥)
    → contains u (replay_handlers types q).task_handlers ≡ contains u q.task_handlers
unfolding replay_handlers
replay_absent [] u q n = refl
replay_absent (t ∷ types) u q n =
    replay_absent types u (register_handlers t q) (λ i. n (inr i))
    ∙ (unfold register_handlers in
        let ne : t ≢ u = λ e. n (inl (sym e)) in
        ground (arith, contains-insert t u tt q.task_handlers))

-- An engine that starts no execution of the task.
abbrev pub Ignores : RetryableTask → ShardEngine → Type 0
Ignores t e = (begin_task t e.queue).active ≡ e.queue.active

begin_task-Ignores :
    (t : RetryableTask) (e : ShardEngine)
    → t.webhook_url ≡ none
    → contains t.task_type e.queue.task_handlers ≡ false
    → Ignores t e
unfolding begin_task drop_guard
begin_task-Ignores t e w n = rw (w, n) (ground arith)

module _ (disk : Text → Disk) (types : List Text) (t : RetryableTask) (n : In t.task_type types → ⊥)
    (w : t.webhook_url ≡ none) where
  abbrev BuiltWithout : Result ShardEngine IoError → Type 0
  BuiltWithout (ok e) = Ignores t e
  BuiltWithout (err e) = Unit

  build_engine-BuiltWithout : (shard : Text) → BuiltWithout (build_engine disk types shard)
  unfolding build_engine
  build_engine-BuiltWithout shard =
      elim (Result-cases
        (FileStore.new (disk shard).openable (disk shard).readings (disk shard).log)) [
          | inl (store, e) ↦
              rw (BuiltWithout, e)
                (begin_task-Ignores t
                  (record {
                    key = shard;
                    queue = replay_handlers types (Queue.new store (disk shard).limits);
                  })
                  w
                  (replay_absent types t.task_type (Queue.new store (disk shard).limits) n
                    ∙ (unfold Queue.new contains get in refl)))
          | inr (x, e) ↦ rw (BuiltWithout, e) tt
        ]

  build_engines-Ignores : (shards : List Text) → All (Ignores t) (build_engines disk types shards).1
  unfolding build_engines
  build_engines-Ignores [] = tt
  build_engines-Ignores (shard ∷ shards) = elim (Result-cases (build_engine disk types shard)) [
    | inl (e, h) ↦
        rw (All, h)
          (subst BuiltWithout h (build_engine-BuiltWithout shard), build_engines-Ignores shards)
    | inr (e, h) ↦ rw (All, h) tt
  ]

-- What an engine is that is built for a shard.
abbrev pub IsFor : Text → Result ShardEngine IoError → Type 0
IsFor shard (ok e) = (e.key ≡ shard) × (e.queue.paused ≡ false)
IsFor shard (err e) = Unit

replay_paused : (types : List Text) (q : SnerdQueue) → (replay_handlers types q).paused ≡ q.paused
unfolding replay_handlers
replay_paused [] q = refl
replay_paused (t ∷ types) q =
    replay_paused types (register_handlers t q) ∙ (unfold register_handlers in refl)

module _ (disk : Text → Disk) (types : List Text) where
  pub build_engine-IsFor : (shard : Text) → IsFor shard (build_engine disk types shard)
  unfolding build_engine
  build_engine-IsFor shard =
      elim (Result-cases
        (FileStore.new (disk shard).openable (disk shard).readings (disk shard).log)) [
          | inl (store, e) ↦
              rw (IsFor, e)
                (
                  refl,
                  replay_paused types (Queue.new store (disk shard).limits)
                      ∙ (unfold Queue.new in refl),
                )
          | inr (x, e) ↦ rw (IsFor, e) tt
        ]

  pub build_engines-keys :
      (shards : List Text)
      → (build_engines disk types shards).0 ≡ ok tt
      → keys_of (build_engines disk types shards).1 ≡ shards
  unfolding build_engines keys_of
  build_engines-keys [] b = refl
  build_engines-keys (shard ∷ shards) b = elim (Result-cases (build_engine disk types shard)) [
    | inl (e, h) ↦
        let (key, p) = subst (IsFor shard) h (build_engine-IsFor shard) in
        let rest : (build_engines disk types shards).0 ≡ ok tt = rw (build_engines, h) at b in
        rw (keys_of, h) (rw (key, build_engines-keys shards rest) refl)
    | inr (e, h) ↦
        let bad : ◌≡◌ {A = Result (Unit {0}) IoError} (err e) (ok tt) =
          rw (build_engines, h) at b in
        absurd (cc bad)
  ]

-- If a type is registered after the engines of a start are built, which have the handlers of the
-- types registered before it, and before they are published, then the type is registered with the
-- daemon, but none of these engines starts an execution of a task of the type without a webhook.
pub publish_late :
    (disk : Text → Disk) (loaded : Result Membership MembershipError) (shards : List Text)
    (d : Daemon) (t : RetryableTask)
    → (In t.task_type d.registered → ⊥)
    → t.webhook_url ≡ none
    → (build_engines disk d.registered shards).0 ≡ ok tt
    → let new = (build_engines disk d.registered shards).1 in
      let d' = (publish loaded new (handle_register t.task_type d).1).1 in
      In t.task_type d'.registered
      × (keys_of new ≡ shards)
      × (d'.engines ≡ register_all t.task_type d.engines ++ new)
      × All (Ignores t) new
unfolding publish handle_register
publish_late disk loaded shards d t n w b = (
  In-append_self t.task_type d.registered,
  build_engines-keys disk d.registered shards b,
  refl,
  build_engines-Ignores disk d.registered t n w shards,
)
