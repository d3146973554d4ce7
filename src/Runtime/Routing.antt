-- ===== src/Runtime/Routing.antt =====
-- Which engine takes the task of an enqueue message in main's loop of src/main.rs.
use snerdmq.Task.{RetryableTask}
use snerdmq.Sharding.{route_shard}
use snerdmq.Base.{
  subst, none, [], refl, if_neg, text_dec, false, sym, List, Bool, ◌∷◌, if_pos, ◌⊎◌, Text, inl, In,
  inr, some, ◌≡◌, ap,
}
use snerdmq.Queue.{Env, enqueue}
use snerdmq.Base.Result.{ok, Result, err, IoError}
use snerdmq.Runtime.Engines.{
  enqueue_at, no_shards, enqueue_failed, Reply, handle_enqueue, enqueued, reply_of, keys_of,
  ShardEngine,
}
use snerdmq.Sharding.Routing.{route_shard_lem}

-- The answer of the engine with the key, and the same engines in the same order after it.
abbrev pub Taken : Text → List ShardEngine → Reply × List ShardEngine → Type 0
Taken shard es (reply, es') =
    ((reply ≡ enqueued shard) ⊎ ((e : IoError) × (reply ≡ enqueue_failed e)))
    × (keys_of es' ≡ keys_of es)

reply_cases :
    (shard : Text) (r : Result Bool IoError)
    → (reply_of shard r ≡ enqueued shard) ⊎ ((e : IoError) × (reply_of shard r ≡ enqueue_failed e))
unfolding reply_of
reply_cases shard (ok b) = inl refl
reply_cases shard (err e) = inr (e, refl)

enqueue_at-Taken :
    (shard : Text) (t : RetryableTask) (env : Env) (es : List ShardEngine)
    → In shard (keys_of es)
    → Taken shard es (enqueue_at shard t env es)
unfolding keys_of enqueue_at
enqueue_at-Taken shard t env [] i = absurd i
enqueue_at-Taken shard t env (e ∷ es) i =
    let (r, q) = enqueue t env e.queue in
    let (reply, rest) = enqueue_at shard t env es in
    let here : Reply × List ShardEngine = (reply_of shard r, record e { queue = q } ∷ es) in
    let there : Reply × List ShardEngine = (reply, e ∷ rest) in
    elim (text_dec e.key shard) [
      | yes p ↦
          subst (Taken shard (e ∷ es)) (sym (if_pos (text_dec e.key shard) p here there))
            (reply_cases shard r, refl)
      | no n ↦ elim i [
        | inl same ↦ absurd (n (sym same))
        | inr j ↦
            let (a, b) = enqueue_at-Taken shard t env es j in
            subst (Taken shard (e ∷ es)) (sym (if_neg (text_dec e.key shard) n here there))
              (a, ap (λ ks. e.key ∷ ks) b)
      ]
    ]

-- What an enqueue message does, by the engines that there are.
abbrev pub Handled : RetryableTask → List ShardEngine → Reply × List ShardEngine → Type 0
Handled t es out =
    ((es ≡ []) × (out ≡ (no_shards, es)))
    ⊎ ((shard : Text) × (route_shard t.task_id (keys_of es) ≡ some shard)
        × In shard (keys_of es)
        × Taken shard es out)

routed_Handled :
    (t : RetryableTask) (env : Env) (es : List ShardEngine)
    → (route_shard t.task_id (keys_of es) ≡ none) × (keys_of es ≡ [])
      ⊎ ((k : Text) × (route_shard t.task_id (keys_of es) ≡ some k) × In k (keys_of es))
    → Handled t es (handle_enqueue false t env es)
unfolding handle_enqueue
routed_Handled t env es (inr (k, r, i)) =
    inr (k, r, i, rw (handle_enqueue, r) (enqueue_at-Taken k t env es i))
routed_Handled t env [] (inl (r, e)) = inl (refl, rw (handle_enqueue, r) refl)
routed_Handled t env (d ∷ ds) (inl (r, e)) = absurd (unfold keys_of in cc e)

-- Outside a shutdown, an enqueue message is refused for want of shards only where the daemon has no
-- engine; otherwise the engine of the routed shard answers it, and the engines keep their order.
pub handle_enqueue-Handled :
    (t : RetryableTask) (env : Env) (es : List ShardEngine)
    → Handled t es (handle_enqueue false t env es)
handle_enqueue-Handled t env es = routed_Handled t env es (route_shard_lem t.task_id (keys_of es))
