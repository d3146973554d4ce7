-- ===== src/Runtime/Engines.antt =====
-- The engines of a Runtime in src/main.rs: the heartbeat, the release at shutdown, and the routing of
-- an enqueue.
use snerdmq.Task.{RetryableTask}
use snerdmq.Membership.{lease_lost, renew, Outcome, release, MembershipFile, Io}
use snerdmq.Sharding.{route_shard}
use snerdmq.Base.{
  ite, List, ◌∷◌, false, true, Text, suc, Bool, some, if◌then◌else◌, text_dec, none, ℕ, [],
}
use snerdmq.Queue.{SnerdQueue, enqueue, Env}
use snerdmq.Base.Result.{err, Result, ok, IoError}

pub record ShardEngine : Type 0 where
  pub key : Text
  pub queue : SnerdQueue

unfoldable pub pause : ShardEngine → ShardEngine
pause e = record e { queue = record e.queue { paused = true } }

-- What the heartbeat does about the result of a renewal.
unfoldable pub after_renew : ShardEngine → Outcome (Unit {0}) → ShardEngine × MembershipFile
unfolding pause
after_renew e (ok _, f) = (e, f)
after_renew e (err (lease_lost shard), f) = (pause e, f)
after_renew e (err _, f) = (e, f)

unfoldable pub beat : Io → Text → ℕ → ShardEngine → MembershipFile → ShardEngine × MembershipFile
unfolding after_renew
beat i owner now e f = if e.queue.paused then (e, f) else after_renew e (renew i e.key owner now f)

-- One tick of the heartbeat; each renewal has its outcome of the file operations and its clock.
unfoldable pub heartbeat :
    (ℕ → Io)
    → Text
    → (ℕ → ℕ)
    → ℕ
    → List ShardEngine
    → MembershipFile
    → List ShardEngine × MembershipFile
unfolding beat
heartbeat i owner now n [] f = ([], f)
heartbeat i owner now n (e ∷ es) f =
    let (e', f') = beat (i n) owner (now n) e f in
    let (es', f'') = heartbeat i owner now (suc n) es f' in (e' ∷ es', f'')

unfoldable pub pause_all : List ShardEngine → List ShardEngine
unfolding pause
pause_all [] = []
pause_all (e ∷ es) = pause e ∷ pause_all es

-- The loop of shutdown that gives the claims back; a failure is only printed.
unfoldable pub release_all :
    (ℕ → Io) → Text → ℕ → List ShardEngine → MembershipFile → MembershipFile
release_all i owner n [] f = f
release_all i owner n (e ∷ es) f = release_all i owner (suc n) es (release (i n) e.key owner f).1

unfoldable pub keys_of : List ShardEngine → List Text
keys_of [] = []
keys_of (e ∷ es) = e.key ∷ keys_of es

-- The answer to an enqueue message.
pub data Reply : Type 0 where
  shutting_down no_shards : Reply
  enqueue_failed : IoError → Reply
  enqueued : Text → Reply

unfoldable pub reply_of : Text → Result Bool IoError → Reply
reply_of shard (ok b) = enqueued shard
reply_of shard (err e) = enqueue_failed e

-- The first engine with the key takes the task.
unfoldable pub enqueue_at : Text → RetryableTask → Env → List ShardEngine → Reply × List ShardEngine
unfolding reply_of
enqueue_at shard t env [] = (no_shards, [])
enqueue_at shard t env (e ∷ es) =
    let (reply, rest) = enqueue_at shard t env es in
    let (r, q) = enqueue t env e.queue in
    ite (text_dec e.key shard) (reply_of shard r, record e { queue = q } ∷ es) (reply, e ∷ rest)

-- The arm of Enqueue in main's loop, after the task is made.
unfoldable pub handle_enqueue :
    Bool → RetryableTask → Env → List ShardEngine → Reply × List ShardEngine
unfolding enqueue_at keys_of
handle_enqueue true t env es = (shutting_down, es)
handle_enqueue false t env es = elim (route_shard t.task_id (keys_of es)) [
  | none ↦ (no_shards, es)
  | some shard ↦ enqueue_at shard t env es
]
