-- ===== src/Runtime/Start/Failing.antt =====
-- start_engines of src/main.rs where the log of a shard cannot be opened.
use snerdmq.Runtime.Start.Late.{IsFor, build_engine-IsFor}
use snerdmq.Runtime.{drop_locks}
use snerdmq.Queue.{new}
use snerdmq.Membership.{Membership, MembershipError}
use snerdmq.Base.{
  inl, ◌∷◌, refl, List, In, not, ap, arith, sym, ◌∙◌, Text, none, if_ind, subst, ◌||◌, ◌≡◌, false,
  [],
}
use snerdmq.Map.{get, get-remove, Map, remove, get-remove_self}
use snerdmq.Base.Result.{Result, IoError, ok, err}
use snerdmq.Runtime.Daemon.{Answered, Daemon}
use snerdmq.Runtime.Engines.{ShardEngine}
use snerdmq.Runtime.Start.{
  standby_round, Standby, build_engines, is_empty, promoted, build_engine, Disk, start_engines,
}

-- Removed keys stay out of the locks.
pub drop_locks-none :
    (k : Text) (ks : List Text) (flocks : Map Text)
    → get k flocks ≡ none
    → get k (drop_locks ks flocks) ≡ none
unfolding drop_locks
drop_locks-none k [] flocks h = h
drop_locks-none k (j ∷ ks) flocks h =
    drop_locks-none k ks (remove j flocks) (ground (arith, get-remove j k flocks))

build_engines-cons :
    (disk : Text → Disk) (types : List Text) (k : Text) (ks : List Text) (engine : ShardEngine)
    (e : IoError)
    → build_engine disk types k ≡ ok engine
    → (build_engines disk types ks).0 ≡ err e
    → build_engines disk types (k ∷ ks) ≡ (err e, engine ∷ (build_engines disk types ks).1)
unfolding build_engines
build_engines-cons disk types k ks engine e b f = rw (build_engines, b) (rw f refl)

start_failed :
    (disk : Text → Disk) (loaded : Result Membership MembershipError) (shards : List Text)
    (d : Daemon) (flocks : Map Text) (e : IoError) (new : List ShardEngine)
    → build_engines disk d.registered shards ≡ (err e, new)
    → start_engines disk loaded shards d flocks ≡ (err e, new, drop_locks shards flocks)
unfolding start_engines
start_failed disk loaded shards d flocks e new h =
    let same = ap (λ (x : Result (Unit {0}) IoError × List ShardEngine). x.1) h in
    rw (start_engines, h) (rw same refl)

-- If the engine of the first of the claimed shards is built and a later one is not, then start_engines
-- fails and a round of the standby leaves the daemon as it was, the lock of the first shard is
-- dropped, and the engine of that shard, which is not paused, goes on with its processor.
pub start_engines_fails :
    (disk : Text → Disk) (loaded : Result Membership MembershipError) (k : Text) (ks : List Text)
    (d : Daemon) (flocks : Map Text) (engine : ShardEngine) (e : IoError)
    → build_engine disk d.registered k ≡ ok engine
    → (build_engines disk d.registered ks).0 ≡ err e
    → let (r, running, flocks') = start_engines disk loaded (k ∷ ks) d flocks in
      (r ≡ err e)
      × ((standby_round disk loaded (ok (k ∷ ks)) d flocks).1.1 ≡ d)
      × (get k flocks' ≡ none)
      × In engine running
      × (engine.queue.paused ≡ false)
unfolding standby_round
start_engines_fails disk loaded k ks d flocks engine e b f =
    let (key, p) = subst (IsFor k) b (build_engine-IsFor disk d.registered k) in
    let s =
      start_failed disk loaded (k ∷ ks) d flocks e (engine ∷ (build_engines disk d.registered ks).1)
        (build_engines-cons disk d.registered k ks engine e b f) in
    (
      ap (λ x. x.0) s,
      if_ind {A = Standby × Answered} (λ x. x.1.1 ≡ d) (d.shutting_down || not (is_empty d.engines))
          (λ _. refl) (λ _. ap (λ x. (promoted x.0 d).1.1) s ∙ (unfold promoted in refl)),
      ap (λ x. get k x.2) s
          ∙ (unfold drop_locks in
              drop_locks-none k ks (remove k flocks) (get-remove_self k flocks)),
      subst (λ x. In engine x.1) (sym s) (inl refl),
      p,
    )
