-- ===== src/Runtime/Cluster/Stuck.antt =====
-- A shard of src/main.rs whose engine has lost its lease.

use snerdmq.Runtime.Pending
use snerdmq.Runtime.Cluster.Keys.{
  ne_key, keys, step_engine-keys, pause_all-keys, step-keys, heartbeat-keys, publish-keys,
}
use snerdmq.Runtime.Start.Late.{build_engines-keys}
use snerdmq.Runtime.Start.Moves.{step_engine}
use snerdmq.Map.{get}
use snerdmq.Membership.{MembershipFile, Membership, MembershipError}
use snerdmq.Runtime.Cluster.{
  next, after_attempt, after_exit, Reach, System, after_start, Node, idle, taken_of, with_engines,
  with_daemon, Step, tries, starts, does, works, beats, pauses, releases, exits, update,
}
use snerdmq.Runtime.{Acquired}
use snerdmq.Base.{
  ◌≡◌, ◌≢◌, some, All-append, sym, text_dec, In, In-append_left, Distinct-apart, Text, All, if_neg,
  ◌∷◌, inl, List, if_pos, [], true, inr, subst,
}
use snerdmq.Runtime.Cluster.Moved.{IsExclusive}
use snerdmq.Base.Result.{Result, Result-cases}
use snerdmq.Runtime.Engines.{keys_of, pause_all, heartbeat, ShardEngine}
use snerdmq.Runtime.Start.{start_engines, build_engines, Disk, publish}
use snerdmq.Runtime.Cluster.Mutual.{Reach-IsExclusive, no_shared_engine}
use snerdmq.Runtime.Cluster.Frozen.{
  pause_all-ArePausedAt, heartbeat-ArePausedAt, step-ArePausedAt, step_engine-ArePausedAt,
  ArePausedAt,
}

-- Steps of a system in which one daemon goes on.
abbrev EndsProcess : Text → (s u : System) → Step s u → Type 0
EndsProcess a s u (tries b k t skew) = ⊥
EndsProcess a s u (starts b disk loaded) = ⊥
EndsProcess a s u (does b display v) = ⊥
EndsProcess a s u (works b i v) = ⊥
EndsProcess a s u (beats b i now) = ⊥
EndsProcess a s u (pauses b) = ⊥
EndsProcess a s u (releases b k i) = ⊥
EndsProcess a s u (exits b) = b ≡ a

pub data GoesOn (a : Text) (s : System) : System → Type 0 where
  stays : GoesOn a s s
  goes : {u w : System} (r : GoesOn a s u) (v : Step u w) → (EndsProcess a u w v → ⊥) → GoesOn a s w

GoesOn-Reach : (f : MembershipFile) (a : Text) (s u : System) → GoesOn a s u → Reach f s → Reach f u
GoesOn-Reach f a s u stays r = r
GoesOn-Reach f a s w (goes {u} g v n) r = next (GoesOn-Reach f a s u g r) v

-- The daemon has an engine for the shard, and it is paused.
abbrev IsFrozen : Text → Node → Type 0
IsFrozen k n = In k (keys n.daemon) × ArePausedAt k n.daemon.engines

-- A step of a daemon, by what it does to the daemon itself.
after_step :
    (P : Node → Type 0) (a b : Text) (s : System) (n : Node)
    → (b ≡ a → P n)
    → P (s.nodes a)
    → P (update s.nodes b n a)
after_step P a b s n f h = elim (text_dec b a) [
  | yes e ↦ subst P (sym (if_pos (text_dec b a) e n (s.nodes a))) (f e)
  | no m ↦ subst P (sym (if_neg (text_dec b a) m n (s.nodes a))) h
]

-- The own step of a daemon that keeps its shards and the pauses of its engines.
frozen_by :
    (k a b : Text) (s : System) (es : List ShardEngine)
    → keys_of es ≡ keys (s.nodes b).daemon
    → (ArePausedAt k (s.nodes b).daemon.engines → ArePausedAt k es)
    → IsFrozen k (s.nodes a)
    → b ≡ a
    → In k (keys_of es) × ArePausedAt k es
frozen_by k a b s es same f h e =
    let h' = subst (λ c. IsFrozen k (s.nodes c)) (sym e) h in (subst (In k) (sym same) h'.0, f h'.1)

new_ArePausedAt : (k : Text) (es : List ShardEngine) → (In k (keys_of es) → ⊥) → ArePausedAt k es
new_ArePausedAt k es n = each_new es (ne_key k es n)
  where
    each_new : (es : List ShardEngine) → All (λ (e : ShardEngine). e.key ≢ k) es → ArePausedAt k es
    each_new [] h = tt
    each_new (e ∷ es) h = ((λ m. absurd (h.0 m)), each_new es h.1)

attempt-IsFrozen :
    (k a b : Text) (s : System) (r : Acquired)
    → IsFrozen k (s.nodes a)
    → IsFrozen k ((after_attempt b s r).nodes a)
unfolding after_attempt
attempt-IsFrozen k a b s (r, sh) h =
    after_step (IsFrozen k) a b s (record (s.nodes b) { claiming = taken_of r })
      (λ e. subst (λ c. IsFrozen k (s.nodes c)) (sym e) h) h

start-IsFrozen :
    (k a b : Text) (s : System) (disk : Text → Disk) (loaded : Result Membership MembershipError)
    → IsExclusive s
    → IsFrozen k (s.nodes a)
    → IsFrozen k (
        (after_start b s (
            start_engines disk loaded
              (s.nodes b).claiming
              (s.nodes b).daemon
              s.shared.flocks)).nodes
          a)
unfolding after_start start_engines
start-IsFrozen k a b s disk loaded x h =
    let d = (s.nodes b).daemon in
    let ks = (s.nodes b).claiming in
    elim (Result-cases (build_engines disk d.registered ks).0) [
      | inl (u, e) ↦
          let new = (build_engines disk d.registered ks).1 in
          let named = build_engines-keys disk d.registered ks e in
          rw (start_engines, e)
            (after_step (IsFrozen k) a b s
              (record { claiming = []; daemon = (publish loaded new d).1 })
              (λ same.
                let h' = subst (λ c. IsFrozen k (s.nodes c)) (sym same) h in
                let fresh : In k (keys_of new) → ⊥ =
                  λ i. Distinct-apart k (keys d) ks (x.distinct b) h'.0 (subst (In k) named i) in
                (
                  subst (In k) (sym (publish-keys disk loaded ks d e))
                      (In-append_left k (keys d) ks h'.0),
                  unfold publish in
                      All-append (λ (e : ShardEngine). e.key ≡ k → e.queue.paused ≡ true) d.engines
                        new h'.1 (new_ArePausedAt k new fresh),
                ))
              h)
      | inr (y, e) ↦
          rw (start_engines, e)
            (after_step (IsFrozen k) a b s (record { claiming = []; daemon = d })
              (λ same. subst (λ c. IsFrozen k (s.nodes c)) (sym same) h) h)
    ]

Step-IsFrozen :
    (k a : Text) (s u : System) (v : Step s u)
    → (EndsProcess a s u v → ⊥)
    → IsExclusive s
    → IsFrozen k (s.nodes a)
    → IsFrozen k (u.nodes a)
unfolding with_engines with_daemon after_exit
Step-IsFrozen k a s u (tries b j t skew) n x h = attempt-IsFrozen k a b s _ h
Step-IsFrozen k a s u (starts b disk loaded) n x h = start-IsFrozen k a b s disk loaded x h
Step-IsFrozen k a s u (does b display v) n x h =
    let d = (s.nodes b).daemon in
    after_step (IsFrozen k) a b s (record (s.nodes b) { daemon = Pending.step display d v })
      (frozen_by k a b s (Pending.step display d v).engines (step-keys display d v)
        (step-ArePausedAt k display d v) h)
      h
Step-IsFrozen k a s u (works b i v) n x h =
    let es = (s.nodes b).daemon.engines in
    after_step (IsFrozen k) a b s _
      (frozen_by k a b s (step_engine i v es) (step_engine-keys i v es)
        (step_engine-ArePausedAt k i v es) h)
      h
Step-IsFrozen k a s u (beats b i now) n x h =
    let es = (s.nodes b).daemon.engines in
    after_step (IsFrozen k) a b s _
      (frozen_by k a b s (heartbeat i b now 0 es s.shared.file).0
        (heartbeat-keys i b now 0 es s.shared.file)
        (heartbeat-ArePausedAt k i b now 0 es s.shared.file) h)
      h
Step-IsFrozen k a s u (pauses b) n x h =
    let es = (s.nodes b).daemon.engines in
    after_step (IsFrozen k) a b s _
      (frozen_by k a b s (pause_all es) (pause_all-keys es) (λ _. pause_all-ArePausedAt k es) h) h
Step-IsFrozen k a s u (releases b j i) n x h = h
Step-IsFrozen k a s u (exits b) n x h = after_step (IsFrozen k) a b s idle (λ e. absurd (n e)) h

GoesOn-IsFrozen :
    (f : MembershipFile) (k a : Text) (s u : System)
    → Reach f s
    → GoesOn a s u
    → IsFrozen k (s.nodes a)
    → IsFrozen k (u.nodes a)
GoesOn-IsFrozen f k a s u r stays h = h
GoesOn-IsFrozen f k a s w r (goes {u} g v n) h =
    Step-IsFrozen k a u w v n (Reach-IsExclusive f u (GoesOn-Reach f a s u g r))
      (GoesOn-IsFrozen f k a s u r g h)

-- Once the engine of a shard is paused, as the heartbeat does when it has lost the lease, then as long as
-- the process of its daemon goes on, whatever it and the other daemons do, the engine stays paused, the
-- daemon keeps the lock, and no other daemon gets an engine for the shard.
pub stuck_shard :
    (f : MembershipFile) (s u : System) (a k : Text)
    → Reach f s
    → In k (keys (s.nodes a).daemon)
    → ArePausedAt k (s.nodes a).daemon.engines
    → GoesOn a s u
    → ArePausedAt k (u.nodes a).daemon.engines
      × (get k u.shared.flocks ≡ some a)
      × ((b : Text) → In k (keys (u.nodes b).daemon) → a ≡ b)
stuck_shard f s u a k r i p g =
    let r' = GoesOn-Reach f a s u g r in
    let (j, q) = GoesOn-IsFrozen f k a s u r g (i, p) in
    (
      q,
      ((Reach-IsExclusive f u r').locks a k).1 (In-append_left k _ (u.nodes a).claiming j),
      λ b m. (no_shared_engine f u a b k r' j m).0,
    )
