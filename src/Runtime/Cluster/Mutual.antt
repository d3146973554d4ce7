-- ===== src/Runtime/Cluster/Mutual.antt =====
-- Which daemon of src/main.rs has the engine of a shard, among several on one queue directory.
use snerdmq.Runtime.Engines.{keys_of}
use mathlib.Core.List.{append-nil, append_assoc}
use snerdmq.Runtime.{Acquired, Shared, drop_locks}
use snerdmq.Base.{
  Distinct-apart, Distinct-left, refl, In-append_right, In-append_cases, sym, Distinct, ◌↔◌, inr,
  ◌++◌, In-append_left, [], inl, ◌∷◌, arith, In, List, ◌≡◌, Text,
}
use snerdmq.Map.{get}
use snerdmq.Runtime.Cluster.{
  exits, next, with_daemon, quiet, with_engines, Reach, idle, Step, tries, starts, does, works,
  beats, pauses, releases, here, after_attempt, after_start, after_exit, Node, update, System,
}
use snerdmq.Membership.{MembershipFile, MembershipError, Membership}
use snerdmq.Base.Result.{ok, err, Result-cases, Result}
use snerdmq.Runtime.Start.{Disk, start_engines, build_engines}
use snerdmq.Runtime.Cluster.Keys.{
  step-keys, pause_all-keys, heartbeat-keys, step_engine-keys, publish-keys,
}
use snerdmq.Runtime.Cluster.Locks.{attempt-Tried, drop_locks-append, Tried}
use snerdmq.Runtime.Cluster.Keys.{keys}
use snerdmq.Runtime.Cluster.Moved.{IsExclusive, same_Exclusive, taken_Exclusive, dropped_Exclusive}

pub In-append_swap : (j : Text) (xs ys : List Text) → In j (xs ++ ys) → In j (ys ++ xs)
In-append_swap j xs ys i = elim (In-append_cases j xs ys i) [
  | inl x ↦ In-append_right j ys xs x
  | inr x ↦ In-append_left j ys xs x
]

module _ (a : Text) (s : System) (h : IsExclusive s) where
  kept_left :
      (ms ks : List Text)
      → Distinct (ms ++ ks)
      → (j : Text) → In j (ms ++ []) ↔ (In j (ms ++ ks) × (In j ks → ⊥))
  kept_left ms ks d j = rw append-nil (
    (λ i. (In-append_left j ms ks i, (λ l. Distinct-apart j ms ks d i l))),
    (λ i. elim (In-append_cases j ms ks i.0) [ inl x ↦ x | inr x ↦ absurd (i.1 x) ]),
  )

  -- An error drops the locks of what was taken, and what the engines have stays.
  given_up_Exclusive :
      (n : Node) (sh : Shared)
      → sh.flocks ≡ drop_locks (s.nodes a).claiming s.shared.flocks
      → keys n.daemon ≡ keys (s.nodes a).daemon
      → n.claiming ≡ []
      → IsExclusive (record { shared = sh; nodes = update s.nodes a n })
  given_up_Exclusive n sh e same none_left =
      let ms = keys (s.nodes a).daemon in
      let ks = (s.nodes a).claiming in
      dropped_Exclusive a s h ks n sh e (λ j i. In-append_right j ms ks i)
        (rw (same, none_left) (kept_left ms ks (h.distinct a)))
        (rw (same, none_left) (rw append-nil (Distinct-left ms ks (h.distinct a))))

  try_Exclusive :
      (k : Text) (r : Acquired)
      → Tried a k (s.nodes a).claiming s.shared.flocks r
      → IsExclusive (after_attempt a s r)
  unfolding after_attempt
  try_Exclusive k (ok taken, sh) (inl (e, f)) = same_Exclusive a s h _ sh f (rw e refl)
  try_Exclusive k (ok taken, sh) (inr (e, free, f)) =
      taken_Exclusive a s h k _ sh free f
        (rw e (sym (append_assoc (keys (s.nodes a).daemon) (s.nodes a).claiming (k ∷ []))))
  try_Exclusive k (err e, sh) f = given_up_Exclusive _ sh f refl refl

  start_Exclusive :
      (disk : Text → Disk) (loaded : Result Membership MembershipError)
      → IsExclusive (
          after_start a s
            (start_engines disk loaded (s.nodes a).claiming (s.nodes a).daemon s.shared.flocks))
  unfolding start_engines
  start_Exclusive disk loaded =
      let d = (s.nodes a).daemon in
      let ks = (s.nodes a).claiming in
      elim (Result-cases (build_engines disk d.registered ks).0) [
        | inl (u, e) ↦
            rw (start_engines, e)
              (unfold after_start in
                same_Exclusive a s h _ _ refl
                  (rw (append-nil, publish-keys disk loaded ks d e) refl))
        | inr (x, e) ↦
            rw (start_engines, e) (unfold after_start in given_up_Exclusive _ _ refl refl refl)
      ]

  exit_Exclusive : IsExclusive (after_exit a s)
  unfolding after_exit keys_of
  exit_Exclusive =
      let ms = keys (s.nodes a).daemon in
      let ks = (s.nodes a).claiming in
      dropped_Exclusive a s h (ks ++ ms) idle _ (sym (drop_locks-append ks ms s.shared.flocks))
        (λ j i. In-append_swap j ks ms i)
        (λ j. ((λ i. absurd i), (λ i. absurd (i.1 (In-append_swap j ms ks i.0))))) tt

-- Every step keeps it.
Step-IsExclusive : (s u : System) → Step s u → IsExclusive s → IsExclusive u
Step-IsExclusive s u (tries a k t skew) h =
    try_Exclusive a s h k _
      (attempt-Tried a k (s.nodes a).claiming (record t { others = λ x. x }) skew s.shared)
Step-IsExclusive s u (starts a disk loaded) h = start_Exclusive a s h disk loaded
Step-IsExclusive s u (does a display v) h =
    unfold with_daemon in
    same_Exclusive a s h _ _ refl (rw (step-keys display (s.nodes a).daemon v) refl)
Step-IsExclusive s u (works a i v) h =
    unfold with_engines in
    same_Exclusive a s h _ _ refl (rw (step_engine-keys i v (s.nodes a).daemon.engines) refl)
Step-IsExclusive s u (beats a i now) h =
    unfold with_engines in
    same_Exclusive a s h _ _ refl
      (rw (heartbeat-keys i a now 0 (s.nodes a).daemon.engines s.shared.file) refl)
Step-IsExclusive s u (pauses a) h =
    unfold with_engines in
    same_Exclusive a s h _ _ refl (rw (pause_all-keys (s.nodes a).daemon.engines) refl)
Step-IsExclusive s u (releases a k i) h = record { locks = h.locks; distinct = h.distinct }
Step-IsExclusive s u (exits a) h = exit_Exclusive a s h

quiet_Exclusive : (f : MembershipFile) → IsExclusive (quiet f)
unfolding get keys_of
quiet_Exclusive f = record { locks = λ a k. ((λ e. cc e), (λ i. absurd i)); distinct = λ a. tt }

-- Whatever the daemons on a directory do, and whenever they end, a shard's lock is held by exactly the
-- daemon that has taken the shard or has a published engine for it, and no daemon has a shard twice.
pub Reach-IsExclusive : (f : MembershipFile) (s : System) → Reach f s → IsExclusive s
Reach-IsExclusive f s here = quiet_Exclusive f
Reach-IsExclusive f u (next {s} r e) = Step-IsExclusive s u e (Reach-IsExclusive f s r)

-- Whatever the daemons on a directory do, and whenever they end, no two of them have a published engine
-- for one shard, and none has two.
pub no_shared_engine :
    (f : MembershipFile) (s : System) (a b k : Text)
    → Reach f s
    → In k (keys (s.nodes a).daemon)
    → In k (keys (s.nodes b).daemon)
    → (a ≡ b) × Distinct (keys (s.nodes a).daemon)
no_shared_engine f s a b k r i j =
    let h = Reach-IsExclusive f s r in
    let x = (h.locks a k).1 (In-append_left k _ (s.nodes a).claiming i) in
    let y = (h.locks b k).1 (In-append_left k _ (s.nodes b).claiming j) in
    (ground (arith, x, y), Distinct-left _ (s.nodes a).claiming (h.distinct a))
