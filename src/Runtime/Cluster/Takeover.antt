-- ===== src/Runtime/Cluster/Takeover.antt =====
-- How a shard passes from one daemon of src/main.rs to another.
use snerdmq.Runtime.{attempt, Shared, after_claim, Turn, try_lock_shard, Acquired, after_lock}
use snerdmq.Membership.{ClaimOutcome, Outcome, MembershipFile, claim}
use snerdmq.Base.{
  refl, ◌≢◌, ◌∙◌, In, none, [], In-append_right, ap, ◌++◌, inr, sym, arith, inl, Text, ℕ, some,
  List, ◌∷◌, true, ◌≡◌,
}
use snerdmq.Map.{get-insert_self, contains, insert, get}
use snerdmq.Runtime.Cluster.Keys.{keys}
use snerdmq.Runtime.Cluster.Moved.{IsExclusive, hand}
use snerdmq.Base.Result.{ok, err}
use snerdmq.Runtime.Cluster.{System, after_exit, Reach}
use snerdmq.Runtime.Cluster.Mutual.{In-append_swap, Reach-IsExclusive}
use snerdmq.Runtime.Cluster.Locks.{
  drop_locks-In, Tried, attempt-Tried, drop_locks-append, drop_locks-out,
}

-- A round of another daemon leaves the lock of a shard that a daemon has.
lock_kept :
    (a b k : Text) (s : System) (r : Acquired)
    → IsExclusive s
    → a ≢ b
    → get k s.shared.flocks ≡ some a
    → Tried b k (s.nodes b).claiming s.shared.flocks r
    → get k r.1.flocks ≡ some a
lock_kept a b k s (ok taken, sh) h n g (inl (e, f)) = rw f g
lock_kept a b k s (ok taken, sh) h n g (inr (e, free, f)) = absurd (ground (arith, g, free))
lock_kept a b k s (err e, sh) h n g f =
    let ks = (s.nodes b).claiming in
    let not_mine : In k ks → ⊥ = λ i.
      let mine = (h.locks b k).1 (In-append_right k (keys (s.nodes b).daemon) ks i) in
      n (ground (arith, g, mine)) in
    rw f (drop_locks-out k ks s.shared.flocks not_mine ∙ g)

exit_frees :
    (a k : Text) (s : System)
    → In k (hand (s.nodes a))
    → get k (after_exit a s).shared.flocks ≡ none
unfolding after_exit
exit_frees a k s i =
    let ms = keys (s.nodes a).daemon in
    let ks = (s.nodes a).claiming in
    ap (λ fl. get k fl) (sym (drop_locks-append ks ms s.shared.flocks))
    ∙ drop_locks-In k (ks ++ ms) s.shared.flocks (In-append_swap k ms ks i)

lock_free :
    (t : Turn) (b k : Text) (taken : List Text) (s : Shared)
    → t.opens ≡ true
    → get k s.flocks ≡ none
    → after_lock t b k taken s (try_lock_shard t.opens b k s.flocks)
      ≡ (ok (taken ++ k ∷ []), record s { flocks = insert k b s.flocks })
unfolding after_lock try_lock_shard contains
lock_free t b k taken s o g = rw (after_lock, o, g) refl

claim_free :
    (t : Turn) (b k : Text) (taken : List Text) (s : Shared) (o : Outcome ClaimOutcome)
    (out : ClaimOutcome)
    → o.0 ≡ ok out
    → t.opens ≡ true
    → get k s.flocks ≡ none
    → after_claim t b k taken s o
      ≡ (ok (taken ++ k ∷ []), record { file = o.1; flocks = insert k b s.flocks })
unfolding after_claim
claim_free t b k taken s (ok x, f) out e o g = lock_free t b k taken (record s { file = f }) o g
claim_free t b k taken s (err x, f) out e o g = absurd (cc e)

-- However its lease stands, a daemon that has a shard keeps its lock through any round of another one
-- for the shard. Once the daemon has ended, a round of the other one takes the shard and its lock,
-- where its claim succeeds and the lock file can be opened.
pub takeover :
    (f : MembershipFile) (s : System) (a b k : Text) (t : Turn) (skew : ℕ) (out : ClaimOutcome)
    → Reach f s
    → a ≢ b
    → In k (hand (s.nodes a))
    → (claim t.claim_io k b t.now skew s.shared.file).0 ≡ ok out
    → t.opens ≡ true
    → let alone = record t { others = λ x. x } in
      let s' = after_exit a s in
      let taken = (s'.nodes b).claiming in
      let r = attempt alone skew b k taken s'.shared in
      (get k (attempt alone skew b k (s.nodes b).claiming s.shared).1.flocks ≡ some a)
      × (r.0 ≡ ok (taken ++ k ∷ []))
      × (get k r.1.flocks ≡ some b)
takeover f s a b k t skew out r n i c o =
    let alone = record t { others = λ x. x } in
    let s' = after_exit a s in
    let taken = (s'.nodes b).claiming in
    let h = Reach-IsExclusive f s r in
    let won =
      claim_free alone b k taken s'.shared (claim t.claim_io k b t.now skew s'.shared.file) out
        (unfold after_exit in c) o (exit_frees a k s i) in
    let lock : get k (attempt alone skew b k taken s'.shared).1.flocks
        ≡ get k (insert k b s'.shared.flocks) =
      unfold attempt in ap (λ x. get k x.1.flocks) won in
    (
      lock_kept a b k s _ h n ((h.locks a k).1 i)
          (attempt-Tried b k (s.nodes b).claiming alone skew s.shared),
      (unfold attempt in ap (λ x. x.0) won),
      lock ∙ get-insert_self k b s'.shared.flocks,
    )
