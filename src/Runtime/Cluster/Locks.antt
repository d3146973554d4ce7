-- ===== src/Runtime/Cluster/Locks.antt =====
-- The locks over a round of acquire_shards in src/main.rs, and when they are dropped.
use snerdmq.Runtime.{
  Turn, attempt, try_lock_shard, Shared, give_up, after_revert, after_lock, after_claim, drop_locks,
  Acquired,
}
use snerdmq.Membership.{revert_claim, claim, Outcome, ClaimOutcome}
use snerdmq.Base.{
  sym, subst, refl, if_ind, arith, ◌⊎◌, ℕ, Bool, ◌∷◌, ◌++◌, In, text_dec, [], none, Text, ◌≡◌, List,
  ◌∙◌, inl, inr,
}
use snerdmq.Map.{Map, get-remove_ne, contains, get, insert, remove, get-remove_self}
use snerdmq.Base.Result.{err, Result, ok, IoError}
use snerdmq.Runtime.Start.Failing.{drop_locks-none}

pub In-decided : (k : Text) (ks : List Text) → In k ks ⊎ (In k ks → ⊥)
In-decided k [] = inr (λ i. i)
In-decided k (j ∷ ks) = elim (text_dec k j) [
  | yes p ↦ inl (inl p)
  | no n ↦ elim (In-decided k ks) [
    | inl i ↦ inl (inr i)
    | inr m ↦ inr (λ i. elim i [ inl e ↦ n e | inr j ↦ m j ])
  ]
]

pub drop_locks-out :
    (k : Text) (ks : List Text) (flocks : Map Text)
    → (In k ks → ⊥)
    → get k (drop_locks ks flocks) ≡ get k flocks
unfolding drop_locks
drop_locks-out k [] flocks n = refl
drop_locks-out k (j ∷ ks) flocks n =
    drop_locks-out k ks (remove j flocks) (λ i. n (inr i))
    ∙ get-remove_ne j k flocks (λ e. n (inl (sym e)))

pub drop_locks-In :
    (k : Text) (ks : List Text) (flocks : Map Text) → In k ks → get k (drop_locks ks flocks) ≡ none
unfolding drop_locks
drop_locks-In k (j ∷ ks) flocks (inl e) =
    drop_locks-none k ks (remove j flocks)
      (subst (λ x. get k (remove x flocks) ≡ none) e (get-remove_self k flocks))
drop_locks-In k (j ∷ ks) flocks (inr i) = drop_locks-In k ks (remove j flocks) i
drop_locks-In k [] flocks i = absurd i

pub drop_locks-append :
    (xs ys : List Text) (flocks : Map Text)
    → drop_locks (xs ++ ys) flocks ≡ drop_locks ys (drop_locks xs flocks)
unfolding drop_locks
drop_locks-append [] ys flocks = refl
drop_locks-append (x ∷ xs) ys flocks = drop_locks-append xs ys (remove x flocks)

-- What a round leaves of the locks: the lock is only taken if nobody has it, and an error drops those
-- of the call.
abbrev pub Tried : Text → Text → List Text → Map Text → Acquired → Type 0
Tried owner k taken flocks (ok taken', s) =
    ((taken' ≡ taken) × (s.flocks ≡ flocks))
    ⊎ ((taken' ≡ taken ++ k ∷ []) × (get k flocks ≡ none) × (s.flocks ≡ insert k owner flocks))
Tried owner k taken flocks (err e, s) = s.flocks ≡ drop_locks taken flocks

module _ (owner k : Text) (taken : List Text) where
  after_revert-Tried :
      (s : Shared) (o : Outcome (Unit {0})) → Tried owner k taken s.flocks (after_revert taken s o)
  unfolding after_revert give_up
  after_revert-Tried s (err e, f) = refl
  after_revert-Tried s (ok _, f) = inl (refl, refl)

  after_lock-Tried :
      (t : Turn) (s : Shared)
      → Tried owner k taken s.flocks
          (after_lock t owner k taken s (try_lock_shard t.opens owner k s.flocks))
  unfolding after_lock try_lock_shard give_up
  after_lock-Tried t s =
      if_ind {A = Result Bool IoError × Map Text}
        (λ x. Tried owner k taken s.flocks (after_lock t owner k taken s x)) t.opens
        (λ _.
          if_ind {A = Result Bool IoError × Map Text}
            (λ x. Tried owner k taken s.flocks (after_lock t owner k taken s x))
            (contains k s.flocks)
            (λ _. after_revert-Tried s (revert_claim t.revert_io k owner s.file))
            (λ free. inr (refl, unfold contains in ground (arith, free), refl)))
        (λ _. refl)

  after_claim-Tried :
      (t : Turn) (s : Shared) (o : Outcome ClaimOutcome)
      → Tried owner k taken s.flocks (after_claim t owner k taken s o)
  unfolding after_claim give_up
  after_claim-Tried t s (err e, f) = refl
  after_claim-Tried t s (ok out, f) = after_lock-Tried t (record s { file = f })

  pub attempt-Tried :
      (t : Turn) (skew : ℕ) (s : Shared)
      → Tried owner k taken (t.others s).flocks (attempt t skew owner k taken s)
  unfolding attempt
  attempt-Tried t skew s =
      after_claim-Tried t (t.others s) (claim t.claim_io k owner t.now skew (t.others s).file)
