-- ===== src/Cli/Recovery/Held.antt =====
-- cmd_replay of src/main.rs and the shards that a daemon holds.
use snerdmq.Runtime.{try_lock_shard}
use snerdmq.Membership.{MembershipError, Membership, shard_key, Io, load, MembershipFile}
use snerdmq.Base.{
  Text, Bool-cases, ◌≤◌, some, ℕ, List, suc, arith, codes, true, ◌+◌, ℕ_discrete, subst, inl, ◌≢◌,
  ap, ◌<◌, Option, inr, ◌⊎◌, refl, false, none, zero, ◌∙◌, ◌≡◌,
}
use snerdmq.Map.{get, contains, get-insert_ne, Map}
use snerdmq.FileStore.{Line}
use snerdmq.Base.Result.{IoError, err, is_ok, ok, Result-cases, os, Result}
use snerdmq.Cli.Recovery.{
  locked, cmd_replay, visit_shard, replay_from, Visit, Recovered, replay_log,
}

lock_fails : (owner k : Text) (flocks : Map Text) → (try_lock_shard false owner k flocks).0 ≡ err os
unfolding try_lock_shard
lock_fails owner k flocks = refl

lock_held :
    (owner k : Text) (flocks : Map Text)
    → contains k flocks ≡ true
    → (try_lock_shard true owner k flocks).0 ≡ ok false
unfolding try_lock_shard
lock_held owner k flocks h = rw h refl

lock_free :
    (owner k : Text) (flocks : Map Text)
    → contains k flocks ≡ false
    → (try_lock_shard true owner k flocks).0 ≡ ok true
unfolding try_lock_shard
lock_free owner k flocks h = rw h refl

-- The log of another shard stays as it is.
abbrev Keeps : Text → Map (List Line) → Result (ℕ × Map (List Line)) IoError → Type 0
Keeps k logs (ok x) = get k x.1 ≡ get k logs
Keeps k logs (err e) = Unit

visit_shard-Keeps :
    (target : Text) (v : Visit) (key k : Text) (total : ℕ) (logs : Map (List Line))
    (o : Option (List Line))
    → key ≢ k
    → Keeps k logs (visit_shard target v key total logs o)
unfolding visit_shard
visit_shard-Keeps target v key k total logs none n = refl
visit_shard-Keeps target v key k total logs (some ls) n =
    elim (Result-cases (replay_log target v ls)) [
      | inl (x, e) ↦ rw (Keeps, e) (get-insert_ne key k x.1 logs n)
      | inr (x, e) ↦ rw (Keeps, e) tt
    ]

module _ (visit : ℕ → Visit) (target : Text) (flocks : Map Text) where
  -- What holds of a round of the loop: it stops, with the logs as they are, or it goes on with the
  -- loop from the next shard on, and then the shard of the round is not held.
  abbrev Round : ℕ → ℕ → ℕ → Map (List Line) → Type 0
  Round i n total logs =
      ((e : IoError) × (replay_from visit target flocks i (suc n) total logs ≡ (err e, logs)))
      ⊎ ((contains (shard_key i) flocks ≡ false)
          × (total' : ℕ) × (logs' : Map (List Line)) × ((k : Text)
              → shard_key i ≢ k
              → get k logs' ≡ get k logs)
          × (replay_from visit target flocks i (suc n) total logs
              ≡ replay_from visit target flocks (suc i) n total' logs'))

  visit-Round :
      (i n total : ℕ) (logs : Map (List Line))
      → (visit i).opens ≡ true
      → contains (shard_key i) flocks ≡ false
      → Round i n total logs
  unfolding replay_from
  visit-Round i n total logs o c =
      let free = lock_free (codes "replay") (shard_key i) flocks c in
      let v = visit_shard target (visit i) (shard_key i) total logs (get (shard_key i) logs) in
      elim (Result-cases v) [
        | inl ((total', logs'), e) ↦ inr (
          c,
          total',
          logs',
          λ k ne. subst (Keeps k logs) e (
              visit_shard-Keeps target (visit i) (shard_key i) k total logs (get (shard_key i) logs)
                ne),
          rw (replay_from, o, free, e) refl,
        )
        | inr (x, e) ↦ inl (x, rw (replay_from, o, free, e) refl)
      ]

  replay_from-Round : (i n total : ℕ) (logs : Map (List Line)) → Round i n total logs
  unfolding replay_from
  replay_from-Round i n total logs = elim (Bool-cases (visit i).opens) [
    | inr o ↦ inl (os, rw (replay_from, o, lock_fails (codes "replay") (shard_key i) flocks) refl)
    | inl o ↦ elim (Bool-cases (contains (shard_key i) flocks)) [
      | inl c ↦ inl (
        locked (shard_key i),
        rw (replay_from, o, lock_held (codes "replay") (shard_key i) flocks c) refl,
      )
      | inr c ↦ visit-Round i n total logs o c
    ]
  ]

  -- A log whose shard is held stays as it is.
  replay_from-keeps :
      (k : Text) (i n total : ℕ) (logs : Map (List Line))
      → contains k flocks ≡ true
      → get k (replay_from visit target flocks i n total logs).1 ≡ get k logs
  replay_from-keeps k i zero total logs h = unfold replay_from in refl
  replay_from-keeps k i (suc n) total logs h = elim (replay_from-Round i n total logs) [
    | inl (e, r) ↦ ap (λ (x : Recovered). get k x.1) r
    | inr (c, total', logs', same, r) ↦
        let ne : shard_key i ≢ k = λ s.
          let both : contains k flocks ≡ false = subst (λ x. contains x flocks ≡ false) s c in cc in
        ap (λ (x : Recovered). get k x.1) r
        ∙ replay_from-keeps k (suc i) n total' logs' h
        ∙ same k ne
  ]

  -- A shard that is held makes the command fail.
  replay_from-fails :
      (j i n total : ℕ) (logs : Map (List Line))
      → contains (shard_key j) flocks ≡ true
      → i ≤ j
      → j < i + n
      → is_ok (replay_from visit target flocks i n total logs).0 ≡ false
  replay_from-fails j i zero total logs h low high = absurd (omega (arith, low, high))
  replay_from-fails j i (suc n) total logs h low high = elim (replay_from-Round i n total logs) [
    | inl (e, r) ↦ ap (λ (x : Recovered). is_ok x.0) r
    | inr (c, total', logs', same, r) ↦ elim (ℕ_discrete i j) [
      | yes s ↦
          let both : contains (shard_key j) flocks ≡ false =
            subst (λ x. contains (shard_key x) flocks ≡ false) s c in
          absurd (cc)
      | no d ↦
          ap (λ (x : Recovered). is_ok x.0) r
          ∙ replay_from-fails j (suc i) n total' logs' h (omega (arith, low, d))
              (omega (arith, high))
    ]
  ]

cmd_replay_loaded :
    (debug : MembershipError → Text) (i : Io) (visit : ℕ → Visit) (target : Text)
    (flocks : Map Text) (f : MembershipFile) (logs : Map (List Line)) (m : Membership)
    → (load i f).0 ≡ ok m
    → cmd_replay debug i visit target flocks f logs
      ≡ replay_from visit target flocks 0 m.shards 0 logs
unfolding cmd_replay
cmd_replay_loaded debug i visit target flocks f logs m l = rw (cmd_replay, l) refl

-- If membership.json can be loaded and the lock of one of its shards is held by a daemon, then replay
-- fails; and whatever it does to the other shards, no log of a shard whose lock is held is changed.
pub cmd_replay_held :
    (debug : MembershipError → Text) (i : Io) (visit : ℕ → Visit) (target k : Text)
    (flocks : Map Text) (f : MembershipFile) (logs : Map (List Line)) (m : Membership) (j : ℕ)
    → (load i f).0 ≡ ok m
    → contains (shard_key j) flocks ≡ true
    → j < m.shards
    → contains k flocks ≡ true
    → (is_ok (cmd_replay debug i visit target flocks f logs).0 ≡ false)
      × (get k (cmd_replay debug i visit target flocks f logs).1 ≡ get k logs)
cmd_replay_held debug i visit target k flocks f logs m j l h b hk =
    let same = cmd_replay_loaded debug i visit target flocks f logs m l in
    (
      ap (λ (x : Recovered). is_ok x.0) same
          ∙ replay_from-fails visit target flocks j 0 m.shards 0 logs h (omega arith)
              (omega (arith, b)),
      ap (λ (x : Recovered). get k x.1) same
          ∙ replay_from-keeps visit target flocks k 0 m.shards 0 logs hk,
    )
