-- ===== src/Runtime/Launch/Owned.antt =====
-- What a daemon of src/main.rs has when it has started.
use snerdmq.Runtime.Pending
use snerdmq.Runtime.{Acquired, acquire_shards, Shared}
use snerdmq.Base.{
  sym, if_ind, refl, subst, length, none, [], codes, ℕ, arith, ◌∷◌, All, ◌≤◌, inl, Option, ◌≡◌,
  some, List, inr, Text,
}
use snerdmq.Map.{Map}
use snerdmq.Sharding.Layout.{started, failed, panicked, resolve_layout, Boot, StorageDir}
use snerdmq.Base.Result.{IoError, err, Result-cases, Result, ok}
use snerdmq.Runtime.Daemon.{Answered, Daemon}
use snerdmq.Runtime.Engines.{keys_of}
use snerdmq.Runtime.Acquire.{acquire_shards-Has, Respects, Has}
use snerdmq.Runtime.Start.{start_engines, publish, boot, build_engines}
use snerdmq.Runtime.Cluster.Keys.{publish-keys, keys}
use snerdmq.Cli.Args.{settings}
use snerdmq.Runtime.Launch.{
  Surroundings, Launched, runs, exits, panics, booted, after_boot, with_runtime, after_layout,
  launch, new, Runtime,
}

-- A start that leaves a daemon leaves one whose engines have what `P` says of it.
abbrev Launches : (Daemon → Shared → Type 0) → Launched × Shared → Type 0
Launches P (runs a, s) = P a.1 s
Launches P (exits code, s) = Unit
Launches P (panics, s) = Unit

-- Each engine's shard has a claim and a lock of the owner.
abbrev pub HasAll : Text → ℕ → Daemon → Shared → Type 0
HasAll owner max_shards d s = All (Has owner s) (keys d) × (length (keys d) ≤ max_shards)

-- What start_engines gives, by the building of the engines.
start_engines-ok :
    (x : Surroundings) (shards : List Text) (d : Daemon) (flocks : Map Text) (u : Unit {0})
    → (build_engines x.disk d.registered shards).0 ≡ ok u
    → (start_engines x.disk x.loaded shards d flocks).0
      ≡ ok (publish x.loaded (build_engines x.disk d.registered shards).1 d)
unfolding start_engines
start_engines-ok x shards d flocks u e = rw (start_engines, e) refl

start_engines-err :
    (x : Surroundings) (shards : List Text) (d : Daemon) (flocks : Map Text) (y : IoError)
    → (build_engines x.disk d.registered shards).0 ≡ err y
    → (start_engines x.disk x.loaded shards d flocks).0 ≡ err y
unfolding start_engines
start_engines-err x shards d flocks y e = rw (start_engines, e) refl

boot-HasAll :
    (x : Surroundings) (owner : Text) (max_shards : ℕ) (out : List Text) (s : Shared)
    → All (Has owner s) out
    → length out ≤ max_shards
    → Launches (HasAll owner max_shards) (booted x (ok out, s))
unfolding booted boot after_boot keys_of
boot-HasAll x owner max_shards [] s h l = (tt, omega arith)
boot-HasAll x owner max_shards (k ∷ ks) s h l =
    let d = Pending.started [] in
    let ends : Result Answered IoError → Type 0 = λ o.
      Launches (HasAll owner max_shards)
        (after_boot (elim o as (λ _. Option Answered) [ ok a ↦ some a | err e ↦ none ]), s) in
    elim (Result-cases (build_engines x.disk [] (k ∷ ks)).0) [
      | inl (u, e) ↦
          let same = publish-keys x.disk x.loaded (k ∷ ks) d e in
          subst ends (sym (start_engines-ok x (k ∷ ks) d s.flocks u e)) (
            subst (All (Has owner s)) (sym same) h,
            subst (λ js. length js ≤ max_shards) (sym same) l,
          )
      | inr (y, e) ↦ subst ends (sym (start_engines-err x (k ∷ ks) d s.flocks y e)) tt
    ]

module _ (x : Surroundings) (flocks : Map Text) (r : Runtime)
    (h : (n : ℕ) → Respects r.owner (x.turn n)) where
  acquired-HasAll :
      (s : Shared) (a : Acquired)
      → acquire_shards x.load_io x.load_time x.turn r.max_shards r.skew r.owner s ≡ a
      → Launches (HasAll r.owner r.max_shards) (booted x a)
  acquired-HasAll s (ok out, s') e =
      let (has, claimable, bound) =
        acquire_shards-Has x.load_io x.load_time r.max_shards r.skew r.owner x.turn s s' out h e in
      boot-HasAll x r.owner r.max_shards out s' has bound
  acquired-HasAll s (err y, s') e = unfold booted boot after_boot in tt

  layout-HasAll :
      (o : Boot × StorageDir)
      → Launches (HasAll r.owner r.max_shards) (after_layout x flocks (some r) o)
  unfolding after_layout with_runtime
  layout-HasAll (started n, d) =
      acquired-HasAll (record { file = d.membership; flocks = flocks }) _ refl
  layout-HasAll (failed e, d) = tt
  layout-HasAll (panicked, d) = tt

launched :
    (P : Daemon → Shared → Type 0) (o : Launched × Shared) (a : Answered) (s : Shared)
    → o ≡ (runs a, s)
    → Launches P o
    → P a.1 s
launched P o a s e h = subst (Launches P) e h

-- Where the other daemons leave alone what this one has, a start that ends with a daemon ends with one
-- that has at most SNERD_MAX_SHARDS engines, and for the shard of each of them a claim in
-- membership.json under the owner id of the process and the lock.
pub launch-HasAll :
    (max_permits : ℕ) (x : Surroundings) (var : Text → Option Text) (pid : ℕ) (flocks : Map Text)
    (d : StorageDir) (r : Runtime) (a : Answered) (s : Shared)
    → new max_permits var pid (settings var).max_shards (settings var).max_workers ≡ some r
    → ((n : ℕ) → Respects r.owner (x.turn n))
    → launch max_permits x var pid flocks d ≡ (runs a, s)
    → HasAll r.owner r.max_shards a.1 s
unfolding launch
launch-HasAll max_permits x var pid flocks d r a s made h e =
    let found =
      resolve_layout x.layout_io x.moves (codes "snerdmq-daemon") (settings var).requested_shards
        d in
    let P = HasAll r.owner r.max_shards in
    launched P (launch max_permits x var pid flocks d) a s e (
      if_ind (Launches P) x.creates_dir
        (λ _.
          subst (λ o. Launches P (after_layout x flocks o found)) (sym made)
            (layout-HasAll x flocks r h found))
        (λ _. tt))
