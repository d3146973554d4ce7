-- ===== src/Workers/Pools.antt =====
-- WorkerPoolManager::new of src/queue.rs: the semaphores that it makes from SNERD_POOLS.
use mathlib.Core.Option
use snerdmq.Workers
use snerdmq.Base.{
  Option-cases, ◌∷◌, [], List, inr, Text, inl, leb, Option, ℕ, Bool-cases, none, refl, ◌≡◌, subst,
  some,
}
use snerdmq.Map.{contains, get-insert_self, Map, get, get-insert}
use snerdmq.Workers.{
  new, with_default, semaphore_of, add_parts, WorkerPoolManager, pool_part, add_part, semaphore,
}
use snerdmq.Queue.Dispatch.{default_pool}
use snerdmq.Base.Bytes.{split}

-- The semaphore kept for `default` is the one that the map has under the name.
abbrev IsShared : Map ℕ × Option ℕ → Type 0
IsShared (pools, d) = get default_pool pools ≡ d

abbrev AreShared : Option (Map ℕ × Option ℕ) → Type 0
AreShared none = Unit
AreShared (some s) = IsShared s

add_part-AreShared :
    (max_permits : ℕ) (part : Option (Text × ℕ)) (s : Map ℕ × Option ℕ)
    → IsShared s
    → AreShared (add_part max_permits part s)
unfolding add_part semaphore
add_part-AreShared max_permits none s h = h
add_part-AreShared max_permits (some (name, count)) (pools, d) h =
    elim (Bool-cases (leb count max_permits)) [
      | inl fits ↦ rw fits (rw (get-insert name default_pool count pools, h) refl)
      | inr over ↦ rw over tt
    ]

bind-AreShared :
    (f : Map ℕ × Option ℕ → Option (Map ℕ × Option ℕ)) (o : Option (Map ℕ × Option ℕ))
    → ((s : Map ℕ × Option ℕ) → IsShared s → AreShared (f s))
    → AreShared o
    → AreShared (Option.bind o f)
unfolding Option.bind
bind-AreShared f none g h = tt
bind-AreShared f (some s) g h = g s h

add_parts-AreShared :
    (max_permits : ℕ) (parts : List Text) (s : Map ℕ × Option ℕ)
    → IsShared s
    → AreShared (add_parts max_permits parts s)
unfolding add_parts
add_parts-AreShared max_permits [] s h = h
add_parts-AreShared max_permits (part ∷ parts) s h =
    bind-AreShared (add_parts max_permits parts) (add_part max_permits (pool_part part) s)
      (λ s' h'. add_parts-AreShared max_permits parts s' h')
      (add_part-AreShared max_permits (pool_part part) s h)

abbrev HasDefault : Option WorkerPoolManager → Type 0
HasDefault none = Unit
HasDefault (some w) = get default_pool w.pools ≡ some w.default_pool

with_default-HasDefault :
    (max_permits default_workers : ℕ) (s : Map ℕ × Option ℕ)
    → IsShared s
    → HasDefault (with_default max_permits default_workers s)
unfolding with_default semaphore
with_default-HasDefault max_permits default_workers (pools, some n) h = h
with_default-HasDefault max_permits default_workers (pools, none) h =
    elim (Bool-cases (leb default_workers max_permits)) [
      | inl fits ↦ rw fits (get-insert_self default_pool default_workers pools)
      | inr over ↦ rw over tt
    ]

bind-HasDefault :
    (max_permits default_workers : ℕ) (o : Option (Map ℕ × Option ℕ))
    → AreShared o
    → HasDefault (Option.bind o (with_default max_permits default_workers))
unfolding Option.bind
bind-HasDefault max_permits default_workers none h = tt
bind-HasDefault max_permits default_workers (some s) h =
    with_default-HasDefault max_permits default_workers s h

new-HasDefault :
    (max_permits default_workers : ℕ) (env : Option Text)
    → HasDefault (Workers.new max_permits default_workers env)
unfolding Workers.new get
new-HasDefault max_permits default_workers none =
    with_default-HasDefault max_permits default_workers ([], none) refl
new-HasDefault max_permits default_workers (some s) =
    bind-HasDefault max_permits default_workers (add_parts max_permits (split b',' s) ([], none))
      (add_parts-AreShared max_permits (split b',' s) ([], none) refl)

semaphore_of-some :
    (w : WorkerPoolManager) (pool : Text)
    → get default_pool w.pools ≡ some w.default_pool
    → (n : ℕ) × (get (semaphore_of w pool) w.pools ≡ some n)
unfolding semaphore_of contains
semaphore_of-some w pool h = elim (Option-cases (get pool w.pools)) [
  | inl e ↦ (w.default_pool, rw e h)
  | inr (n, e) ↦ (n, rw e e)
]

-- Whatever SNERD_POOLS holds, if the manager is made then its map has the semaphore of the default
-- pool under `default`, and the dispatchers of every pool name have one of the map's semaphores.
pub new-semaphore_of :
    (max_permits default_workers : ℕ) (env : Option Text) (w : WorkerPoolManager) (pool : Text)
    → Workers.new max_permits default_workers env ≡ some w
    → (get default_pool w.pools ≡ some w.default_pool)
      × ((n : ℕ) × (get (semaphore_of w pool) w.pools ≡ some n))
new-semaphore_of max_permits default_workers env w pool e =
    let h = subst HasDefault e (new-HasDefault max_permits default_workers env) in
    (h, semaphore_of-some w pool h)
