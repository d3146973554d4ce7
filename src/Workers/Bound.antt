-- ===== src/Workers/Bound.antt =====
-- The permits of a daemon's semaphores, which the engines of src/queue.rs share.
use snerdmq.Queue
use snerdmq.Workers
use snerdmq.Workers.Pools.{new-semaphore_of}
use snerdmq.Workers.{semaphore_of}
use snerdmq.Base.{ap, unwrap_or, Option, some}
use snerdmq.RateLimiter.{LimitsFile}
use snerdmq.Base.{[], zero, suc, ℕ, ◌≤◌, ◌∙◌, ◌≡◌, Text, arith, ◌∷◌, All, List, refl, ◌+◌}
use snerdmq.Map.{Map, get}
use snerdmq.Workers.{WorkerPoolManager, available, work_at, work_all}
use snerdmq.Queue.{SnerdQueue}
use snerdmq.FileStore.{FileStore}
use snerdmq.Queue.Schedule.{Event}
use snerdmq.Workers.Held.{IsPooled, in_flight, holding, work-Keeps}
use snerdmq.Workers.Pooled.{work-IsPooled}
use snerdmq.RateLimiter.{LimitsFile}

-- The permits that all engines hold.
abbrev pub all_in_flight : WorkerPoolManager → Text → List SnerdQueue → ℕ
all_in_flight w s [] = 0
all_in_flight w s (q ∷ qs) = in_flight w s q + all_in_flight w s qs

-- How many executions of the semaphore's pools there are in all engines.
abbrev pub all_executing : WorkerPoolManager → Text → List SnerdQueue → ℕ
all_executing w s [] = 0
all_executing w s (q ∷ qs) = holding w s q.spawned + holding w s q.active + all_executing w s qs

executing-le-in_flight :
    (w : WorkerPoolManager) (s : Text) (qs : List SnerdQueue)
    → all_executing w s qs ≤ all_in_flight w s qs
executing-le-in_flight w s [] = omega arith
executing-le-in_flight w s (q ∷ qs) = omega (arith, executing-le-in_flight w s qs)

work_at-IsPooled :
    (w : WorkerPoolManager) (i : ℕ) (e : Event) (qs : List SnerdQueue) (p : Map ℕ)
    → All IsPooled qs
    → All IsPooled (work_at w i e qs p).0
unfolding work_at
work_at-IsPooled w i e [] p h = tt
work_at-IsPooled w zero e (q ∷ qs) p h = (work-IsPooled w e q p h.0, h.1)
work_at-IsPooled w (suc i) e (q ∷ qs) p h = (h.0, work_at-IsPooled w i e qs p h.1)

work_at-in_flight :
    (w : WorkerPoolManager) (i : ℕ) (e : Event) (qs : List SnerdQueue) (p : Map ℕ) (s : Text)
    → All IsPooled qs
    → available s (work_at w i e qs p).1 + all_in_flight w s (work_at w i e qs p).0
      ≡ available s p + all_in_flight w s qs
unfolding work_at
work_at-in_flight w i e [] p s h = refl
work_at-in_flight w zero e (q ∷ qs) p s h = omega (arith, work-Keeps w e q p h.0 s)
work_at-in_flight w (suc i) e (q ∷ qs) p s h = omega (arith, work_at-in_flight w i e qs p s h.1)

work_all-in_flight :
    (w : WorkerPoolManager) (es : List (ℕ × Event)) (qs : List SnerdQueue) (p : Map ℕ) (s : Text)
    → All IsPooled qs
    → available s (work_all w es (qs, p)).1 + all_in_flight w s (work_all w es (qs, p)).0
      ≡ available s p + all_in_flight w s qs
unfolding work_all
work_all-in_flight w [] qs p s h = refl
work_all-in_flight w ((i, e) ∷ es) qs p s h =
    let (qs', p') = work_at w i e qs p in
    work_all-in_flight w es qs' p' s (work_at-IsPooled w i e qs p h)
    ∙ work_at-in_flight w i e qs p s h

-- The engines of a daemon that has just been started on these stores.
abbrev pub started : List (FileStore × LimitsFile) → List SnerdQueue
started [] = []
started ((store, limits) ∷ ss) = Queue.new store limits ∷ started ss

started-IsPooled : (ss : List (FileStore × LimitsFile)) → All IsPooled (started ss)
unfolding Queue.new get
started-IsPooled [] = tt
started-IsPooled ((store, limits) ∷ ss) = ((λ pool. tt), started-IsPooled ss)

started-in_flight :
    (w : WorkerPoolManager) (s : Text) (ss : List (FileStore × LimitsFile))
    → all_in_flight w s (started ss) ≡ 0
unfolding Queue.new
started-in_flight w s [] = refl
started-in_flight w s ((store, limits) ∷ ss) = omega (arith, started-in_flight w s ss)

-- However SNERD_POOLS is set, if the semaphores are made, then every pool name has one, made with some
-- number of permits; and over any interleaving of the steps of all engines of a daemon, the permits
-- that are left of it and those that tasks in flight hold are that number. So at any time there are
-- at most that many executions of tasks of its pools, over all engines together.
pub work_all-bound :
    (max_permits default_workers : ℕ) (env : Option Text) (w : WorkerPoolManager) (pool : Text)
    (ss : List (FileStore × LimitsFile)) (es : List (ℕ × Event))
    → Workers.new max_permits default_workers env ≡ some w
    → let s = semaphore_of w pool in
      let (qs, permits) = work_all w es (started ss, w.pools) in
      (n : ℕ) × (get s w.pools ≡ some n)
      × (available s permits + all_in_flight w s qs ≡ n)
      × (all_executing w s qs ≤ n)
unfolding available
work_all-bound max_permits default_workers env w pool ss es made =
    let (main, (n, found)) = new-semaphore_of max_permits default_workers env w pool made in
    let s = semaphore_of w pool in
    let made_with : available s w.pools ≡ n = ap (λ o. unwrap_or o 0) found in
    let all = work_all-in_flight w es (started ss) w.pools s (started-IsPooled ss) in
    (
      n,
      found,
      omega (arith, all, started-in_flight w s ss, made_with),
      omega (
        arith,
        all,
        started-in_flight w s ss,
        made_with,
        executing-le-in_flight w s (work_all w es (started ss, w.pools)).0,
      ),
    )
