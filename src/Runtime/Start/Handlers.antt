-- ===== src/Runtime/Start/Handlers.antt =====
-- The registered handlers of src/main.rs on the engines of a daemon.
pub mod Steps
use snerdmq.Runtime.Start.Moves.{publishes, Move, does, tries, works, step_engine, move, moves}
use snerdmq.Runtime.Start.Serving.{
  Serves, ServesAll, step-ServesAll, register_all-ServesAll, handle_enqueue-ServesAll,
  build_engines-ServesAll,
}
use snerdmq.Task
use snerdmq.Queue.Schedule
use snerdmq.Runtime.Pending
use snerdmq.Protocol.{enqueue, stats, test_pause_heartbeat, register, progress, result}
use mathlib.Core.Option.{some-injective}
use snerdmq.Base.{In-append_last, All-map, sym, In, if_ind, ◌||◌, not}
use snerdmq.Task.{RetryableTask, NewTask}
use snerdmq.Membership.{MembershipError, Membership}
use snerdmq.Base.{
  inr, some, List, All-append, Option, ℕ, false, none, Text, subst, ◌∷◌, zero, suc, refl, [], ◌≡◌,
  inl, All,
}
use snerdmq.Map.{Map, get}
use snerdmq.Queue.{Env}
use snerdmq.Runtime.Daemon.{
  register_all, blank, handle_new_task, InputLine, handler_received, handle_line, invalid, resolve,
  Daemon, result_of, handle_stats, message, call_max_retry, handle_result, handle_register,
  handler_timed_out, handle, call_handler, answer_enqueue,
}
use snerdmq.Runtime.Pending.{after_line, gives_up, times_out, calls, reads, receives}
use snerdmq.Base.Result.{Result, err, IoError, ok}
use snerdmq.Runtime.Engines.{
  no_shards, enqueued, enqueue_failed, Reply, handle_enqueue, shutting_down, ShardEngine,
}
use snerdmq.Runtime.Pending.{started}
use snerdmq.Runtime.Daemon.{Answered}
use snerdmq.Base.Result.{Result-cases}
use snerdmq.Runtime.Start.{
  is_empty, build_engines, start_engines, publish, boot, promoted, Standby, standby_round, Disk,
}
use snerdmq.Runtime.Start.Handlers.Steps.{
  IsServing, step_engine-ServesAll, step-IsServing, each_serves_one,
}

-- The type is not registered between the time at which a round builds engines and the publication of
-- those.
abbrev pub IsInTime : (IoError → Text) → Text → Daemon → List Move → Type 0
IsInTime display u d [] = Unit
IsInTime display u d (publishes disk loaded shards types ∷ ms) =
    (In u d.registered → In u types)
    × IsInTime display u (move display d (publishes disk loaded shards types)) ms
IsInTime display u d (m ∷ ms) = IsInTime display u (move display d m) ms

-- What a start leaves if it succeeds.
abbrev Started : Text → Result Answered IoError → Type 0
Started u (ok a) = IsServing u a.1
Started u (err e) = Unit

publish-IsServing :
    (u : Text) (disk : Text → Disk) (loaded : Result Membership MembershipError)
    (shards types : List Text) (d : Daemon)
    → (In u d.registered → In u types)
    → IsServing u d
    → IsServing u (publish loaded (build_engines disk types shards).1 d).1
unfolding publish
publish-IsServing u disk loaded shards types d f h i =
    All-append (ServesAll (u ∷ [])) d.engines (build_engines disk types shards).1 (h i) (
      each_serves_one u types (build_engines disk types shards).1 (f i)
        (build_engines-ServesAll disk types shards))

start_engines-Started :
    (u : Text) (disk : Text → Disk) (loaded : Result Membership MembershipError)
    (shards : List Text) (d : Daemon) (flocks : Map Text)
    → IsServing u d
    → Started u (start_engines disk loaded shards d flocks).0
unfolding start_engines
start_engines-Started u disk loaded shards d flocks h =
    elim (Result-cases (build_engines disk d.registered shards).0) [
      | inl (x, e) ↦
          rw (Started, e) (publish-IsServing u disk loaded shards d.registered d (λ i. i) h)
      | inr (x, e) ↦ rw (Started, e) tt
    ]

promoted-IsServing :
    (u : Text) (r : Result Answered IoError) (d : Daemon)
    → IsServing u d
    → Started u r
    → IsServing u (promoted r d).1.1
unfolding promoted
promoted-IsServing u (ok a) d h s = s
promoted-IsServing u (err e) d h s = h

standby_round-IsServing :
    (u : Text) (disk : Text → Disk) (loaded : Result Membership MembershipError)
    (acquired : Result (List Text) MembershipError) (d : Daemon) (flocks : Map Text)
    → IsServing u d
    → IsServing u (standby_round disk loaded acquired d flocks).1.1
unfolding standby_round
standby_round-IsServing u disk loaded (err e) d flocks h =
    if_ind {A = Standby × Answered} (λ x. IsServing u x.1.1)
      (d.shutting_down || not (is_empty d.engines)) (λ b. h) (λ b. h)
standby_round-IsServing u disk loaded (ok []) d flocks h =
    if_ind {A = Standby × Answered} (λ x. IsServing u x.1.1)
      (d.shutting_down || not (is_empty d.engines)) (λ b. h) (λ b. h)
standby_round-IsServing u disk loaded (ok (k ∷ ks)) d flocks h =
    if_ind {A = Standby × Answered} (λ x. IsServing u x.1.1)
      (d.shutting_down || not (is_empty d.engines)) (λ b. h)
      (λ b.
        promoted-IsServing u (start_engines disk loaded (k ∷ ks) d flocks).0 d h
          (start_engines-Started u disk loaded (k ∷ ks) d flocks h))

boot-IsServing :
    (u : Text) (disk : Text → Disk) (loaded : Result Membership MembershipError)
    (acquired : Result (List Text) MembershipError) (d : Daemon) (flocks : Map Text) (a : Answered)
    → IsServing u d
    → boot disk loaded acquired d flocks ≡ some a
    → IsServing u a.1
unfolding boot
boot-IsServing u disk loaded (err e) d flocks a h b = cc
boot-IsServing u disk loaded (ok []) d flocks a h b =
    subst (λ x. IsServing u x.1) (some-injective ([], d) a b) h
boot-IsServing u disk loaded (ok (k ∷ ks)) d flocks a h b =
    let s = start_engines-Started u disk loaded (k ∷ ks) d flocks h in
    elim (Result-cases (start_engines disk loaded (k ∷ ks) d flocks).0) [
      | inl (a', e) ↦
          subst (λ x. IsServing u x.1) (some-injective a' a (rw (boot, e) at b))
            (subst (Started u) e s)
      | inr (x, e) ↦
          let bad : ◌≡◌ {A = Option Answered} none (some a) = rw (boot, e) at b in absurd (cc bad)
    ]

moves-IsServing :
    (u : Text) (display : IoError → Text) (d : Daemon) (ms : List Move)
    → IsInTime display u d ms
    → IsServing u d
    → IsServing u (moves display d ms)
unfolding moves move
moves-IsServing u display d [] f h = h
moves-IsServing u display d (does e ∷ ms) f h =
    moves-IsServing u display (move display d (does e)) ms f (step-IsServing u display d e h)
moves-IsServing u display d (tries disk loaded acquired flocks ∷ ms) f h =
    moves-IsServing u display (move display d (tries disk loaded acquired flocks)) ms f
      (standby_round-IsServing u disk loaded acquired d flocks h)
moves-IsServing u display d (works i e ∷ ms) f h =
    moves-IsServing u display (move display d (works i e)) ms f
      (λ j. step_engine-ServesAll i e d.engines (u ∷ []) (h j))
moves-IsServing u display d (publishes disk loaded shards types ∷ ms) f h =
    moves-IsServing u display (move display d (publishes disk loaded shards types)) ms f.1
      (publish-IsServing u disk loaded shards types d f.0 h)

-- After a boot that succeeds, and any sequence of lines, handlers' events, rounds of the standby loop,
-- engines' steps and publications of engines that were built before: every engine of the daemon has
-- both handlers of a registered type, whether the type was registered before the engine was built or
-- after its publication, if it is not registered between the building of engines and their publication.
pub boot-moves-IsServing :
    (u : Text) (display : IoError → Text) (disk : Text → Disk)
    (loaded : Result Membership MembershipError) (acquired : Result (List Text) MembershipError)
    (flocks : Map Text) (a : Answered) (ms : List Move)
    → boot disk loaded acquired (started []) flocks ≡ some a
    → IsInTime display u a.1 ms
    → IsServing u (moves display a.1 ms)
boot-moves-IsServing u display disk loaded acquired flocks a ms b f =
    moves-IsServing u display a.1 ms f
      (boot-IsServing u disk loaded acquired (started []) flocks a (λ i. absurd i) b)
