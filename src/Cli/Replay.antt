-- ===== src/Cli/Replay.antt =====
-- cmd_replay of src/main.rs on the log of src/file_store.rs: which tasks it takes for failed ones.
use snerdmq.FileStore.{delete_found, delete_task, write_line, count_save, save_task_inner, appended}
use snerdmq.Task.{mark_deleted, RetryableTask}
use snerdmq.FileStore.{
  unreadable, FileStore, Reading, malformed, entry, Line, parsed, blank, entries,
}
use snerdmq.Base.{
  text_dec, Option, some, codes, none, ◌++◌, List, refl, sym, In, if_ind, true, inl, ◌≡◌, suc, ◌∷◌,
  Text, inr, [], ℕ, if_pos,
}
use snerdmq.Map.{get, insert, Map, values}
use snerdmq.Cli.{replay_shard, to_recover, latest_state, recovered, is_failed}
use snerdmq.Base.Result.{ok, is_ok}

latest_state-entry :
    (r : ℕ → Reading) (n : ℕ) (m : Map RetryableTask) (ls : List Line) (u : RetryableTask)
    → is_ok (latest_state r n m ls) ≡ true
    → (k : ℕ) × (m' : Map RetryableTask) × (latest_state r n m (ls ++ entry u ∷ [])
        ≡ ok (insert u.task_id (parsed (r k) u) m'))
unfolding latest_state
latest_state-entry r n m [] u h = (n, m, refl)
latest_state-entry r n m (blank ∷ ls) u h = latest_state-entry r n m ls u h
latest_state-entry r n m (malformed ∷ ls) u h = latest_state-entry r n m ls u h
latest_state-entry r n m (unreadable ∷ ls) u h = absurd (cc)
latest_state-entry r n m (entry t ∷ ls) u h =
    latest_state-entry r (suc n) (insert t.task_id (parsed (r n) t) m) ls u h

to_recover-In :
    (target_type : Text) (now : ℕ) (t : RetryableTask) (ts : List RetryableTask)
    → is_failed target_type t ≡ true
    → In t ts
    → In (entry (recovered now t)) (entries (to_recover target_type now ts))
unfolding to_recover entries
to_recover-In target_type now t [] f h = absurd h
to_recover-In target_type now t (u ∷ ts) f (inl e) = rw (sym e) (rw f (inl refl))
to_recover-In target_type now t (u ∷ ts) f (inr h) =
    let rest = to_recover-In target_type now t ts f h in
    if_ind (λ us. In (entry (recovered now t)) (entries us)) (is_failed target_type u)
      (λ _. inr rest) (λ _. rest)

In-append : (x : Line) (xs ys : List Line) → In x ys → In x (xs ++ ys)
In-append x [] ys h = h
In-append x (y ∷ xs) ys h = inr (In-append x xs ys h)

deleted_line :
    (now later : ℕ) (len : Option ℕ) (t : RetryableTask) (s : FileStore) (ls : List Line)
    → get t.task_id s.tasks_cache ≡ some t
    → t.deleted_at ≡ none
    → s.log ≡ some ls
    → (delete_task now later t.task_id appended len s).1.log
      ≡ some (ls ++ entry (mark_deleted now later t) ∷ [])
unfolding delete_task delete_found save_task_inner write_line count_save mark_deleted
deleted_line now later len t s ls g d l = rw g (rw d (rw l refl))

is_failed_marked :
    (g : Reading) (now later : ℕ) (message : Text) (t : RetryableTask)
    → t.last_error_obj ≡ some message
    → is_failed (codes "all") (parsed g (mark_deleted now later t)) ≡ true
unfolding is_failed mark_deleted parsed
is_failed_marked g now later message t e =
    rw e (rw (if_pos (text_dec (codes "all") (codes "all")) refl) refl)

-- Where the cached task keeps the error of an earlier execution and the log can be read, the delete
-- that ends a successful execution leaves a log on which replay of all types puts the task back.
pub replay_after_success :
    (r : ℕ → Reading) (now later again : ℕ) (len : Option ℕ) (message : Text) (t : RetryableTask)
    (s : FileStore) (ls : List Line)
    → get t.task_id s.tasks_cache ≡ some t
    → t.deleted_at ≡ none
    → t.last_error_obj ≡ some message
    → s.log ≡ some ls
    → is_ok (latest_state r 0 [] ls) ≡ true
    → (k : ℕ) × (new_log : List Line) × (replay_shard r
          (codes "all")
          again
          (delete_task now later t.task_id appended len s).1.log
        ≡ ok (some new_log))
      × In (entry (recovered again (parsed (r k) (mark_deleted now later t)))) new_log
unfolding replay_shard mark_deleted parsed
replay_after_success r now later again len message t s ls g d e l readable =
    let (k, m, found) = latest_state-entry r 0 [] ls (mark_deleted now later t) readable in
    let failed : is_failed (codes "all") (parsed (r k) (mark_deleted now later t)) ≡ true =
      is_failed_marked (r k) now later message t e in
    let log = ls ++ entry (mark_deleted now later t) ∷ [] in
    let u = parsed (r k) (mark_deleted now later t) in
    let us = values (insert t.task_id u m) in
    let first : In u us = unfold values insert in inl refl in
    (
      k,
      log ++ entries (to_recover (codes "all") again us),
      rw (deleted_line now later len t s ls g d l) (rw found refl),
      In-append (entry (recovered again u)) log (entries (to_recover (codes "all") again us))
          (to_recover-In (codes "all") again u us failed first),
    )
