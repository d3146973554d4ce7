-- ===== src/Task/Priority/Order.antt =====
-- The heap order of src/task.rs on urgency scores, and what a heap pops.
use snerdmq.Task.Priority
use mathlib.Core.List.Perm
use mathlib.Core.List.{Perm}
use snerdmq.Task.{RetryableTask}
use snerdmq.Base.{
  true, subst, some, ◌<◌, ltb→lt, not_ltb, sym, ◌∙◌, arith, All, List, inr, inl, ◌≡◌, Bool-cases,
  unwrap_or, false, ℕ, ◌∷◌, ltb, refl, [], ◌≤◌,
}
use snerdmq.Task.Priority.{pop, partial_cmp, pick, is_nan, cmp, is_greater, order_key}

-- The number that a task is ordered by.
abbrev pub urgency : RetryableTask → ℕ
urgency t = order_key (unwrap_or t.urgency_score 0)

abbrev pub HasScore : RetryableTask → Type 0
HasScore t = is_nan (unwrap_or t.urgency_score 0) ≡ false

is_greater_iff :
    (a b : RetryableTask)
    → HasScore a
    → HasScore b
    → Priority.is_greater a b ≡ ltb (urgency b) (urgency a)
unfolding Priority.is_greater cmp partial_cmp
is_greater_iff a b ha hb = ground arith

pick-perm :
    (best : RetryableTask) (us : List RetryableTask)
    → Perm (best ∷ us) ((Priority.pick best us).0 ∷ (Priority.pick best us).1)
unfolding Priority.pick
pick-perm best [] = Perm.refl _
pick-perm best (u ∷ us) = elim (Bool-cases (Priority.is_greater u best)) [
  | inl g ↦ rw g (Perm.trans (Perm.cons best (pick-perm u us)) (Perm.swap _ best _))
  | inr g ↦ rw g (
      Perm.trans (Perm.swap u best us)
        (Perm.trans (Perm.cons u (pick-perm best us)) (Perm.swap _ u _)))
]

pick_replaced :
    (best u : RetryableTask) (us : List RetryableTask)
    → Priority.is_greater u best ≡ true
    → Priority.pick best (u ∷ us) ≡ ((Priority.pick u us).0, best ∷ (Priority.pick u us).1)
unfolding Priority.pick
pick_replaced best u us g = rw g

pick_kept :
    (best u : RetryableTask) (us : List RetryableTask)
    → Priority.is_greater u best ≡ false
    → Priority.pick best (u ∷ us) ≡ ((Priority.pick best us).0, u ∷ (Priority.pick best us).1)
unfolding Priority.pick
pick_kept best u us g = rw g

abbrev Greatest : RetryableTask → RetryableTask × List RetryableTask → Type 0
Greatest best (b, r) = (urgency best ≤ urgency b) × All (λ u. urgency u ≤ urgency b) r × HasScore b

pick-Greatest :
    (best : RetryableTask) (us : List RetryableTask)
    → HasScore best
    → All HasScore us
    → Greatest best (Priority.pick best us)
pick-Greatest best [] h hs = unfold Priority.pick in (omega arith, tt, h)
pick-Greatest best (u ∷ us) h hs = elim (Bool-cases (Priority.is_greater u best)) [
  | inl g ↦
      let (l, a, n) = pick-Greatest u us hs.0 hs.1 in
      let m : urgency best < urgency u = ltb→lt _ _ (sym (is_greater_iff u best hs.0 h) ∙ g) in
      subst (Greatest best) (sym (pick_replaced best u us g)) (omega arith, (omega arith, a), n)
  | inr g ↦
      let (l, a, n) = pick-Greatest best us h hs.1 in
      let m : urgency u ≤ urgency best = not_ltb _ _ (sym (is_greater_iff u best hs.0 h) ∙ g) in
      subst (Greatest best) (sym (pick_kept best u us g)) (l, (omega arith, a), n)
]

-- Where no urgency score is a NaN, a pop of a heap that is not empty takes out one of its tasks and
-- leaves the others, and none of those is more urgent.
pub pop_greatest :
    (t : RetryableTask) (ts : List RetryableTask)
    → All HasScore (t ∷ ts)
    → (b : RetryableTask) × (r : List RetryableTask) × (Priority.pop (t ∷ ts) ≡ some (b, r))
      × Perm (t ∷ ts) (b ∷ r)
      × All (λ u. urgency u ≤ urgency b) r
unfolding Priority.pop
pop_greatest t ts h = (
  (Priority.pick t ts).0,
  (Priority.pick t ts).1,
  refl,
  pick-perm t ts,
  (pick-Greatest t ts h.0 h.1).1,
)
