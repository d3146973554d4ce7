-- ===== src/Runtime/Cluster/Moved.antt =====
-- A step of one daemon of src/main.rs among several, by what it does to the locks.
use snerdmq.Runtime.{Shared, drop_locks}
use snerdmq.Base.{
  if_neg, ◌≢◌, sym, ◌∙◌, Distinct, ◌↔◌, inr, ◌++◌, In-append_left, [], text_dec, inl, ◌∷◌, none,
  subst, if_pos, In-append_last, In-append_self, arith, Distinct-last, In, some, List, ◌≡◌, Text,
}
use snerdmq.Map.{get-insert_self, Map, get-insert_ne, get-insert, get, insert}
use snerdmq.Runtime.Cluster.{Node, update, System}
use snerdmq.Runtime.Cluster.Locks.{In-decided, drop_locks-out, drop_locks-In}
use snerdmq.Runtime.Cluster.Keys.{keys}

-- The shards of the published engines, and those that acquire_shards has taken and that no engine is
-- published for yet.
abbrev pub hand : Node → List Text
hand n = keys n.daemon ++ n.claiming

pub record IsExclusive (s : System) : Type 0 where
  pub locks : (a k : Text) → (get k s.shared.flocks ≡ some a) ↔ In k (hand (s.nodes a))
  pub distinct : (a : Text) → Distinct (hand (s.nodes a))

-- The locks after a step of one daemon are those of the others, and those of what it then has.
abbrev Fits : Text → Node → Map Text → Map Text → Type 0
Fits a n flocks flocks' =
    ((k : Text) → (get k flocks' ≡ some a) ↔ In k (hand n))
    × ((b k : Text) → a ≢ b → (get k flocks' ≡ some b) ↔ (get k flocks ≡ some b))

module _ (a : Text) (s : System) (h : IsExclusive s) where
  moved_Exclusive :
      (n : Node) (sh : Shared)
      → Fits a n s.shared.flocks sh.flocks
      → Distinct (hand n)
      → IsExclusive (record { shared = sh; nodes = update s.nodes a n })
  moved_Exclusive n sh (own, rest) d = record {
    locks = λ b k. elim (text_dec a b) [
      | yes p ↦
          rw (if_pos (text_dec a b) p n (s.nodes b))
            (subst (λ c. (get k sh.flocks ≡ some c) ↔ In k (hand n)) p (own k))
      | no m ↦
          rw (if_neg (text_dec a b) m n (s.nodes b))
            ((λ e. (h.locks b k).0 ((rest b k m).0 e)), (λ i. (rest b k m).1 ((h.locks b k).1 i)))
    ];
    distinct = λ b. elim (text_dec a b) [
      | yes p ↦ rw (if_pos (text_dec a b) p n (s.nodes b)) d
      | no m ↦ rw (if_neg (text_dec a b) m n (s.nodes b)) (h.distinct b)
    ];
  }

  -- Steps that touch neither the locks nor the shards of an engine.
  pub same_Exclusive :
      (n : Node) (sh : Shared)
      → sh.flocks ≡ s.shared.flocks
      → hand n ≡ hand (s.nodes a)
      → IsExclusive (record { shared = sh; nodes = update s.nodes a n })
  same_Exclusive n sh e same =
      moved_Exclusive n sh ((λ k. rw (e, same) (h.locks a k)), (λ b k m. rw e ((λ x. x), (λ x. x))))
        (rw same (h.distinct a))

  pub taken_Exclusive :
      (k : Text) (n : Node) (sh : Shared)
      → get k s.shared.flocks ≡ none
      → sh.flocks ≡ insert k a s.shared.flocks
      → hand n ≡ hand (s.nodes a) ++ k ∷ []
      → IsExclusive (record { shared = sh; nodes = update s.nodes a n })
  taken_Exclusive k n sh free e more =
      let fl = s.shared.flocks in
      let held = hand (s.nodes a) in
      moved_Exclusive n sh
        (
          (λ j.
              rw (e, more)
                (elim (text_dec k j) [
                  | yes p ↦ (
                    (λ _. subst (λ x. In x (held ++ k ∷ [])) p (In-append_self k held)),
                    (λ _. subst (λ x. get x (insert k a fl) ≡ some a) p (get-insert_self k a fl)),
                  )
                  | no m ↦ (
                    (λ g.
                        In-append_left j held (k ∷ [])
                          ((h.locks a j).0 (sym (get-insert_ne k j a fl m) ∙ g))),
                    (λ i. elim (In-append_last j k held i) [
                      | inl x ↦ get-insert_ne k j a fl m ∙ (h.locks a j).1 x
                      | inr x ↦ absurd (m (sym x))
                    ]),
                  )
                ])),
          (λ b j m. rw e (elim (text_dec k j) [
            | yes p ↦ (
              (λ g. absurd (ground (arith, get-insert k j a fl))),
              (λ g. absurd (ground (arith, g, free, p))),
            )
            | no m ↦
                ((λ g. sym (get-insert_ne k j a fl m) ∙ g), (λ g. get-insert_ne k j a fl m ∙ g))
          ])),
        )
        (rw more (
          Distinct-last k held (λ i. absurd (ground (arith, (h.locks a k).1 i, free)))
            (h.distinct a)))

  -- Steps that drop locks of the daemon, with what it had them for.
  pub dropped_Exclusive :
      (ks : List Text) (n : Node) (sh : Shared)
      → sh.flocks ≡ drop_locks ks s.shared.flocks
      → ((j : Text) → In j ks → In j (hand (s.nodes a)))
      → ((j : Text) → In j (hand n) ↔ (In j (hand (s.nodes a)) × (In j ks → ⊥)))
      → Distinct (hand n)
      → IsExclusive (record { shared = sh; nodes = update s.nodes a n })
  dropped_Exclusive ks n sh e mine left d =
      let fl = s.shared.flocks in
      moved_Exclusive n sh
        (
          (λ j. rw e (elim (In-decided j ks) [
            | inl i ↦ (
              (λ g. absurd (ground (arith, drop_locks-In j ks fl i, g))),
              (λ m. absurd (((left j).0 m).1 i)),
            )
            | inr i ↦ (
              (λ g. (left j).1 ((h.locks a j).0 (sym (drop_locks-out j ks fl i) ∙ g), i)),
              (λ m. drop_locks-out j ks fl i ∙ (h.locks a j).1 ((left j).0 m).0),
            )
          ])),
          (λ b j m. rw e (elim (In-decided j ks) [
            | inl i ↦ (
              (λ g. absurd (ground (arith, drop_locks-In j ks fl i, g))),
              (λ g. absurd (m (ground (arith, (h.locks a j).1 (mine j i), g)))),
            )
            | inr i ↦
                ((λ g. sym (drop_locks-out j ks fl i) ∙ g), (λ g. drop_locks-out j ks fl i ∙ g))
          ])),
        )
        d
