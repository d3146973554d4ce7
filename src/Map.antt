-- ===== src/Map.antt =====
-- std::collections::HashMap and HashSet with String keys, as association lists. A HashMap's order
-- of iteration is unspecified: here it is the order of the list.
use snerdmq.Base.{
  false, true, ℕ, ◌+◌, ◌≡◌, refl, ite, if_pos, if_neg, Option, none, some, List, [], ◌∷◌, arith,
  Text, text_dec, length, codes, Bool, is_some, ◌≢◌,
}

abbrev pub Map {ℓ} : Type ℓ → Type ℓ
Map V = List (Text × V)

module _ {ℓ} {V : Type ℓ} where
  unfoldable pub get : Text → Map V → Option V
  unfolding text_dec
  get k [] = none
  get k ((j, v) ∷ m) = ite (text_dec j k) (some v) (get k m)

  unfoldable pub remove : Text → Map V → Map V
  unfolding text_dec
  remove k [] = []
  remove k ((j, v) ∷ m) = let rest = remove k m in ite (text_dec j k) rest ((j, v) ∷ rest)

  unfoldable pub insert : Text → V → Map V → Map V
  unfolding remove
  insert k v m = (k, v) ∷ remove k m

  unfoldable pub values : Map V → List V
  values [] = []
  values ((k, v) ∷ m) = v ∷ values m

  -- contains_key, and contains for a set
  unfoldable pub contains : Text → Map V → Bool
  unfolding get
  contains k m = is_some (get k m)

  unfoldable pub keys : Map V → List Text
  keys [] = []
  keys ((k, v) ∷ m) = k ∷ keys m

  pub get-remove : (k j : Text) (m : Map V) → get j (remove k m) ≡ ite (text_dec k j) none (get j m)
  unfolding get remove
  get-remove k j [] = ground arith
  get-remove k j ((i, v) ∷ m) = ground (arith, get-remove k j m)

  pub get-insert :
      (k j : Text) (v : V) (m : Map V)
      → get j (insert k v m) ≡ ite (text_dec k j) (some v) (get j m)
  unfolding get insert
  get-insert k j v m = ground (arith, get-remove k j m)

  pub get-insert_self : (k : Text) (v : V) (m : Map V) → get k (insert k v m) ≡ some v
  get-insert_self k v m = ground (arith, get-insert k k v m)

  pub get-insert_ne : (k j : Text) (v : V) (m : Map V) → k ≢ j → get j (insert k v m) ≡ get j m
  get-insert_ne k j v m h = ground (arith, get-insert k j v m)

  pub get-remove_self : (k : Text) (m : Map V) → get k (remove k m) ≡ none
  get-remove_self k m = ground (arith, get-remove k k m)

  pub get-remove_ne : (k j : Text) (m : Map V) → k ≢ j → get j (remove k m) ≡ get j m
  get-remove_ne k j m h = ground (arith, get-remove k j m)

  pub contains-insert :
      (k j : Text) (v : V) (m : Map V)
      → contains j (insert k v m) ≡ ite (text_dec k j) true (contains j m)
  unfolding contains
  contains-insert k j v m = ground (arith, get-insert k j v m)

  pub contains-remove :
      (k j : Text) (m : Map V) → contains j (remove k m) ≡ ite (text_dec k j) false (contains j m)
  unfolding contains
  contains-remove k j m = ground (arith, get-remove k j m)

  -- Each key has one entry.
  abbrev pub IsMap : Map V → Type ℓ
  IsMap [] = Unit
  IsMap ((k, v) ∷ m) = (get k m ≡ none) × IsMap m

  pub remove-IsMap : (k : Text) (m : Map V) → IsMap m → IsMap (remove k m)
  unfolding get remove
  remove-IsMap k [] h = h
  remove-IsMap k ((j, v) ∷ m) h = ground (arith, remove-IsMap k m h.1, get-remove k j m)

  pub insert-IsMap : (k : Text) (v : V) (m : Map V) → IsMap m → IsMap (insert k v m)
  unfolding insert
  insert-IsMap k v m h = (get-remove_self k m, remove-IsMap k m h)

  pub remove_absent : (k : Text) (m : Map V) → get k m ≡ none → remove k m ≡ m
  unfolding get remove
  remove_absent k [] h = refl
  remove_absent k ((j, v) ∷ m) h = ground (arith, remove_absent k m)

  pub length-remove :
      (k : Text) (m : Map V) (v : V)
      → IsMap m
      → get k m ≡ some v
      → length (remove k m) + 1 ≡ length m
  unfolding get remove
  length-remove k [] v u h = cc
  length-remove k ((j, w) ∷ m) v u h = elim (text_dec j k) [
    | yes p ↦ rw (if_pos _ p) (rw (remove_absent k m (rw p at u.0)) (omega arith))
    | no p ↦ rw (if_neg _ p) (omega (arith, length-remove k m v u.1 (rw (if_neg _ p) at h)))
  ]

pub ruleset map_laws = (get-insert, get-remove)

get_example : get {V = ℕ} (codes "ab") (insert (codes "cd") 3 (insert (codes "ab") 5 [])) ≡ some 5
unfolding get insert
get_example = refl
