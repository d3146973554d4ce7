-- ===== src/Sharding/Routing.antt =====
-- route_shard of src/sharding.rs and the owned shards.
use native.Mathlib.Nat.{mod-lt}
use Prim.Native.Nat.{bit_xor}
use snerdmq.Sharding.{as_bytes, route_shard, fnv1a64, fnv_loop}
use snerdmq.Base.{
  ◌*◌, ◌⊎◌, suc, In, length, ◌^◌, inr, some, arith, ◌%◌, inl, zero, get_elem?, [], Text, refl, ◌∷◌,
  List, ℕ, ◌<◌, none, ◌≡◌,
}

fnv_loop_bound : (h : ℕ) (bs : List ℕ) → h < 2 ^ 64 → fnv_loop h bs < 2 ^ 64
unfolding fnv_loop
fnv_loop_bound h [] l = l
fnv_loop_bound h (b ∷ bs) l =
    fnv_loop_bound (bit_xor h b * 0x100000001b3 % 2 ^ 64) bs (mod-lt _ (omega arith))

-- The hash is a 64-bit number.
pub fnv1a64_bound : (text : Text) → fnv1a64 text < 2 ^ 64
unfolding fnv1a64
fnv1a64_bound text = fnv_loop_bound _ (as_bytes text) (omega arith)

get_elem?-lt {ℓ} :
    {A : Type ℓ} (xs : List A) (i : ℕ) → i < length xs → (x : A) × (get_elem? xs i ≡ some x)
get_elem?-lt [] i h = absurd (omega arith)
get_elem?-lt (x ∷ xs) zero h = (x, refl)
get_elem?-lt (x ∷ xs) (suc i) h = get_elem?-lt xs i (omega arith)

get_elem?-In : {A : Type 0} (xs : List A) (i : ℕ) {x : A} → get_elem? xs i ≡ some x → In x xs
get_elem?-In [] i h = cc
get_elem?-In (y ∷ xs) zero h = inl (cc)
get_elem?-In (y ∷ xs) (suc i) h = inr (get_elem?-In xs i h)

-- Routing panics exactly where no shard is owned, and otherwise chooses one of the owned shards, at
-- an index below their number.
pub route_shard_lem :
    (task_id : Text) (owned : List Text)
    → ((route_shard task_id owned ≡ none) × (owned ≡ []))
      ⊎ ((k : Text) × (route_shard task_id owned ≡ some k) × In k owned)
unfolding route_shard
route_shard_lem task_id [] = inl (refl, refl)
route_shard_lem task_id (k ∷ ks) =
    let (x, e) =
      get_elem?-lt (k ∷ ks) (fnv1a64 task_id % length (k ∷ ks)) (mod-lt _ (omega arith)) in
    inr (x, e, get_elem?-In (k ∷ ks) _ e)
