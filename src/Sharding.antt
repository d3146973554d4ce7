-- ===== src/Sharding.antt =====
-- src/sharding.rs: routing of task ids to shards, and the layout of the storage directory at boot.
pub mod Layout
pub mod Routing
use snerdmq.Base.{
  ℕ, ◌+◌, ◌*◌, ◌%◌, ◌/◌, ◌^◌, Option, none, List, [], ◌∷◌, ◌++◌, if◌then◌else◌, ltb, Text, codes,
  length, get_elem?, ◌≡◌, refl,
}
use Prim.Native.Nat.{bit_xor}

-- str::as_bytes: the UTF-8 encoding of a character.
unfoldable pub encode : ℕ → List ℕ
encode c =
    if ltb c 0x80
    then c ∷ []
    else if ltb c 0x800
    then (0xc0 + c / 0x40) ∷ (0x80 + c % 0x40) ∷ []
    else if ltb c 0x10000
    then (0xe0 + c / 0x1000) ∷ (0x80 + c / 0x40 % 0x40) ∷ (0x80 + c % 0x40) ∷ []
    else (0xf0 + c / 0x40000)
      ∷ (0x80 + c / 0x1000 % 0x40)
      ∷ (0x80 + c / 0x40 % 0x40)
      ∷ (0x80 + c % 0x40)
      ∷ []

unfoldable pub as_bytes : Text → List ℕ
unfolding encode
as_bytes [] = []
as_bytes (c ∷ cs) = encode c ++ as_bytes cs

fnv_loop : ℕ → List ℕ → ℕ
fnv_loop hash [] = hash
fnv_loop hash (b ∷ bs) = fnv_loop (bit_xor hash b * 0x100000001b3 % 2 ^ 64) bs

unfoldable pub fnv1a64 : Text → ℕ
unfolding fnv_loop as_bytes
fnv1a64 text = fnv_loop 0xcbf29ce484222325 (as_bytes text)

-- none is the panic on an empty list. The index is below the length, so the access itself is safe.
unfoldable pub route_shard {ℓ} : {A : Type ℓ} → Text → List A → Option A
unfolding fnv1a64
route_shard task_id [] = none
route_shard task_id (k ∷ ks) = get_elem? (k ∷ ks) (fnv1a64 task_id % length (k ∷ ks))

fnv1a_empty : fnv1a64 (codes "") ≡ 0xcbf29ce484222325
unfolding fnv1a64
fnv1a_empty = refl

fnv1a_a : fnv1a64 (codes "a") ≡ 0xaf63dc4c8601ec8c
unfolding fnv1a64
fnv1a_a = refl

fnv1a_foobar : fnv1a64 (codes "foobar") ≡ 0x85944171f73967e8
unfolding fnv1a64
fnv1a_foobar = refl
