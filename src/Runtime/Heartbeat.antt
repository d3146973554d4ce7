-- ===== src/Runtime/Heartbeat.antt =====
-- What a tick of the heartbeat in src/main.rs and the release at shutdown do to the claims.
use snerdmq.Membership.{Claim, release, MembershipFile, valid, second, Membership, Io}
use snerdmq.Base.{
  ◌∙◌, inr, subst, suc, ◌∷◌, sym, List, All, [], text_dec, refl, if_neg, inl, if_pos, Option, none,
  true, ◌≢◌, ℕ, Text, ◌*◌, ◌≡◌, ◌⊎◌, ◌+◌, some,
}
use snerdmq.Map.{get-remove_self, get}
use snerdmq.Runtime.Engines.{release_all, ShardEngine}
use snerdmq.Membership.Exclusion.{holder}
use snerdmq.Membership.Others.{release_ne}

-- An engine that goes on has a lease of thirty seconds from a time of the tick.
abbrev pub Leased : Text → (ℕ → ℕ) → MembershipFile → ShardEngine → Type 0
Leased owner now f e =
    (e.queue.paused ≡ true)
    ⊎ ((n : ℕ) × (holder e.key f
          ≡ some (record { owner = owner; lease_expiry = now n + 30 * second })))

-- Where an engine is after its turn, and the file.
abbrev Beaten : Text → (ℕ → ℕ) → Text → ShardEngine × MembershipFile → Type 0
Beaten owner now k (e, f) = ((m : Membership) × (f ≡ valid m)) × (e.key ≡ k) × Leased owner now f e

-- The engines have different keys.
abbrev pub AreDistinct : List ShardEngine → Type 0
AreDistinct [] = Unit
AreDistinct (e ∷ es) = All (λ (d : ShardEngine). d.key ≢ e.key) es × AreDistinct es

-- The shard is free or another daemon's.
abbrev pub IsGivenBack : Text → MembershipFile → Text → Type 0
IsGivenBack owner f k =
    (holder k f ≡ none) ⊎ ((c : Claim) × (holder k f ≡ some c) × (c.owner ≢ owner))

release-IsGivenBack :
    (i : Io) (owner k : Text) (m : Membership) (o : Option Claim)
    → i.locks ≡ true
    → i.writes ≡ true
    → get k m.claims ≡ o
    → ((m' : Membership) × ((release i k owner (valid m)).1 ≡ valid m'))
      × IsGivenBack owner (release i k owner (valid m)).1 k
unfolding release holder
release-IsGivenBack i owner k m none l w g = rw (l, g) ((m, refl), inl g)
release-IsGivenBack i owner k m (some c) l w g = elim (text_dec c.owner owner) [
  | yes p ↦ rw (l, g, w, if_pos _ p) ((_, refl), inl (get-remove_self k m.claims))
  | no q ↦ rw (l, g, if_neg _ q) ((m, refl), inr (c, g, q))
]

release_all_ne :
    (i : ℕ → Io) (owner k : Text) (n : ℕ) (es : List ShardEngine) (f : MembershipFile)
    → All (λ (e : ShardEngine). e.key ≢ k) es
    → holder k (release_all i owner n es f) ≡ holder k f
unfolding release_all
release_all_ne i owner k n [] f h = refl
release_all_ne i owner k n (e ∷ es) f h =
    release_all_ne i owner k (suc n) es (release (i n) e.key owner f).1 h.1
    ∙ release_ne (i n) e.key k owner f h.0

-- Where every lock and write succeeds, the releases at shutdown leave none of the daemon's shards
-- claimed by it.
pub release_all-IsGivenBack :
    (i : ℕ → Io) (owner : Text) (n : ℕ) (es : List ShardEngine) (m : Membership)
    → ((j : ℕ) → (i j).locks ≡ true)
    → ((j : ℕ) → (i j).writes ≡ true)
    → AreDistinct es
    → All (λ (e : ShardEngine). IsGivenBack owner (release_all i owner n es (valid m)) e.key) es
unfolding release_all
release_all-IsGivenBack i owner n [] m l w d = tt
release_all-IsGivenBack i owner n (e ∷ es) m l w d =
    let ((m', v), h) =
      release-IsGivenBack (i n) owner e.key m (get e.key m.claims) (l n) (w n) refl in
    let f' = (release (i n) e.key owner (valid m)).1 in
    let same = release_all_ne i owner e.key (suc n) es f' d.0 in
    (
      elim h [ inl x ↦ inl (same ∙ x) | inr (c, x, y) ↦ inr (c, same ∙ x, y) ],
      subst
          (λ f.
            All (λ (x : ShardEngine). IsGivenBack owner (release_all i owner (suc n) es f) x.key)
              es)
          (sym v) (release_all-IsGivenBack i owner (suc n) es m' l w d.1),
    )
