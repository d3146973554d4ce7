-- ===== src/Membership.antt =====
-- src/membership.rs: the claims on the shards of a queue directory. The state is membership.json;
-- what the file system answers is an argument. Each operation holds .membership.lock from its read
-- to its write, so it is one step. Times and durations are nanoseconds.
pub mod Exclusion
pub mod Claims
pub mod Others
pub mod Claimable
use snerdmq.Base.{
  ℕ, zero, suc, ◌+◌, ◌*◌, ◌%◌, ◌^◌, Bool, true, false, Option, none, some, List, [], ◌∷◌, ◌++◌,
  if◌then◌else◌, ltb, Text, codes, ite, text_dec,
}
use snerdmq.Base.Digits.{decimal, parse_i64}
use snerdmq.Base.Int.{ℤ, pos, negsuc}
use snerdmq.Base.Result.{Result, ok, err, IoError, os, ◌>>=◌}
use snerdmq.Map.{Map, get, insert, remove}
use mathlib.Core.Option

abbrev pub second : ℕ
second = 1_000_000_000

abbrev pub lease_duration : ℕ
lease_duration = 30 * second

abbrev pub default_skew_margin_secs : ℕ
default_skew_margin_secs = 5

pub data MembershipError : Type 0 where
  io : IoError → MembershipError
  not_initialized already_initialized : MembershipError
  owned_by_other : Text → Text → MembershipError
  lease_lost : Text → MembershipError
  corrupt : Text → MembershipError

pub record Claim : Type 0 where
  pub owner : Text
  pub lease_expiry : ℕ

pub record Membership : Type 0 where
  pub queue : Text
  pub shards : ℕ
  pub version : ℕ
  pub claims : Map Claim

pub data ClaimOutcome : Type 0 where
  claimed renewed : ClaimOutcome
  taken_over : Text → ClaimOutcome

-- membership.json: missing, not to be read, not to be parsed, or with its value.
pub data MembershipFile : Type 0 where
  missing unreadable : MembershipFile
  unparsable : Text → MembershipFile
  valid : Membership → MembershipFile

-- Whether the lock is taken, and whether the new file is written and renamed.
pub record Io : Type 0 where
  pub locks : Bool
  pub writes : Bool

unfoldable pub shard_key : ℕ → Text
shard_key index = codes "shard-" ++ decimal index

-- <host>@pid-<pid>, from HOSTNAME, else COMPUTERNAME, else a constant
unfoldable pub owner_id : Option Text → Option Text → ℕ → Text
owner_id (some host) computer pid = host ++ codes "@pid-" ++ decimal pid
owner_id none (some host) pid = host ++ codes "@pid-" ++ decimal pid
owner_id none none pid = codes "unknown-host" ++ codes "@pid-" ++ decimal pid

unfoldable pub is_lapsed : Claim → ℕ → ℕ → Bool
is_lapsed c now skew = ltb (c.lease_expiry + skew) now

-- secs.max(0)
clamp_secs : ℤ → ℕ
clamp_secs (pos n) = n
clamp_secs (negsuc n) = 0

-- Duration::seconds panics, here none, above i64::MAX milliseconds.
seconds : ℕ → Option ℕ
seconds n = if ltb 9223372036854775 n then none else some (n * second)

unfoldable pub skew_margin_from : Option Text → Option ℕ
unfolding clamp_secs seconds
skew_margin_from v = elim (Option.bind v parse_i64) [
  | some secs ↦ seconds (clamp_secs secs)
  | none ↦ seconds default_skew_margin_secs
]

-- The filter of claimable_shards.
unfoldable pub is_claimable : Membership → ℕ → ℕ → Text → Text → Bool
is_claimable m now skew owner key = elim (get key m.claims) [
  | none ↦ true
  | some c ↦ ite (text_dec c.owner owner) true (is_lapsed c now skew)
]

-- The keys from `from` on, `n` of them, that pass a test.
unfoldable pub keys_where : (Text → Bool) → ℕ → ℕ → List Text
unfolding shard_key
keys_where test from zero = []
keys_where test from (suc n) =
    let rest = keys_where test (suc from) n in
    if test (shard_key from) then shard_key from ∷ rest else rest

unfoldable pub claimable_shards : Membership → ℕ → ℕ → Text → List Text
unfolding is_claimable keys_where
claimable_shards m now skew owner = keys_where (is_claimable m now skew owner) 0 m.shards

unfoldable pub exists : MembershipFile → Bool
exists missing = false
exists _ = true

abbrev pub Outcome : Type 0 → Type 0
Outcome A = Result A MembershipError × MembershipFile

unfoldable pub with_lock :
    {A : Type 0} → Io → (MembershipFile → Outcome A) → MembershipFile → Outcome A
with_lock i f file = if i.locks then f file else (err (io os), file)

unfoldable pub read_unlocked : MembershipFile → Result Membership MembershipError
read_unlocked missing = err not_initialized
read_unlocked unreadable = err (io os)
read_unlocked (unparsable message) = err (corrupt message)
read_unlocked (valid m) = ok m

unfoldable pub write_unlocked : Io → Membership → MembershipFile → Outcome (Unit {0})
write_unlocked i m file = if i.writes then (ok tt, valid m) else (err (io os), file)

unfoldable pub init_unlocked : Io → Text → ℕ → MembershipFile → Outcome (Unit {0})
unfolding write_unlocked exists
init_unlocked i queue shards file =
    if exists file
    then (err already_initialized, file)
    else write_unlocked i (record { queue = queue; shards = shards; version = 0; claims = [] }) file

unfoldable pub init : Io → Text → ℕ → MembershipFile → Outcome (Unit {0})
unfolding with_lock init_unlocked
init i queue shards = with_lock i (init_unlocked i queue shards)

unfoldable pub load : Io → MembershipFile → Outcome Membership
unfolding with_lock read_unlocked
load i = with_lock i (λ file. (read_unlocked file, file))

-- The version is a u64.
unfoldable pub bump : Membership → Membership
bump m = record m { version = (m.version + 1) % 2 ^ 64 }

after_write : {A : Type 0} → A → Outcome (Unit {0}) → Outcome A
after_write out (ok _, file) = (ok out, file)
after_write out (err e, file) = (err e, file)

commit : {A : Type 0} → Io → Result (A × Membership) MembershipError → MembershipFile → Outcome A
unfolding after_write write_unlocked bump
commit i (err e) file = (err e, file)
commit i (ok (out, m)) file = after_write out (write_unlocked i (bump m) file)

unfoldable pub mutate :
    {A : Type 0}
    → Io
    → (Membership → Result (A × Membership) MembershipError)
    → MembershipFile
    → Outcome A
unfolding with_lock read_unlocked commit
mutate i f = with_lock i (λ file. commit i (read_unlocked file >>= f) file)

unfoldable pub lease : Text → ℕ → Claim
lease owner now = record { owner = owner; lease_expiry = now + lease_duration }

put_claim : Text → Claim → Membership → Membership
put_claim shard c m = record m { claims = insert shard c m.claims }

drop_claim : Text → Membership → Membership
drop_claim shard m = record m { claims = remove shard m.claims }

claim_entry :
    Text
    → Text
    → ℕ
    → ℕ
    → Option Claim
    → Membership
    → Result (ClaimOutcome × Membership) MembershipError
unfolding lease put_claim
claim_entry shard owner now skew none m = ok (claimed, put_claim shard (lease owner now) m)
claim_entry shard owner now skew (some existing) m =
    ite (text_dec existing.owner owner) (ok (renewed, put_claim shard (lease owner now) m)) (
      if is_lapsed existing now skew
      then ok (taken_over existing.owner, put_claim shard (lease owner now) m)
      else err (owned_by_other shard existing.owner))

unfoldable pub claim : Io → Text → Text → ℕ → ℕ → MembershipFile → Outcome ClaimOutcome
unfolding mutate claim_entry
claim i shard owner now skew =
    mutate i (λ m. claim_entry shard owner now skew (get shard m.claims) m)

revert_entry : Text → Text → Option Claim → Membership → Membership
unfolding drop_claim
revert_entry shard owner none m = m
revert_entry shard owner (some c) m = ite (text_dec c.owner owner) (drop_claim shard m) m

unfoldable pub revert_claim : Io → Text → Text → MembershipFile → Outcome (Unit {0})
unfolding mutate revert_entry
revert_claim i shard owner =
    mutate i (λ m. ok (tt, revert_entry shard owner (get shard m.claims) m))

-- What renew and release do with the caller's own claim; they fail on any other.
if_owned : Text → Text → Option Claim → Membership → Result (Unit {0} × Membership) MembershipError
if_owned shard owner none m = err (lease_lost shard)
if_owned shard owner (some c) m = ite (text_dec c.owner owner) (ok (tt, m)) (err (lease_lost shard))

unfoldable pub renew : Io → Text → Text → ℕ → MembershipFile → Outcome (Unit {0})
unfolding mutate if_owned put_claim lease
renew i shard owner now =
    mutate i (λ m. if_owned shard owner (get shard m.claims) (put_claim shard (lease owner now) m))

unfoldable pub release : Io → Text → Text → MembershipFile → Outcome (Unit {0})
unfolding mutate if_owned drop_claim
release i shard owner =
    mutate i (λ m. if_owned shard owner (get shard m.claims) (drop_claim shard m))
