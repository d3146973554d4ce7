-- ===== src/RateLimiter/Windows.antt =====
-- How many calls of check_and_increment of src/rate_limiter.rs are admitted in a stretch of time.
use snerdmq.RateLimiter.{
  fresh_window, RateWindow, done, LimitsFile, check_and_increment, admit, is_over, current,
}
use snerdmq.Base.{
  ◌++◌, none, zero, suc, ltb, inr, inl, Bool-cases, unwrap_or, ◌≡◌, false, Option, ap, ◌∷◌, ℕ, ◌<◌,
  Bool, All, some, List, true, refl, ◌∙◌, Text, [], ◌≤◌, ◌+◌, arith,
}
use snerdmq.Map.{Map, get-insert_self, insert, get}
use snerdmq.Base.Result.{ok, Result, err, IoError}
use snerdmq.Base.Int.{pos, incr_i32, ℤ}

granted : Result Bool IoError → ℕ
granted (ok true) = 1
granted (ok false) = 0
granted (err e) = 0

-- How many of the calls for one group at the given times are admitted, with no failure of the file.
unfoldable pub admitted : Text → ℤ → List ℕ → LimitsFile → ℕ
unfolding granted check_and_increment
admitted group limit [] file = 0
admitted group limit (t ∷ ts) file =
    granted (check_and_increment done t group limit file).0
    + admitted group limit ts (check_and_increment done t group limit file).1

-- The same on the window of the group alone.
unfoldable pub admitted_window : ℤ → List ℕ → Option RateWindow → ℕ
unfolding granted
admitted_window limit [] o = 0
admitted_window limit (t ∷ ts) o =
    granted (ok (admit limit (current t o)).0)
    + admitted_window limit ts (some (admit limit (current t o)).1)

window_of : Text → LimitsFile → Option RateWindow
window_of group file = get group (unwrap_or file [])

-- Only the window of the group counts, whatever other groups the file holds.
admitted-window_of :
    (group : Text) (limit : ℤ) (ts : List ℕ) (file : LimitsFile)
    → admitted group limit ts file ≡ admitted_window limit ts (window_of group file)
unfolding admitted admitted_window window_of check_and_increment
admitted-window_of group limit [] file = refl
admitted-window_of group limit (t ∷ ts) file =
    let m = unwrap_or file [] in
    let w = (admit limit (current t (get group m))).1 in
    ap (λ n. granted (ok (admit limit (current t (get group m))).0) + n)
      (admitted-window_of group limit ts (some (insert group w m))
        ∙ ap (λ o. admitted_window limit ts o) (get-insert_self group w m))

-- Times at which a window is still the current one.
abbrev pub Within : RateWindow → List ℕ → Type 0
Within w = All (λ t. is_over t w ≡ false)

window_limit :
    (n : ℕ) (ts : List ℕ) (w : RateWindow) (c : ℕ)
    → w.count ≡ pos c
    → c ≤ n
    → n < 2147483648
    → Within w ts
    → c + admitted_window (pos n) ts (some w) ≤ n
unfolding admitted_window granted current admit incr_i32 is_over
window_limit n [] w c e le b h = omega arith
window_limit n (t ∷ ts) w c e le b h = elim (Bool-cases (ltb c n)) [
  | inl room ↦ ground (arith, window_limit n ts (record w { count = pos (c + 1) }) (c + 1) refl)
  | inr full ↦ ground (arith, window_limit n ts w c e)
]

window_of_none :
    (n : ℕ) (t : ℕ) (ts : List ℕ)
    → n < 2147483648
    → Within (fresh_window t) ts
    → admitted_window (pos n) (t ∷ ts) none ≤ n
unfolding admitted_window granted current admit incr_i32 fresh_window is_over
window_of_none zero t ts b h = ground (arith, window_limit 0 ts (fresh_window t) 0 refl)
window_of_none (suc n) t ts b h =
    ground (arith, window_limit (suc n) ts (record { count = pos 1; window_start = t }) 1 refl)

-- Where rate_limits.json is there and can be read, has no window for the group, and the file operations
-- of every call succeed: a group with the limit n, below 2^31, gets at most n admissions from the
-- first call until sixty seconds have passed, whatever windows the other groups have in the file. No
-- other group's call changes the file meanwhile.
pub admitted-le-limit :
    (group : Text) (n t : ℕ) (ts : List ℕ) (m : Map RateWindow)
    → n < 2147483648
    → get group m ≡ none
    → Within (fresh_window t) ts
    → admitted group (pos n) (t ∷ ts) (some m) ≤ n
unfolding window_of
admitted-le-limit group n t ts m b g h =
    rw (admitted-window_of group (pos n) (t ∷ ts) (some m), g) (window_of_none n t ts b h)

abbrev pub replicate : ℕ → ℕ → List ℕ
replicate zero t = []
replicate (suc n) t = t ∷ replicate n t

count_same : (w : RateWindow) (c : ℕ) → w.count ≡ pos c → w ≡ record w { count = pos (c + 0) }
count_same w c e = ground arith

-- As long as there is room, all of k calls at one time are admitted.
fill_window :
    (n k t c : ℕ) (ts : List ℕ) (w : RateWindow)
    → w.count ≡ pos c
    → c + k ≤ n
    → n < 2147483648
    → is_over t w ≡ false
    → admitted_window (pos n) (replicate k t ++ ts) (some w)
      ≡ k + admitted_window (pos n) ts (some (record w { count = pos (c + k) }))
unfolding admitted_window granted current admit incr_i32 is_over
fill_window n zero t c ts w e l b h =
    ap (λ x. admitted_window (pos n) ts (some x)) (count_same w c e) ∙ omega arith
fill_window n (suc k) t c ts w e l b h =
    ground (arith, fill_window n k t (c + 1) ts (record w { count = pos (c + 1) }) refl)

-- k + 1 calls up to the last instant of a window, and k + 1 calls one nanosecond later.
abbrev pub two_bursts : ℕ → ℕ → List ℕ
two_bursts k t =
    t ∷ (replicate k (t + 59_999_999_999) ++ (replicate (suc k) (t + 60_000_000_000) ++ []))

second_burst :
    (k t : ℕ)
    → suc k < 2147483648
    → admitted_window
        (pos (suc k))
        (replicate (suc k) (t + 60_000_000_000) ++ [])
        (some (record { count = pos (1 + k); window_start = t }))
      ≡ suc k
unfolding admitted_window granted current admit incr_i32 is_over fresh_window
second_burst k t b = ground (
  arith,
  fill_window (suc k) k (t + 60_000_000_000) 1 []
      (record { count = pos 1; window_start = t + 60_000_000_000 }) refl,
)

first_call :
    (k t : ℕ) (ts : List ℕ)
    → admitted_window (pos (suc k)) (t ∷ ts) none
      ≡ 1 + admitted_window (pos (suc k)) ts (some (record { count = pos 1; window_start = t }))
unfolding admitted_window granted current admit incr_i32 fresh_window
first_call k t ts = ground arith

last_instant :
    (t : ℕ) (c : ℤ) → is_over (t + 59_999_999_999) (record { count = c; window_start = t }) ≡ false
unfolding is_over
last_instant t c = ground arith

first_burst :
    (k t : ℕ)
    → suc k < 2147483648
    → admitted_window (pos (suc k)) (two_bursts k t) none ≡ suc k + suc k
first_burst k t b =
    first_call k t _
    ∙ ap (λ n. 1 + n)
        (fill_window (suc k) k (t + 59_999_999_999) 1 (replicate (suc k) (t + 60_000_000_000) ++ [])
          (record { count = pos 1; window_start = t }) refl (omega arith) b
          (last_instant t (pos 1)))
    ∙ omega (arith, second_burst k t b)

-- Where rate_limits.json is there and can be read, has no window for the group, and the file operations
-- of every call succeed: a group with the limit k + 1, at most 2^31 - 1, is granted twice that in sixty
-- seconds and one nanosecond or less: all but one of the calls stand within a nanosecond. The window
-- does not roll.
pub admitted-two_bursts :
    (group : Text) (k t : ℕ) (m : Map RateWindow)
    → suc k < 2147483648
    → get group m ≡ none
    → admitted group (pos (suc k)) (two_bursts k t) (some m) ≡ suc k + suc k
unfolding window_of
admitted-two_bursts group k t m b g =
    rw (admitted-window_of group (pos (suc k)) (two_bursts k t) (some m), g) (first_burst k t b)
