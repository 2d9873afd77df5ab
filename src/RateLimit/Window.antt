-- ===== src/RateLimit/Window.antt =====
-- server/infrastructure/ratelimit/ratelimit.ts: the fixed-window counter of sign-in, enrollment and
-- invite redemption. Redis may be down at any call, which the flag `up` says.
use zenstier.Prelude.{
  ℕ, suc, ◌+◌, ◌-◌, ◌≤◌, ◌<◌, ◌≡◌, refl, ◌↔◌, Bool, true, false, Option, none, some, List, [], ◌∷◌,
  arith, length, ltb, leb, ◌==◌, min, if◌then◌else◌, All, is_some,
}

-- The value of a counter's key; a key without an expiry is `none`.
pub record Counter : Type 0 where
  pub current : ℕ
  pub expires : Option ℕ

abbrev pub is_gone : ℕ → Option ℕ → Bool
is_gone now none = false
is_gone now (some e) = leb e now

abbrev pub stored : ℕ → Option Counter → Option Counter
stored now none = none
stored now (some c) = if is_gone now c.expires then none else some c

-- `INCR`, which keeps the key's expiry.
abbrev incr : Option Counter → Counter
incr none = record { current = 1; expires = none }
incr (some c) = record c { current = suc c.current }

-- `PTTL`, where no expiry counts as the whole window.
abbrev wait_for : ℕ → ℕ → Option ℕ → ℕ
wait_for window_ms now none = window_ms
wait_for window_ms now (some e) = e - now

abbrev expire : ℕ → ℕ → Counter → Counter
expire window_ms now c = if c.current == 1 then record c { expires = some (now + window_ms) } else c

-- The script, at a key that is stored or not.
window_script : (limit window_ms now : ℕ) → Option Counter → Counter × ℕ
window_script limit window_ms now o =
    let c = expire window_ms now (incr o) in
    (c, if ltb limit c.current then wait_for window_ms now c.expires else 0)

unfoldable pub consume_rate_limit :
    (up : Bool) (limit window_ms now : ℕ) → Option Counter → Option Counter × ℕ
unfolding window_script
consume_rate_limit false limit window_ms now o = (o, window_ms)
consume_rate_limit true limit window_ms now o =
    let (c, wait) = window_script limit window_ms now (stored now o) in (some c, wait)

abbrev at_least : ℕ → Option Counter → Bool
at_least limit none = false
at_least limit (some c) = leb limit c.current

unfoldable pub is_rate_limited : (up : Bool) (limit now : ℕ) → Option Counter → Bool
is_rate_limited false limit now o = true
is_rate_limited true limit now o = at_least limit (stored now o)

pub reset_rate_limit : (up : Bool) → Option Counter → Option Counter
reset_rate_limit false o = o
reset_rate_limit true o = none

-- A key that the script has written: it counts a call, and has an expiry.
pub record IsWritten (c : Counter) : Type 0 where
  pub positive : 0 < c.current
  pub expiring : is_some c.expires ≡ true

-- Looking without charging agrees with charging: a caller is not limited exactly when the next
-- charge at that time lets it through; with Redis down both refuse.
pub is_rate_limited-consume :
    (up : Bool) (limit window_ms now : ℕ) (o : Option Counter)
    → 0 < limit
    → 0 < window_ms
    → ((c : Counter) → o ≡ some c → IsWritten c)
    → (is_rate_limited up limit now o ≡ false)
      ↔ ((consume_rate_limit up limit window_ms now o).1 ≡ 0)
unfolding is_rate_limited consume_rate_limit
is_rate_limited-consume false limit window_ms now o h k v = ground arith
is_rate_limited-consume true limit window_ms now none h k v = ground arith
is_rate_limited-consume true limit window_ms now (some c) h k v = let w = v c refl in ground arith

-- The calls let through, of calls at the given times with Redis up.
pub admitted : (limit window_ms : ℕ) → Option Counter → List ℕ → ℕ
admitted limit window_ms o [] = 0
admitted limit window_ms o (t ∷ ts) =
    let (c, wait) = consume_rate_limit true limit window_ms t o in
    (if wait == 0 then 1 else 0) + admitted limit window_ms c ts

admitted_stored :
    (limit window_ms e n : ℕ) (ts : List ℕ)
    → 0 < n
    → All (λ t. t < e) ts
    → admitted limit window_ms (some (record { current = n; expires = some e })) ts
      ≡ min (limit - n) (length ts)
unfolding admitted consume_rate_limit
admitted_stored limit window_ms e n [] p h = omega arith
admitted_stored limit window_ms e n (t ∷ ts) p (h, hs) =
    ground (arith, admitted_stored limit window_ms e (suc n) ts)

-- In the window that the first call opens, exactly the first `limit` calls are let through,
-- whenever in the window they come.
pub window_admits :
    (limit window_ms t : ℕ) (ts : List ℕ)
    → 0 < limit
    → All (λ u. u < t + window_ms) ts
    → admitted limit window_ms none (t ∷ ts) ≡ min limit (length (t ∷ ts))
unfolding admitted consume_rate_limit
window_admits limit window_ms t ts p h =
    ground (arith, admitted_stored limit window_ms (t + window_ms) 1 ts)

-- Once the window is over, or the counter is reset, the next call is counted as the first.
pub window_restarts :
    (limit window_ms now e n : ℕ) (o : Option Counter)
    → e ≤ now
    → (consume_rate_limit true limit window_ms now (some (record { current = n; expires = some e }))
        ≡ consume_rate_limit true limit window_ms now none)
      × (consume_rate_limit true limit window_ms now (reset_rate_limit true o)
          ≡ consume_rate_limit true limit window_ms now none)
unfolding consume_rate_limit reset_rate_limit
window_restarts limit window_ms now e n o h = ground arith

-- A counter with `n` calls whose window ends at `e`.
abbrev pub opened : (n e : ℕ) → Option Counter
opened n e = some (record { current = n; expires = some e })

pub consume-none :
    (limit window_ms now : ℕ)
    → (consume_rate_limit true limit window_ms now none).0 ≡ opened 1 (now + window_ms)
unfolding consume_rate_limit
consume-none limit window_ms now = refl

pub consume-opened :
    (limit window_ms now n e : ℕ)
    → 0 < n
    → now < e
    → (consume_rate_limit true limit window_ms now (opened n e)).0 ≡ opened (suc n) e
unfolding consume_rate_limit
consume-opened limit window_ms now n e p h = ground arith

pub is_rate_limited-opened :
    (limit now n e : ℕ) → now < e → is_rate_limited true limit now (opened n e) ≡ leb limit n
unfolding is_rate_limited
is_rate_limited-opened limit now n e h = ground arith

pub is_rate_limited-down :
    (limit now : ℕ) (o : Option Counter) → is_rate_limited false limit now o ≡ true
unfolding is_rate_limited
is_rate_limited-down limit now o = refl
