-- ===== src/RateLimit.antt =====
-- server/infrastructure/ratelimit/ratelimit.ts: the token buckets of command dispatch. The two Lua
-- scripts run atomically in Redis, so each is one function of the stored value. Tokens are counted
-- in parts of 1/180000, in which both rates are whole numbers for each millisecond: Lua's rounding
-- of fractions is left out. The times of successive calls do not decrease.
pub mod Rate
pub mod Retry
pub mod Check
pub mod Window
mod Tests
use zenstier.Prelude.{
  ℕ, ◌+◌, ◌-◌, ◌*◌, ◌/◌, ◌≡◌, Bool, Option, none, some, List, [], ◌∷◌, ltb, leb, ◌==◌, max, min,
  if◌then◌else◌,
}

-- One token.
abbrev pub unit : ℕ
unit = 180000

-- The hash at a bucket's key, with the time at which Redis drops the key.
pub record Bucket : Type 0 where
  pub tokens : ℕ
  pub stamp : ℕ
  pub expires : ℕ

abbrev pub ceil_div : ℕ → ℕ → ℕ
ceil_div a b = (a + (b - 1)) / b

-- What `HMGET` finds: nothing at a key that has expired.
abbrev pub stored : ℕ → Option Bucket → Option Bucket
stored now none = none
stored now (some b) = if leb b.expires now then none else some b

module _ (cap rate now : ℕ) where
  -- `tokens` after the refill.
  unfoldable pub refill : Option Bucket → ℕ
  refill none = min cap (cap + (now - now) * rate)
  refill (some b) = min cap (b.tokens + (now - b.stamp) * rate)

  abbrev pub write : ℕ → Bucket
  write tokens = record { tokens = tokens; stamp = now; expires = now + ceil_div cap rate }

  -- `take` of the script: the bucket that it leaves, and the wait in milliseconds.
  unfoldable pub take : Option Bucket → Bucket × ℕ
  take b =
      let tokens = refill (stored now b) in
      if ltb tokens unit
      then (write tokens, ceil_div (unit - tokens) rate)
      else (write (tokens - unit), 0)

abbrev pub user_cap : ℕ → ℕ
user_cap per_minute = per_minute * unit

abbrev pub user_rate : ℕ → ℕ
user_rate per_minute = 3 * per_minute

abbrev pub dev_cap : ℕ → ℕ
dev_cap per_minute = max 2 (ceil_div per_minute 3) * unit

abbrev pub dev_rate : ℕ → ℕ
dev_rate per_minute = max 36 per_minute

-- The buckets of one user and of the devices.
pub record Buckets : Type 0 where
  pub user : Option Bucket
  pub devices : ℕ → Option Bucket

abbrev pub put : (ℕ → Option Bucket) → ℕ → Bucket → ℕ → Option Bucket
put f k b j = if k == j then some b else f j

-- The script's loop over the device keys, with the waits that it collects.
take_devices : (cap rate now : ℕ) → List ℕ → (ℕ → Option Bucket) → (ℕ → Option Bucket) × List ℕ
take_devices cap rate now [] f = (f, [])
take_devices cap rate now (d ∷ ds) f =
    let (b, wait) = take cap rate now (f d) in
    let (g, waits) = take_devices cap rate now ds (put f d b) in (g, wait ∷ waits)

pub record RateLimitResult : Type 0 where
  pub allowed : List ℕ
  pub limited : List (ℕ × ℕ)
  pub user_retry_after_ms : ℕ

-- The `forEach` over the device ids and their waits; a missing wait counts as 0.
abbrev pub allowed_of : List ℕ → List ℕ → List ℕ
allowed_of [] ws = []
allowed_of (d ∷ ds) [] = d ∷ allowed_of ds []
allowed_of (d ∷ ds) (w ∷ ws) = let rest = allowed_of ds ws in if ltb 0 w then rest else d ∷ rest

abbrev pub limited_of : List ℕ → List ℕ → List (ℕ × ℕ)
limited_of [] ws = []
limited_of (d ∷ ds) [] = limited_of ds []
limited_of (d ∷ ds) (w ∷ ws) =
    let rest = limited_of ds ws in if ltb 0 w then (d, w) ∷ rest else rest

unfoldable pub check_command_rate_limit :
    (per_minute now : ℕ) → List ℕ → Buckets → Buckets × RateLimitResult
unfolding take_devices
check_command_rate_limit per_minute now ids s =
    let (devices, waits) =
      take_devices (dev_cap per_minute) (dev_rate per_minute) now ids s.devices in
    let (user, wait) = take (user_cap per_minute) (user_rate per_minute) now s.user in
    (
      record { user = some user; devices = devices },
      record {
        allowed = if ltb 0 wait then [] else allowed_of ids waits;
        limited = limited_of ids waits;
        user_retry_after_ms = wait;
      },
    )
