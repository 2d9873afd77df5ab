-- ===== src/RateLimit/Tests.antt =====
-- The rate limiter at concrete inputs.
use zenstier.Prelude.{◌+◌, ◌-◌, ◌*◌, ◌≤◌, ◌≡◌, refl, Option, none, some, [], ◌∷◌, arith}
use zenstier.RateLimit.{unit, Bucket, Buckets, refill, take, user_cap, user_rate}
use zenstier.RateLimit.Rate.{granted, last, granted_bound}
use zenstier.RateLimit.Window.{Counter}

abbrev fresh : Buckets
fresh = record { user = none; devices = λ d. none }

-- One call a minute: the second call at once waits a minute.
second_waits :
    (take (user_cap 1) (user_rate 1) 7 (some (take (user_cap 1) (user_rate 1) 7 none).0)).1 ≡ 60000
unfolding take refill
second_waits = refl

granted_bound_example :
    granted (user_cap 2) (user_rate 2) none (0 ∷ 10 ∷ 20 ∷ 40000 ∷ []) * unit
    ≤ user_cap 2 + (last 0 (10 ∷ 20 ∷ 40000 ∷ []) - 0) * user_rate 2
granted_bound_example =
    granted_bound (user_cap 2) (user_rate 2) none 0 (10 ∷ 20 ∷ 40000 ∷ []) (omega arith)
      (omega arith)

abbrev spent : Option Bucket
spent = some (record { tokens = 0; stamp = 0; expires = 90000 })

abbrev used : Counter
used = record { current = 5; expires = some 900 }
