-- ===== src/RateLimit/Check.antt =====
-- What a check of a list of devices answers and charges.
use zenstier.Prelude.{
  ℕ, ◌+◌, ◌<◌, ◌≡◌, refl, Option, some, List, [], ◌∷◌, arith, ltb, if◌then◌else◌, ◌==◌, inl, inr,
  Bool-cases,
}
use zenstier.RateLimit.{
  Bucket, Buckets, take, user_cap, user_rate, dev_cap, dev_rate, put, take_devices, allowed_of,
  limited_of, check_command_rate_limit,
}

-- One user token pays for the whole list: the bucket left to the user, and the wait, are those of a
-- single `take`, whatever the devices.
pub check_charges_once :
    (per_minute now : ℕ) (ids : List ℕ) (s : Buckets)
    → let (s', r) = check_command_rate_limit per_minute now ids s in
      (s'.user ≡ some (take (user_cap per_minute) (user_rate per_minute) now s.user).0)
      × (r.user_retry_after_ms ≡ (take (user_cap per_minute) (user_rate per_minute) now s.user).1)
unfolding check_command_rate_limit
check_charges_once per_minute now ids s = (refl, refl)

-- How often `d` stands in a list.
abbrev pub occurs : ℕ → List ℕ → ℕ
occurs d [] = 0
occurs d (e ∷ es) = (if e == d then 1 else 0) + occurs d es

abbrev pub devices_of : List (ℕ × ℕ) → List ℕ
devices_of [] = []
devices_of ((d, w) ∷ r) = d ∷ devices_of r

split_occurs :
    (d : ℕ) (ids ws : List ℕ)
    → occurs d (allowed_of ids ws) + occurs d (devices_of (limited_of ids ws)) ≡ occurs d ids
split_occurs d [] ws = refl
split_occurs d (e ∷ ids) [] = omega (arith, split_occurs d ids [])
split_occurs d (e ∷ ids) (w ∷ ws) = ground (arith, split_occurs d ids ws)

-- Every device asked for is answered as often as it was asked for: it is allowed or told a wait,
-- unless the user is over the limit, and then none is allowed.
pub check_answers_all :
    (per_minute now : ℕ) (ids : List ℕ) (s : Buckets) (d : ℕ)
    → let r = (check_command_rate_limit per_minute now ids s).1 in
      (r.user_retry_after_ms ≡ 0
        → occurs d r.allowed + occurs d (devices_of r.limited) ≡ occurs d ids)
      × (0 < r.user_retry_after_ms → r.allowed ≡ [])
unfolding check_command_rate_limit
check_answers_all per_minute now ids s d =
    let ws = (take_devices (dev_cap per_minute) (dev_rate per_minute) now ids s.devices).1 in
    (λ free. ground (arith, split_occurs d ids ws), λ over. ground arith)

-- A device that is not asked for keeps its bucket.
take_devices-other :
    (cap rate now : ℕ) (ids : List ℕ) (f : ℕ → Option Bucket) (d : ℕ)
    → occurs d ids ≡ 0
    → (take_devices cap rate now ids f).0 d ≡ f d
unfolding take_devices
take_devices-other cap rate now [] f d h = refl
take_devices-other cap rate now (e ∷ ids) f d h =
    ground (arith, take_devices-other cap rate now ids (put f e (take cap rate now (f e)).0) d)

-- A device that is asked for once is charged one token, from its own bucket, and allowed exactly
-- when that was there and the user is not over the limit.
take_devices-once :
    (cap rate now : ℕ) (ids : List ℕ) (f : ℕ → Option Bucket) (d : ℕ)
    → occurs d ids ≡ 1
    → ((take_devices cap rate now ids f).0 d ≡ some (take cap rate now (f d)).0)
      × (occurs d (allowed_of ids (take_devices cap rate now ids f).1)
          ≡ (if ltb 0 (take cap rate now (f d)).1 then 0 else 1))
unfolding take_devices
take_devices-once cap rate now [] f d h = absurd (omega arith)
take_devices-once cap rate now (e ∷ ids) f d h = elim (Bool-cases (e == d)) [
  | inl same ↦
      let none_left : occurs d ids ≡ 0 = ground arith in
      let g = put f e (take cap rate now (f e)).0 in
      let keep = take_devices-other cap rate now ids g d none_left in
      let gone = split_occurs d ids (take_devices cap rate now ids g).1 in ground arith
  | inr other ↦
      let g = put f e (take cap rate now (f e)).0 in
      let rest = take_devices-once cap rate now ids g d (ground arith) in ground arith
]

-- A device asked for once is charged one token from its own bucket and nothing else; it is allowed
-- exactly when that token was there and the user is not over the limit.
pub check_charges_device :
    (per_minute now : ℕ) (ids : List ℕ) (s : Buckets) (d : ℕ)
    → occurs d ids ≡ 1
    → let (s', r) = check_command_rate_limit per_minute now ids s in
      let (b, wait) = take (dev_cap per_minute) (dev_rate per_minute) now (s.devices d) in
      (s'.devices d ≡ some b)
      × (occurs d r.allowed
          ≡ (if ltb 0 r.user_retry_after_ms then 0 else if ltb 0 wait then 0 else 1))
unfolding check_command_rate_limit
check_charges_device per_minute now ids s d h =
    let once = take_devices-once (dev_cap per_minute) (dev_rate per_minute) now ids s.devices d h in
    ground arith
