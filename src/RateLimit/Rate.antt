-- ===== src/RateLimit/Rate.antt =====
-- How much one bucket grants over time.
use zenstier.Prelude.{
  ℕ, ◌+◌, ◌-◌, ◌*◌, ◌≤◌, ◌<◌, ◌≡◌, subst, Option, none, some, List, [], ◌∷◌, arith, ltb, leb, ◌==◌,
  min, if◌then◌else◌, Bool-cases, inl, inr,
}
use zenstier.RateLimit.{unit, Bucket, ceil_div, stored, refill, write, take}

pub ceil_div-ge : (a b : ℕ) → 0 < b → a ≤ ceil_div a b * b
ceil_div-ge a b h = grind arith

pub ceil_div-lt : (a b k : ℕ) → 0 < b → k < ceil_div a b → k * b < a
ceil_div-lt a b k h q = grind arith

pub mul_mono : (a b c : ℕ) → a ≤ b → a * c ≤ b * c
mul_mono a b c h = grind arith

pub sub_self_left : (a b : ℕ) → a + b - a ≡ b
sub_self_left a b = omega arith

module _ (cap rate : ℕ) where
  -- What holds of a stored bucket: it is not over its cap, and its key outlives its filling up.
  pub record IsKept (now : ℕ) (b : Bucket) : Type 0 where
    pub past : b.stamp ≤ now
    pub full_by : cap ≤ (b.expires - b.stamp) * rate
    pub within : b.tokens ≤ cap

  -- Redis drops the key only when the bucket would be full again: the expiry changes nothing.
  pub refill-stored :
      (now : ℕ) (b : Bucket)
      → IsKept now b
      → refill cap rate now (stored now (some b)) ≡ min cap (b.tokens + (now - b.stamp) * rate)
  unfolding refill
  refill-stored now b v = elim (Bool-cases (leb b.expires now)) [
    | inl gone ↦
        rw gone (omega (arith, mul_mono (b.expires - b.stamp) (now - b.stamp) rate (ground arith)))
    | inr kept ↦ rw kept
  ]

  pub refill-le : (now : ℕ) (o : Option Bucket) → refill cap rate now o ≤ cap
  unfolding refill
  refill-le now none = omega arith
  refill-le now (some b) = omega arith

  pub write-IsKept : (now t : ℕ) → 0 < rate → t ≤ cap → IsKept now (write cap rate now t)
  write-IsKept now t h k = record {
    past = omega arith;
    full_by = rw sub_self_left (ceil_div-ge cap rate h);
    within = k;
  }

  pub take-IsKept : (now : ℕ) (o : Option Bucket) → 0 < rate → IsKept now (take cap rate now o).0
  unfolding take
  take-IsKept now o h =
      let low = refill-le now (stored now o) in
      elim (Bool-cases (ltb (refill cap rate now (stored now o)) unit)) [
        | inl e ↦ rw e (write-IsKept now _ h low)
        | inr e ↦ rw e (write-IsKept now _ h (omega arith))
      ]

-- The times of successive calls.
abbrev pub Ascends : ℕ → List ℕ → Type 0
Ascends t [] = Unit
Ascends t (u ∷ us) = (t ≤ u) × Ascends u us

abbrev pub last : ℕ → List ℕ → ℕ
last t [] = t
last t (u ∷ us) = last u us

pub le-last : (t : ℕ) (us : List ℕ) → Ascends t us → t ≤ last t us
le-last t [] h = omega arith
le-last t (u ∷ us) (h, k) = omega (arith, le-last u us k)

mul_split : (a b c r : ℕ) → a ≤ b → b ≤ c → (b - a) * r + (c - b) * r ≡ (c - a) * r
mul_split a b c r h k = let e : c - a ≡ (b - a) + (c - b) = omega arith in rw e (omega arith)

module _ (cap rate : ℕ) where
  -- The calls that are let through, of calls at the given times.
  pub granted : Option Bucket → List ℕ → ℕ
  granted o [] = 0
  granted o (t ∷ ts) =
      let (b, wait) = take cap rate t o in (if wait == 0 then 1 else 0) + granted (some b) ts

  -- One call is paid for from the refilled bucket.
  pub take-paid :
      (now : ℕ) (o : Option Bucket)
      → 0 < rate
      → (if (take cap rate now o).1 == 0 then 1 else 0) * unit + (take cap rate now o).0.tokens
        ≤ refill cap rate now (stored now o)
  unfolding take
  take-paid now o h = ground (arith, ceil_div-ge (unit - refill cap rate now (stored now o)) rate h)

  pub stamp-take : (now : ℕ) (o : Option Bucket) → (take cap rate now o).0.stamp ≡ now
  unfolding take
  stamp-take now o = ground arith

  pub granted_kept :
      (b : Bucket) (ts : List ℕ)
      → 0 < rate
      → IsKept cap rate b.stamp b
      → Ascends b.stamp ts
      → granted (some b) ts * unit ≤ b.tokens + (last b.stamp ts - b.stamp) * rate
  unfolding granted
  granted_kept b [] h v a = omega arith
  granted_kept b (t ∷ ts) h v (a, later) =
      let c = (take cap rate t (some b)).0 in
      let at : c.stamp ≡ t = stamp-take t (some b) in
      let kept : IsKept cap rate c.stamp c = rw at (take-IsKept cap rate t (some b) h) in
      let rest : granted (some c) ts * unit ≤ c.tokens + (last t ts - t) * rate =
        subst (λ (x : ℕ). granted (some c) ts * unit ≤ c.tokens + (last x ts - x) * rate) at
          (granted_kept c ts h kept (rw at later)) in
      let now : IsKept cap rate t b = record { past = a; full_by = v.full_by; within = v.within } in
      omega (
        arith,
        rest,
        take-paid t (some b) h,
        refill-stored cap rate t b now,
        mul_split b.stamp t (last t ts) rate a (le-last t ts later),
      )

  -- From any time on, the calls let through are at most those that a full bucket pays for and
  -- those that the rate pays for since.
  pub granted_bound :
      (o : Option Bucket) (t : ℕ) (ts : List ℕ)
      → 0 < rate
      → Ascends t ts
      → granted o (t ∷ ts) * unit ≤ cap + (last t ts - t) * rate
  unfolding granted
  granted_bound o t ts h later =
      let c = (take cap rate t o).0 in
      let at : c.stamp ≡ t = stamp-take t o in
      let kept : IsKept cap rate c.stamp c = rw at (take-IsKept cap rate t o h) in
      let rest : granted (some c) ts * unit ≤ c.tokens + (last t ts - t) * rate =
        subst (λ (x : ℕ). granted (some c) ts * unit ≤ c.tokens + (last x ts - x) * rate) at
          (granted_kept c ts h kept (rw at later)) in
      omega (arith, rest, take-paid t o h, refill-le cap rate t (stored t o))
