-- ===== src/RateLimit/Retry.antt =====
-- The wait that a refused call is told.
use zenstier.Prelude.{
  ℕ, ◌+◌, ◌-◌, ◌*◌, ◌≤◌, ◌<◌, ◌≡◌, ap, ◌≢◌, ◌↔◌, Option, some, arith, min, Bool-cases, inl, inr,
  ltb, ltb→lt,
}
use zenstier.RateLimit.{unit, Bucket, ceil_div, stored, refill, write, take}
use zenstier.RateLimit.Rate.{
  IsKept, take-IsKept, refill-stored, ceil_div-ge, ceil_div-lt, mul_mono, sub_self_left,
}

module _ (cap rate : ℕ) where
  -- A bucket's wait is over exactly when its refill reaches a token.
  take_ok_iff :
      (k : ℕ) (o : Option Bucket)
      → 0 < rate
      → ((take cap rate k o).1 ≡ 0) ↔ (unit ≤ refill cap rate k (stored k o))
  unfolding take
  take_ok_iff k o h = ground (arith, ceil_div-ge (unit - refill cap rate k (stored k o)) rate h)

module _ (cap rate now k r : ℕ) where
  wait_iff :
      0 < rate
      → unit ≤ cap
      → r < unit
      → (unit ≤ min cap (r + (now + k - now) * rate)) ↔ (ceil_div (unit - r) rate ≤ k)
  wait_iff h room low = (
    λ full. elim (Bool-cases (ltb k (ceil_div (unit - r) rate))) [
      | inl early ↦ absurd (
          omega (
            arith,
            sub_self_left now k,
            ceil_div-lt (unit - r) rate k h (ltb→lt _ _ early),
            subst_sub full,
          ))
      | inr late ↦ ground arith
    ],
    λ waited. rw sub_self_left (
        omega (
          arith,
          ceil_div-ge (unit - r) rate h,
          mul_mono (ceil_div (unit - r) rate) k rate waited,
        )),
  )
    where
      subst_sub : unit ≤ min cap (r + (now + k - now) * rate) → unit ≤ min cap (r + k * rate)
      subst_sub q = rw sub_self_left at q

module _ (cap rate now : ℕ) where
  short :
      (o : Option Bucket) → (take cap rate now o).1 ≢ 0 → refill cap rate now (stored now o) < unit
  unfolding take
  short o h = ground arith

  -- What is left behind by a refused call.
  refused_leaves :
      (o : Option Bucket)
      → (take cap rate now o).1 ≢ 0
      → (take cap rate now o) ≡ (
        write cap rate now (refill cap rate now (stored now o)),
        ceil_div (unit - refill cap rate now (stored now o)) rate,
      )
  unfolding take
  refused_leaves o h = ground arith

  -- The wait told to a refused caller is exact: a call `k` milliseconds later, with none between,
  -- is let through if and only if the wait is at most `k`.
  pub retry_exact :
      (o : Option Bucket) (k : ℕ)
      → 0 < rate
      → unit ≤ cap
      → (take cap rate now o).1 ≢ 0
      → ((take cap rate (now + k) (some (take cap rate now o).0)).1 ≡ 0)
        ↔ ((take cap rate now o).1 ≤ k)
  retry_exact o k h room refused =
      let r = refill cap rate now (stored now o) in
      let at = refused_leaves o refused in
      let kept : IsKept cap rate now (write cap rate now r) =
        rw (← ap (λ p. p.0) at) (take-IsKept cap rate now o h) in
      let kept' : IsKept cap rate (now + k) (write cap rate now r) = record {
        past = omega arith;
        full_by = kept.full_by;
        within = kept.within;
      } in
      let same = refill-stored cap rate (now + k) (write cap rate now r) kept' in
      let after = take_ok_iff cap rate (now + k) (some (write cap rate now r)) h in
      let bound = wait_iff cap rate now k r h room (short o refused) in
      rw at (λ ok. bound.0 (rw same at (after.0 ok)), λ waited. after.1 (rw same (bound.1 waited)))
