-- ===== src/Prelude/Counts.antt =====
-- Counting the rows of a table, before and after updates and deletions.
use Prim.Native.Nat.{ℕ, ◌+◌, ◌≤◌, ◌<◌}
use mathlib.Core.Path.{◌≡◌, refl, ap, ◌∙◌, subst}
use mathlib.Core.Logic.{inl, inr}
use mathlib.Core.Bool.{Bool, true, false}
use mathlib.Core.Option.{some}
use mathlib.Core.List.{List, [], ◌∷◌}
use native.Mathlib.Omega.{arith}
use zenstier.Prelude.Tests.{if◌then◌else◌, Bool-cases, ◌==◌}
use zenstier.Prelude.Lists.{find_first, update_many, delete_many, count, All, Absent, Distinct}

module _ {ℓ} {A : Type ℓ} where
  -- An update into rows that are not counted.
  pub count-update_many_le :
      (q p : A → Bool) (f : A → A) (xs : List A)
      → ((x : A) → q (f x) ≡ false)
      → count q (update_many p f xs) ≤ count q xs
  count-update_many_le q p f [] h = ground arith
  count-update_many_le q p f (x ∷ xs) h = ground (arith, h x, count-update_many_le q p f xs h)

  -- An update of all the rows that are counted, into rows that are not.
  pub count-update_many_none :
      (q p : A → Bool) (f : A → A) (xs : List A)
      → ((x : A) → q x ≡ true → p x ≡ true)
      → ((x : A) → q (f x) ≡ false)
      → count q (update_many p f xs) ≡ 0
  count-update_many_none q p f [] k h = refl
  count-update_many_none q p f (x ∷ xs) k h =
      ground (arith, h x, k x, count-update_many_none q p f xs k h)

  pub count-delete_many_le :
      (q p : A → Bool) (xs : List A) → count q (delete_many p xs) ≤ count q xs
  count-delete_many_le q p [] = ground arith
  count-delete_many_le q p (x ∷ xs) = ground (arith, count-delete_many_le q p xs)

  -- A row found by one test is counted by another that it passes.
  pub count-found :
      (q p : A → Bool) (xs : List A) {x : A}
      → find_first q xs ≡ some x
      → p x ≡ true
      → 0 < count p xs
  count-found q p [] e h = ground arith
  count-found q p (y ∷ ys) {x} e h = elim (Bool-cases (q y)) [
    | inl hit ↦
        let same : y ≡ x = ground arith in let passes : p y ≡ true = ap p same ∙ h in ground arith
    | inr miss ↦ ground (arith, count-found q p ys {x = x})
  ]

module _ {ℓ} {A : Type ℓ} where
  pub All-found {κ} :
      (P : A → Type κ) (p : A → Bool) (xs : List A) {x : A}
      → All P xs
      → find_first p xs ≡ some x
      → P x
  All-found P p [] h e = ground arith
  All-found P p (y ∷ ys) {x} (q, h) e = elim (Bool-cases (p y)) [
    | inl hit ↦ subst P (ground arith) q
    | inr miss ↦ All-found P p ys {x = x} h (ground arith)
  ]

  pub count_mono :
      (q q' : A → Bool) (xs : List A)
      → All (λ x. q x ≡ true → q' x ≡ true) xs
      → count q xs ≤ count q' xs
  count_mono q q' [] h = ground arith
  count_mono q q' (x ∷ xs) (k, h) = ground (arith, k, count_mono q q' xs h)

  pub count-zero : (p : A → Bool) (xs : List A) → count p xs ≡ 0 → All (λ x. p x ≡ false) xs
  count-zero p [] h = tt
  count-zero p (x ∷ xs) h = (ground arith, count-zero p xs (ground arith))

module _ {ℓ} {A : Type ℓ} (key : A → ℕ) where
  count-update_many-Absent :
      (q : A → Bool) (f : A → A) (k : ℕ) (xs : List A)
      → Absent key k xs
      → count q (update_many (λ x. key x == k) f xs) ≡ count q xs
  count-update_many-Absent q f k [] a = refl
  count-update_many-Absent q f k (x ∷ xs) (n, a) =
      ground (arith, count-update_many-Absent q f k xs a)

  count-delete_many-Absent :
      (q : A → Bool) (k : ℕ) (xs : List A)
      → Absent key k xs
      → count q (delete_many (λ x. key x == k) xs) ≡ count q xs
  count-delete_many-Absent q k [] a = refl
  count-delete_many-Absent q k (x ∷ xs) (n, a) = ground (arith, count-delete_many-Absent q k xs a)

  -- One row changes its weight in a count.
  pub count-update_at :
      (q : A → Bool) (f : A → A) (k : ℕ) (xs : List A) (m : A)
      → Distinct key xs
      → find_first (λ x. key x == k) xs ≡ some m
      → count q (update_many (λ x. key x == k) f xs) + (if q m then 1 else 0)
        ≡ count q xs + (if q (f m) then 1 else 0)
  count-update_at q f k [] m d e = ground arith
  count-update_at q f k (x ∷ xs) m (a, d) e = elim (Bool-cases (key x == k)) [
    | inl here ↦
        let same : x ≡ m = ground arith in
        let at_k : key x ≡ k = ground arith in
        let rest = count-update_many-Absent q f k xs (subst (λ j. Absent key j xs) at_k a) in
        subst
          (λ y.
            count q (update_many (λ x. key x == k) f (x ∷ xs)) + (if q y then 1 else 0)
            ≡ count q (x ∷ xs) + (if q (f y) then 1 else 0))
          same (ground arith)
    | inr later ↦ let rest = count-update_at q f k xs m d (ground arith) in ground arith
  ]

  pub count-delete_at :
      (q : A → Bool) (k : ℕ) (xs : List A) (m : A)
      → Distinct key xs
      → find_first (λ x. key x == k) xs ≡ some m
      → count q (delete_many (λ x. key x == k) xs) + (if q m then 1 else 0) ≡ count q xs
  count-delete_at q k [] m d e = ground arith
  count-delete_at q k (x ∷ xs) m (a, d) e = elim (Bool-cases (key x == k)) [
    | inl here ↦
        let same : x ≡ m = ground arith in
        let at_k : key x ≡ k = ground arith in
        let rest = count-delete_many-Absent q k xs (subst (λ j. Absent key j xs) at_k a) in
        subst
          (λ y.
            count q (delete_many (λ x. key x == k) (x ∷ xs)) + (if q y then 1 else 0)
            ≡ count q (x ∷ xs))
          same (ground arith)
    | inr later ↦ let rest = count-delete_at q k xs m d (ground arith) in ground arith
  ]

  Absent-delete_many :
      (p : A → Bool) (k : ℕ) (xs : List A) → Absent key k xs → Absent key k (delete_many p xs)
  Absent-delete_many p k [] a = tt
  Absent-delete_many p k (x ∷ xs) (n, a) = elim (Bool-cases (p x)) [
    | inl out ↦ rw out (Absent-delete_many p k xs a)
    | inr kept ↦ rw kept (n, Absent-delete_many p k xs a)
  ]

  pub Distinct-delete_many :
      (p : A → Bool) (xs : List A) → Distinct key xs → Distinct key (delete_many p xs)
  Distinct-delete_many p [] d = tt
  Distinct-delete_many p (x ∷ xs) (a, d) = elim (Bool-cases (p x)) [
    | inl out ↦ rw out (Distinct-delete_many p xs d)
    | inr kept ↦ rw kept (Absent-delete_many p (key x) xs a, Distinct-delete_many p xs d)
  ]

module _ {ℓ} {A : Type ℓ} where
  -- An update that meets a counted row and leaves none of those it meets counted lowers the count.
  pub count-update_many_drop :
      (p q : A → Bool) (f : A → A) (r : A → Bool) (xs : List A) {m : A}
      → ((x : A) → q (f x) ≡ false)
      → find_first r xs ≡ some m
      → p m ≡ true
      → q m ≡ true
      → count q (update_many p f xs) < count q xs
  count-update_many_drop p q f r [] h e a b = ground arith
  count-update_many_drop p q f r (x ∷ xs) {m} h e a b = elim (Bool-cases (r x)) [
    | inl hit ↦
        let same : x ≡ m = ground arith in
        let a' : p x ≡ true = ap p same ∙ a in
        let b' : q x ≡ true = ap q same ∙ b in ground (arith, h x, count-update_many_le q p f xs h)
    | inr miss ↦ ground (arith, h x, count-update_many_drop p q f r xs {m = m} h (ground arith) a b)
  ]
