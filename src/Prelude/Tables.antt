-- ===== src/Prelude/Tables.antt =====
-- Tables whose rows have distinct keys.
use Prim.Native.Nat.{ℕ}
use mathlib.Core.Path.{◌≡◌, refl, ap, ◌∙◌, subst}
use mathlib.Core.Logic.{◌≢◌, inl, inr}
use mathlib.Core.Bool.{Bool, true, false}
use mathlib.Core.Option.{none, some}
use mathlib.Core.List.{List, [], ◌∷◌}
use native.Mathlib.Omega.{arith}
use zenstier.Prelude.Tests.{if◌then◌else◌, Bool-cases, ◌==◌}
use zenstier.Prelude.Lists.{
  find_first, find_many, update_many, delete_many, All, Absent, Distinct, All-keep,
}

module _ {ℓ} {A : Type ℓ} (key : A → ℕ) where
  -- A row found in a table that lacks a key has another one.
  pub find_first-Absent :
      (k : ℕ) (p : A → Bool) (xs : List A) {x : A}
      → Absent key k xs
      → find_first p xs ≡ some x
      → key x ≢ k
  find_first-Absent k p [] h e = ground arith
  find_first-Absent k p (y ∷ ys) {x} (n, h) e = elim (Bool-cases (p y)) [
    | inl hit ↦ subst (λ z. key z ≢ k) (ground arith) n
    | inr miss ↦ find_first-Absent k p ys {x = x} h (ground arith)
  ]

  -- Where keys are distinct, the row with a key is the only one with it.
  pub find_first-Distinct :
      (k : ℕ) (p : A → Bool) (xs : List A) {r x : A}
      → Distinct key xs
      → find_first (λ y. key y == k) xs ≡ some r
      → find_first p xs ≡ some x
      → key x ≡ k
      → r ≡ x
  find_first-Distinct k p [] d e f h = ground arith
  find_first-Distinct k p (y ∷ ys) {r} {x} (n, d) e f h = elim (Bool-cases (p y)) [
    | inl hit ↦ ground arith
    | inr miss ↦ ground (
      arith,
      find_first-Distinct k p ys {r = r} {x = x} d,
      find_first-Absent (key y) p ys {x = x} n,
    )
  ]

module _ {ℓ} {A : Type ℓ} where
  -- The first row that passes one test, passing another, is the first of those that pass this.
  pub find_first-find_many :
      (q p : A → Bool) (xs : List A) {x : A}
      → find_first q xs ≡ some x
      → p x ≡ true
      → find_first q (find_many p xs) ≡ some x
  find_first-find_many q p [] e h = ground arith
  find_first-find_many q p (y ∷ ys) {x} e h = elim (Bool-cases (q y)) [
    | inl hit ↦
        let same : y ≡ x = ground arith in let passes : p y ≡ true = ap p same ∙ h in ground arith
    | inr miss ↦ ground (arith, find_first-find_many q p ys {x = x})
  ]

module _ {ℓ} {A : Type ℓ} (key : A → ℕ) where
  pub Distinct-find_many :
      (p : A → Bool) (xs : List A) → Distinct key xs → Distinct key (find_many p xs)
  Distinct-find_many p [] d = tt
  Distinct-find_many p (x ∷ xs) (a, d) = elim (Bool-cases (p x)) [
    | inl e ↦ rw e (All-keep (λ y. key y ≢ key x) p xs a, Distinct-find_many p xs d)
    | inr e ↦ rw e (Distinct-find_many p xs d)
  ]

  -- The rows after one with another key are found by their own.
  find_first-later :
      (y : A) (ys xs : List A)
      → Absent key (key y) xs
      → All (λ x. find_first (λ z. key z == key x) ys ≡ some x) xs
      → All (λ x. find_first (λ z. key z == key x) (y ∷ ys) ≡ some x) xs
  find_first-later y ys [] a h = tt
  find_first-later y ys (x ∷ xs) (n, a) (e, h) = (ground arith, find_first-later y ys xs a h)

  -- Where keys are distinct each row is found by its key.
  pub All-find_first :
      (xs : List A) → Distinct key xs → All (λ x. find_first (λ z. key z == key x) xs ≡ some x) xs
  All-find_first [] d = tt
  All-find_first (x ∷ xs) (a, d) = (ground arith, find_first-later x xs xs a (All-find_first xs d))

module _ {ℓ} {A : Type ℓ} (key : A → ℕ) where
  -- A row that a query leaves out takes its key with it.
  pub Absent-find_many :
      (k : ℕ) (p : A → Bool) (xs : List A) {x : A}
      → Distinct key xs
      → find_first (λ z. key z == k) xs ≡ some x
      → p x ≡ false
      → Absent key k (find_many p xs)
  Absent-find_many k p [] d e h = tt
  Absent-find_many k p (y ∷ ys) {x} (a, d) e h = elim (Bool-cases (key y == k)) [
    | inl hit ↦
        let same : y ≡ x = ground arith in
        let out : p y ≡ false = ap p same ∙ h in
        let k_is : key y ≡ k = ground arith in
        rw out
          (subst (λ j. Absent key j (find_many p ys)) k_is (All-keep (λ z. key z ≢ key y) p ys a))
    | inr miss ↦
        let rest = Absent-find_many k p ys {x = x} d (ground arith) h in
        elim (Bool-cases (p y)) [
          | inl in_it ↦ rw in_it (λ same. ground arith, rest)
          | inr out ↦ rw out rest
        ]
  ]

module _ {ℓ κ} {A : Type ℓ} (P : A → Type κ) where
  -- The rows that an update meets are those that pass its test.
  pub All-update_many_if :
      (p : A → Bool) (f : A → A) (xs : List A)
      → ((x : A) → p x ≡ true → P x → P (f x))
      → All P xs
      → All P (update_many p f xs)
  All-update_many_if p f [] k h = tt
  All-update_many_if p f (x ∷ xs) k (q, h) = elim (Bool-cases (p x)) [
    | inl e ↦ rw e (k x e q, All-update_many_if p f xs k h)
    | inr e ↦ rw e (q, All-update_many_if p f xs k h)
  ]

-- Where keys are distinct, a row that is found is found by its key.
pub find_first-own {ℓ} :
    {A : Type ℓ} (key : A → ℕ) (p : A → Bool) (xs : List A) {r : A}
    → Distinct key xs
    → find_first p xs ≡ some r
    → find_first (λ y. key y == key r) xs ≡ some r
find_first-own key p [] d e = ground arith
find_first-own key p (y ∷ ys) {r} (n, d) e = elim (Bool-cases (p y)) [
  | inl hit ↦
      let same : y ≡ r = ground arith in
      subst (λ z. find_first (λ x. key x == key z) (y ∷ ys) ≡ some z) same (ground arith)
  | inr miss ↦
      ground
        (arith, find_first-own key p ys {r = r} d, find_first-Absent key (key y) p ys {x = r} n)
]

module _ {ℓ} {A : Type ℓ} (key : A → ℕ) where
  -- The row with a key, after an update of the row with a key, or its deletion.
  pub find_first-update_at :
      (i k : ℕ) (f : A → A) (xs : List A)
      → ((x : A) → key (f x) ≡ key x)
      → find_first (λ x. key x == i) (update_many (λ x. key x == k) f xs)
        ≡ (elim (find_first (λ x. key x == i) xs) [
          | none ↦ none
          | some x ↦ some (if i == k then f x else x)
        ])
  find_first-update_at i k f [] h = refl
  find_first-update_at i k f (x ∷ xs) h = ground (arith, h x, find_first-update_at i k f xs h)

  pub find_first-delete_at :
      (i k : ℕ) (xs : List A)
      → find_first (λ x. key x == i) (delete_many (λ x. key x == k) xs)
        ≡ (if i == k then none else find_first (λ x. key x == i) xs)
  find_first-delete_at i k [] = ground arith
  find_first-delete_at i k (x ∷ xs) = ground (arith, find_first-delete_at i k xs)
