-- ===== src/Prelude/Lists.antt =====
-- Lists measured by native numbers, predicates on their elements, and the queries that the code
-- makes of a table, which is the list of its rows.
use Prim.Native.Nat.{ℕ, zero, suc, ◌+◌, ◌≤◌}
use mathlib.Core.Path.{◌≡◌, refl, ap}
use mathlib.Core.Logic.{◌≢◌, inl, inr}
use mathlib.Core.Bool.{Bool, true, false}
use mathlib.Core.Option.{Option, none, some}
use mathlib.Core.List.{List, [], ◌∷◌}
use native.Mathlib.Omega.{arith}
use zenstier.Prelude.Tests.{if◌then◌else◌, Bool-cases, is_some}

module _ {ℓ} {A : Type ℓ} where
  abbrev pub length : List A → ℕ
  length [] = 0
  length (x ∷ xs) = suc (length xs)

  -- `findFirst` and `findUnique`.
  abbrev pub find_first : (A → Bool) → List A → Option A
  find_first p [] = none
  find_first p (x ∷ xs) = if p x then some x else find_first p xs

  -- `findMany`.
  abbrev pub find_many : (A → Bool) → List A → List A
  find_many p [] = []
  find_many p (x ∷ xs) = let rest = find_many p xs in if p x then x ∷ rest else rest

  -- `updateMany`, and `update` of a row that is there.
  abbrev pub update_many : (A → Bool) → (A → A) → List A → List A
  update_many p f [] = []
  update_many p f (x ∷ xs) = (if p x then f x else x) ∷ update_many p f xs

  -- `deleteMany`, and `delete` of a row that is there.
  abbrev pub delete_many : (A → Bool) → List A → List A
  delete_many p [] = []
  delete_many p (x ∷ xs) = let rest = delete_many p xs in if p x then rest else x ∷ rest

  -- `count`.
  abbrev pub count : (A → Bool) → List A → ℕ
  count p [] = 0
  count p (x ∷ xs) = (if p x then 1 else 0) + count p xs

  -- `take`.
  abbrev pub take : ℕ → List A → List A
  take zero xs = []
  take (suc n) [] = []
  take (suc n) (x ∷ xs) = x ∷ take n xs

  -- `create`: a new row stands at the end.
  abbrev pub insert : A → List A → List A
  insert x [] = x ∷ []
  insert x (y ∷ ys) = y ∷ insert x ys

  abbrev pub any : (A → Bool) → List A → Bool
  any p xs = is_some (find_first p xs)

module _ {ℓ κ} {A : Type ℓ} (P : A → Type κ) where
  abbrev pub All : List A → Type κ
  All [] = Unit
  All (x ∷ xs) = P x × All xs

module _ {ℓ} {A : Type ℓ} (key : A → ℕ) where
  -- No row has the key `k`.
  abbrev pub Absent : ℕ → List A → Type 0
  Absent k xs = All (λ x. key x ≢ k) xs

  -- A column with distinct values.
  abbrev pub Distinct : List A → Type 0
  Distinct [] = Unit
  Distinct (x ∷ xs) = Absent (key x) xs × Distinct xs

module _ {ℓ} {A : Type ℓ} where
  pub find_first-holds :
      (p : A → Bool) (xs : List A) {a : A} → find_first p xs ≡ some a → p a ≡ true
  find_first-holds p [] h = ground arith
  find_first-holds p (x ∷ xs) {a} h = ground (arith, find_first-holds p xs {a = a})

  pub count-insert :
      (p : A → Bool) (a : A) (xs : List A)
      → count p (insert a xs) ≡ (if p a then 1 else 0) + count p xs
  count-insert p a [] = refl
  count-insert p a (x ∷ xs) = ground (arith, count-insert p a xs)

  pub length-insert : (a : A) (xs : List A) → length (insert a xs) ≡ suc (length xs)
  length-insert a [] = refl
  length-insert a (x ∷ xs) = ap suc (length-insert a xs)

  -- An update that does not change whether a row is counted.
  pub count-update_many_same :
      (q p : A → Bool) (f : A → A) (xs : List A)
      → ((x : A) → q (f x) ≡ q x)
      → count q (update_many p f xs) ≡ count q xs
  count-update_many_same q p f [] h = refl
  count-update_many_same q p f (x ∷ xs) h = ground (arith, h x, count-update_many_same q p f xs h)

  -- A deletion of rows that are not counted.
  pub count-delete_many_other :
      (q p : A → Bool) (xs : List A)
      → ((x : A) → p x ≡ true → q x ≡ false)
      → count q (delete_many p xs) ≡ count q xs
  count-delete_many_other q p [] h = refl
  count-delete_many_other q p (x ∷ xs) h = ground (arith, h x, count-delete_many_other q p xs h)

-- A row that an update meets or passes by.
abbrev pub touch {ℓ} : {A : Type ℓ} → (A → Bool) → (A → A) → Option A → Option A
touch p f none = none
touch p f (some a) = some (if p a then f a else a)

module _ {ℓ} {A : Type ℓ} where
  -- A row found by a column that an update leaves alone.
  pub find_first-update_many :
      (q p : A → Bool) (f : A → A) (xs : List A)
      → ((x : A) → q (f x) ≡ q x)
      → find_first q (update_many p f xs) ≡ touch p f (find_first q xs)
  find_first-update_many q p f [] h = refl
  find_first-update_many q p f (x ∷ xs) h = ground (arith, h x, find_first-update_many q p f xs h)

module _ {ℓ} {A : Type ℓ} where
  -- An update that passes the rows looked for by.
  pub find_first-update_many_other :
      (q p : A → Bool) (f : A → A) (xs : List A)
      → ((x : A) → q (f x) ≡ q x)
      → ((x : A) → q x ≡ true → p x ≡ false)
      → find_first q (update_many p f xs) ≡ find_first q xs
  find_first-update_many_other q p f [] h k = refl
  find_first-update_many_other q p f (x ∷ xs) h k =
      ground (arith, h x, k x, find_first-update_many_other q p f xs h k)

  -- An update of other rows into rows that are not looked for either.
  pub find_first-update_many_apart :
      (q p : A → Bool) (f : A → A) (xs : List A)
      → ((x : A) → p x ≡ true → q x ≡ false)
      → ((x : A) → p x ≡ true → q (f x) ≡ false)
      → find_first q (update_many p f xs) ≡ find_first q xs
  find_first-update_many_apart q p f [] h k = refl
  find_first-update_many_apart q p f (x ∷ xs) h k =
      ground (arith, h x, k x, find_first-update_many_apart q p f xs h k)

  -- A row is replaced by one that is found in its place.
  pub find_first-update_many_by :
      (q : A → Bool) (new : A) (xs : List A) {old : A}
      → q new ≡ true
      → find_first q xs ≡ some old
      → find_first q (update_many q (λ x. new) xs) ≡ some new
  find_first-update_many_by q new [] h e = ground arith
  find_first-update_many_by q new (x ∷ xs) {old} h e =
      ground (arith, find_first-update_many_by q new xs {old = old} h)

  -- What is deleted is not found, and what is not deleted is.
  pub find_first-delete_many_all :
      (q p : A → Bool) (xs : List A)
      → ((x : A) → q x ≡ true → p x ≡ true)
      → find_first q (delete_many p xs) ≡ none
  find_first-delete_many_all q p [] h = refl
  find_first-delete_many_all q p (x ∷ xs) h =
      ground (arith, h x, find_first-delete_many_all q p xs h)

  pub find_first-delete_many_other :
      (q p : A → Bool) (xs : List A)
      → ((x : A) → q x ≡ true → p x ≡ false)
      → find_first q (delete_many p xs) ≡ find_first q xs
  find_first-delete_many_other q p [] h = refl
  find_first-delete_many_other q p (x ∷ xs) h =
      ground (arith, h x, find_first-delete_many_other q p xs h)

  -- A row already found stays the first one.
  pub find_first-insert :
      (q : A → Bool) (a : A) (xs : List A)
      → find_first q (insert a xs)
        ≡ (elim (find_first q xs) [ none ↦ if q a then some a else none | some x ↦ some x ])
  find_first-insert q a [] = refl
  find_first-insert q a (x ∷ xs) = ground (arith, find_first-insert q a xs)

  pub take_all : (n : ℕ) (xs : List A) → length xs ≤ n → take n xs ≡ xs
  take_all zero [] h = refl
  take_all zero (x ∷ xs) h = absurd (omega arith)
  take_all (suc n) [] h = refl
  take_all (suc n) (x ∷ xs) h = ap (λ r. x ∷ r) (take_all n xs (omega arith))

  pub count-find_first-none : (q : A → Bool) (xs : List A) → find_first q xs ≡ none → count q xs ≡ 0
  count-find_first-none q [] h = refl
  count-find_first-none q (x ∷ xs) h = ground (arith, count-find_first-none q xs)

module _ {ℓ κ} {A : Type ℓ} (P : A → Type κ) where
  pub All-insert : (a : A) (xs : List A) → P a → All P xs → All P (insert a xs)
  All-insert a [] p h = (p, tt)
  All-insert a (x ∷ xs) p (q, h) = (q, All-insert a xs p h)

  pub All-find_many :
      (p : A → Bool) (xs : List A) → ((x : A) → p x ≡ true → P x) → All P (find_many p xs)
  All-find_many p [] k = tt
  All-find_many p (x ∷ xs) k = elim (Bool-cases (p x)) [
    | inl e ↦ rw e (k x e, All-find_many p xs k)
    | inr e ↦ rw e (All-find_many p xs k)
  ]

  pub All-keep : (p : A → Bool) (xs : List A) → All P xs → All P (find_many p xs)
  All-keep p [] h = tt
  All-keep p (x ∷ xs) (q, h) = elim (Bool-cases (p x)) [
    | inl e ↦ rw e (q, All-keep p xs h)
    | inr e ↦ rw e (All-keep p xs h)
  ]

  pub All-delete_many : (p : A → Bool) (xs : List A) → All P xs → All P (delete_many p xs)
  All-delete_many p [] h = tt
  All-delete_many p (x ∷ xs) (q, h) = elim (Bool-cases (p x)) [
    | inl e ↦ rw e (All-delete_many p xs h)
    | inr e ↦ rw e (q, All-delete_many p xs h)
  ]

  pub All-update_many :
      (p : A → Bool) (f : A → A) (xs : List A)
      → ((x : A) → P x → P (f x))
      → All P xs
      → All P (update_many p f xs)
  All-update_many p f [] k h = tt
  All-update_many p f (x ∷ xs) k (q, h) = elim (Bool-cases (p x)) [
    | inl e ↦ rw e (k x q, All-update_many p f xs k h)
    | inr e ↦ rw e (q, All-update_many p f xs k h)
  ]

pub All-mono {ℓ κ μ} :
    {A : Type ℓ} {P : A → Type κ} {Q : A → Type μ} (xs : List A)
    → ((x : A) → P x → Q x)
    → All P xs
    → All Q xs
All-mono [] k h = tt
All-mono (x ∷ xs) k (p, h) = (k x p, All-mono xs k h)
