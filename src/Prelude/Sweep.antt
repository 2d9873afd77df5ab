-- ===== src/Prelude/Sweep.antt =====
-- A loop that updates, for each key of a list, the rows with that key.
use Prim.Native.Nat.{ℕ}
use mathlib.Core.Path.{◌≡◌, refl}
use mathlib.Core.Logic.{inl, inr}
use mathlib.Core.Bool.{Bool, true, false}
use mathlib.Core.Option.{some}
use mathlib.Core.List.{List, [], ◌∷◌}
use native.Mathlib.Omega.{arith}
use zenstier.Prelude.Tests.{◌==◌, ==_iff, if◌then◌else◌, Bool-cases}
use zenstier.Prelude.Lists.{
  find_first, find_many, update_many, find_first-update_many, find_first-holds, Absent, Distinct,
}

abbrev pub elem : ℕ → List ℕ → Bool
elem k [] = false
elem k (j ∷ js) = if j == k then true else elem k js

module _ {ℓ} {A : Type ℓ} (key : A → ℕ) where
  abbrev pub at : ℕ → A → Bool
  at k x = key x == k

  unfoldable pub sweep : (A → A) → List ℕ → List A → List A
  sweep f [] xs = xs
  sweep f (k ∷ ks) xs = sweep f ks (update_many (at k) f xs)

  module _ (f : A → A) (same_key : (x : A) → key (f x) ≡ key x)
      (again : (x : A) → f (f x) ≡ f x) where
    touch_at :
        (j k : ℕ) (xs : List A) (x : A)
        → find_first (at j) xs ≡ some x
        → find_first (at j) (update_many (at k) f xs) ≡ some (if k == j then f x else x)
    touch_at j k xs x found =
        let self = find_first-holds (at j) xs {a = x} found in
        let other = find_first-update_many (at j) (at k) f xs (λ y. rw same_key) in ground arith

    -- Each row whose key is in the list is updated, as if once, and no other.
    pub find_first-sweep :
        (j : ℕ) (ks : List ℕ) (xs : List A) (x : A)
        → find_first (at j) xs ≡ some x
        → find_first (at j) (sweep f ks xs) ≡ some (if elem j ks then f x else x)
    unfolding sweep
    find_first-sweep j [] xs x found = found
    find_first-sweep j (k ∷ ks) xs x found =
        let step = touch_at j k xs x found in
        let rest =
          find_first-sweep j ks (update_many (at k) f xs) (if k == j then f x else x) step in
        ground (arith, again x)

  abbrev pub keys : List A → List ℕ
  keys [] = []
  keys (x ∷ xs) = key x ∷ keys xs

  elem-keys-Absent :
      (p : A → Bool) (j : ℕ) (xs : List A)
      → Absent key j xs
      → elem j (keys (find_many p xs)) ≡ false
  elem-keys-Absent p j [] h = refl
  elem-keys-Absent p j (x ∷ xs) (h, hs) = ground (arith, elem-keys-Absent p j xs hs)

  -- Over distinct keys, the keys of the rows with a property are those of which it holds.
  pub elem-keys :
      (p : A → Bool) (j : ℕ) (xs : List A) (x : A)
      → Distinct key xs
      → find_first (at j) xs ≡ some x
      → elem j (keys (find_many p xs)) ≡ p x
  elem-keys p j [] x d found = ground arith
  elem-keys p j (y ∷ ys) x (h, d) found = elim (Bool-cases (key y == j)) [
    | inl here ↦
        let e : y ≡ x = ground arith in
        let k : key y ≡ j = (==_iff (key y) j).0 here in
        let none_later = elem-keys-Absent p j ys (rw k at h) in ground arith
    | inr later ↦ let rest = elem-keys p j ys x d (ground arith) in ground arith
  ]
