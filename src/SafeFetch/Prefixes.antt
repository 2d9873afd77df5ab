-- ===== src/SafeFetch/Prefixes.antt =====
-- server/infrastructure/net/safe-fetch.ts: the IPv6 ranges that are not for the public.
use zenstier.Prelude.{
  ℕ, ◌+◌, ◌*◌, ◌/◌, ◌<◌, ◌≡◌, refl, sym, ap, ◌∙◌, Bool, true, false, ◌&&◌, ◌||◌, Option, none, some,
  List, [], ◌∷◌, map, arith, ◌==◌, if◌then◌else◌, is_some, Option-cases, inl, inr,
}
use zenstier.SafeFetch.{
  colon, percent, lower, before, hex_value, then_hex, hex_group, is_hex, by_prefix, by_rest,
  after_mapped, is_loopback, loopback, describe_blocked_v6,
}

-- A first group in one of the ranges fc00::/7, fe80::/10 and ff00::/8, by its number.
abbrev pub is_internal_group : ℕ → Bool
is_internal_group n = n / 512 == 126 || n / 64 == 1018 || n / 256 == 255

-- A digit in hexadecimal and its value.
record Digit (c v : ℕ) : Type 0 where
  small : v < 16
  hex : is_hex c ≡ true
  apart : (c == colon) ≡ false
  is_8 : (c == 56) ≡ (v == 8)
  is_9 : (c == 57) ≡ (v == 9)
  is_a : (c == 97) ≡ (v == 10)
  is_b : (c == 98) ≡ (v == 11)
  is_c : (c == 99) ≡ (v == 12)
  is_d : (c == 100) ≡ (v == 13)
  is_e : (c == 101) ≡ (v == 14)
  is_f : (c == 102) ≡ (v == 15)

then_hex-Digit :
    (o : Option ℕ) (c : ℕ) {m : ℕ}
    → then_hex o c ≡ some m
    → (n v : ℕ) × (o ≡ some n) × (m ≡ n * 16 + v) × Digit c v
then_hex-Digit none c e = ground arith
then_hex-Digit (some n) c {m} e = elim (Option-cases (hex_value c)) [
  | inl gone ↦ absurd (ground arith)
  | inr (v, found) ↦ (
    n,
    v,
    refl,
    ground arith,
    record {
      small = ground arith;
      hex = ground arith;
      apart = ground arith;
      is_8 = ground arith;
      is_9 = ground arith;
      is_a = ground arith;
      is_b = ground arith;
      is_c = ground arith;
      is_d = ground arith;
      is_e = ground arith;
      is_f = ground arith;
    },
  )
]

hex_group-Digit :
    (a b c d : ℕ) {n : ℕ}
    → hex_group (a ∷ b ∷ c ∷ d ∷ []) ≡ some n
    → (x y z w : ℕ) × (n ≡ ((x * 16 + y) * 16 + z) * 16 + w)
      × Digit a x
      × Digit b y
      × Digit c z
      × Digit d w
hex_group-Digit a b c d e =
    let (k, w, ek, sk, dw) = then_hex-Digit (then_hex (then_hex (then_hex (some 0) a) b) c) d e in
    let (l, z, el, sl, dz) = then_hex-Digit (then_hex (then_hex (some 0) a) b) c ek in
    let (m, y, em, sm, dy) = then_hex-Digit (then_hex (some 0) a) b el in
    let (o, x, eo, so, dx) = then_hex-Digit (some 0) a em in
    let zero : 0 ≡ o = ground arith in (x, y, z, w, omega arith, dx, dy, dz, dw)

after_mapped-none :
    (a b c d : ℕ) (rest : List ℕ)
    → (a == colon) ≡ false
    → after_mapped (a ∷ b ∷ c ∷ d ∷ colon ∷ rest) ≡ none
after_mapped-none a b c d [] h = refl
after_mapped-none a b c d (x ∷ []) h = refl
after_mapped-none a b c d (x ∷ y ∷ rest) h = ground arith

-- The three patterns, on the values of the digits.
abbrev by_values : (x y z : ℕ) → Bool
by_values x y z =
    (x == 15 && (y == 12 || y == 13))
    || (x == 15 && y == 14 && (z == 8 || z == 9 || z == 10 || z == 11))
    || (x == 15 && y == 15)

by_values-is_internal_group :
    (x y z w : ℕ)
    → x < 16
    → y < 16
    → z < 16
    → w < 16
    → by_values x y z ≡ is_internal_group (((x * 16 + y) * 16 + z) * 16 + w)
by_values-is_internal_group x y z w hx hy hz hw = ground arith

by_prefix-by_values :
    (a b c d x y z w : ℕ) (rest : List ℕ)
    → Digit a x
    → Digit b y
    → Digit c z
    → Digit d w
    → is_some (by_prefix (a ∷ b ∷ c ∷ d ∷ colon ∷ rest)) ≡ by_values x y z
by_prefix-by_values a b c d x y z w rest da db dc dd =
    rw
      (
        da.is_f, db.is_c, db.is_d, db.is_e, db.is_f, dc.hex, dd.hex, dc.is_8, dc.is_9, dc.is_a,
        dc.is_b,
      )
      (ground arith)

-- An IPv6 address whose first group has four digits is refused exactly when the number of that group is
-- in one of the ranges.
pub describe_blocked_v6-group :
    (address : List ℕ) (a b c d : ℕ) (rest : List ℕ) {n : ℕ}
    → before percent (map lower address) ≡ a ∷ b ∷ c ∷ d ∷ colon ∷ rest
    → hex_group (a ∷ b ∷ c ∷ d ∷ []) ≡ some n
    → is_some (describe_blocked_v6 address) ≡ is_internal_group n
unfolding describe_blocked_v6
describe_blocked_v6-group address a b c d rest e g =
    let (x, y, z, w, number, da, db, dc, dd) = hex_group-Digit a b c d g in
    ap (λ s. is_some (if is_loopback s then some loopback else by_rest s (after_mapped s))) e
    ∙ ap (λ o. is_some (by_rest (a ∷ b ∷ c ∷ d ∷ colon ∷ rest) o))
        (after_mapped-none a b c d rest da.apart)
    ∙ by_prefix-by_values a b c d x y z w rest da db dc dd
    ∙ by_values-is_internal_group x y z w da.small db.small dc.small dd.small
    ∙ ap is_internal_group (sym number)

-- The loopback address, and the one of no host.
pub describe_blocked_v6-loopback :
    (address s : List ℕ)
    → before percent (map lower address) ≡ s
    → is_loopback s ≡ true
    → is_some (describe_blocked_v6 address) ≡ true
unfolding describe_blocked_v6
describe_blocked_v6-loopback address s e h =
    ap (λ t. is_some (if is_loopback t then some loopback else by_rest t (after_mapped t))) e
    ∙ ap (λ b. is_some (if b then some loopback else by_rest s (after_mapped s))) h
