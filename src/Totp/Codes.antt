-- ===== src/Totp/Codes.antt =====
-- server/modules/auth/totp.ts: a code is six digits, and truncation keeps 31 bits.
use zenstier.Prelude.{
  ℕ, zero, suc, ◌+◌, ◌/◌, ◌%◌, ◌^◌, ◌<◌, ◌≡◌, refl, ap, true, ◌&&◌, some, List, [], ◌∷◌, ◌++◌,
  arith, leb, length, Option-cases, inl, inr, subst,
}
use zenstier.Totp.{
  big_endian, decimal, all_digits, same, strip_spaces, truncated, generate_code, base32_decode,
  code_of_key, is_six_digits, code_digits,
}

length-decimal : (n v : ℕ) → length (decimal n v) ≡ n
unfolding decimal
length-decimal zero v = refl
length-decimal (suc n) v =
    ground (arith, length-snoc (decimal n (v / 10)) (v % 10 + 48), length-decimal n (v / 10))
  where
    length-snoc : (xs : List ℕ) (x : ℕ) → length (xs ++ (x ∷ [])) ≡ suc (length xs)
    length-snoc [] x = refl
    length-snoc (y ∷ ys) x = ap suc (length-snoc ys x)

all_digits-snoc :
    (xs : List ℕ) (x : ℕ) → all_digits (xs ++ (x ∷ [])) ≡ (all_digits xs && (leb 48 x && leb x 57))
unfolding all_digits
all_digits-snoc [] x = ground arith
all_digits-snoc (y ∷ ys) x = ground (arith, all_digits-snoc ys x)

all_digits-decimal : (n v : ℕ) → all_digits (decimal n v) ≡ true
unfolding decimal
all_digits-decimal zero v = unfold all_digits in refl
all_digits-decimal (suc n) v =
    ground
      (arith, all_digits-snoc (decimal n (v / 10)) (v % 10 + 48), all_digits-decimal n (v / 10))

pub strip_spaces-digits : (s : List ℕ) → all_digits s ≡ true → strip_spaces s ≡ s
unfolding all_digits strip_spaces
strip_spaces-digits [] h = refl
strip_spaces-digits (c ∷ s) h = ground (arith, strip_spaces-digits s)

pub same_refl : (s : List ℕ) → same s s ≡ true
unfolding same
same_refl [] = refl
same_refl (a ∷ s) = ground (arith, same_refl s)

pub same-eq : (s t : List ℕ) → same s t ≡ true → s ≡ t
unfolding same
same-eq [] [] h = refl
same-eq [] (b ∷ t) h = ground arith
same-eq (a ∷ s) [] h = ground arith
same-eq (a ∷ s) (b ∷ t) h = ground (arith, same-eq s t)

pub truncated-lt : (digest : List ℕ) → truncated digest < 2 ^ 31
unfolding truncated
truncated-lt digest = omega arith

-- Every code is six digits.
pub generate_code-is_six_digits :
    (hmac : (key message : List ℕ) → List ℕ) (secret : List ℕ) (counter : ℕ) {code : List ℕ}
    → generate_code hmac secret counter code_digits ≡ some code
    → is_six_digits code ≡ true
unfolding generate_code code_of_key
generate_code-is_six_digits hmac secret counter {code} h =
    elim (Option-cases (base32_decode secret)) [
      | inl bad ↦ ground (arith, ap (code_of_key hmac counter code_digits) bad)
      | inr (key, ok) ↦
          let value = truncated (hmac key (big_endian 8 counter)) % 10 ^ code_digits in
          let made : decimal code_digits value ≡ code =
            ground (arith, ap (code_of_key hmac counter code_digits) ok) in
          subst (λ c. is_six_digits c ≡ true) made
            (ground (arith, length-decimal code_digits value, all_digits-decimal code_digits value))
    ]
