-- ===== src/Totp/Tests.antt =====
-- One-time codes at concrete inputs; the digest stands for the HMAC of RFC 4226's example.
use zenstier.Prelude.{ℕ, ◌+◌, ◌≤◌, ◌≡◌, ◌↔◌, refl, some, true, List, [], ◌∷◌, arith}
use zenstier.Totp.{
  base32_encode, base32_decode, verify_code, encode_loop, drain, strip_padding, indices, bytes_of,
  decode_loop, code_of_key, big_endian, truncated, byte_at, decimal, rounds, settle_round, same,
  all_digits, generate_code, is_six_digits, strip_spaces, current_counter, code_digits,
}
use zenstier.Totp.Base32.{base32_decode-base32_encode}
use zenstier.Totp.Window.{verify_code_iff}

-- The example of RFC 4226, section 5.4.
abbrev digest : (key message : List ℕ) → List ℕ
digest key message =
    31 ∷ 134 ∷ 152 ∷ 105 ∷ 14 ∷ 2 ∷ 202 ∷ 22 ∷ 97 ∷ 133 ∷ 80 ∷ 239 ∷ 127 ∷ 25 ∷ 218 ∷ 142 ∷ 148 ∷ 91
    ∷ 85 ∷ 90 ∷ []

-- "foob" and MZXW6YQ.
abbrev bytes : List ℕ
bytes = 102 ∷ 111 ∷ 111 ∷ 98 ∷ []

abbrev secret : List ℕ
secret = 77 ∷ 90 ∷ 88 ∷ 87 ∷ 54 ∷ 89 ∷ 81 ∷ []

-- The code 872921, as it comes from the form with a blank in its middle.
abbrev code : List ℕ
code = 56 ∷ 55 ∷ 50 ∷ 57 ∷ 50 ∷ 49 ∷ []

abbrev spaced : List ℕ
spaced = 56 ∷ 55 ∷ 50 ∷ 32 ∷ 57 ∷ 50 ∷ 49 ∷ []

encoded : base32_encode bytes ≡ secret
unfolding base32_encode encode_loop drain
encoded = refl

decoded : base32_decode secret ≡ some bytes
unfolding base32_decode strip_spaces strip_padding indices bytes_of decode_loop
decoded = refl

generated : generate_code digest secret 1 code_digits ≡ some code
unfolding generate_code code_of_key base32_decode strip_spaces strip_padding indices bytes_of
    decode_loop big_endian truncated byte_at decimal
generated = refl

accepted : verify_code digest secret spaced 1 100000 ≡ some true
unfolding verify_code rounds settle_round same all_digits generate_code code_of_key base32_decode
    strip_spaces strip_padding indices bytes_of decode_loop big_endian truncated byte_at decimal
accepted = refl

base32_decode-base32_encode_example : base32_decode (base32_encode bytes) ≡ some bytes
base32_decode-base32_encode_example = base32_decode-base32_encode bytes (omega arith)

verify_code_iff_example : (verify_code digest secret spaced 1 100000 ≡ some true) ↔ (
    (is_six_digits (strip_spaces spaced) ≡ true)
    × ((c : ℕ) × (current_counter 100000 ≤ c + 1)
        × (c ≤ current_counter 100000 + 1)
        × (generate_code digest secret c code_digits ≡ some (strip_spaces spaced))))
verify_code_iff_example = verify_code_iff digest secret spaced bytes 1 100000 decoded (omega arith)

generated_later : generate_code digest secret (current_counter 90000) code_digits ≡ some code
unfolding generate_code code_of_key base32_decode strip_spaces strip_padding indices bytes_of
    decode_loop big_endian truncated byte_at decimal
generated_later = refl
