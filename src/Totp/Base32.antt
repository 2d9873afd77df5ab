-- ===== src/Totp/Base32.antt =====
-- server/modules/auth/totp.ts: what is encoded in base32 decodes to itself.
use zenstier.Prelude.{
  ℕ, zero, suc, ◌+◌, ◌-◌, ◌*◌, ◌%◌, ◌<◌, ◌≡◌, refl, ap, ap₂, ◌∙◌, some, List, [], ◌∷◌, ◌++◌, map,
  arith, ltb, leb, All, inl, inr, Bool-cases,
}
use zenstier.Totp.{
  cons_index, bytes_of, shl, char_at, index_of, drain, encode_loop, base32_encode, strip_spaces,
  strip_padding, upper, indices, decode_loop, base32_decode, clean,
}

abbrev pub IsByte : ℕ → Type 0
IsByte b = b < 256

-- Between the bytes the encoder holds up to four bits that the decoder waits for, and the decoder the
-- bits before them of the same byte `x`.
loops :
    (bytes : List ℕ)
    → All IsByte bytes
    → ((e d : ℕ) → decode_loop (encode_loop bytes e 0) d 0 ≡ bytes)
      × ((e d x : ℕ)
          → d % 128 * 2 + e % 2 ≡ x
          → decode_loop (encode_loop bytes e 1) d 7 ≡ x ∷ bytes)
      × ((e d x : ℕ) → d % 64 * 4 + e % 4 ≡ x → decode_loop (encode_loop bytes e 2) d 6 ≡ x ∷ bytes)
      × ((e d x : ℕ) → d % 32 * 8 + e % 8 ≡ x → decode_loop (encode_loop bytes e 3) d 5 ≡ x ∷ bytes)
      × ((e d x : ℕ)
          → d % 16 * 16 + e % 16 ≡ x
          → decode_loop (encode_loop bytes e 4) d 4 ≡ x ∷ bytes)
unfolding decode_loop encode_loop drain
loops [] h = (
  (λ e d. refl),
  (λ e d x k. ap (λ y. y ∷ []) (omega arith)),
  (λ e d x k. ap (λ y. y ∷ []) (omega arith)),
  (λ e d x k. ap (λ y. y ∷ []) (omega arith)),
  (λ e d x k. ap (λ y. y ∷ []) (omega arith)),
)
loops (b ∷ bytes) (small, h) =
    let (zero_left, one_left, two_left, three_left, four_left) = loops bytes h in
    (
      (λ e d. three_left _ _ b (omega arith)),
      (λ e d x k. ap₂ (λ y ys. y ∷ ys) (omega arith) (four_left _ _ b (omega arith))),
      (λ e d x k.
          ap₂ (λ y ys. y ∷ ys) (omega arith) (ap₂ (λ y ys. y ∷ ys) (omega arith) (zero_left _ _))),
      (λ e d x k. ap₂ (λ y ys. y ∷ ys) (omega arith) (one_left _ _ b (omega arith))),
      (λ e d x k. ap₂ (λ y ys. y ∷ ys) (omega arith) (two_left _ _ b (omega arith))),
    )

abbrev IsSymbol : ℕ → Type 0
IsSymbol i = i < 32

All-append : (xs ys : List ℕ) → All IsSymbol xs → All IsSymbol ys → All IsSymbol (xs ++ ys)
All-append [] ys h k = k
All-append (x ∷ xs) ys (i, h) k = (i, All-append xs ys h k)

drain-IsSymbol : (fuel value bits : ℕ) → All IsSymbol (drain fuel value bits).0
unfolding drain
drain-IsSymbol zero value bits = tt
drain-IsSymbol (suc fuel) value bits = elim (Bool-cases (leb 5 bits)) [
  | inl more ↦ rw more (omega arith, drain-IsSymbol fuel value (bits - 5))
  | inr done ↦ rw done tt
]

encode_loop-IsSymbol :
    (bytes : List ℕ) (value bits : ℕ) → All IsSymbol (encode_loop bytes value bits)
unfolding encode_loop
encode_loop-IsSymbol [] value bits = elim (Bool-cases (ltb 0 bits)) [
  | inl some_left ↦ rw some_left (omega arith, tt)
  | inr none_left ↦ rw none_left tt
]
encode_loop-IsSymbol (byte ∷ rest) value bits =
    let v = shl value 8 + byte in
    All-append (drain (bits + 8) v (bits + 8)).0 _ (drain-IsSymbol (bits + 8) v (bits + 8))
      (encode_loop-IsSymbol rest v (drain (bits + 8) v (bits + 8)).1)

-- The drained value has fewer bits than a symbol, as `fuel` rounds are enough for `bits` of them.
pub drain-lt : (fuel value bits : ℕ) → bits < fuel * 5 + 5 → (drain fuel value bits).1 < 5
unfolding drain
drain-lt zero value bits h = omega arith
drain-lt (suc fuel) value bits h = elim (Bool-cases (leb 5 bits)) [
  | inl more ↦ rw more (drain-lt fuel value (bits - 5) (ground arith))
  | inr done ↦ rw done (ground arith)
]

-- Nothing of an encoding is cleaned away.
upper-chars : (is : List ℕ) → All IsSymbol is → map upper (map char_at is) ≡ map char_at is
upper-chars [] h = refl
upper-chars (i ∷ is) (k, h) = ap₂ (λ y ys. y ∷ ys) (ground arith) (upper-chars is h)

strip_padding-chars :
    (is : List ℕ) → All IsSymbol is → strip_padding (map char_at is) ≡ map char_at is
unfolding strip_padding
strip_padding-chars [] h = refl
strip_padding-chars (i ∷ is) (k, h) = ground (arith, strip_padding-chars is h)

strip_spaces-chars :
    (is : List ℕ) → All IsSymbol is → strip_spaces (map char_at is) ≡ map char_at is
unfolding strip_spaces
strip_spaces-chars [] h = refl
strip_spaces-chars (i ∷ is) (k, h) = ground (arith, strip_spaces-chars is h)

indices-chars : (is : List ℕ) → All IsSymbol is → indices (map char_at is) ≡ some is
unfolding indices
indices-chars [] h = refl
indices-chars (i ∷ is) (k, h) =
    let found : index_of (char_at i) ≡ some i = ground arith in
    ap₂ cons_index found (indices-chars is h)

-- Whatever bytes are encoded in base32, their encoding decodes to them.
pub base32_decode-base32_encode :
    (bytes : List ℕ) → All IsByte bytes → base32_decode (base32_encode bytes) ≡ some bytes
unfolding base32_decode base32_encode bytes_of
base32_decode-base32_encode bytes h =
    let is = encode_loop bytes 0 0 in
    let symbols = encode_loop-IsSymbol bytes 0 0 in
    let cleaned : clean (base32_encode bytes) ≡ base32_encode bytes =
      ap (λ s. strip_spaces (strip_padding s)) (upper-chars is symbols)
      ∙ ap strip_spaces (strip_padding-chars is symbols)
      ∙ strip_spaces-chars is symbols in
    ap (λ s. bytes_of (indices s)) cleaned
    ∙ ap bytes_of (indices-chars is symbols)
    ∙ ap some ((loops bytes h).0 0 0)
