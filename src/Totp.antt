-- ===== src/Totp.antt =====
-- server/modules/auth/totp.ts: base32, one-time codes and their verification. A text is the list of its
-- character codes, over ASCII. A 32-bit value is its bit pattern, below 2 ^ 32; where `|` joins fields
-- that do not overlap it is written as a sum. HMAC comes from node:crypto and is a parameter.
pub mod Base32
pub mod Codes
pub mod Window
mod Tests
use zenstier.Prelude.{
  ℕ, zero, suc, ◌+◌, ◌-◌, ◌*◌, ◌/◌, ◌%◌, ◌^◌, Bool, true, false, not, ◌&&◌, ◌||◌, Option, none,
  some, List, [], ◌∷◌, ◌++◌, map, ltb, leb, ◌==◌, if◌then◌else◌, length,
}

-- The place of a character in BASE32_ALPHABET, A to Z and 2 to 7.
abbrev pub char_at : ℕ → ℕ
char_at i = if ltb i 26 then i + 65 else i + 24

abbrev pub index_of : ℕ → Option ℕ
index_of c =
    if leb 65 c && leb c 90
    then some (c - 65)
    else if leb 50 c && leb c 55
    then some (c - 24)
    else none

-- `<<` on 32 bits.
abbrev pub shl : ℕ → ℕ → ℕ
shl v k = v * 2 ^ k % 2 ^ 32

-- The `while` of `base32Encode`, on at most `fuel` rounds: the symbols, and the bits left.
pub drain : (fuel value bits : ℕ) → List ℕ × ℕ
drain zero value bits = ([], bits)
drain (suc fuel) value bits =
    let (symbols, left) = drain fuel value (bits - 5) in
    if leb 5 bits then (value / 2 ^ (bits - 5) % 32 ∷ symbols, left) else ([], bits)

pub encode_loop : List ℕ → (value bits : ℕ) → List ℕ
unfolding drain
encode_loop [] value bits = if ltb 0 bits then shl value (5 - bits) % 32 ∷ [] else []
encode_loop (byte ∷ rest) value bits =
    let v = shl value 8 + byte in
    let (symbols, left) = drain (bits + 8) v (bits + 8) in symbols ++ encode_loop rest v left

pub base32_encode : List ℕ → List ℕ
unfolding encode_loop
base32_encode bytes = map char_at (encode_loop bytes 0 0)

abbrev pub is_space : ℕ → Bool
is_space c = c == 32 || (leb 9 c && leb c 13)

pub strip_spaces : List ℕ → List ℕ
strip_spaces [] = []
strip_spaces (c ∷ s) = let rest = strip_spaces s in if is_space c then rest else c ∷ rest

-- `toUpperCase`.
abbrev pub upper : ℕ → ℕ
upper c = if leb 97 c && leb c 122 then c - 32 else c

abbrev is_empty : List ℕ → Bool
is_empty [] = true
is_empty (c ∷ s) = false

-- `replace(/=+$/, "")`.
pub strip_padding : List ℕ → List ℕ
strip_padding [] = []
strip_padding (c ∷ s) =
    let rest = strip_padding s in if c == 61 && is_empty rest then [] else c ∷ rest

abbrev pub cons_index : Option ℕ → Option (List ℕ) → Option (List ℕ)
cons_index (some i) (some is) = some (i ∷ is)
cons_index none rest = none
cons_index (some i) none = none

pub indices : List ℕ → Option (List ℕ)
indices [] = some []
indices (c ∷ s) = cons_index (index_of c) (indices s)

pub decode_loop : List ℕ → (value bits : ℕ) → List ℕ
decode_loop [] value bits = []
decode_loop (i ∷ is) value bits =
    let v = shl value 5 + i in
    let n = bits + 5 in
    let rest = decode_loop is v (if leb 8 n then n - 8 else n) in
    if leb 8 n then v / 2 ^ (n - 8) % 256 ∷ rest else rest

abbrev pub clean : List ℕ → List ℕ
clean input = strip_spaces (strip_padding (map upper input))

abbrev pub bytes_of : Option (List ℕ) → Option (List ℕ)
unfolding decode_loop
bytes_of none = none
bytes_of (some is) = some (decode_loop is 0 0)

-- `none` where a character is not in the alphabet, which throws.
pub base32_decode : List ℕ → Option (List ℕ)
unfolding strip_spaces strip_padding indices
base32_decode input = bytes_of (indices (clean input))

-- A byte of a buffer; outside it `undefined`, which `&` takes for 0.
pub byte_at : List ℕ → ℕ → ℕ
byte_at [] i = 0
byte_at (b ∷ bs) zero = b
byte_at (b ∷ bs) (suc i) = byte_at bs i

-- `writeBigUInt64BE`, on `n` bytes.
pub big_endian : (n : ℕ) → ℕ → List ℕ
big_endian zero v = []
big_endian (suc n) v = big_endian n (v / 256) ++ (v % 256 ∷ [])

-- `toString().padStart(n, "0")` of a number below 10 ^ n.
pub decimal : (n : ℕ) → ℕ → List ℕ
decimal zero v = []
decimal (suc n) v = decimal n (v / 10) ++ ((v % 10 + 48) ∷ [])

-- Dynamic truncation: 31 bits from four bytes of the digest.
pub truncated : List ℕ → ℕ
unfolding byte_at
truncated digest =
    let offset = byte_at digest (length digest - 1) % 16 in
    byte_at digest offset % 128 * 2 ^ 24
    + byte_at digest (offset + 1) % 256 * 2 ^ 16
    + byte_at digest (offset + 2) % 256 * 2 ^ 8
    + byte_at digest (offset + 3) % 256

abbrev pub code_digits : ℕ
code_digits = 6

abbrev pub current_counter : (at_ms : ℕ) → ℕ
current_counter at_ms = at_ms / 30000

abbrev pub is_digit : ℕ → Bool
is_digit c = leb 48 c && leb c 57

pub all_digits : List ℕ → Bool
all_digits [] = true
all_digits (c ∷ s) = is_digit c && all_digits s

-- The test by `^\d{6}$`.
abbrev pub is_six_digits : List ℕ → Bool
is_six_digits s = length s == code_digits && all_digits s

pub same : List ℕ → List ℕ → Bool
same [] [] = true
same (a ∷ s) (b ∷ t) = a == b && same s t
same _ _ = false

abbrev pub settle_round : Option (List ℕ) → List ℕ → Option Bool → Option Bool
unfolding same
settle_round none cleaned rest = none
settle_round (some expected) cleaned rest = if same expected cleaned then some true else rest

module _ (hmac : (key message : List ℕ) → List ℕ) where
  abbrev pub code_of_key : (counter digits : ℕ) → Option (List ℕ) → Option (List ℕ)
  unfolding big_endian truncated decimal
  code_of_key counter digits none = none
  code_of_key counter digits (some key) =
      some (decimal digits (truncated (hmac key (big_endian 8 counter)) % 10 ^ digits))

  -- `none` where the secret is not in base32, which throws.
  pub generate_code : (secret : List ℕ) (counter digits : ℕ) → Option (List ℕ)
  unfolding base32_decode
  generate_code secret counter digits = code_of_key counter digits (base32_decode secret)

  -- The code `k` steps after the first of the window; a negative counter throws.
  abbrev pub code_at : (secret : List ℕ) (counter window k : ℕ) → Option (List ℕ)
  code_at secret counter window k =
      if ltb (counter + k) window
      then none
      else generate_code secret (counter + k - window) code_digits

  -- The `for` over the drifts, `n` rounds from the `k`th on.
  pub rounds : (secret cleaned : List ℕ) (counter window n k : ℕ) → Option Bool
  unfolding generate_code settle_round
  rounds secret cleaned counter window zero k = some false
  rounds secret cleaned counter window (suc n) k =
      settle_round (code_at secret counter window k) cleaned
        (rounds secret cleaned counter window n (k + 1))

  -- `none` where a code cannot be made, which throws.
  unfoldable pub verify_code : (secret submitted : List ℕ) (window at_ms : ℕ) → Option Bool
  unfolding strip_spaces all_digits rounds
  verify_code secret submitted window at_ms =
      let cleaned = strip_spaces submitted in
      if is_six_digits cleaned
      then rounds secret cleaned (current_counter at_ms) window (window + window + 1) 0
      else some false
