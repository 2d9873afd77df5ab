-- ===== src/SafeFetch/Mapped.antt =====
-- server/infrastructure/net/safe-fetch.ts: IPv4 addresses inside IPv6 ones, in both spellings.
use zenstier.Prelude.{
  ℕ, ◌+◌, ◌*◌, ◌/◌, ◌%◌, ◌<◌, ◌≡◌, refl, ap, ◌∙◌, true, false, Option, none, some, List, [], ◌∷◌,
  ◌++◌, map, arith, ltb, ap₂, ◌==◌, if◌then◌else◌, is_some, All, All-mono, Bool-cases, inl, inr,
}
use zenstier.SafeFetch.{
  is_loopback, then_hex, loopback, split, dot, colon, percent, is_hex, is_number, is_dotted, lower,
  before, hex_group, by_groups, by_parts, by_mapped, or_prefix, by_rest, after_mapped,
  describe_blocked_v4, describe_blocked_v6, show_byte, dotted,
}
use zenstier.SafeFetch.Octets.{
  Free, split-Free, split-Free_all, is_internal, describe_blocked_v4-dotted, split-dotted,
}

-- `::ffff:` and what follows it.
abbrev pub mapped : List ℕ → List ℕ
mapped rest = colon ∷ colon ∷ 102 ∷ 102 ∷ 102 ∷ 102 ∷ colon ∷ rest

-- A character that lower-casing and the cut at the zone leave alone.
abbrev IsPlain : ℕ → Type 0
IsPlain c = (lower c ≡ c) × ((c == percent) ≡ false)

before-IsPlain : (s : List ℕ) → All IsPlain s → before percent (map lower s) ≡ s
unfolding before
before-IsPlain [] h = refl
before-IsPlain (c ∷ s) ((low, other), hs) = ground (arith, before-IsPlain s hs)

describe-mapped :
    (rest : List ℕ)
    → All IsPlain rest
    → describe_blocked_v6 (mapped rest) ≡ or_prefix (mapped rest) (by_mapped rest)
unfolding describe_blocked_v6
describe-mapped rest h =
    let same : before percent (map lower (mapped rest)) ≡ mapped rest =
      before-IsPlain (mapped rest) (
        (refl, refl),
        (
          (refl, refl),
          ((refl, refl), ((refl, refl), ((refl, refl), ((refl, refl), ((refl, refl), h))))),
        ),
      ) in
    ap
      (λ address.
        if is_loopback address then some loopback else by_rest address (after_mapped address))
      same

hex_group-All : (g : List ℕ) {n : ℕ} → hex_group g ≡ some n → All (λ c. is_hex c ≡ true) g
hex_group-All [] e = ground arith
hex_group-All (a ∷ []) e = ground arith
hex_group-All (a ∷ b ∷ []) e = ground arith
hex_group-All (a ∷ b ∷ c ∷ []) e = ground arith
hex_group-All (a ∷ b ∷ c ∷ d ∷ []) e = ground arith
hex_group-All (a ∷ b ∷ c ∷ d ∷ x ∷ s) e = ground arith

then_hex-step :
    (o : Option ℕ) (c : ℕ) {m : ℕ}
    → then_hex o c ≡ some m
    → (n : ℕ) × (o ≡ some n) × (m < n * 16 + 16)
then_hex-step none c e = ground arith
then_hex-step (some n) c e = (n, refl, ground arith)

hex_group-lt : (g : List ℕ) {n : ℕ} → hex_group g ≡ some n → n < 65536
hex_group-lt [] e = ground arith
hex_group-lt (a ∷ []) e = let (k, ek, lk) = then_hex-step (some 0) a e in ground arith
hex_group-lt (a ∷ b ∷ []) e =
    let (k, ek, lk) = then_hex-step (then_hex (some 0) a) b e in
    let (l, el, ll) = then_hex-step (some 0) a ek in
    let zero_l : 0 ≡ l = ground arith in omega arith
hex_group-lt (a ∷ b ∷ c ∷ []) e =
    let (k, ek, lk) = then_hex-step (then_hex (then_hex (some 0) a) b) c e in
    let (l, el, ll) = then_hex-step (then_hex (some 0) a) b ek in
    let (m, em, lm) = then_hex-step (some 0) a el in
    let zero_m : 0 ≡ m = ground arith in omega arith
hex_group-lt (a ∷ b ∷ c ∷ d ∷ []) e =
    let (k, ek, lk) = then_hex-step (then_hex (then_hex (then_hex (some 0) a) b) c) d e in
    let (l, el, ll) = then_hex-step (then_hex (then_hex (some 0) a) b) c ek in
    let (m, em, lm) = then_hex-step (then_hex (some 0) a) b el in
    let (n, en, ln) = then_hex-step (some 0) a em in
    let zero_n : 0 ≡ n = ground arith in omega arith
hex_group-lt (a ∷ b ∷ c ∷ d ∷ x ∷ s) e = ground arith

hex-IsPlain : (c : ℕ) → is_hex c ≡ true → IsPlain c
hex-IsPlain c h = (ground arith, ground arith)

hex-other : (sep : ℕ) (c : ℕ) → is_hex sep ≡ false → is_hex c ≡ true → (c == sep) ≡ false
hex-other sep c h k = ground arith

hex-Free : (sep : ℕ) (g : List ℕ) → is_hex sep ≡ false → All (λ c. is_hex c ≡ true) g → Free sep g
hex-Free sep g h = All-mono g (λ c k. hex-other sep c h k)

All-append : (P : ℕ → Type 0) (s t : List ℕ) → All P s → All P t → All P (s ++ t)
All-append P [] t h k = k
All-append P (c ∷ s) t (p, h) k = (p, All-append P s t h k)

-- An address that carries an IPv4 address as two groups in hexadecimal is refused exactly when the four
-- bytes of the groups are those of an internal address.
pub describe_blocked_v6-hex :
    (g h : List ℕ) {high low : ℕ}
    → hex_group g ≡ some high
    → hex_group h ≡ some low
    → is_some (describe_blocked_v6 (mapped (g ++ (colon ∷ h))))
      ≡ is_internal (high / 256) (high % 256) (low / 256) (low % 256)
unfolding by_mapped by_groups
describe_blocked_v6-hex g h {high} {low} eg eh =
    let rest = g ++ (colon ∷ h) in
    let hex_g = hex_group-All g eg in
    let hex_h = hex_group-All h eh in
    let lg = hex_group-lt g eg in
    let lh = hex_group-lt h eh in
    let plain : All IsPlain rest =
      All-append _ g _ (All-mono g hex-IsPlain hex_g)
        ((refl, refl), All-mono h hex-IsPlain hex_h) in
    let free : Free dot rest =
      All-append _ g _ (hex-Free dot g refl hex_g) (refl, hex-Free dot h refl hex_h) in
    let parts : split colon rest ≡ g ∷ h ∷ [] =
      split-Free colon g h (hex-Free colon g refl hex_g)
      ∙ ap (λ r. g ∷ r) (split-Free_all colon h (hex-Free colon h refl hex_h)) in
    let found : by_mapped rest
        ≡ some (describe_blocked_v4 (dotted (high / 256) (high % 256) (low / 256) (low % 256))) =
      ap
        (λ ps.
          if is_dotted ps then some (describe_blocked_v4 rest) else by_parts (split colon rest))
        (split-Free_all dot rest free)
      ∙ ap by_parts parts
      ∙ ap₂ by_groups eg eh in
    ap is_some (describe-mapped rest plain ∙ ap (or_prefix (mapped rest)) found)
    ∙ describe_blocked_v4-dotted (high / 256) (high % 256) (low / 256) (low % 256) (omega arith)
        (omega arith) (omega arith) (omega arith)

show_byte-IsPlain : (n : ℕ) → n < 256 → All IsPlain (show_byte n)
show_byte-IsPlain n h = elim (Bool-cases (ltb n 10)) [
  | inl one ↦ rw one ((ground arith, ground arith), tt)
  | inr more ↦ elim (Bool-cases (ltb n 100)) [
    | inl two ↦ rw (more, two) ((ground arith, ground arith), ((ground arith, ground arith), tt))
    | inr three ↦
        rw (more, three)
          (
            (ground arith, ground arith),
            ((ground arith, ground arith), ((ground arith, ground arith), tt)),
          )
  ]
]

show_byte-is_number : (n : ℕ) → n < 256 → is_number (show_byte n) ≡ true
show_byte-is_number n h = ground arith

-- An address that carries an IPv4 address in its dotted form is refused exactly when that address is
-- internal.
pub describe_blocked_v6-dotted :
    (a b c d : ℕ)
    → a < 256
    → b < 256
    → c < 256
    → d < 256
    → is_some (describe_blocked_v6 (mapped (dotted a b c d))) ≡ is_internal a b c d
unfolding by_mapped
describe_blocked_v6-dotted a b c d ha hb hc hd =
    let rest = dotted a b c d in
    let plain : All IsPlain rest = All-append _ (show_byte a) _ (show_byte-IsPlain a ha) (
      (refl, refl),
      All-append _ (show_byte b) _ (show_byte-IsPlain b hb) (
        (refl, refl),
        All-append _ (show_byte c) _ (show_byte-IsPlain c hc)
            ((refl, refl), show_byte-IsPlain d hd),
      ),
    ) in
    let is_four : is_dotted (split dot rest) ≡ true =
      ap is_dotted (split-dotted a b c d ha hb hc hd)
      ∙ ground (
        arith,
        show_byte-is_number a ha,
        show_byte-is_number b hb,
        show_byte-is_number c hc,
        show_byte-is_number d hd,
      ) in
    let found : by_mapped rest ≡ some (describe_blocked_v4 rest) =
      ap (λ t. if t then some (describe_blocked_v4 rest) else by_parts (split colon rest))
        is_four in
    ap is_some (describe-mapped rest plain ∙ ap (or_prefix (mapped rest)) found)
    ∙ describe_blocked_v4-dotted a b c d ha hb hc hd
