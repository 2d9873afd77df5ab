-- ===== src/SafeFetch/Octets.antt =====
-- server/infrastructure/net/safe-fetch.ts: the blocks of IPv4 addresses, read octet by octet.
use zenstier.Prelude.{
  ℕ, ◌<◌, ◌≡◌, refl, ap, ◌∙◌, Bool, false, ◌&&◌, ◌||◌, Option, some, List, [], ◌∷◌, ◌++◌, arith,
  ltb, leb, ◌==◌, if◌then◌else◌, is_some, All, Bool-cases, inl, inr,
}
use zenstier.SafeFetch.{
  block, multicast, reserved, Reason, split, dot, number_from, octets_to_int, ipv4_to_int,
  of_octets, masked, block_of, blocked_v4, describe_value, describe_blocked_v4, show_byte, dotted,
}

-- The addresses that are not for the public.
abbrev pub is_internal : (a b c d : ℕ) → Bool
is_internal a b c d =
    (a == 0)
    || ((a == 10)
        || ((a == 100 && leb 64 b && leb b 127)
            || ((a == 127)
                || ((a == 169 && b == 254)
                    || ((a == 172 && leb 16 b && leb b 31)
                        || ((a == 192 && b == 0 && c == 0)
                            || ((a == 192 && b == 168)
                                || ((a == 198 && leb 18 b && leb b 19) || (leb 224 a)))))))))

-- A block that is tested, and those after it.
is_some-if :
    (r : Reason) (o : Option Reason) {t s rest : Bool}
    → t ≡ s
    → is_some o ≡ rest
    → is_some (if t then some r else o) ≡ (s || rest)
is_some-if r o {t} {s} {rest} e f = ground arith

module _ (a b c d : ℕ) (ha : a < 256) (hb : b < 256) (hc : c < 256) (hd : d < 256) where
  abbrev v : ℕ
  v = of_octets a b c d

  top_8 : (k : ℕ) → k < 256 → (masked v 8 == masked (of_octets k 0 0 0) 8) ≡ (a == k)
  top_8 k hk = ground arith

  top_16 :
      (k l : ℕ)
      → k < 256
      → l < 256
      → (masked v 16 == masked (of_octets k l 0 0) 16) ≡ (a == k && b == l)
  top_16 k l hk hl = ground arith

  top_100 : (masked v 10 == masked (of_octets 100 64 0 0) 10) ≡ (a == 100 && leb 64 b && leb b 127)
  top_100 = ground arith

  top_172 : (masked v 12 == masked (of_octets 172 16 0 0) 12) ≡ (a == 172 && leb 16 b && leb b 31)
  top_172 = ground arith

  top_192 : (masked v 24 == masked (of_octets 192 0 0 0) 24) ≡ (a == 192 && b == 0 && c == 0)
  top_192 = ground arith

  top_198 : (masked v 15 == masked (of_octets 198 18 0 0) 15) ≡ (a == 198 && leb 18 b && leb b 19)
  top_198 = ground arith

  top_224 :
      ((masked v 4 == masked (of_octets 224 0 0 0) 4)
        || (masked v 4 == masked (of_octets 240 0 0 0) 4))
      ≡ leb 224 a
  top_224 = ground arith

  last_two :
      is_some (
        block_of v
          (block (of_octets 224 0 0 0) 4 multicast ∷ block (of_octets 240 0 0 0) 4 reserved ∷ []))
      ≡ leb 224 a
  last_two = ground (arith, top_224)

  block_of-octets : is_some (block_of v blocked_v4) ≡ is_internal a b c d
  block_of-octets = is_some-if _ _ (top_8 0 (omega arith)) (
      is_some-if _ _ (top_8 10 (omega arith)) (
        is_some-if _ _ top_100 (
          is_some-if _ _ (top_8 127 (omega arith)) (
            is_some-if _ _ (top_16 169 254 (omega arith) (omega arith)) (
              is_some-if _ _ top_172 (
                is_some-if _ _ top_192 (
                  is_some-if _ _ (top_16 192 168 (omega arith) (omega arith))
                    (is_some-if _ _ top_198 last_two))))))))

-- A text without a separator.
abbrev pub Free : (separator : ℕ) → List ℕ → Type 0
Free separator = All (λ c. (c == separator) ≡ false)

pub split-Free_all : (sep : ℕ) (p : List ℕ) → Free sep p → split sep p ≡ p ∷ []
unfolding split
split-Free_all sep [] h = refl
split-Free_all sep (c ∷ p) (h, hs) = ground (arith, split-Free_all sep p hs)

pub split-Free :
    (sep : ℕ) (p rest : List ℕ) → Free sep p → split sep (p ++ (sep ∷ rest)) ≡ p ∷ split sep rest
unfolding split
split-Free sep [] rest h = ground arith
split-Free sep (c ∷ p) rest (h, hs) = ground (arith, split-Free sep p rest hs)

show_byte-Free : (n : ℕ) → n < 256 → Free dot (show_byte n)
show_byte-Free n h = elim (Bool-cases (ltb n 10)) [
  | inl one ↦ rw one (ground arith, tt)
  | inr more ↦ elim (Bool-cases (ltb n 100)) [
    | inl two ↦ rw (more, two) (ground arith, (ground arith, tt))
    | inr three ↦ rw (more, three) (ground arith, (ground arith, (ground arith, tt)))
  ]
]

number_from-show_byte : (n : ℕ) → n < 256 → number_from 0 (show_byte n) ≡ some n
unfolding number_from
number_from-show_byte n h = ground arith

pub split-dotted :
    (a b c d : ℕ)
    → a < 256
    → b < 256
    → c < 256
    → d < 256
    → split dot (dotted a b c d) ≡ show_byte a ∷ show_byte b ∷ show_byte c ∷ show_byte d ∷ []
split-dotted a b c d ha hb hc hd =
    split-Free dot (show_byte a) _ (show_byte-Free a ha)
    ∙ ap (λ r. show_byte a ∷ r)
        (split-Free dot (show_byte b) _ (show_byte-Free b hb)
          ∙ ap (λ r. show_byte b ∷ r)
              (split-Free dot (show_byte c) _ (show_byte-Free c hc)
                ∙ ap (λ r. show_byte c ∷ r)
                    (split-Free_all dot (show_byte d) (show_byte-Free d hd))))

pub ipv4_to_int-dotted :
    (a b c d : ℕ)
    → a < 256
    → b < 256
    → c < 256
    → d < 256
    → ipv4_to_int (dotted a b c d) ≡ some (of_octets a b c d)
unfolding ipv4_to_int octets_to_int
ipv4_to_int-dotted a b c d ha hb hc hd =
    ap octets_to_int (split-dotted a b c d ha hb hc hd)
    ∙ ground (
      arith,
      number_from-show_byte a ha,
      number_from-show_byte b hb,
      number_from-show_byte c hc,
      number_from-show_byte d hd,
    )

-- The text of an IPv4 address is refused exactly when its octets are those of an internal address.
pub describe_blocked_v4-dotted :
    (a b c d : ℕ)
    → a < 256
    → b < 256
    → c < 256
    → d < 256
    → is_some (describe_blocked_v4 (dotted a b c d)) ≡ is_internal a b c d
unfolding describe_blocked_v4
describe_blocked_v4-dotted a b c d ha hb hc hd =
    ap (λ o. is_some (describe_value o)) (ipv4_to_int-dotted a b c d ha hb hc hd)
    ∙ block_of-octets a b c d ha hb hc hd
