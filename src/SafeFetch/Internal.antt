-- ===== src/SafeFetch/Internal.antt =====
-- server/infrastructure/net/safe-fetch.ts: the addresses that are not for the public.
use zenstier.Prelude.{
  ℕ, ◌/◌, ◌%◌, ◌<◌, ◌≡◌, refl, ap, ◌∙◌, true, none, some, List, [], map, ◌∷◌, ◌++◌, arith, is_some,
}
use zenstier.SafeFetch.Prefixes.{
  is_internal_group, describe_blocked_v6-group, describe_blocked_v6-loopback,
}
use zenstier.SafeFetch.{
  percent, lower, before, colon, dotted, hex_group, describe_blocked_v4, describe_blocked_v6,
  describe_blocked_address,
}
use zenstier.SafeFetch.Octets.{is_internal, describe_blocked_v4-dotted}
use zenstier.SafeFetch.Mapped.{mapped, describe_blocked_v6-hex, describe_blocked_v6-dotted}

module _ (is_ip : List ℕ → ℕ) where
  -- An internal address: of IPv4, plain or inside an IPv6 address in either spelling, or of IPv6, where
  -- the letters may be capital and a zone may follow: `::`, `::1`, or with a first group in fc00::/7,
  -- fe80::/10 or ff00::/8.
  pub data IsInternal : List ℕ → Type 0 where
    plain :
        {address : List ℕ} (a b c d : ℕ)
        → a < 256
        → b < 256
        → c < 256
        → d < 256
        → is_internal a b c d ≡ true
        → address ≡ dotted a b c d
        → is_ip address ≡ 4
        → IsInternal address
    mapped_dotted :
        {address : List ℕ} (a b c d : ℕ)
        → a < 256
        → b < 256
        → c < 256
        → d < 256
        → is_internal a b c d ≡ true
        → address ≡ mapped (dotted a b c d)
        → is_ip address ≡ 6
        → IsInternal address
    mapped_hex :
        {address : List ℕ} (g h : List ℕ) {high low : ℕ}
        → hex_group g ≡ some high
        → hex_group h ≡ some low
        → is_internal (high / 256) (high % 256) (low / 256) (low % 256) ≡ true
        → address ≡ mapped (g ++ (colon ∷ h))
        → is_ip address ≡ 6
        → IsInternal address
    no_host :
        {address : List ℕ}
        → before percent (map lower address) ≡ colon ∷ colon ∷ []
        → is_ip address ≡ 6
        → IsInternal address
    own_host :
        {address : List ℕ}
        → before percent (map lower address) ≡ colon ∷ colon ∷ 49 ∷ []
        → is_ip address ≡ 6
        → IsInternal address
    grouped :
        {address : List ℕ} (a b c d : ℕ) (rest : List ℕ) {n : ℕ}
        → before percent (map lower address) ≡ a ∷ b ∷ c ∷ d ∷ colon ∷ rest
        → hex_group (a ∷ b ∷ c ∷ d ∷ []) ≡ some n
        → is_internal_group n ≡ true
        → is_ip address ≡ 6
        → IsInternal address

  abbrev pub IsPublic : List ℕ → Type 0
  IsPublic address = describe_blocked_address is_ip address ≡ none

  by_family_4 :
      (address : List ℕ)
      → is_ip address ≡ 4
      → describe_blocked_address is_ip address ≡ describe_blocked_v4 address
  unfolding describe_blocked_address
  by_family_4 address e = ground arith

  by_family_6 :
      (address : List ℕ)
      → is_ip address ≡ 6
      → describe_blocked_address is_ip address ≡ describe_blocked_v6 address
  unfolding describe_blocked_address
  by_family_6 address e = ground arith

  pub IsInternal-blocked :
      {address : List ℕ}
      → IsInternal address
      → is_some (describe_blocked_address is_ip address) ≡ true
  IsInternal-blocked {address} (plain a b c d ha hb hc hd i e f) =
      ap is_some (by_family_4 address f ∙ ap describe_blocked_v4 e)
      ∙ describe_blocked_v4-dotted a b c d ha hb hc hd
      ∙ i
  IsInternal-blocked {address} (mapped_dotted a b c d ha hb hc hd i e f) =
      ap is_some (by_family_6 address f ∙ ap describe_blocked_v6 e)
      ∙ describe_blocked_v6-dotted a b c d ha hb hc hd
      ∙ i
  IsInternal-blocked {address} (mapped_hex g h eg eh i e f) =
      ap is_some (by_family_6 address f ∙ ap describe_blocked_v6 e)
      ∙ describe_blocked_v6-hex g h eg eh
      ∙ i
  IsInternal-blocked {address} (no_host e f) =
      ap is_some (by_family_6 address f)
      ∙ describe_blocked_v6-loopback address (colon ∷ colon ∷ []) e refl
  IsInternal-blocked {address} (own_host e f) =
      ap is_some (by_family_6 address f)
      ∙ describe_blocked_v6-loopback address (colon ∷ colon ∷ 49 ∷ []) e refl
  IsInternal-blocked {address} (grouped a b c d rest e g i f) =
      ap is_some (by_family_6 address f) ∙ describe_blocked_v6-group address a b c d rest e g ∙ i
