-- ===== src/SafeFetch/Tests.antt =====
-- Addresses and URLs at concrete inputs.
use zenstier.Prelude.{
  ℕ, ◌==◌, ◌≡◌, ◌⊎◌, ◌↔◌, refl, some, none, true, false, Option, List, [], ◌∷◌, ◌++◌, any, is_some,
  if◌then◌else◌,
}
use zenstier.SafeFetch.{
  split, colon, dot, dotted, is_dotted, host_of, strip_close, describe_blocked_v4,
  describe_blocked_v6, Url, https, is_web, passed, assert_public_url, safe_fetch, number_from,
  octets_to_int, ipv4_to_int, before, by_mapped, link_local,
}
use zenstier.SafeFetch.Octets.{is_internal}
use zenstier.SafeFetch.Mapped.{mapped, describe_blocked_v6-hex}
use zenstier.SafeFetch.Prefixes.{describe_blocked_v6-group}
use zenstier.SafeFetch.Internal.{IsInternal, mapped_hex, grouped}
use zenstier.SafeFetch.Public.{Public, assert_public_url_iff, safe_fetch-IsInternal}

abbrev is_ip : List ℕ → ℕ
unfolding split
is_ip s = if any (λ c. c == colon) s then 6 else if is_dotted (split dot s) then 4 else 0

-- The groups 7f00 and 1.
abbrev high : List ℕ
high = 55 ∷ 102 ∷ 48 ∷ 48 ∷ []

abbrev low : List ℕ
low = 49 ∷ []

abbrev local : List ℕ
local = mapped (high ++ (colon ∷ low))

-- The address FE80::1%e.
abbrev near : List ℕ
near = 70 ∷ 69 ∷ 56 ∷ 48 ∷ colon ∷ colon ∷ 49 ∷ 37 ∷ 101 ∷ []

-- The name `h` has a public address and an internal one.
abbrev lookup : List ℕ → Option (List (List ℕ))
lookup host = some (dotted 1 1 1 1 ∷ near ∷ [])

abbrev url : Url
url = record { protocol = https; has_credentials = false; hostname = 104 ∷ [] }

abbrev parse : List ℕ → Option Url
parse raw = some url

metadata : describe_blocked_v4 (dotted 169 254 169 254) ≡ some link_local
unfolding describe_blocked_v4 ipv4_to_int octets_to_int number_from split
metadata = refl

site_local : describe_blocked_v6 (102 ∷ 101 ∷ 56 ∷ 48 ∷ colon ∷ colon ∷ 49 ∷ []) ≡ some link_local
unfolding describe_blocked_v6 before by_mapped
site_local = refl

describe_blocked_v6-hex_example :
    is_some (describe_blocked_v6 (mapped (high ++ (colon ∷ low)))) ≡ is_internal 127 0 0 1
describe_blocked_v6-hex_example = describe_blocked_v6-hex high low refl refl

assert_public_url_iff_example : (assert_public_url is_ip lookup false parse [] ≡ passed url) ↔ (
    (parse [] ≡ some url)
    × (is_web https ≡ true)
    × (false ≡ false)
    × ((false ≡ true) ⊎ Public is_ip lookup url))
assert_public_url_iff_example = assert_public_url_iff is_ip lookup false parse [] url

is_local : IsInternal is_ip local
unfolding is_ip
is_local = mapped_hex high low refl refl refl refl refl

is_near : IsInternal is_ip near
unfolding is_ip before
is_near = grouped 102 101 56 48 (colon ∷ 49 ∷ []) refl refl refl refl

safe_fetch-IsInternal_example :
    safe_fetch is_ip lookup false parse (λ (u : Url). u.hostname) [] ≡ none
unfolding strip_close is_ip host_of
safe_fetch-IsInternal_example =
    safe_fetch-IsInternal is_ip lookup parse (λ (u : Url). u.hostname) [] url (dotted 1 1 1 1 ∷ [])
      [] refl refl is_near

describe_blocked_v6-group_example : is_some (describe_blocked_v6 near) ≡ true
unfolding before
describe_blocked_v6-group_example =
    describe_blocked_v6-group near 102 101 56 48 (colon ∷ 49 ∷ []) refl refl
