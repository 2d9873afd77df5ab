-- ===== src/SafeFetch.antt =====
-- server/infrastructure/net/safe-fetch.ts: the check of a URL that an operator supplied. A text is the
-- list of its character codes, over ASCII. The URL parser, `isIP`, the resolver and `fetch` are not
-- code of the repository and are parameters; so is the flag ALLOW_PRIVATE_WEBHOOKS.
pub mod Octets
pub mod Mapped
pub mod Prefixes
pub mod Internal
pub mod Public
mod Tests
use zenstier.Prelude.{
  ℕ, zero, suc, ◌+◌, ◌-◌, ◌*◌, ◌/◌, ◌%◌, ◌^◌, Bool, true, false, not, ◌&&◌, ◌||◌, Option, none,
  some, List, [], ◌∷◌, ◌++◌, map, ltb, leb, ◌==◌, if◌then◌else◌, length,
}

pub data Reason : Type 0 where
  malformed this_host private_network carrier_nat loopback link_local ietf_protocol benchmarking
        multicast reserved unique_local :
      Reason

-- `split` at one character.
abbrev pub cons_first : ℕ → List (List ℕ) → List (List ℕ)
cons_first c [] = (c ∷ []) ∷ []
cons_first c (p ∷ ps) = (c ∷ p) ∷ ps

pub split : (separator : ℕ) → List ℕ → List (List ℕ)
split separator [] = [] ∷ []
split separator (c ∷ s) =
    let parts = split separator s in if c == separator then [] ∷ parts else cons_first c parts

abbrev pub dot : ℕ
dot = 46

abbrev pub colon : ℕ
colon = 58

abbrev pub percent : ℕ
percent = 37

abbrev pub is_digit : ℕ → Bool
is_digit c = leb 48 c && leb c 57

-- `Number` of a text of digits; only such texts reach it.
pub number_from : (value : ℕ) → List ℕ → Option ℕ
number_from value [] = some value
number_from value (c ∷ s) =
    let rest = number_from (value * 10 + (c - 48)) s in if is_digit c then rest else none

abbrev pub push_octet : (value : ℕ) → Option ℕ → Option ℕ
push_octet value none = none
push_octet value (some n) = if leb n 255 then some (value * 256 + n) else none

abbrev pub then_octet : Option ℕ → Option ℕ → Option ℕ
then_octet none n = none
then_octet (some value) n = push_octet value n

-- `ipv4ToInt`, its loop of four rounds written out.
pub octets_to_int : List (List ℕ) → Option ℕ
unfolding number_from
octets_to_int (a ∷ b ∷ c ∷ d ∷ []) =
    then_octet
      (then_octet (then_octet (push_octet 0 (number_from 0 a)) (number_from 0 b)) (number_from 0 c))
      (number_from 0 d)
octets_to_int _ = none

pub ipv4_to_int : List ℕ → Option ℕ
unfolding split octets_to_int
ipv4_to_int ip = octets_to_int (split dot ip)

abbrev pub of_octets : (a b c d : ℕ) → ℕ
of_octets a b c d = ((a * 256 + b) * 256 + c) * 256 + d

pub record Block : Type 0 where
  pub base : ℕ
  pub bits : ℕ
  pub label : Reason

abbrev pub block : (base bits : ℕ) → Reason → Block
block base bits label = record { base = base; bits = bits; label = label }

abbrev pub blocked_v4 : List Block
blocked_v4 =
    block (of_octets 0 0 0 0) 8 this_host
    ∷ block (of_octets 10 0 0 0) 8 private_network
    ∷ block (of_octets 100 64 0 0) 10 carrier_nat
    ∷ block (of_octets 127 0 0 0) 8 loopback
    ∷ block (of_octets 169 254 0 0) 16 link_local
    ∷ block (of_octets 172 16 0 0) 12 private_network
    ∷ block (of_octets 192 0 0 0) 24 ietf_protocol
    ∷ block (of_octets 192 168 0 0) 16 private_network
    ∷ block (of_octets 198 18 0 0) 15 benchmarking
    ∷ block (of_octets 224 0 0 0) 4 multicast
    ∷ block (of_octets 240 0 0 0) 4 reserved
    ∷ []

-- `value & mask`, the mask having `bits` ones at the top of 32 bits.
abbrev pub masked : (value bits : ℕ) → ℕ
masked value bits = if bits == 0 then 0 else value - value % 2 ^ (32 - bits)

abbrev pub block_of : (value : ℕ) → List Block → Option Reason
block_of value [] = none
block_of value (b ∷ bs) =
    let rest = block_of value bs in
    if masked value b.bits == masked b.base b.bits then some b.label else rest

abbrev pub describe_value : Option ℕ → Option Reason
describe_value none = some malformed
describe_value (some value) = block_of value blocked_v4

pub describe_blocked_v4 : List ℕ → Option Reason
unfolding ipv4_to_int
describe_blocked_v4 ip = describe_value (ipv4_to_int ip)

-- `toLowerCase`.
abbrev pub lower : ℕ → ℕ
lower c = if leb 65 c && leb c 90 then c + 32 else c

-- `split("%")[0]`.
pub before : (separator : ℕ) → List ℕ → List ℕ
before separator [] = []
before separator (c ∷ s) = let rest = before separator s in if c == separator then [] else c ∷ rest

abbrev pub hex_value : ℕ → Option ℕ
hex_value c =
    if is_digit c then some (c - 48) else if leb 97 c && leb c 102 then some (c - 87) else none

abbrev pub push_hex : (value : ℕ) → Option ℕ → Option ℕ
push_hex value none = none
push_hex value (some n) = some (value * 16 + n)

abbrev pub then_hex : Option ℕ → ℕ → Option ℕ
then_hex none c = none
then_hex (some value) c = push_hex value (hex_value c)

-- The group `([0-9a-f]{1,4})` and its `parseInt`.
abbrev pub hex_group : List ℕ → Option ℕ
hex_group (a ∷ []) = then_hex (some 0) a
hex_group (a ∷ b ∷ []) = then_hex (then_hex (some 0) a) b
hex_group (a ∷ b ∷ c ∷ []) = then_hex (then_hex (then_hex (some 0) a) b) c
hex_group (a ∷ b ∷ c ∷ d ∷ []) = then_hex (then_hex (then_hex (then_hex (some 0) a) b) c) d
hex_group _ = none

abbrev pub is_number : List ℕ → Bool
is_number [] = false
is_number (c ∷ []) = is_digit c
is_number (c ∷ s) = is_digit c && is_number s

-- The test by `\d+\.\d+\.\d+\.\d+`.
abbrev pub is_dotted : List (List ℕ) → Bool
is_dotted (a ∷ b ∷ c ∷ d ∷ []) = is_number a && is_number b && is_number c && is_number d
is_dotted _ = false

-- A number below 256 in decimal, as `join` writes it.
abbrev pub show_byte : ℕ → List ℕ
show_byte n =
    if ltb n 10
    then (n + 48) ∷ []
    else if ltb n 100
    then (n / 10 + 48) ∷ (n % 10 + 48) ∷ []
    else (n / 100 + 48) ∷ (n / 10 % 10 + 48) ∷ (n % 10 + 48) ∷ []

abbrev pub dotted : (a b c d : ℕ) → List ℕ
dotted a b c d =
    show_byte a ++ (dot ∷ (show_byte b ++ (dot ∷ (show_byte c ++ (dot ∷ show_byte d)))))

abbrev pub by_groups : Option ℕ → Option ℕ → Option (Option Reason)
unfolding describe_blocked_v4
by_groups (some high) (some low) =
    some (describe_blocked_v4 (dotted (high / 256) (high % 256) (low / 256) (low % 256)))
by_groups _ _ = none

abbrev pub by_parts : List (List ℕ) → Option (Option Reason)
by_parts (high ∷ low ∷ []) = by_groups (hex_group high) (hex_group low)
by_parts _ = none

-- What follows `::ffff:`, in either spelling; `none` where neither matches.
abbrev pub by_mapped : List ℕ → Option (Option Reason)
unfolding describe_blocked_v4 split
by_mapped rest =
    if is_dotted (split dot rest)
    then some (describe_blocked_v4 rest)
    else by_parts (split colon rest)

abbrev pub after_mapped : List ℕ → Option (List ℕ)
after_mapped (a ∷ b ∷ c ∷ d ∷ e ∷ f ∷ g ∷ rest) =
    if a == colon && b == colon && c == 102 && d == 102 && e == 102 && f == 102 && g == colon
    then some rest
    else none
after_mapped _ = none

abbrev pub is_hex : ℕ → Bool
is_hex c = is_digit c || (leb 97 c && leb c 102)

-- The ranges fc00::/7, fe80::/10 and ff00::/8.
abbrev pub by_prefix : List ℕ → Option Reason
by_prefix (a ∷ b ∷ c ∷ d ∷ e ∷ rest) =
    if a == 102 && (b == 99 || b == 100) && is_hex c && is_hex d && e == colon
    then some unique_local
    else if a == 102
        && b == 101
        && (c == 56 || c == 57 || c == 97 || c == 98)
        && is_hex d
        && e == colon
    then some link_local
    else if a == 102 && b == 102
    then some multicast
    else none
by_prefix (a ∷ b ∷ rest) = if a == 102 && b == 102 then some multicast else none
by_prefix _ = none

abbrev pub is_loopback : List ℕ → Bool
is_loopback (a ∷ b ∷ []) = a == colon && b == colon
is_loopback (a ∷ b ∷ c ∷ []) = a == colon && b == colon && c == 49
is_loopback _ = false

abbrev pub or_prefix : List ℕ → Option (Option Reason) → Option Reason
or_prefix address none = by_prefix address
or_prefix address (some reason) = reason

abbrev pub by_rest : List ℕ → Option (List ℕ) → Option Reason
by_rest address none = by_prefix address
by_rest address (some rest) = or_prefix address (by_mapped rest)

pub describe_blocked_v6 : List ℕ → Option Reason
unfolding before by_mapped by_groups
describe_blocked_v6 ip =
    let address = before percent (map lower ip) in
    if is_loopback address then some loopback else by_rest address (after_mapped address)

pub data Protocol : Type 0 where
  http https other : Protocol

pub record Url : Type 0 where
  pub protocol : Protocol
  pub has_credentials : Bool
  pub hostname : List ℕ

pub data BlockedUrlError : Type 0 where
  not_a_url bad_protocol credentials unresolved : BlockedUrlError
  bad_address bad_resolution : Reason → BlockedUrlError

pub data Checked : Type 0 where
  passed : Url → Checked
  refused : BlockedUrlError → Checked

abbrev pub is_web : Protocol → Bool
is_web other = false
is_web _ = true

abbrev strip_open : List ℕ → List ℕ
strip_open [] = []
strip_open (c ∷ s) = if c == 91 then s else c ∷ s

pub strip_close : List ℕ → List ℕ
strip_close [] = []
strip_close (c ∷ []) = if c == 93 then [] else c ∷ []
strip_close (c ∷ d ∷ s) = c ∷ strip_close (d ∷ s)

-- `replace(/^\[|\]$/g, "")`.
abbrev pub host_of : Url → List ℕ
unfolding strip_close
host_of url = strip_close (strip_open url.hostname)

abbrev pub settle_address : Url → Option Reason → Checked
settle_address url none = passed url
settle_address url (some reason) = refused (bad_address reason)

abbrev pub settle_resolution : Option Reason → Checked → Checked
settle_resolution none rest = rest
settle_resolution (some reason) rest = refused (bad_resolution reason)

abbrev pub settle_fetch {ℓ} : {A : Type ℓ} → (fetch : Url → A) → Checked → Option A
settle_fetch fetch (passed url) = some (fetch url)
settle_fetch fetch (refused e) = none

module _ (is_ip : List ℕ → ℕ) where
  pub describe_blocked_address : List ℕ → Option Reason
  unfolding describe_blocked_v4 describe_blocked_v6
  describe_blocked_address ip =
      if is_ip ip == 4
      then describe_blocked_v4 ip
      else if is_ip ip == 6
      then describe_blocked_v6 ip
      else some malformed

  -- The loop over the addresses.
  pub check_addresses : Url → List (List ℕ) → Checked
  unfolding describe_blocked_address
  check_addresses url [] = passed url
  check_addresses url (address ∷ rest) =
      settle_resolution (describe_blocked_address address) (check_addresses url rest)

  abbrev pub settle_lookup : Url → Option (List (List ℕ)) → Checked
  unfolding check_addresses
  settle_lookup url none = refused unresolved
  settle_lookup url (some []) = refused unresolved
  settle_lookup url (some (a ∷ rest)) = check_addresses url (a ∷ rest)

  module _ (lookup : List ℕ → Option (List (List ℕ))) where
    abbrev pub check_host : Url → Checked
    unfolding host_of describe_blocked_address settle_lookup
    check_host url =
        if not (is_ip (host_of url) == 0)
        then settle_address url (describe_blocked_address (host_of url))
        else settle_lookup url (lookup (host_of url))

    module _ (allow_private : Bool) where
      abbrev pub check_url : Option Url → Checked
      unfolding check_host
      check_url none = refused not_a_url
      check_url (some url) =
          if not (is_web url.protocol)
          then refused bad_protocol
          else if url.has_credentials
          then refused credentials
          else if allow_private
          then passed url
          else check_host url

      pub assert_public_url : (parse : List ℕ → Option Url) → List ℕ → Checked
      unfolding check_url
      assert_public_url parse raw = check_url (parse raw)

      -- `none` where the URL is refused, which throws; redirects are left to the caller of `fetch`.
      pub safe_fetch {ℓ} :
          {A : Type ℓ} → (parse : List ℕ → Option Url) → (fetch : Url → A) → List ℕ → Option A
      unfolding assert_public_url
      safe_fetch parse fetch raw = settle_fetch fetch (assert_public_url parse raw)
