-- ===== src/SafeFetch/Public.antt =====
-- server/infrastructure/net/safe-fetch.ts: which URLs are fetched.
use zenstier.Prelude.{
  ℕ, ◌≡◌, ◌↔◌, ◌⊎◌, refl, sym, subst, ap, ◌∙◌, Bool, true, false, not, Option, none, some, List, [],
  ◌∷◌, ◌++◌, arith, ◌==◌, if◌then◌else◌, All, Option-cases, Bool-cases, inl, inr,
}
use zenstier.SafeFetch.{
  bad_protocol, credentials, bad_resolution, Reason, describe_blocked_address, Url, BlockedUrlError,
  Checked, passed, refused, is_web, host_of, settle_address, settle_resolution, check_addresses,
  settle_lookup, check_host, check_url, assert_public_url, settle_fetch, safe_fetch,
}
use zenstier.SafeFetch.Internal.{IsInternal, IsPublic, IsInternal-blocked}

Checked-cases :
    (c : Checked) → ((url : Url) × (c ≡ passed url)) ⊎ ((e : BlockedUrlError) × (c ≡ refused e))
Checked-cases (passed url) = inl (url, refl)
Checked-cases (refused e) = inr (e, refl)

All-middle {ℓ κ} :
    {A : Type ℓ} (P : A → Type κ) (xs : List A) (a : A) (ys : List A) → All P (xs ++ (a ∷ ys)) → P a
All-middle P [] a ys (p, h) = p
All-middle P (x ∷ xs) a ys (p, h) = All-middle P xs a ys h

module _ (is_ip : List ℕ → ℕ) where
  check_addresses-IsPublic :
      (url : Url) (list : List (List ℕ))
      → All (IsPublic is_ip) list
      → check_addresses is_ip url list ≡ passed url
  unfolding check_addresses
  check_addresses-IsPublic url [] h = refl
  check_addresses-IsPublic url (address ∷ rest) (p, h) =
      ap (λ o. settle_resolution o (check_addresses is_ip url rest)) p
      ∙ check_addresses-IsPublic url rest h

  check_addresses-passed :
      (url got : Url) (list : List (List ℕ))
      → check_addresses is_ip url list ≡ passed got
      → All (IsPublic is_ip) list × (url ≡ got)
  unfolding check_addresses
  check_addresses-passed url got [] e = (tt, ground arith)
  check_addresses-passed url got (address ∷ rest) e =
      elim (Option-cases (describe_blocked_address is_ip address)) [
        | inl fine ↦
            let (h, same) =
              check_addresses-passed url got rest
                (sym (ap (λ o. settle_resolution o (check_addresses is_ip url rest)) fine) ∙ e) in
            ((fine, h), same)
        | inr (reason, bad) ↦
            let clash : refused (bad_resolution reason) ≡ passed got =
              sym (ap (λ o. settle_resolution o (check_addresses is_ip url rest)) bad) ∙ e in
            absurd (ground arith)
      ]

  module _ (lookup : List ℕ → Option (List (List ℕ))) where
    -- The addresses that a request for the URL may go to.
    abbrev pub addresses : Url → Option (List (List ℕ))
    addresses url =
        if not (is_ip (host_of url) == 0) then some (host_of url ∷ []) else lookup (host_of url)

    abbrev pub Public : Url → Type 0
    Public url =
        (first : List ℕ) × (rest : List (List ℕ)) × (addresses url ≡ some (first ∷ rest))
        × All (IsPublic is_ip) (first ∷ rest)

    settle_lookup-passed :
        (url got : Url) (o : Option (List (List ℕ)))
        → settle_lookup is_ip url o ≡ passed got
        → (url ≡ got)
          × ((first : List ℕ) × (rest : List (List ℕ)) × (o ≡ some (first ∷ rest))
              × All (IsPublic is_ip) (first ∷ rest))
    unfolding settle_lookup
    settle_lookup-passed url got none e = ground arith
    settle_lookup-passed url got (some []) e = ground arith
    settle_lookup-passed url got (some (first ∷ rest)) e =
        let (h, same) = check_addresses-passed url got (first ∷ rest) e in
        (same, (first, rest, refl, h))

    addresses_by : Url → Bool → Option (List (List ℕ))
    addresses_by url t = if t then some (host_of url ∷ []) else lookup (host_of url)

    -- The two ways of a host: an address of its own, or a name.
    check_host_address :
        (url : Url)
        → not (is_ip (host_of url) == 0) ≡ true
        → (check_host is_ip lookup url
            ≡ settle_address url (describe_blocked_address is_ip (host_of url)))
          × (addresses url ≡ some (host_of url ∷ []))
    unfolding addresses_by check_host
    check_host_address url e = (
      ap
          (λ t.
            if t
            then settle_address url (describe_blocked_address is_ip (host_of url))
            else settle_lookup is_ip url (lookup (host_of url)))
          e,
      ap (addresses_by url) e,
    )

    check_host_name :
        (url : Url)
        → not (is_ip (host_of url) == 0) ≡ false
        → (check_host is_ip lookup url ≡ settle_lookup is_ip url (lookup (host_of url)))
          × (addresses url ≡ lookup (host_of url))
    unfolding addresses_by check_host
    check_host_name url e = (
      ap
          (λ t.
            if t
            then settle_address url (describe_blocked_address is_ip (host_of url))
            else settle_lookup is_ip url (lookup (host_of url)))
          e,
      ap (addresses_by url) e,
    )

    settle_address-passed :
        (url got : Url) (o : Option Reason)
        → settle_address url o ≡ passed got
        → (o ≡ none) × (url ≡ got)
    settle_address-passed url got none e = (refl, ground arith)
    settle_address-passed url got (some r) e = ground arith

    check_host-passed :
        (url got : Url) → check_host is_ip lookup url ≡ passed got → (url ≡ got) × Public url
    check_host-passed url got e = elim (Bool-cases (not (is_ip (host_of url) == 0))) [
      | inl is_address ↦
          let (way, list) = check_host_address url is_address in
          let (fine, same) =
            settle_address-passed url got (describe_blocked_address is_ip (host_of url))
              (sym way ∙ e) in
          (same, (host_of url, [], list, (fine, tt)))
      | inr is_name ↦
          let (way, list) = check_host_name url is_name in
          let (same, (first, rest, found, h)) =
            settle_lookup-passed url got (lookup (host_of url)) (sym way ∙ e) in
          (same, (first, rest, list ∙ found, h))
    ]

    check_host-Public : (url : Url) → Public url → check_host is_ip lookup url ≡ passed url
    unfolding settle_lookup
    check_host-Public url (first, rest, e, (p, h)) =
        elim (Bool-cases (not (is_ip (host_of url) == 0))) [
          | inl is_address ↦
              let (way, list) = check_host_address url is_address in
              let same : first ≡ host_of url = ground arith in
              way ∙ ap (settle_address url) (ap (describe_blocked_address is_ip) (sym same) ∙ p)
          | inr is_name ↦
              let (way, list) = check_host_name url is_name in
              way
              ∙ ap (settle_lookup is_ip url) (sym list ∙ e)
              ∙ check_addresses-IsPublic url (first ∷ rest) (p, h)
        ]

    -- The tests on a URL, on their results.
    abbrev chain : (web credentials_given allow_private : Bool) → Url → Checked
    chain w c a url =
        if not w
        then refused bad_protocol
        else if c
        then refused credentials
        else if a
        then passed url
        else check_host is_ip lookup url

    chain-passed :
        (w c a : Bool) (url got : Url)
        → chain w c a url ≡ passed got
        → (w ≡ true) × (c ≡ false) × (url ≡ got) × ((a ≡ true) ⊎ Public url)
    chain-passed false c a url got e = absurd (ground arith)
    chain-passed true true a url got e = absurd (ground arith)
    chain-passed true false true url got e = (refl, refl, ground arith, inl refl)
    chain-passed true false false url got e =
        let (same, h) = check_host-passed url got e in (refl, refl, same, inr h)

    chain-Public :
        (a : Bool) (url : Url) → (a ≡ true) ⊎ Public url → chain true false a url ≡ passed url
    chain-Public true url h = refl
    chain-Public false url (inl e) = absurd (ground arith)
    chain-Public false url (inr h) = check_host-Public url h

    module _ (allow_private : Bool) (parse : List ℕ → Option Url) where
      abbrev Passes : Option Url → Url → Type 0
      Passes parsed url =
          (parsed ≡ some url)
          × (is_web url.protocol ≡ true)
          × (url.has_credentials ≡ false)
          × ((allow_private ≡ true) ⊎ Public url)

      check_url-passed :
          (parsed : Option Url) (got : Url)
          → check_url is_ip lookup allow_private parsed ≡ passed got
          → Passes parsed got
      unfolding check_url
      check_url-passed none got e = absurd (ground arith)
      check_url-passed (some url) got e =
          let (w, c, same, h) =
            chain-passed (is_web url.protocol) url.has_credentials allow_private url got e in
          subst (λ u. Passes (some url) u) same (refl, w, c, h)

      -- A URL is let through exactly when it parses, is of http or https, holds no credentials, and
      -- either private hosts are allowed or its host has an address and only public ones.
      pub assert_public_url_iff :
          (raw : List ℕ) (url : Url)
          → (assert_public_url is_ip lookup allow_private parse raw ≡ passed url) ↔ (
              (parse raw ≡ some url)
              × (is_web url.protocol ≡ true)
              × (url.has_credentials ≡ false)
              × ((allow_private ≡ true) ⊎ Public url))
      unfolding assert_public_url check_url
      assert_public_url_iff raw url = (
        λ e. check_url-passed (parse raw) url e,
        λ (parsed, w, c, h).
            ap (check_url is_ip lookup allow_private) parsed
            ∙ ap (λ t. chain t url.has_credentials allow_private url) w
            ∙ ap (λ t. chain true t allow_private url) c
            ∙ chain-Public allow_private url h,
      )

    not-Public :
        (url : Url) (others more : List (List ℕ)) {address : List ℕ}
        → addresses url ≡ some (others ++ (address ∷ more))
        → IsInternal is_ip address
        → ¬ ((false ≡ true) ⊎ Public url)
    not-Public url others more list internal (inl e) = absurd (ground arith)
    not-Public url others more {address} list internal (inr (first, rest, found, h)) =
        let same : others ++ (address ∷ more) ≡ first ∷ rest = ground arith in
        let fine : All (IsPublic is_ip) (others ++ (address ∷ more)) =
          subst (All (IsPublic is_ip)) (sym same) h in
        let blocked = IsInternal-blocked is_ip internal in
        let open_to = All-middle (IsPublic is_ip) others address more fine in ground arith

    -- Where private hosts are not allowed, nothing is sent for a URL one of whose addresses is internal:
    -- an IPv4 address in one of the blocked ranges, plain or after `::ffff:` in either spelling, or an
    -- IPv6 address that is `::` or `::1` or whose first group is in fc00::/7, fe80::/10 or ff00::/8.
    pub safe_fetch-IsInternal {ℓ} :
        {A : Type ℓ} (parse : List ℕ → Option Url) (fetch : Url → A) (raw : List ℕ) (url : Url)
        (others more : List (List ℕ)) {address : List ℕ}
        → parse raw ≡ some url
        → addresses url ≡ some (others ++ (address ∷ more))
        → IsInternal is_ip address
        → safe_fetch is_ip lookup false parse fetch raw ≡ none
    unfolding safe_fetch
    safe_fetch-IsInternal parse fetch raw url others more {address} parsed list internal =
        elim (Checked-cases (assert_public_url is_ip lookup false parse raw)) [
          | inr (e, stopped) ↦ ap (settle_fetch fetch) stopped
          | inl (got, went) ↦
              let (found, web, bare, way) = (assert_public_url_iff false parse raw got).0 went in
              let same : url ≡ got = ground arith in
              absurd (
                not-Public url others more list internal
                  (subst (λ u. (false ≡ true) ⊎ Public u) (sym same) way))
        ]
