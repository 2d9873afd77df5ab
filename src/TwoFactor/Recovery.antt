-- ===== src/TwoFactor/Recovery.antt =====
-- server/modules/auth/totp.service.ts: a recovery code is used at most once.
use zenstier.Prelude.{
  ℕ, ◌+◌, ◌≤◌, ◌≡◌, refl, ap, Bool, true, false, Option, none, some, List, [], ◌∷◌, map, arith,
  ◌==◌, opt_eq, if◌then◌else◌, find_first, any, All, Option-cases, Bool-cases, inl, inr,
}
use zenstier.Totp.{upper, verify_code}
use zenstier.TwoFactor.{
  Factor, Account, Answer, gives, fails, account_of, given, without, trim, begin_totp_setup,
  confirmed, confirm_secret, confirm_totp_setup, by_code, by_secret, verify_second_factor,
  strip_factor, disable_totp,
}

pub data Act : Type 0 where
  begins : (drawn : Bool) (new_secret : List ℕ) → Act
  confirms : (at_ms : ℕ) (codes : List (List ℕ)) (hashes submitted : List ℕ) → Act
  verifies disables : (at_ms : ℕ) (submitted : List ℕ) → Act

-- One where the code with the hash `b` is still good.
abbrev pub holds : ℕ → List ℕ → ℕ
holds b hashes = if any (λ h. h == b) hashes then 1 else 0

abbrev pub held_by : ℕ → Option Factor → ℕ
held_by b none = 0
held_by b (some f) = holds b f.backup_hashes

abbrev pub held : ℕ → Account → ℕ
held b s = held_by b s.factor

holds-without : (b h : ℕ) (hashes : List ℕ) → holds b (without h hashes) ≤ holds b hashes
holds-without b h [] = ground arith
holds-without b h (x ∷ hashes) = ground (arith, holds-without b h hashes)

pub holds-without_self : (b : ℕ) (hashes : List ℕ) → holds b (without b hashes) ≡ 0
holds-without_self b [] = refl
holds-without_self b (x ∷ hashes) = ground (arith, holds-without_self b hashes)

pub holds-find_first :
    (p : ℕ → Bool) (hashes : List ℕ) {b : ℕ} → find_first p hashes ≡ some b → holds b hashes ≡ 1
holds-find_first p [] e = ground arith
holds-find_first p (x ∷ hashes) {b} e = ground (arith, holds-find_first p hashes {b = b})

module _ (hmac : (key message : List ℕ) → List ℕ) (matches : List ℕ → ℕ → Bool) where
  unfoldable pub act : Act → Account → Account
  unfolding begin_totp_setup confirm_totp_setup verify_second_factor disable_totp
  act (begins drawn new_secret) s = account_of (begin_totp_setup drawn new_secret s)
  act (confirms at_ms codes hashes submitted) s =
      account_of (confirm_totp_setup hmac matches at_ms codes hashes submitted s)
  act (verifies at_ms submitted) s =
      account_of (verify_second_factor hmac matches at_ms submitted s)
  act (disables at_ms submitted) s = account_of (disable_totp hmac matches at_ms submitted s)

  -- The hash by which a text passes as a recovery code.
  abbrev pub recovered : (cleaned : List ℕ) → Factor → Option Bool → Option ℕ
  recovered cleaned f none = none
  recovered cleaned f (some true) = none
  recovered cleaned f (some false) = find_first (matches (map upper cleaned)) f.backup_hashes

  abbrev pub recovered_by : (at_ms : ℕ) (submitted : List ℕ) → Factor → Option (List ℕ) → Option ℕ
  recovered_by at_ms submitted f none = none
  recovered_by at_ms submitted f (some secret) =
      recovered (trim submitted) f (verify_code hmac secret (trim submitted) 1 at_ms)

  abbrev pub recovery : (at_ms : ℕ) (submitted : List ℕ) → Option Factor → Option ℕ
  recovery at_ms submitted none = none
  recovery at_ms submitted (some f) =
      recovered_by at_ms submitted f (if f.is_enabled then given f.secret else none)

  abbrev one_if : ℕ → Option ℕ → ℕ
  one_if b o = if opt_eq o (some b) then 1 else 0

  -- One where the act is let through by the recovery code with the hash `b`.
  abbrev pub uses : ℕ → Act → Account → ℕ
  uses b (verifies at_ms submitted) s = one_if b (recovery at_ms submitted s.factor)
  uses b (disables at_ms submitted) s = one_if b (recovery at_ms submitted s.factor)
  uses b _ s = 0

  pub all_uses : ℕ → List Act → Account → ℕ
  all_uses b [] s = 0
  all_uses b (a ∷ rest) s = uses b a s + all_uses b rest (act a s)

  unfoldable pub acts : List Act → Account → Account
  acts [] s = s
  acts (a ∷ rest) s = acts rest (act a s)

  by_code-held :
      (b : ℕ) (cleaned : List ℕ) (f : Factor) (s : Account) (v : Option Bool)
      → s.factor ≡ some f
      → one_if b (recovered cleaned f v) + held b (account_of (by_code hmac matches cleaned f s v))
        ≤ holds b f.backup_hashes
  by_code-held b cleaned f s none e = ground (arith, ap (held_by b) e)
  by_code-held b cleaned f s (some true) e = ground (arith, ap (held_by b) e)
  by_code-held b cleaned f s (some false) e =
      elim (Option-cases (find_first (matches (map upper cleaned)) f.backup_hashes)) [
        | inl unknown ↦ ground (arith, ap (held_by b) e)
        | inr (h, found) ↦
            let had = holds-find_first (matches (map upper cleaned)) f.backup_hashes found in
            let less = holds-without b h f.backup_hashes in
            let gone = holds-without_self b f.backup_hashes in
            elim (Bool-cases (h == b)) [
              | inl same ↦ ground (arith, holds-without_self b f.backup_hashes)
              | inr other ↦ ground arith
            ]
      ]

  by_secret-held :
      (b at_ms : ℕ) (submitted : List ℕ) (f : Factor) (s : Account) (secret : Option (List ℕ))
      → s.factor ≡ some f
      → one_if b (recovered_by at_ms submitted f secret)
          + held b (account_of (by_secret hmac matches at_ms submitted f s secret))
        ≤ holds b f.backup_hashes
  unfolding by_secret
  by_secret-held b at_ms submitted f s none e = ground (arith, ap (held_by b) e)
  by_secret-held b at_ms submitted f s (some secret) e =
      by_code-held b (trim submitted) f s (verify_code hmac secret (trim submitted) 1 at_ms) e

  -- What a call does to an account whose factor is known.
  pub verify_known :
      (at_ms : ℕ) (submitted : List ℕ) (s : Account) {f : Factor}
      → s.factor ≡ some f
      → verify_second_factor hmac matches at_ms submitted s
        ≡ by_secret hmac matches at_ms submitted f s (if f.is_enabled then given f.secret else none)
  unfolding verify_second_factor
  verify_known at_ms submitted s there = ground arith

  pub verify_missing :
      (at_ms : ℕ) (submitted : List ℕ) (s : Account)
      → s.factor ≡ none
      → verify_second_factor hmac matches at_ms submitted s ≡ gives true s
  unfolding verify_second_factor
  verify_missing at_ms submitted s gone = ground arith

  verify-held :
      (b at_ms : ℕ) (submitted : List ℕ) (s : Account)
      → one_if b (recovery at_ms submitted s.factor)
          + held b (account_of (verify_second_factor hmac matches at_ms submitted s))
        ≤ held b s
  verify-held b at_ms submitted s = elim (Option-cases s.factor) [
    | inl gone ↦ ground (
      arith,
      ap (λ o. one_if b (recovery at_ms submitted o)) gone,
      ap (λ r. held b (account_of r)) (verify_missing at_ms submitted s gone),
    )
    | inr (f, there) ↦
        let kept =
          by_secret-held b at_ms submitted f s (if f.is_enabled then given f.secret else none)
            there in
        ground (
          arith,
          ap (held_by b) there,
          ap (λ o. one_if b (recovery at_ms submitted o)) there,
          ap (λ r. held b (account_of r)) (verify_known at_ms submitted s there),
        )
  ]

  -- What removes the factor leaves no recovery code.
  strip_factor-held :
      (b : ℕ) (r : Answer Bool) → held b (account_of (strip_factor r)) ≤ held b (account_of r)
  strip_factor-held b (fails e s) = omega arith
  strip_factor-held b (gives false s) = omega arith
  strip_factor-held b (gives true s) = omega arith

  disable-held :
      (b at_ms : ℕ) (submitted : List ℕ) (s : Account)
      → one_if b (recovery at_ms submitted s.factor)
          + held b (account_of (disable_totp hmac matches at_ms submitted s))
        ≤ held b s
  unfolding disable_totp
  disable-held b at_ms submitted s =
      let kept = verify-held b at_ms submitted s in
      let less = strip_factor-held b (verify_second_factor hmac matches at_ms submitted s) in
      elim (Option-cases s.factor) [
        | inl gone ↦ ground (arith, ap (λ o. one_if b (recovery at_ms submitted o)) gone)
        | inr (f, there) ↦
            let same = ap (λ o. one_if b (recovery at_ms submitted o)) there in
            elim (Option-cases (if f.is_enabled then given f.secret else none)) [
              | inl none_given ↦
                  ground (arith, ap (λ o. one_if b (recovered_by at_ms submitted f o)) none_given)
              | inr (secret, is_given) ↦ ground arith
            ]
      ]

  -- An act that does not hand out the code with the hash `b` anew.
  abbrev pub IsOther : ℕ → Act → Type 0
  IsOther b (confirms at_ms codes hashes submitted) = holds b hashes ≡ 0
  IsOther b _ = Unit

  confirmed-held :
      (b : ℕ) (codes : List (List ℕ)) (hashes : List ℕ) (f : Factor) (s : Account) (v : Option Bool)
      → holds b hashes ≡ 0
      → held b (account_of (confirmed codes hashes f s v)) ≤ held b s
  confirmed-held b codes hashes f s none h = omega arith
  confirmed-held b codes hashes f s (some false) h = omega arith
  confirmed-held b codes hashes f s (some true) h = omega arith

  confirm_secret-held :
      (b at_ms : ℕ) (codes : List (List ℕ)) (hashes submitted : List ℕ) (f : Factor) (s : Account)
      (o : Option (List ℕ))
      → holds b hashes ≡ 0
      → held b (account_of (confirm_secret hmac matches at_ms codes hashes submitted f s o))
        ≤ held b s
  confirm_secret-held b at_ms codes hashes submitted f s none h = omega arith
  confirm_secret-held b at_ms codes hashes submitted f s (some secret) h =
      confirmed-held b codes hashes f s (verify_code hmac secret submitted 1 at_ms) h

  confirm-held :
      (b at_ms : ℕ) (codes : List (List ℕ)) (hashes submitted : List ℕ) (s : Account)
      → holds b hashes ≡ 0
      → held b (account_of (confirm_totp_setup hmac matches at_ms codes hashes submitted s))
        ≤ held b s
  unfolding confirm_totp_setup
  confirm-held b at_ms codes hashes submitted s h = elim (Option-cases s.factor) [
    | inl gone ↦ ground arith
    | inr (f, there) ↦
        let less = confirm_secret-held b at_ms codes hashes submitted f s (given f.secret) h in
        ground arith
  ]

  act-held :
      (b : ℕ) (a : Act) (s : Account) → IsOther b a → uses b a s + held b (act a s) ≤ held b s
  unfolding act begin_totp_setup
  act-held b (begins drawn new_secret) s h = ground arith
  act-held b (confirms at_ms codes hashes submitted) s h =
      omega (arith, confirm-held b at_ms codes hashes submitted s h)
  act-held b (verifies at_ms submitted) s h = verify-held b at_ms submitted s
  act-held b (disables at_ms submitted) s h = disable-held b at_ms submitted s

  -- Of acts that run one after the other, each to its end, a recovery code lets at most one through, as
  -- long as no setup hands out the same code anew: it lets none through that starts with the code gone,
  -- and the code is gone once it has been used.
  pub all_uses-held :
      (b : ℕ) (list : List Act) (s : Account)
      → All (IsOther b) list
      → all_uses b list s + held b (acts list s) ≤ held b s
  unfolding all_uses acts
  all_uses-held b [] s h = omega arith
  all_uses-held b (a ∷ rest) s (h, hs) =
      let first = act-held b a s h in let more = all_uses-held b rest (act a s) hs in omega arith
