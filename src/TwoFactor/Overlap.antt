-- ===== src/TwoFactor/Overlap.antt =====
-- server/modules/auth/totp.service.ts: checks of the second factor that overlap.
use zenstier.Prelude.{
  ℕ, ◌≡◌, refl, ap, ◌∙◌, Bool, true, false, Option, none, some, List, [], ◌∷◌, map, arith, ◌==◌,
  if◌then◌else◌, Bool-cases, inl, inr,
}
use zenstier.Totp.{upper, verify_code}
use zenstier.TwoFactor.{
  Factor, Account, Answer, account_of, given, without, trim, recover, by_code, by_secret,
  put_hashes, verify_second_factor,
}
use zenstier.TwoFactor.Recovery.{
  holds, held, held_by, holds-find_first, holds-without_self, recovered, recovered_by, recovery,
  verify_known,
}
use zenstier.TwoFactor.Gate.{passes}

holds-without_other :
    (b h : ℕ) (hashes : List ℕ) → (b == h) ≡ false → holds b (without h hashes) ≡ holds b hashes
holds-without_other b h [] e = refl
holds-without_other b h (x ∷ hashes) e = ground (arith, holds-without_other b h hashes e)

module _ (hmac : (key message : List ℕ) → List ℕ) (matches : List ℕ → ℕ → Bool) where
  -- What follows the reading of the row: `f` is the row as it was read, and the account is as it is when
  -- the list is written.
  abbrev pub finish_check : (at_ms : ℕ) (submitted : List ℕ) → Factor → Account → Answer Bool
  unfolding by_secret
  finish_check at_ms submitted f s =
      by_secret hmac matches at_ms submitted f s (if f.is_enabled then given f.secret else none)

  -- A text that passes as a recovery code.
  by_code-recovered :
      (cleaned : List ℕ) (f : Factor) (s : Account) (v : Option Bool) {b : ℕ}
      → recovered hmac matches cleaned f v ≡ some b
      → (by_code hmac matches cleaned f s v ≡ recover f s (some b)) × (holds b f.backup_hashes ≡ 1)
  by_code-recovered cleaned f s none e = absurd (ground arith)
  by_code-recovered cleaned f s (some true) e = absurd (ground arith)
  by_code-recovered cleaned f s (some false) e =
      (ap (recover f s) e, holds-find_first (matches (map upper cleaned)) f.backup_hashes e)

  by_secret-recovered :
      (at_ms : ℕ) (submitted : List ℕ) (f : Factor) (s : Account) (o : Option (List ℕ)) {b : ℕ}
      → recovered_by hmac matches at_ms submitted f o ≡ some b
      → (by_secret hmac matches at_ms submitted f s o ≡ recover f s (some b))
        × (holds b f.backup_hashes ≡ 1)
  unfolding by_secret
  by_secret-recovered at_ms submitted f s none e = absurd (ground arith)
  by_secret-recovered at_ms submitted f s (some secret) e =
      by_code-recovered (trim submitted) f s (verify_code hmac secret (trim submitted) 1 at_ms) e

  -- Two checks that have both read the row before either writes its list, each let through by a recovery
  -- code: the first to finish leaves its code used; the second passes too, even with the same code, and
  -- afterwards the code of the first is good again unless it is the same.
  pub finish_check-restores :
      (at_one at_two : ℕ) (one two : List ℕ) (f : Factor) (s : Account) {b c : ℕ}
      → s.factor ≡ some f
      → recovery hmac matches at_one one (some f) ≡ some b
      → recovery hmac matches at_two two (some f) ≡ some c
      → (passes (verify_second_factor hmac matches at_one one s) ≡ true)
        × (held b (account_of (verify_second_factor hmac matches at_one one s)) ≡ 0)
        × (passes (
              finish_check at_two two f
                (account_of (verify_second_factor hmac matches at_one one s)))
            ≡ true)
        × (held b (
              account_of (
                finish_check at_two two f
                  (account_of (verify_second_factor hmac matches at_one one s))))
            ≡ (if b == c then 0 else 1))
  unfolding finish_check by_secret
  finish_check-restores at_one at_two one two f s {b} {c} there first second =
      let o = if f.is_enabled then given f.secret else none in
      let (went, had) = by_secret-recovered at_one one f s o first in
      let r1 = verify_known hmac matches at_one one s there ∙ went in
      let s1 = account_of (verify_second_factor hmac matches at_one one s) in
      let (again, other) = by_secret-recovered at_two two f s1 o second in
      let left : s1.factor ≡ put_hashes (without b f.backup_hashes) (some f) =
        ap (λ r. (account_of r).factor) r1 ∙ ap (put_hashes (without b f.backup_hashes)) there in
      let final : held b (account_of (finish_check at_two two f s1))
          ≡ holds b (without c f.backup_hashes) =
        ap (λ r. held b (account_of r)) again
        ∙ ap (λ x. held_by b (put_hashes (without c f.backup_hashes) x)) left in
      (
        ap passes r1,
        ap (held_by b) left ∙ holds-without_self b f.backup_hashes,
        ap passes again,
        final ∙ elim (Bool-cases (b == c)) [
          | inl same ↦ ground (arith, holds-without_self b f.backup_hashes)
          | inr apart ↦ ground (arith, holds-without_other b c f.backup_hashes apart)
        ],
      )
