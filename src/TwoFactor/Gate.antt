-- ===== src/TwoFactor/Gate.antt =====
-- server/modules/auth/totp.service.ts: who passes the second factor.
use zenstier.Prelude.{
  ℕ, ◌≡◌, ◌≢◌, subst, ◌↔◌, ◌⊎◌, refl, sym, ap, ◌∙◌, Bool, true, false, Option, none, some, List, [],
  ◌∷◌, map, arith, if◌then◌else◌, find_first, is_some, any, All, Option-cases, inl, inr,
}
use zenstier.Totp.{upper, verify_code}
use zenstier.TwoFactor.{
  Factor, Account, Answer, gives, fails, account_of, given, trim, begin_totp_setup, confirmed,
  confirm_secret, confirm_totp_setup, recover, by_code, by_secret, verify_second_factor,
  strip_factor, disable_totp, put_hashes, without,
}
use zenstier.TwoFactor.Recovery.{
  Act, begins, confirms, verifies, disables, act, acts, verify_known, verify_missing,
}

-- A factor that is on has a secret, so that no account with two factors passes with one.
abbrev pub HasSecret : Option Factor → Type 0
HasSecret none = Unit
HasSecret (some f) = f.is_enabled ≡ true → given f.secret ≢ none

abbrev pub IsGuarded : Account → Type 0
IsGuarded s = HasSecret s.factor

-- A setup hands out a secret that is not empty.
abbrev pub GivesSecret : Act → Type 0
GivesSecret (begins drawn new_secret) = given (some new_secret) ≢ none
GivesSecret _ = Unit

abbrev pub passes : Answer Bool → Bool
passes (gives b s) = b
passes (fails e s) = false

-- A property of a call that looks its user up, or branches on a test.
pub by_factor {ℓ κ} :
    {A : Type ℓ} (P : A → Type κ) (o : Option Factor) (missing : A) (known : Factor → A)
    → (o ≡ none → P missing)
    → ((f : Factor) → o ≡ some f → P (known f))
    → P (elim o [ none ↦ missing | some f ↦ known f ])
by_factor P none missing known m k = m refl
by_factor P (some f) missing known m k = k f refl

pub by_test {ℓ κ} :
    {A : Type ℓ} (P : A → Type κ) (b : Bool) {x y : A}
    → (b ≡ true → P x)
    → (b ≡ false → P y)
    → P (if b then x else y)
by_test P true f g = f refl
by_test P false f g = g refl

given-some : (o : Option (List ℕ)) {s : List ℕ} → o ≡ some s → given o ≢ none → given o ≡ some s
given-some none e h = ground arith
given-some (some []) e h = absurd (h refl)
given-some (some (c ∷ r)) e h = e

put_hashes-HasSecret :
    (hashes : List ℕ) (o : Option Factor) → HasSecret o → HasSecret (put_hashes hashes o)
put_hashes-HasSecret hashes none h = tt
put_hashes-HasSecret hashes (some g) h = h

recover-IsGuarded :
    (f : Factor) (s : Account) (o : Option ℕ)
    → HasSecret (some f)
    → IsGuarded s
    → IsGuarded (account_of (recover f s o))
recover-IsGuarded f s none g h = h
recover-IsGuarded f s (some hash) g h =
    put_hashes-HasSecret (without hash f.backup_hashes) s.factor h

confirmed-IsGuarded :
    (codes : List (List ℕ)) (hashes : List ℕ) (f : Factor) (s : Account) (v : Option Bool)
    → given f.secret ≢ none
    → IsGuarded s
    → IsGuarded (account_of (confirmed codes hashes f s v))
confirmed-IsGuarded codes hashes f s none g h = h
confirmed-IsGuarded codes hashes f s (some false) g h = h
confirmed-IsGuarded codes hashes f s (some true) g h = λ on. g

strip_factor-IsGuarded :
    (r : Answer Bool) → IsGuarded (account_of r) → IsGuarded (account_of (strip_factor r))
strip_factor-IsGuarded (fails e s) h = h
strip_factor-IsGuarded (gives false s) h = h
strip_factor-IsGuarded (gives true s) h = λ off. absurd (ground arith)

module _ (hmac : (key message : List ℕ) → List ℕ) (matches : List ℕ → ℕ → Bool) where
  by_code-IsGuarded :
      (cleaned : List ℕ) (f : Factor) (s : Account) (v : Option Bool)
      → HasSecret (some f)
      → IsGuarded s
      → IsGuarded (account_of (by_code hmac matches cleaned f s v))
  by_code-IsGuarded cleaned f s none g h = h
  by_code-IsGuarded cleaned f s (some true) g h = h
  by_code-IsGuarded cleaned f s (some false) g h =
      recover-IsGuarded f s (find_first (matches (map upper cleaned)) f.backup_hashes) g h

  by_secret-IsGuarded :
      (at_ms : ℕ) (submitted : List ℕ) (f : Factor) (s : Account) (o : Option (List ℕ))
      → HasSecret (some f)
      → IsGuarded s
      → IsGuarded (account_of (by_secret hmac matches at_ms submitted f s o))
  unfolding by_secret
  by_secret-IsGuarded at_ms submitted f s none g h = h
  by_secret-IsGuarded at_ms submitted f s (some secret) g h =
      by_code-IsGuarded (trim submitted) f s (verify_code hmac secret (trim submitted) 1 at_ms) g h

  verify-IsGuarded :
      (at_ms : ℕ) (submitted : List ℕ) (s : Account)
      → IsGuarded s
      → IsGuarded (account_of (verify_second_factor hmac matches at_ms submitted s))
  verify-IsGuarded at_ms submitted s h = elim (Option-cases s.factor) [
    | inl gone ↦
        subst (λ r. IsGuarded (account_of r))
          (sym (verify_missing hmac matches at_ms submitted s gone)) h
    | inr (f, there) ↦
        subst (λ r. IsGuarded (account_of r))
          (sym (verify_known hmac matches at_ms submitted s there))
          (by_secret-IsGuarded at_ms submitted f s (if f.is_enabled then given f.secret else none)
            (subst HasSecret there h) h)
  ]

  begin-IsGuarded :
      (drawn : Bool) (new_secret : List ℕ) (s : Account)
      → given (some new_secret) ≢ none
      → IsGuarded s
      → IsGuarded (account_of (begin_totp_setup drawn new_secret s))
  unfolding begin_totp_setup
  begin-IsGuarded drawn new_secret s new h =
      by_factor (λ (r : Answer (List ℕ)). IsGuarded (account_of r)) s.factor _ _ (λ gone. h)
        (λ f there.
          by_test (λ (r : Answer (List ℕ)). IsGuarded (account_of r)) f.is_enabled (λ on. h)
            (λ off.
              by_test (λ (r : Answer (List ℕ)). IsGuarded (account_of r)) drawn (λ d on. new)
                (λ d on. new)))

  confirm_secret-IsGuarded :
      (at_ms : ℕ) (codes : List (List ℕ)) (hashes submitted : List ℕ) (f : Factor) (s : Account)
      (o : Option (List ℕ))
      → given f.secret ≡ o
      → IsGuarded s
      → IsGuarded (account_of (confirm_secret hmac matches at_ms codes hashes submitted f s o))
  confirm_secret-IsGuarded at_ms codes hashes submitted f s none e h = h
  confirm_secret-IsGuarded at_ms codes hashes submitted f s (some secret) e h =
      confirmed-IsGuarded codes hashes f s (verify_code hmac secret submitted 1 at_ms)
        (ground arith) h

  confirm-IsGuarded :
      (at_ms : ℕ) (codes : List (List ℕ)) (hashes submitted : List ℕ) (s : Account)
      → IsGuarded s
      → IsGuarded (account_of (confirm_totp_setup hmac matches at_ms codes hashes submitted s))
  unfolding confirm_totp_setup
  confirm-IsGuarded at_ms codes hashes submitted s h =
      by_factor (λ (r : Answer (List (List ℕ))). IsGuarded (account_of r)) s.factor _ _ (λ gone. h)
        (λ f there.
          by_test (λ (r : Answer (List (List ℕ))). IsGuarded (account_of r)) f.is_enabled (λ on. h)
            (λ off.
              confirm_secret-IsGuarded at_ms codes hashes submitted f s (given f.secret) refl h))

  disable-IsGuarded :
      (at_ms : ℕ) (submitted : List ℕ) (s : Account)
      → IsGuarded s
      → IsGuarded (account_of (disable_totp hmac matches at_ms submitted s))
  unfolding disable_totp
  disable-IsGuarded at_ms submitted s h =
      by_factor (λ (r : Answer Bool). IsGuarded (account_of r)) s.factor _ _ (λ gone. h)
        (λ f there.
          by_test (λ (r : Answer Bool). IsGuarded (account_of r))
            (is_some (if f.is_enabled then given f.secret else none))
            (λ on.
              strip_factor-IsGuarded (verify_second_factor hmac matches at_ms submitted s)
                (verify-IsGuarded at_ms submitted s h))
            (λ off. h))

  act-IsGuarded :
      (a : Act) (s : Account) → GivesSecret a → IsGuarded s → IsGuarded (act hmac matches a s)
  unfolding act
  act-IsGuarded (begins drawn new_secret) s new h = begin-IsGuarded drawn new_secret s new h
  act-IsGuarded (confirms at_ms codes hashes submitted) s new h =
      confirm-IsGuarded at_ms codes hashes submitted s h
  act-IsGuarded (verifies at_ms submitted) s new h = verify-IsGuarded at_ms submitted s h
  act-IsGuarded (disables at_ms submitted) s new h = disable-IsGuarded at_ms submitted s h

  -- After any setups, confirmations, checks and removals of a factor whose setups give secrets that are
  -- not empty, a factor that is on still has a secret, when it did at the start.
  pub acts-IsGuarded :
      (list : List Act) (s : Account)
      → All GivesSecret list
      → IsGuarded s
      → IsGuarded (acts hmac matches list s)
  unfolding acts
  acts-IsGuarded [] s new h = h
  acts-IsGuarded (a ∷ rest) s (new, more) h =
      acts-IsGuarded rest (act hmac matches a s) more (act-IsGuarded a s new h)

  by_code-passes :
      (cleaned : List ℕ) (f : Factor) (s : Account) (v : Option Bool)
      → (passes (by_code hmac matches cleaned f s v) ≡ true) ↔ (
          (v ≡ some true)
          ⊎ ((v ≡ some false) × (any (matches (map upper cleaned)) f.backup_hashes ≡ true)))
  by_code-passes cleaned f s none = ground arith
  by_code-passes cleaned f s (some true) = ground arith
  by_code-passes cleaned f s (some false) =
      elim (Option-cases (find_first (matches (map upper cleaned)) f.backup_hashes)) [
        | inl unknown ↦ ground arith
        | inr (hash, found) ↦ ground arith
      ]

  -- Where a factor is on, and every factor that is on has a secret, a text passes exactly when, trimmed, it is an accepted code of the secret,
  -- or it is no such code and its capitals are a recovery code that is left.
  pub verify-passes :
      (at_ms : ℕ) (submitted : List ℕ) (s : Account) {f : Factor}
      → s.factor ≡ some f
      → f.is_enabled ≡ true
      → IsGuarded s
      → (secret : List ℕ) × (f.secret ≡ some secret)
        × ((passes (verify_second_factor hmac matches at_ms submitted s) ≡ true) ↔ (
            (verify_code hmac secret (trim submitted) 1 at_ms ≡ some true)
            ⊎ ((verify_code hmac secret (trim submitted) 1 at_ms ≡ some false)
                × (any (matches (map upper (trim submitted))) f.backup_hashes ≡ true))))
  unfolding by_secret
  verify-passes at_ms submitted s {f} there on h =
      let has = subst HasSecret there h in
      elim (Option-cases f.secret) [
        | inl none_given ↦ absurd (has on (ap given none_given))
        | inr (secret, e) ↦
            let used : (if f.is_enabled then given f.secret else none) ≡ some secret =
              ap (λ b. if b then given f.secret else none) on ∙ given-some f.secret e (has on) in
            let answer =
              verify_known hmac matches at_ms submitted s there
              ∙ ap (by_secret hmac matches at_ms submitted f s) used in
            (
              secret,
              e,
              rw answer (
                  by_code-passes (trim submitted) f s
                    (verify_code hmac secret (trim submitted) 1 at_ms)),
            )
      ]
