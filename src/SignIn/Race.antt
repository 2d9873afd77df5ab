-- ===== src/SignIn/Race.antt =====
-- auth.ts: attempts that run at the same time.
use zenstier.Prelude.{
  ℕ, suc, ◌+◌, ◌<◌, ◌≡◌, refl, ap, ◌∙◌, Bool, true, false, none, List, [], ◌∷◌, arith, length,
  if◌then◌else◌, All,
}
use zenstier.RateLimit.Window.{opened}
use zenstier.SignIn.{
  Login, Attempt, window_ms, charge_both, is_limited, authenticate_user, settle_user, proceed,
}
use zenstier.SignIn.Budget.{charged, first_charged}

module _ (verify : (password hash : ℕ) → Bool) (hmac : (key message : List ℕ) → List ℕ)
    (matches : List ℕ → ℕ → Bool) where
  -- Attempts that have all looked at the counters of `seen`, each with what follows its look.
  abbrev pub overlap : (seen : Login) → List Attempt → Login → Login
  unfolding proceed
  overlap seen [] s = s
  overlap seen (a ∷ rest) s =
      let went = (proceed verify hmac matches a s).1 in
      overlap seen rest (if is_limited a seen then s else went)

  -- An attempt on the account that found it free, with a wrong password and a charge that reaches Redis
  -- before the time `e`.
  abbrev pub IsGuess : (email e : ℕ) → Login → Attempt → Type 0
  IsGuess email e seen a =
      (a.email ≡ email)
      × (is_limited a seen ≡ false)
      × (authenticate_user verify a.email a.password seen.users ≡ none)
      × (a.can_charge ≡ true)
      × (a.now < e)

  step :
      (seen : Login) (a : Attempt) (s : Login)
      → is_limited a seen ≡ false
      → s.users ≡ seen.users
      → authenticate_user verify a.email a.password seen.users ≡ none
      → (if is_limited a seen then s else (proceed verify hmac matches a s).1) ≡ charge_both a s
  unfolding proceed
  step seen a s free same wrong =
      ap (λ b. if b then s else (proceed verify hmac matches a s).1) free
      ∙ ap (λ o. (settle_user verify hmac matches a s o).1)
          (ap (authenticate_user verify a.email a.password) same ∙ wrong)

  overlap-opened :
      (email e n : ℕ) (seen : Login) (list : List Attempt) (s : Login)
      → s.users ≡ seen.users
      → s.by_account email ≡ opened n e
      → 0 < n
      → All (IsGuess email e seen) list
      → (overlap seen list s).by_account email ≡ opened (n + length list) e
  unfolding overlap
  overlap-opened email e n seen [] s same found p h = found ∙ ap (λ k. opened k e) (omega arith)
  overlap-opened email e n seen (a ∷ rest) s same found p ((mine, free, wrong, up, early), hs) =
      let next = step seen a s free same wrong in
      let count = charged verify hmac matches email a s n e mine found p early up in
      ap (λ t. (overlap seen rest t).by_account email) next
      ∙ overlap-opened email e (suc n) seen rest (charge_both a s) same count (omega arith) hs
      ∙ ap (λ k. opened k e) (omega arith)

  -- The limit does not bound attempts that run at the same time: when any number of wrong guesses at an
  -- account look at its free counter before any of them is charged, all of them get to the password,
  -- and the counter, which allows eight, then stands at their number.
  pub overlap-counter :
      (email : ℕ) (a : Attempt) (rest : List Attempt) (s : Login)
      → s.by_account email ≡ none
      → All (IsGuess email (a.now + window_ms) s) (a ∷ rest)
      → (overlap s (a ∷ rest) s).by_account email ≡ opened (length (a ∷ rest)) (a.now + window_ms)
  unfolding overlap
  overlap-counter email a rest s found ((mine, free, wrong, up, early), hs) =
      ap (λ t. (overlap s rest t).by_account email) (step s a s free refl wrong)
      ∙ overlap-opened email (a.now + window_ms) 1 s rest (charge_both a s) refl
          (first_charged verify hmac matches email a s mine found up) (omega arith) hs
      ∙ ap (λ k. opened k (a.now + window_ms)) (omega arith)
