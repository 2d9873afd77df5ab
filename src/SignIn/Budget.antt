-- ===== src/SignIn/Budget.antt =====
-- auth.ts: how many attempts on one account get to its password, when they come one after another.
use zenstier.Prelude.{
  ℕ, suc, ◌+◌, ◌-◌, ◌≤◌, ◌<◌, ◌≡◌, refl, sym, ap, ◌∙◌, Bool, true, false, not, ◌&&◌, ◌||◌, Option,
  none, some, List, [], ◌∷◌, arith, ◌==◌, ==_refl, leb, if◌then◌else◌, All, Bool-cases, inl, inr,
}
use zenstier.RateLimit.Window.{
  Counter, consume_rate_limit, is_rate_limited, opened, consume-opened, consume-none,
  is_rate_limited-opened, is_rate_limited-down,
}
use zenstier.TwoFactor.{Answer, gives, fails, verify_second_factor}
use zenstier.SignIn.{
  Login, Attempt, Verdict, rejected, blocked, account_limit, window_ms, charge_account, is_limited,
  authenticate_user, settle_factor, settle_user, proceed, authorize,
}

-- An attempt that did not sign in, nor throw.
abbrev pub is_refusal : Verdict → Bool
is_refusal rejected = true
is_refusal blocked = true
is_refusal _ = false

-- An attempt on the account comes before the time `e`.
abbrev pub IsBefore : (email e : ℕ) → Attempt → Type 0
IsBefore email e a = (not (a.email == email) || not (leb e a.now)) ≡ true

module _ (verify : (password hash : ℕ) → Bool) (hmac : (key message : List ℕ) → List ℕ)
    (matches : List ℕ → ℕ → Bool) (email : ℕ) where
  abbrev pub result : Attempt → Login → Verdict × Login
  result = authorize verify hmac matches

  -- One where the attempt gets to the password of the account, and the charge of the account that
  -- follows reaches Redis.
  abbrev pub tries : Attempt → Login → ℕ
  tries a s = if a.email == email && not (is_limited a s) && a.can_charge then 1 else 0

  pub all_tries : List Attempt → Login → ℕ
  all_tries [] s = 0
  all_tries (a ∷ rest) s = tries a s + all_tries rest (result a s).1

  -- No attempt on the account signs in, nor throws.
  unfoldable pub all_refused : List Attempt → Login → Bool
  all_refused [] s = true
  all_refused (a ∷ rest) s =
      (not (a.email == email) || is_refusal (result a s).0) && all_refused rest (result a s).1

  abbrev pub counter : Login → Option Counter
  counter s = s.by_account email

  settle_factor-counter :
      (a : Attempt) (s : Login) (user_id : ℕ) (r : Answer Bool)
      → is_refusal (settle_factor verify hmac matches a s user_id r).0 ≡ true
      → counter (settle_factor verify hmac matches a s user_id r).1 ≡ counter (charge_account a s)
  settle_factor-counter a s user_id (fails e f) h = absurd (ground arith)
  settle_factor-counter a s user_id (gives false f) h = refl
  settle_factor-counter a s user_id (gives true f) h = absurd (ground arith)

  settle_user-counter :
      (a : Attempt) (s : Login) (o : Option ℕ)
      → is_refusal (settle_user verify hmac matches a s o).0 ≡ true
      → counter (settle_user verify hmac matches a s o).1 ≡ counter (charge_account a s)
  settle_user-counter a s none h = refl
  settle_user-counter a s (some user_id) h =
      settle_factor-counter a s user_id
        (verify_second_factor hmac matches a.now a.totp (s.factors user_id)) h

  settle_factor-other :
      (a : Attempt) (s : Login) (user_id : ℕ) (r : Answer Bool)
      → (email == a.email) ≡ false
      → counter (settle_factor verify hmac matches a s user_id r).1 ≡ counter s
  settle_factor-other a s user_id (fails e f) h = refl
  settle_factor-other a s user_id (gives false f) h = ground arith
  settle_factor-other a s user_id (gives true f) h = ground arith

  settle_user-other :
      (a : Attempt) (s : Login) (o : Option ℕ)
      → (email == a.email) ≡ false
      → counter (settle_user verify hmac matches a s o).1 ≡ counter s
  settle_user-other a s none h = ground arith
  settle_user-other a s (some user_id) h =
      settle_factor-other a s user_id
        (verify_second_factor hmac matches a.now a.totp (s.factors user_id)) h

  -- What an attempt that gets to the password found.
  not_blocked :
      (a : Attempt) (s : Login) (n e : ℕ)
      → a.email ≡ email
      → counter s ≡ opened n e
      → a.now < e
      → is_limited a s ≡ false
      → n < account_limit
  not_blocked a s n e same found early free =
      let free_account : is_rate_limited a.can_look account_limit a.now (s.by_account a.email)
          ≡ false =
        ground arith in
      let here : s.by_account a.email ≡ opened n e = ap s.by_account same ∙ found in
      elim (Bool-cases a.can_look) [
        | inl up ↦
            let low : is_rate_limited true account_limit a.now (opened n e) ≡ false =
              sym (
                ap (λ b. is_rate_limited b account_limit a.now (s.by_account a.email)) up
                ∙ ap (is_rate_limited true account_limit a.now) here)
              ∙ free_account in
            ground (arith, is_rate_limited-opened account_limit a.now n e early)
        | inr down ↦ absurd (
            ground (
              arith,
              ap (λ b. is_rate_limited b account_limit a.now (s.by_account a.email)) down,
              is_rate_limited-down account_limit a.now (s.by_account a.email),
            ))
      ]

  pub charged :
      (a : Attempt) (s : Login) (n e : ℕ)
      → a.email ≡ email
      → counter s ≡ opened n e
      → 0 < n
      → a.now < e
      → a.can_charge ≡ true
      → counter (charge_account a s) ≡ opened (suc n) e
  charged a s n e same found p early up =
      let here : s.by_account a.email ≡ opened n e = ap s.by_account same ∙ found in
      ap
        (λ b.
          if b
          then (consume_rate_limit a.can_charge account_limit window_ms a.now
              (s.by_account a.email)).0
          else s.by_account email)
        (ground (arith, same) ∙ ==_refl email)
      ∙ ap (λ b. (consume_rate_limit b account_limit window_ms a.now (s.by_account a.email)).0) up
      ∙ ap (λ o. (consume_rate_limit true account_limit window_ms a.now o).0) here
      ∙ consume-opened account_limit window_ms a.now n e p early

  -- A charge that fails leaves the counter alone.
  uncharged :
      (a : Attempt) (s : Login) (n e : ℕ)
      → a.email ≡ email
      → counter s ≡ opened n e
      → a.can_charge ≡ false
      → counter (charge_account a s) ≡ opened n e
  unfolding consume_rate_limit
  uncharged a s n e same found lost =
      ap
        (λ b.
          if b
          then (consume_rate_limit a.can_charge account_limit window_ms a.now
              (s.by_account a.email)).0
          else s.by_account email)
        (ground (arith, same) ∙ ==_refl email)
      ∙ ap (λ b. (consume_rate_limit b account_limit window_ms a.now (s.by_account a.email)).0) lost
      ∙ ap s.by_account same
      ∙ found

  abbrev Kept : (a : Attempt) (s : Login) (n e : ℕ) → Type 0
  Kept a s n e =
      (n' : ℕ) × (counter (result a s).1 ≡ opened n' e)
      × (0 < n')
      × (tries a s + (account_limit - n') ≤ account_limit - n)

  step-Kept :
      (a : Attempt) (s : Login) (n e : ℕ)
      → counter s ≡ opened n e
      → 0 < n
      → IsBefore email e a
      → (not (a.email == email) || is_refusal (result a s).0) ≡ true
      → Kept a s n e
  unfolding authorize proceed
  step-Kept a s n e found p early refused = elim (Bool-cases (is_limited a s)) [
    | inl stop ↦ (
      n,
      ap (λ b. counter (if b then (blocked, s) else proceed verify hmac matches a s).1) stop
          ∙ found,
      p,
      ground arith,
    )
    | inr free ↦
        let went : result a s ≡ proceed verify hmac matches a s =
          ap (λ b. if b then (blocked, s) else proceed verify hmac matches a s) free in
        let user = authenticate_user verify a.email a.password s.users in
        elim (Bool-cases (a.email == email)) [
          | inl mine ↦
              let same : a.email ≡ email = ground arith in
              let early_now : a.now < e = ground arith in
              let low = not_blocked a s n e same found early_now free in
              let refusal : is_refusal (proceed verify hmac matches a s).0 ≡ true =
                ground (arith, ap (λ r. is_refusal r.0) went) in
              let seen = ap (λ r. counter r.1) went ∙ settle_user-counter a s user refusal in
              elim (Bool-cases a.can_charge) [
                | inl up ↦ (
                  suc n,
                  seen ∙ charged a s n e same found p early_now up,
                  omega arith,
                  ground arith,
                )
                | inr lost ↦ (n, seen ∙ uncharged a s n e same found lost, p, ground arith)
              ]
          | inr other ↦ (
            n,
            ap (λ r. counter r.1) went ∙ settle_user-other a s user (ground arith) ∙ found,
            p,
            ground arith,
          )
        ]
  ]

  all_tries-opened :
      (list : List Attempt) (s : Login) (n e : ℕ)
      → counter s ≡ opened n e
      → 0 < n
      → All (IsBefore email e) list
      → all_refused list s ≡ true
      → all_tries list s ≤ account_limit - n
  unfolding all_tries all_refused
  all_tries-opened [] s n e found p early refused = omega arith
  all_tries-opened (a ∷ rest) s n e found p (h, hs) refused =
      let (n', found', p', le) = step-Kept a s n e found p h (ground arith) in
      let more = all_tries-opened rest (result a s).1 n' e found' p' hs (ground arith) in
      omega arith

  pub first_charged :
      (a : Attempt) (s : Login)
      → a.email ≡ email
      → counter s ≡ none
      → a.can_charge ≡ true
      → counter (charge_account a s) ≡ opened 1 (a.now + window_ms)
  first_charged a s same found up =
      ap
        (λ b.
          if b
          then (consume_rate_limit a.can_charge account_limit window_ms a.now
              (s.by_account a.email)).0
          else s.by_account email)
        (ground (arith, same) ∙ ==_refl email)
      ∙ ap (λ b. (consume_rate_limit b account_limit window_ms a.now (s.by_account a.email)).0) up
      ∙ ap (λ o. (consume_rate_limit true account_limit window_ms a.now o).0)
          (ap s.by_account same ∙ found)
      ∙ consume-none account_limit window_ms a.now

  -- In the fifteen minutes from the first attempt on an account that is charged, whatever attempts are
  -- made on other accounts and from whatever addresses, and whichever calls to Redis fail, at most eight
  -- attempts get to the password of the account, not counting those whose own charge fails, as long as
  -- they come one after another and none of them signs in or throws.
  pub all_tries-account_limit :
      (a : Attempt) (rest : List Attempt) (s : Login)
      → a.email ≡ email
      → counter s ≡ none
      → is_limited a s ≡ false
      → a.can_charge ≡ true
      → All (IsBefore email (a.now + window_ms)) rest
      → all_refused (a ∷ rest) s ≡ true
      → all_tries (a ∷ rest) s ≤ account_limit
  unfolding all_tries all_refused authorize proceed
  all_tries-account_limit a rest s same found free up early refused =
      let went : result a s ≡ proceed verify hmac matches a s =
        ap (λ b. if b then (blocked, s) else proceed verify hmac matches a s) free in
      let mine : (a.email == email) ≡ true = ground (arith, ==_refl email, same) in
      let refusal : is_refusal (proceed verify hmac matches a s).0 ≡ true =
        ground (arith, ap (λ r. is_refusal r.0) went) in
      let start : counter (result a s).1 ≡ opened 1 (a.now + window_ms) =
        ap (λ r. counter r.1) went
        ∙ settle_user-counter a s (authenticate_user verify a.email a.password s.users) refusal
        ∙ first_charged a s same found up in
      let more =
        all_tries-opened rest (result a s).1 1 (a.now + window_ms) start (omega arith) early
          (ground arith) in
      ground arith
