-- ===== src/SignIn.antt =====
-- auth.ts and server/modules/auth/auth.service.ts: signing in. An email and an address are keys of the
-- counters; the comparison of a password with a hash is a parameter, like the parts of the second factor.
-- Redis may be down at each of its calls, also between the look and the charge. `authorize` is cut after the look at the counters, where other
-- attempts can run.
pub mod Budget
pub mod Race
mod Tests
use zenstier.Prelude.{
  ℕ, ◌*◌, Bool, true, false, not, ◌&&◌, ◌||◌, Option, none, some, List, [], ◌∷◌, ◌==◌,
  if◌then◌else◌, find_first,
}
use zenstier.RateLimit.Window.{Counter, consume_rate_limit, is_rate_limited, reset_rate_limit}
use zenstier.TwoFactor.{Account, Answer, gives, fails, verify_second_factor}

pub record Credential : Type 0 where
  pub id : ℕ
  pub email : ℕ
  pub password_hash : Option ℕ

pub record Login : Type 0 where
  pub users : List Credential
  pub factors : ℕ → Account
  pub by_account : ℕ → Option Counter
  pub by_ip : ℕ → Option Counter

pub record Attempt : Type 0 where
  pub email : ℕ
  pub ip : ℕ
  pub password : ℕ
  pub totp : List ℕ
  pub now : ℕ
  pub can_look_ip : Bool
  pub can_look : Bool
  pub can_charge_ip : Bool
  pub can_charge : Bool
  pub can_reset : Bool

-- `crashed` where the check of the second factor throws.
pub data Verdict : Type 0 where
  signed_in : (user_id : ℕ) → Verdict
  rejected blocked crashed : Verdict

abbrev pub account_limit : ℕ
account_limit = 8

abbrev pub ip_limit : ℕ
ip_limit = 20

abbrev pub window_ms : ℕ
window_ms = 900000

abbrev pub put_at {ℓ} : {A : Type ℓ} → ℕ → A → (ℕ → A) → ℕ → A
put_at k v f x = if x == k then v else f x

abbrev pub charge :
    (up : Bool) (limit : ℕ) → Attempt → (key : ℕ) → (ℕ → Option Counter) → ℕ → Option Counter
charge up limit a key f = put_at key (consume_rate_limit up limit window_ms a.now (f key)).0 f

abbrev pub charge_account : Attempt → Login → Login
charge_account a s = record s {
  by_account = charge a.can_charge account_limit a a.email s.by_account;
}

abbrev pub charge_both : Attempt → Login → Login
charge_both a s = record (charge_account a s) {
  by_ip = charge a.can_charge_ip ip_limit a a.ip s.by_ip;
}

abbrev pub is_limited : Attempt → Login → Bool
is_limited a s =
    is_rate_limited a.can_look_ip ip_limit a.now (s.by_ip a.ip)
    || is_rate_limited a.can_look account_limit a.now (s.by_account a.email)

module _ (verify : (password hash : ℕ) → Bool) where
  abbrev pub by_hash : (password : ℕ) → Credential → Option ℕ → Option ℕ
  by_hash password c none = none
  by_hash password c (some hash) = if verify password hash then some c.id else none

  abbrev pub by_credential : (password : ℕ) → Option Credential → Option ℕ
  by_credential password none = none
  by_credential password (some c) = by_hash password c c.password_hash

  pub authenticate_user : (email password : ℕ) → List Credential → Option ℕ
  authenticate_user email password users =
      by_credential password (find_first (λ (c : Credential). c.email == email) users)

  module _ (hmac : (key message : List ℕ) → List ℕ) (matches : List ℕ → ℕ → Bool) where
    abbrev pub settle_factor : Attempt → Login → (user_id : ℕ) → Answer Bool → Verdict × Login
    settle_factor a s user_id (fails e f) =
        (crashed, record s { factors = put_at user_id f s.factors })
    settle_factor a s user_id (gives false f) =
        (rejected, charge_account a (record s { factors = put_at user_id f s.factors }))
    settle_factor a s user_id (gives true f) = (
      signed_in user_id,
      record s {
        factors = put_at user_id f s.factors;
        by_account =
            put_at a.email (reset_rate_limit a.can_reset (s.by_account a.email)) s.by_account;
      },
    )

    abbrev pub settle_user : Attempt → Login → Option ℕ → Verdict × Login
    settle_user a s none = (rejected, charge_both a s)
    settle_user a s (some user_id) =
        settle_factor a s user_id
          (verify_second_factor hmac matches a.now a.totp (s.factors user_id))

    -- What follows the look.
    pub proceed : Attempt → Login → Verdict × Login
    unfolding authenticate_user
    proceed a s = settle_user a s (authenticate_user a.email a.password s.users)

    pub authorize : Attempt → Login → Verdict × Login
    unfolding proceed
    authorize a s = let done = proceed a s in if is_limited a s then (blocked, s) else done
