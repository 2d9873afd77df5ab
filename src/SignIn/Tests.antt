-- ===== src/SignIn/Tests.antt =====
-- Attempts to sign in at concrete inputs.
use zenstier.Prelude.{
  arith, ℕ, ◌≤◌, ◌≡◌, refl, true, false, none, some, Bool, List, [], ◌∷◌, All, ◌==◌,
}
use zenstier.RateLimit.Window.{opened, is_rate_limited, consume_rate_limit}
use zenstier.TwoFactor.{Account}
use zenstier.SignIn.{
  Login, Attempt, Credential, is_limited, authenticate_user, authorize, proceed, account_limit,
}
use zenstier.SignIn.Race.{overlap, IsGuess, overlap-counter}
use zenstier.SignIn.Budget.{all_tries, all_refused, all_tries-account_limit}

abbrev verify : (password hash : ℕ) → Bool
verify password hash = password == hash

abbrev hmac : (key message : List ℕ) → List ℕ
hmac key message = []

abbrev matches : List ℕ → ℕ → Bool
matches text hash = false

abbrev ann : Credential
ann = record { id = 1; email = 5; password_hash = some 77 }

abbrev no_factor : Account
no_factor = record { factor = none; audit = [] }

abbrev fresh : Login
fresh = record {
  users = ann ∷ [];
  factors = λ u. no_factor;
  by_account = λ k. none;
  by_ip = λ k. none;
}

abbrev guess : ℕ → Attempt
guess password = record {
  email = 5;
  ip = 9;
  password = password;
  totp = [];
  now = 1000;
  can_look_ip = true;
  can_look = true;
  can_charge_ip = true;
  can_charge = true;
  can_reset = true;
}

abbrev rest : List Attempt
rest =
    guess 2
    ∷ guess 3
    ∷ record (guess 77) { can_look = false }
    ∷ record (guess 4) { can_charge = false }
    ∷ []

open_now : is_limited (guess 1) fresh ≡ false
unfolding is_rate_limited
open_now = refl

refused : all_refused verify hmac matches 5 (guess 1 ∷ rest) fresh ≡ true
unfolding all_refused authorize proceed authenticate_user is_rate_limited consume_rate_limit
refused = refl

all_tries-account_limit_example :
    all_tries verify hmac matches 5 (guess 1 ∷ rest) fresh ≤ account_limit
all_tries-account_limit_example =
    all_tries-account_limit verify hmac matches 5 (guess 1) rest fresh refl refl open_now refl
      (refl, (refl, (refl, (refl, tt)))) refused

-- Ten wrong guesses that have all looked first.
abbrev guesses : List Attempt
guesses =
    guess 1 ∷ guess 2 ∷ guess 3 ∷ guess 4 ∷ guess 5 ∷ guess 6 ∷ guess 7 ∷ guess 8 ∷ guess 9 ∷ []

is_guess : (p : ℕ) → (p == 77) ≡ false → IsGuess verify hmac matches 5 901000 fresh (guess p)
unfolding is_rate_limited authenticate_user
is_guess p other = (refl, refl, ground arith, refl, omega arith)

are_guesses : All (IsGuess verify hmac matches 5 901000 fresh) (guess 0 ∷ guesses)
are_guesses = (
  is_guess 0 refl,
  (
    is_guess 1 refl,
    (
      is_guess 2 refl,
      (
        is_guess 3 refl,
        (
          is_guess 4 refl,
          (
            is_guess 5 refl,
            (is_guess 6 refl, (is_guess 7 refl, (is_guess 8 refl, (is_guess 9 refl, tt)))),
          ),
        ),
      ),
    ),
  ),
)

overlap-counter_example :
    (overlap verify hmac matches fresh (guess 0 ∷ guesses) fresh).by_account 5 ≡ opened 10 901000
overlap-counter_example =
    overlap-counter verify hmac matches 5 (guess 0) guesses fresh refl are_guesses
