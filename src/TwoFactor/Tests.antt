-- ===== src/TwoFactor/Tests.antt =====
-- Calls on the second factor at concrete inputs.
use zenstier.Prelude.{
  ℕ, ◌+◌, ◌≤◌, ◌≡◌, ◌↔◌, ◌⊎◌, refl, true, false, some, Bool, List, [], ◌∷◌, map, any, arith, ◌==◌,
}
use zenstier.Totp.{upper, verify_code}
use zenstier.TwoFactor.Overlap.{finish_check, finish_check-restores}
use zenstier.TwoFactor.{Factor, account_of, Account, trim, verify_second_factor}
use zenstier.TwoFactor.Recovery.{
  Act, begins, confirms, verifies, disables, acts, all_uses, held, recovery, all_uses-held,
}
use zenstier.TwoFactor.Gate.{IsGuarded, passes, acts-IsGuarded, verify-passes}

abbrev digest : (key message : List ℕ) → List ℕ
digest key message = 0 ∷ 0 ∷ 0 ∷ 7 ∷ []

-- The hash of a text is the sum of its characters.
abbrev total : List ℕ → ℕ
total [] = 0
total (c ∷ s) = c + total s

abbrev matches : List ℕ → ℕ → Bool
matches text hash = total text == hash

abbrev secret : List ℕ
secret = 77 ∷ 90 ∷ 88 ∷ 87 ∷ 54 ∷ 89 ∷ 81 ∷ []

-- The recovery codes AB and AC, of which the first comes in small letters with a blank before it.
abbrev account : Account
account = record {
  factor =
      some (record { secret = some secret; is_enabled = true; backup_hashes = 131 ∷ 132 ∷ [] });
  audit = [];
}

abbrev ab : List ℕ
ab = 32 ∷ 97 ∷ 98 ∷ []

abbrev list : List Act
list =
    verifies 100000 ab
    ∷ disables 100000 ab
    ∷ begins true secret
    ∷ confirms 100000 [] (132 ∷ []) ab
    ∷ []

all_uses-held_example :
    all_uses digest matches 131 list account + held 131 (acts digest matches list account) ≤ 1
all_uses-held_example = all_uses-held digest matches 131 list account (omega arith)

acts-IsGuarded_example : IsGuarded (acts digest matches list account)
acts-IsGuarded_example =
    acts-IsGuarded digest matches list account (tt, (tt, ((λ e. ground arith), (tt, tt))))
      (λ on e. ground arith)

verify-passes_example :
    (key : List ℕ) × (some secret ≡ some key)
    × ((passes (verify_second_factor digest matches 100000 ab account) ≡ true) ↔ (
        (verify_code digest key (trim ab) 1 100000 ≡ some true)
        ⊎ ((verify_code digest key (trim ab) 1 100000 ≡ some false)
            × (any (matches (map upper (trim ab))) (131 ∷ 132 ∷ []) ≡ true))))
verify-passes_example =
    verify-passes digest matches 100000 ab account refl refl (λ on e. ground arith)

abbrev ac : List ℕ
ac = 97 ∷ 99 ∷ []

abbrev factor : Factor
factor = record { secret = some secret; is_enabled = true; backup_hashes = 131 ∷ 132 ∷ [] }

by_ab : recovery digest matches 100000 ab (some factor) ≡ some 131
unfolding trim verify_code
by_ab = refl

by_ac : recovery digest matches 100000 ac (some factor) ≡ some 132
unfolding trim verify_code
by_ac = refl

finish_check-restores_example :
    (passes (verify_second_factor digest matches 100000 ab account) ≡ true)
    × (held 131 (account_of (verify_second_factor digest matches 100000 ab account)) ≡ 0)
    × (passes (
          finish_check digest matches 100000 ac factor
            (account_of (verify_second_factor digest matches 100000 ab account)))
        ≡ true)
    × (held 131 (
          account_of (
            finish_check digest matches 100000 ac factor
              (account_of (verify_second_factor digest matches 100000 ab account))))
        ≡ 1)
finish_check-restores_example =
    finish_check-restores digest matches 100000 100000 ab ac factor account refl by_ab by_ac
