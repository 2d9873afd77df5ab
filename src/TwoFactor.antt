-- ===== src/TwoFactor.antt =====
-- server/modules/auth/totp.service.ts: the second factor of one user, whose row is there or missing.
-- bcrypt is a parameter: `matches` says whether a text is the one that a hash was made of. The secret,
-- the recovery codes and their hashes come from the random generator and are arguments.
pub mod Recovery
pub mod Gate
pub mod Overlap
mod Tests
use zenstier.Prelude.{
  ℕ, ◌+◌, ◌-◌, Bool, true, false, not, Option, none, some, List, [], ◌∷◌, map, ◌==◌, is_some,
  if◌then◌else◌, find_first, delete_many, length,
}
use zenstier.Totp.{is_space, upper, strip_spaces, verify_code}

pub record Factor : Type 0 where
  pub secret : Option (List ℕ)
  pub is_enabled : Bool
  pub backup_hashes : List ℕ

pub data TotpAudit : Type 0 where
  enabled disabled : TotpAudit
  recovery_used : (remaining : ℕ) → TotpAudit

pub record Account : Type 0 where
  pub factor : Option Factor
  pub audit : List TotpAudit

pub data TotpError : Type 0 where
  user_missing already_enabled no_setup bad_code not_enabled thrown : TotpError

-- The answer of a call, and the account after it.
pub data Answer {ℓ} (A : Type ℓ) : Type ℓ where
  gives : A → Account → Answer A
  fails : TotpError → Account → Answer A

abbrev pub account_of {ℓ} : {A : Type ℓ} → Answer A → Account
account_of (gives a s) = s
account_of (fails e s) = s

pub trim_start : List ℕ → List ℕ
trim_start [] = []
trim_start (c ∷ s) = if is_space c then trim_start s else c ∷ s

abbrev pub is_empty : List ℕ → Bool
is_empty [] = true
is_empty (c ∷ s) = false

pub trim_end : List ℕ → List ℕ
trim_end [] = []
trim_end (c ∷ s) =
    let rest = trim_end s in
    if is_space c then (if is_empty rest then [] else c ∷ rest) else c ∷ rest

pub trim : List ℕ → List ℕ
unfolding trim_start trim_end
trim s = trim_end (trim_start s)

abbrev pub put : Factor → Account → Account
put f s = record s { factor = some f }

-- A text that is missing or empty counts as none.
abbrev pub given : Option (List ℕ) → Option (List ℕ)
given none = none
given (some s) = if is_empty s then none else some s

-- The row is written before the picture of the code is drawn, which may throw.
abbrev pub draw_picture : (drawn : Bool) (new_secret : List ℕ) → Account → Answer (List ℕ)
draw_picture drawn new_secret s = if drawn then gives new_secret s else fails thrown s

pub begin_totp_setup : (drawn : Bool) (new_secret : List ℕ) → Account → Answer (List ℕ)
begin_totp_setup drawn new_secret s = elim s.factor [
  | none ↦ fails user_missing s
  | some f ↦
      if f.is_enabled
      then fails already_enabled s
      else draw_picture drawn new_secret (put (record f { secret = some new_secret }) s)
]

abbrev pub without : ℕ → List ℕ → List ℕ
without hash = delete_many (λ h. h == hash)

abbrev pub confirmed :
    (codes : List (List ℕ)) (hashes : List ℕ)
    → Factor
    → Account
    → Option Bool
    → Answer (List (List ℕ))
confirmed codes hashes f s none = fails thrown s
confirmed codes hashes f s (some false) = fails bad_code s
confirmed codes hashes f s (some true) = gives codes (record s {
  factor = some (record f { is_enabled = true; backup_hashes = hashes });
  audit = enabled ∷ s.audit;
})

-- Only the codes are written, so that a row that has changed since it was read keeps the rest.
abbrev pub put_hashes : (hashes : List ℕ) → Option Factor → Option Factor
put_hashes hashes none = none
put_hashes hashes (some g) = some (record g { backup_hashes = hashes })

-- The loop over the recovery codes: `f` is the row as it was read, and the list that is written comes
-- from there.
abbrev pub recover : Factor → Account → Option ℕ → Answer Bool
recover f s none = gives false s
recover f s (some hash) = gives true (record s {
  factor = put_hashes (without hash f.backup_hashes) s.factor;
  audit = recovery_used (length f.backup_hashes - 1) ∷ s.audit;
})

abbrev pub no_factor : Factor
no_factor = record { secret = none; is_enabled = false; backup_hashes = [] }

abbrev pub strip_factor : Answer Bool → Answer Bool
strip_factor (fails e s) = fails e s
strip_factor (gives false s) = fails bad_code s
strip_factor (gives true s) =
    gives true (record s { factor = some no_factor; audit = disabled ∷ s.audit })

module _ (hmac : (key message : List ℕ) → List ℕ) (matches : List ℕ → ℕ → Bool) where
  abbrev pub confirm_secret :
      (at_ms : ℕ) (codes : List (List ℕ)) (hashes submitted : List ℕ)
      → Factor
      → Account
      → Option (List ℕ)
      → Answer (List (List ℕ))
  confirm_secret at_ms codes hashes submitted f s none = fails no_setup s
  confirm_secret at_ms codes hashes submitted f s (some secret) =
      confirmed codes hashes f s (verify_code hmac secret submitted 1 at_ms)

  pub confirm_totp_setup :
      (at_ms : ℕ) (codes : List (List ℕ)) (hashes submitted : List ℕ)
      → Account
      → Answer (List (List ℕ))
  confirm_totp_setup at_ms codes hashes submitted s = elim s.factor [
    | none ↦ fails user_missing s
    | some f ↦
        if f.is_enabled
        then fails already_enabled s
        else confirm_secret at_ms codes hashes submitted f s (given f.secret)
  ]

  abbrev pub by_code : (cleaned : List ℕ) → Factor → Account → Option Bool → Answer Bool
  by_code cleaned f s none = fails thrown s
  by_code cleaned f s (some true) = gives true s
  by_code cleaned f s (some false) =
      recover f s (find_first (matches (map upper cleaned)) f.backup_hashes)

  abbrev pub by_secret :
      (at_ms : ℕ) (submitted : List ℕ) → Factor → Account → Option (List ℕ) → Answer Bool
  unfolding trim
  by_secret at_ms submitted f s none = gives true s
  by_secret at_ms submitted f s (some secret) =
      by_code (trim submitted) f s (verify_code hmac secret (trim submitted) 1 at_ms)

  unfoldable pub verify_second_factor : (at_ms : ℕ) (submitted : List ℕ) → Account → Answer Bool
  unfolding by_secret
  verify_second_factor at_ms submitted s = elim s.factor [
    | none ↦ gives true s
    | some f ↦ by_secret at_ms submitted f s (if f.is_enabled then given f.secret else none)
  ]

  pub disable_totp : (at_ms : ℕ) (submitted : List ℕ) → Account → Answer Bool
  unfolding verify_second_factor
  disable_totp at_ms submitted s = elim s.factor [
    | none ↦ fails user_missing s
    | some f ↦
        if is_some (if f.is_enabled then given f.secret else none)
        then strip_factor (verify_second_factor at_ms submitted s)
        else fails not_enabled s
  ]
