-- ===== src/Tokens/Once.antt =====
-- server/modules/tokens/token.service.ts: a token enrols at most one device, where requests do not
-- overlap.
use zenstier.Prelude.{
  ℕ, ◌+◌, ◌≤◌, ◌≡◌, ◌≢◌, refl, ◌⊎◌, inl, inr, Bool, true, false, ◌&&◌, some, List, [], ◌∷◌, arith,
  ◌==◌, if◌then◌else◌, count, find_first, All, Option-cases, Bool-cases, count-insert,
  count-update_many_le, count-update_many_drop, find_first-holds,
}
use zenstier.Fleet.{Facts}
use zenstier.Tokens.{
  AuthToken, active, Vault, Draw, Request, Creation, made, not_made, EnrollmentError, new_token,
  device_row, live, create_enrollment_token,
}
use zenstier.Tokens.Enrolment.{
  Opened, Reading, opened, unopened, Enrollment, enrolled, refused, Revocation, revoked_now,
  not_revoked, set_consumed, set_revoked, open_token, settle, finish, consume_enrollment_token,
  revoke_token, of_team,
}

pub data Act : Type 0 where
  creates : (now : ℕ) (create_ok disable_ok : Bool) → Request → Draw → Act
  consumes : (now : ℕ) (enable_ok : Bool) (hash : ℕ) → Facts → Act
  revokes : (now : ℕ) (delete_ok : Bool) (user_id team_id token_id : ℕ) → Act

abbrev pub vault_of_creation : Creation → Vault
vault_of_creation (made v) = v
vault_of_creation (not_made v) = v

abbrev pub vault_of_enrollment : Enrollment → Vault
vault_of_enrollment (enrolled r v) = v
vault_of_enrollment (refused e v) = v

abbrev pub vault_of_revocation : Revocation → Vault
vault_of_revocation (revoked_now v) = v
vault_of_revocation (not_revoked e v) = v

abbrev pub is_enrolled : Enrollment → Bool
is_enrolled (enrolled r v) = true
is_enrolled (refused e v) = false

unfoldable pub act : Act → Vault → Vault
unfolding create_enrollment_token consume_enrollment_token revoke_token
act (creates now create_ok disable_ok r x) v =
    vault_of_creation (create_enrollment_token now create_ok disable_ok r x v)
act (consumes now enable_ok hash facts) v =
    vault_of_enrollment (consume_enrollment_token now enable_ok hash facts v)
act (revokes now delete_ok user_id team_id id) v =
    vault_of_revocation (revoke_token now delete_ok user_id team_id id v)

-- One where the act enrols a device by the token with this hash.
abbrev pub enrols : ℕ → Act → Vault → ℕ
enrols h (consumes now enable_ok hash facts) v =
    if hash == h && is_enrolled (consume_enrollment_token now enable_ok hash facts v) then 1 else 0
enrols h _ v = 0

pub acts : List Act → Vault → Vault
acts [] v = v
acts (a ∷ rest) v = acts rest (act a v)

unfoldable pub enrolments : ℕ → List Act → Vault → ℕ
enrolments h [] v = 0
enrolments h (a ∷ rest) v = enrols h a v + enrolments h rest (act a v)

abbrev is_usable : ℕ → AuthToken → Bool
is_usable h t = t.token_hash == h && (elim t.status [ active ↦ true | _ ↦ false ])

abbrev pub usable : ℕ → Vault → ℕ
usable h v = count (is_usable h) v.tokens

-- The act makes no new token with this hash.
abbrev pub IsOther : ℕ → Act → Type 0
IsOther h (creates now create_ok disable_ok r x) = x.token_hash ≢ h
IsOther h _ = Unit

Reading-cases :
    (r : Reading) → ((e : EnrollmentError) × (r ≡ unopened e)) ⊎ ((x : Opened) × (r ≡ opened x))
Reading-cases (unopened e) = inl (e, refl)
Reading-cases (opened x) = inr (x, refl)

-- What is opened is the active token with the hash.
pub open_token-opened :
    (now h : ℕ) (v : Vault) {x : Opened}
    → open_token now h v ≡ opened x
    → (find_first (λ (t : AuthToken). t.token_hash == h) v.tokens ≡ some x.token)
      × (x.token.status ≡ active)
unfolding open_token
open_token-opened now h v {x} e =
    elim (Option-cases (find_first (λ (t : AuthToken). t.token_hash == h) v.tokens)) [
      | inl gone ↦ ground arith
      | inr (t, found) ↦ elim (Option-cases (device_row t.device_id v)) [
        | inl gone ↦ ground arith
        | inr (d, there) ↦ elim (Option-cases (live now (v.pending t.id))) [
          | inl lost ↦ ground arith
          | inr (password, kept) ↦ ground arith
        ]
      ]
    ]

consume-usable :
    (h now : ℕ) (enable_ok : Bool) (hash : ℕ) (facts : Facts) (v : Vault)
    → enrols h (consumes now enable_ok hash facts) v
        + usable h (vault_of_enrollment (consume_enrollment_token now enable_ok hash facts v))
      ≤ usable h v
unfolding consume_enrollment_token finish settle
consume-usable h now enable_ok hash facts v = elim (Reading-cases (open_token now hash v)) [
  | inl (e, shut) ↦ ground arith
  | inr (x, opens) ↦
      let (found, status) = open_token-opened now hash v opens in
      let hit = find_first-holds (λ (t : AuthToken). t.token_hash == hash) v.tokens found in
      let at = λ (t : AuthToken). t.id == x.token.id in
      let le =
        count-update_many_le (is_usable h) at (set_consumed now) v.tokens (λ t. ground arith) in
      elim (Bool-cases (hash == h)) [
        | inl same ↦
            let drop =
              count-update_many_drop at (is_usable h) (set_consumed now)
                (λ (t : AuthToken). t.token_hash == hash) v.tokens (λ t. ground arith) found
                (ground arith) (ground arith) in
            ground arith
        | inr other ↦ ground arith
      ]
]

act-usable :
    (h : ℕ) (a : Act) (v : Vault) → IsOther h a → enrols h a v + usable h (act a v) ≤ usable h v
unfolding act create_enrollment_token revoke_token
act-usable h (creates now create_ok disable_ok r x) v k =
    let one = count-insert (is_usable h) (new_token now r x) v.tokens in ground arith
act-usable h (consumes now enable_ok hash facts) v k = consume-usable h now enable_ok hash facts v
act-usable h (revokes now delete_ok user_id team_id id) v k =
    elim (Option-cases (find_first (of_team team_id id) v.tokens)) [
      | inl gone ↦ ground arith
      | inr (t, found) ↦
          let le =
            count-update_many_le (is_usable h) (λ (y : AuthToken). y.id == t.id) (set_revoked now)
              v.tokens (λ y. ground arith) in
          ground arith
    ]

-- Over any requests, one after the other, none of which makes a new token with this hash, the
-- enrolments by it and the active tokens with it afterwards are together no more than the active tokens
-- with it at first.
pub enrolments-usable :
    (h : ℕ) (list : List Act) (v : Vault)
    → All (IsOther h) list
    → enrolments h list v + usable h (acts list v) ≤ usable h v
unfolding enrolments acts
enrolments-usable h [] v k = ground arith
enrolments-usable h (a ∷ rest) v (k, ks) =
    let first = act-usable h a v k in
    let later = enrolments-usable h rest (act a v) ks in omega arith
