-- ===== src/Tokens/Enrolment.antt =====
-- server/modules/tokens/token.service.ts: consuming and revoking a token.
use zenstier.Prelude.{
  ℕ, Bool, false, not, ◌&&◌, Option, none, some, List, ◌∷◌, ltb, ◌==◌, if◌then◌else◌, update_many,
  find_first,
}
use zenstier.Fleet.{Device, offline, Facts}
use zenstier.Tokens.{
  AuthToken, EnrollmentError, TokenStatus, Vault, active, already_used, broker_failed, consumed,
  delete_client, device_enrolled, device_row, enable_client, expired, invalid_token, is_revoked,
  live, not_found, revoked, secret_unavailable, send, set_pending, token_revoked,
}

-- What an enrolment has read: the token, its device and the password that Redis still had.
pub record Opened : Type 0 where
  pub token : AuthToken
  pub device : Device
  pub password : ℕ

pub data Reading : Type 0 where
  opened : Opened → Reading
  unopened : EnrollmentError → Reading

abbrev pub is_past : (now : ℕ) → Option ℕ → Bool
is_past now none = false
is_past now (some t) = ltb t now

abbrev with_secret : AuthToken → Device → Option ℕ → Reading
with_secret t d none = unopened secret_unavailable
with_secret t d (some password) = opened (record { token = t; device = d; password = password })

abbrev by_status : (now : ℕ) → AuthToken → Device → TokenStatus → Vault → Reading
by_status now t d revoked v = unopened is_revoked
by_status now t d consumed v = unopened already_used
by_status now t d active v =
    if is_past now t.expires_at
    then unopened expired
    else with_secret t d (live now (v.pending t.id))

-- The tests of `consumeEnrollmentToken` and the `get` of the secret.
unfoldable pub open_token : (now hash : ℕ) → Vault → Reading
open_token now hash v = elim (find_first (λ (t : AuthToken). t.token_hash == hash) v.tokens) [
  | none ↦ unopened invalid_token
  | some t ↦ elim (device_row t.device_id v) [
    | none ↦ unopened invalid_token
    | some d ↦ by_status now t d t.status v
  ]
]

pub record EnrollmentResult : Type 0 where
  pub device_id : ℕ
  pub mqtt_username : ℕ
  pub mqtt_password : ℕ
  pub group_id : Option ℕ

pub data Enrollment : Type 0 where
  enrolled : EnrollmentResult → Vault → Enrollment
  refused : EnrollmentError → Vault → Enrollment

abbrev pub set_consumed : ℕ → AuthToken → AuthToken
set_consumed now t = record t { status = consumed; consumed_at = some now; last_used_at = some now }

abbrev pub put_facts : Facts → Device → Device
put_facts facts d = record d { facts = facts }

abbrev pub result_of : Opened → EnrollmentResult
result_of x = record {
  device_id = x.device.device_id;
  mqtt_username = x.token.mqtt_username;
  mqtt_password = x.password;
  group_id = x.device.group_id;
}

-- The `del` of the secret, which follows its `get` at once, and then the broker. One enrolment runs after
-- another here; two that overlap can both `get` before either makes its `del`.
abbrev pub ask : Opened → Vault → Vault
ask x v = send (enable_client x.token.mqtt_username) (set_pending x.token.id none v)

-- The transaction.
unfoldable pub settle : (now : ℕ) → Facts → Opened → Vault → Vault
settle now facts x v = record v {
  tokens = update_many (λ (t : AuthToken). t.id == x.token.id) (set_consumed now) v.tokens;
  devices = update_many (λ (d : Device). d.id == x.device.id) (put_facts facts) v.devices;
  audit = device_enrolled x.token.user_id x.token.team_id (some x.device.id) ∷ v.audit;
}

unfoldable pub finish : (now : ℕ) (enable_ok : Bool) → Facts → Opened → Vault → Enrollment
unfolding settle
finish now enable_ok facts x v =
    if not enable_ok
    then refused broker_failed (ask x v)
    else enrolled (result_of x) (settle now facts x (ask x v))

abbrev go_on : (now : ℕ) (enable_ok : Bool) → Facts → Vault → Reading → Enrollment
unfolding finish
go_on now enable_ok facts v (unopened e) = refused e v
go_on now enable_ok facts v (opened x) = finish now enable_ok facts x v

unfoldable pub consume_enrollment_token :
    (now : ℕ) (enable_ok : Bool) (hash : ℕ) → Facts → Vault → Enrollment
unfolding open_token finish
consume_enrollment_token now enable_ok hash facts v =
    go_on now enable_ok facts v (open_token now hash v)

abbrev pub set_revoked : ℕ → AuthToken → AuthToken
set_revoked now t = record t { status = revoked; revoked_at = some now }

abbrev pub set_device_offline : Device → Device
set_device_offline d = record d { status = offline }

abbrev offline_rows : Option ℕ → List Device → List Device
offline_rows none ds = ds
offline_rows (some id) ds = update_many (λ (d : Device). d.id == id) set_device_offline ds

abbrev pub of_team : (team_id token_id : ℕ) → AuthToken → Bool
of_team team_id token_id t = t.id == token_id && t.team_id == team_id

abbrev clear_status : Option Device → Vault → Vault
clear_status none v = v
clear_status (some d) v = record v { cleared = d.device_id ∷ v.cleared }

abbrev pub revoke_row : (now user_id : ℕ) → AuthToken → Vault → Vault
revoke_row now user_id t v = set_pending t.id none (
    clear_status (device_row t.device_id v) (record v {
      tokens = update_many (λ (x : AuthToken). x.id == t.id) (set_revoked now) v.tokens;
      devices = offline_rows t.device_id v.devices;
      audit = token_revoked user_id t.team_id t.device_id ∷ v.audit;
    }))

pub data Revocation : Type 0 where
  revoked_now : Vault → Revocation
  not_revoked : EnrollmentError → Vault → Revocation

-- A client that the broker does not know counts as deleted.
unfoldable pub revoke_token :
    (now : ℕ) (delete_ok : Bool) (user_id team_id token_id : ℕ) → Vault → Revocation
revoke_token now delete_ok user_id team_id token_id v =
    elim (find_first (of_team team_id token_id) v.tokens) [
      | none ↦ not_revoked not_found v
      | some t ↦
          let asked = send (delete_client t.mqtt_username) v in
          if not delete_ok
          then not_revoked broker_failed asked
          else revoked_now (revoke_row now user_id t asked)
    ]
