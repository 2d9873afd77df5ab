-- ===== src/Tokens.antt =====
-- server/modules/tokens/token.service.ts: enrolment tokens. A token's text appears as the hash that is
-- looked up, `hashToken` being outside; ids, hashes and passwords come from the random generator and are
-- arguments. The broker answers a command with success or an error, which is an argument too.
pub mod Enrolment
pub mod Once
mod Tests
use zenstier.Prelude.{
  ℕ, ◌+◌, ◌*◌, Bool, true, false, not, ◌&&◌, Option, none, some, List, [], ◌∷◌, ltb, leb, ◌==◌,
  if◌then◌else◌, update_many, find_first, insert, String,
}
use zenstier.Fleet.{Device, DeviceStatus, unknown, offline, Facts}

pub data TokenStatus : Type 0 where
  active consumed revoked : TokenStatus

pub record AuthToken : Type 0 where
  pub id : ℕ
  pub user_id : ℕ
  pub team_id : ℕ
  pub device_id : Option ℕ
  pub token_hash : ℕ
  pub mqtt_username : ℕ
  pub status : TokenStatus
  pub expires_at : Option ℕ
  pub consumed_at : Option ℕ
  pub last_used_at : Option ℕ
  pub revoked_at : Option ℕ

-- The commands to the broker's security plugin.
pub data BrokerCommand : Type 0 where
  create_client : (username password : ℕ) → (group : Option ℕ) → BrokerCommand
  disable_client enable_client delete_client : (username : ℕ) → BrokerCommand

-- A key of Redis with its end.
pub record Secret : Type 0 where
  pub password : ℕ
  pub expires : ℕ

pub data TokenAudit : Type 0 where
  token_created device_enrolled token_revoked :
      (user_id team_id : ℕ) → (device : Option ℕ) → TokenAudit

pub record Vault : Type 0 where
  pub tokens : List AuthToken
  pub devices : List Device
  pub pending : ℕ → Option Secret
  pub sent : List BrokerCommand
  pub cleared : List ℕ
  pub audit : List TokenAudit

pub data EnrollmentError : Type 0 where
  invalid_token is_revoked already_used expired secret_unavailable broker_failed not_found :
      EnrollmentError

abbrev pub day_ms : ℕ
day_ms = 1000 * 60 * 60 * 24

abbrev pub set_pending : ℕ → Option Secret → Vault → Vault
set_pending id s v = record v { pending = λ j. if j == id then s else v.pending j }

-- `redis.get`.
abbrev pub live : (now : ℕ) → Option Secret → Option ℕ
live now none = none
live now (some s) = if ltb now s.expires then some s.password else none

abbrev pub send : BrokerCommand → Vault → Vault
send c v = record v { sent = c ∷ v.sent }

abbrev pub device_row : Option ℕ → Vault → Option Device
device_row none v = none
device_row (some id) v = find_first (λ (d : Device). d.id == id) v.devices

pub record Request : Type 0 where
  pub user_id : ℕ
  pub team_id : ℕ
  pub group_id : Option ℕ

-- What the random generator and the tables give to a new token.
pub record Draw : Type 0 where
  pub row_id : ℕ
  pub device_id : ℕ
  pub token_id : ℕ
  pub token_hash : ℕ
  pub password : ℕ

pub no_facts : Facts
no_facts = record {
  hostname = none;
  os_name = none;
  os_version = none;
  kernel = none;
  arch = none;
  agent_version = none;
}

abbrev pub new_device : Request → Draw → Device
unfolding no_facts
new_device r x = record {
  id = x.row_id;
  team_id = r.team_id;
  device_id = x.device_id;
  status = unknown;
  last_seen_at = none;
  current_session_id = none;
  facts = no_facts;
  group_id = r.group_id;
}

abbrev pub new_token : (now : ℕ) → Request → Draw → AuthToken
new_token now r x = record {
  id = x.token_id;
  user_id = r.user_id;
  team_id = r.team_id;
  device_id = some x.row_id;
  token_hash = x.token_hash;
  mqtt_username = x.device_id;
  status = active;
  expires_at = some (now + day_ms);
  consumed_at = none;
  last_used_at = none;
  revoked_at = none;
}

pub data Creation : Type 0 where
  made : Vault → Creation
  not_made : Vault → Creation

-- The rows and the secret stay when the broker fails.
pub create_enrollment_token :
    (now : ℕ) (create_ok disable_ok : Bool) → Request → Draw → Vault → Creation
create_enrollment_token now create_ok disable_ok r x v =
    let stored =
      set_pending x.token_id (some (record { password = x.password; expires = now + day_ms }))
        (record v {
          devices = insert (new_device r x) v.devices;
          tokens = insert (new_token now r x) v.tokens;
        }) in
    let created = send (create_client x.device_id x.password r.group_id) stored in
    let disabled = send (disable_client x.device_id) created in
    if not create_ok
    then not_made created
    else if not disable_ok
    then not_made disabled
    else made (record disabled {
      audit = token_created r.user_id r.team_id (some x.row_id) ∷ disabled.audit;
    })
