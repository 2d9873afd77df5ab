-- ===== src/Tokens/Tests.antt =====
-- The tokens at a concrete vault.
use zenstier.Prelude.{
  ◌+◌, ◌≤◌, ◌≡◌, ◌==◌, if◌then◌else◌, refl, true, none, some, List, [], ◌∷◌, arith,
}
use zenstier.Tokens.{AuthToken, Vault, Draw, Request, active, create_enrollment_token}
use zenstier.Tokens.Enrolment.{open_token, settle, finish, consume_enrollment_token, revoke_token}
use zenstier.Tokens.Once.{
  Act, creates, consumes, revokes, act, acts, enrolments, usable, enrolments-usable,
}
use zenstier.Worker.Tests.{box, no_facts}

abbrev token : AuthToken
token = record {
  id = 1;
  user_id = 2;
  team_id = 3;
  device_id = some 1;
  token_hash = 77;
  mqtt_username = 10;
  status = active;
  expires_at = some 1000;
  consumed_at = none;
  last_used_at = none;
  revoked_at = none;
}

abbrev vault : Vault
vault = record {
  tokens = token ∷ [];
  devices = box ∷ [];
  pending = λ j. if j == 1 then some (record { password = 9; expires = 1000 }) else none;
  sent = [];
  cleared = [];
  audit = [];
}

abbrev request : Request
request = record { user_id = 2; team_id = 3; group_id = none }

abbrev draw : Draw
draw = record { row_id = 5; device_id = 50; token_id = 6; token_hash = 78; password = 8 }

-- The token is used, tried again and revoked, while another is made.
abbrev history : List Act
history =
    consumes 100 true 77 no_facts
    ∷ creates 110 true true request draw
    ∷ consumes 120 true 77 no_facts
    ∷ revokes 130 true 2 3 1
    ∷ []

enrolments-usable_example : enrolments 77 history vault + usable 77 (acts history vault) ≤ 1
enrolments-usable_example =
    enrolments-usable 77 history vault (tt, ((λ e. omega arith), (tt, (tt, tt))))

enrols_once : enrolments 77 history vault ≡ 1
unfolding enrolments act consume_enrollment_token create_enrollment_token revoke_token open_token
    finish settle
enrols_once = refl
