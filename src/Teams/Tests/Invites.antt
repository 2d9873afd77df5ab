-- ===== src/Teams/Tests/Invites.antt =====
-- Invites, slugs and teams at concrete inputs.
use zenstier.Prelude.{
  ℕ, ◌+◌, ◌≤◌, ◌≡◌, refl, true, false, Bool, none, some, List, [], ◌∷◌, find_first, ◌==◌, arith,
}
use zenstier.Prelude.Chars.{text_eq}
use zenstier.Prelude.Text.{chars}
use zenstier.Teams.{Org, Team, User, done, owners}
use zenstier.Tokens.{AuthToken, active}
use zenstier.Teams.Tests.{org}
use zenstier.Teams.Slugs.{
  candidate, slugify, unique_slug, unique_slug-free, dash_runs, strip_front, strip_back,
}
use zenstier.Teams.Settings.{is_taken, create_team, delete_team}
use zenstier.Teams.Founding.{create_team-owners}
use zenstier.Teams.Erasing.{IsErased, AllRevoked, delete_team-IsErased}
use zenstier.Teams.Invites.{TeamInvite, Lobby, ok, accept_invite, register_user}
use zenstier.Teams.Joining.{
  Move, invites, accepts, revokes, goes, moves, all_joins, usable, all_issues, all_joins-usable,
}
use zenstier.Teams.Welcome.{Joined, accept_invite-joins}
use zenstier.Teams.Registering.{accept_invite-register_user}

-- The name "A b!" makes the slug "a-b".
slug_of_name : slugify (65 ∷ 32 ∷ 98 ∷ 33 ∷ []) ≡ 97 ∷ 45 ∷ 98 ∷ []
unfolding slugify dash_runs strip_front strip_back
slug_of_name = refl

abbrev taken : List ℕ → Bool
taken s = text_eq s (slugify [])

unique_slug-free_example : taken (unique_slug taken [] []) ≡ false
unfolding text_eq slugify dash_runs strip_front strip_back
unique_slug-free_example = unique_slug-free taken [] [] 1 (omega arith) refl

free_slug : is_taken org (candidate (slugify (chars "dev")) 0) ≡ false
unfolding slugify dash_runs strip_front strip_back text_eq chars
free_slug = refl

free_name : is_taken org (candidate (slugify (chars "a's team")) 0) ≡ false
unfolding slugify dash_runs strip_front strip_back text_eq chars
free_name = refl

create_team-owners_example :
    (o' : Org) × (create_team 4 9 (λ k. 20 + k) [] 11 "dev" false org ≡ done o')
    × (owners 4 o' ≡ 1)
    × (owners 3 o' ≡ owners 3 org)
create_team-owners_example =
    create_team-owners 4 9 (λ k. 20 + k) [] 11 "dev" false org
      (omega arith, omega arith, omega arith, (refl, (refl, (refl, tt)))) 0 (omega arith) free_slug
      3 (omega arith)

abbrev token : AuthToken
token = record {
  id = 1;
  user_id = 11;
  team_id = 3;
  device_id = none;
  token_hash = 77;
  mqtt_username = 10;
  status = active;
  expires_at = none;
  consumed_at = none;
  last_used_at = none;
  revoked_at = none;
}

abbrev owned : Org
owned = record org {
  tokens = token ∷ record token { id = 2; team_id = 8; mqtt_username = 20 } ∷ [];
}

abbrev erased : Org
erased = record owned {
  teams = [];
  roles = [];
  members = [];
  tokens = record token { id = 2; team_id = 8; mqtt_username = 20 } ∷ [];
}

-- The broker knows the name 10 of the team's token, and no other.
abbrev confirms : ℕ → Bool
confirms n = n == 10

deleted : delete_team confirms 3 owned ≡ done erased
unfolding delete_team
deleted = refl

delete_team-IsErased_example :
    (team : Team) × (find_first (λ (t : Team). t.id == 3) org.teams ≡ some team)
    × (team.is_personal ≡ false)
    × AllRevoked confirms 3 owned.tokens
    × IsErased 3 erased
delete_team-IsErased_example = delete_team-IsErased confirms 3 owned deleted

-- The address "a", invited as a viewer.
abbrev invite : TeamInvite
invite = record {
  id = 1;
  team_id = 3;
  email = 97 ∷ [];
  role_id = 2;
  token_hash = 7;
  invited_by_id = 11;
  expires_at = 1000;
  accepted_at = none;
  revoked_at = none;
}

-- The one whose address that is signs in with a capital.
abbrev guest : User
guest = record { id = 14; email = 65 ∷ []; active_team_id = none }

abbrev lobby : Lobby
lobby = record { org = record org { users = guest ∷ [] }; invites = invite ∷ [] }

abbrev same_hash : ℕ → ℕ
same_hash token = token

joined : goes (accept_invite same_hash 14 50 7 900 lobby) ≡ true
unfolding accept_invite text_eq
joined = refl

accept_invite-joins_example : (i : TeamInvite) × (u : User) × Joined same_hash 14 50 7 900 lobby i u
accept_invite-joins_example = accept_invite-joins same_hash 14 50 7 900 lobby joined

abbrev list : List Move
list =
    accepts 14 50 7 900
    ∷ accepts 14 51 7 901
    ∷ invites 11 100 3 (98 ∷ []) 2 2 7 902
    ∷ revokes 11 3 2 903
    ∷ []

all_joins-usable_example :
    all_joins same_hash 7 list lobby + usable 7 (moves same_hash list lobby)
    ≤ usable 7 lobby + all_issues same_hash 7 list
all_joins-usable_example = all_joins-usable same_hash 7 list lobby

abbrev empty_lobby : Lobby
empty_lobby = record { org = org; invites = invite ∷ [] }

accept_invite-register_user_example :
    (l' : Lobby) × (register_user false 10 15 4 9 (λ k. 20 + k) [] (97 ∷ []) "a's team" empty_lobby
      ≡ ok l')
    × (goes (accept_invite same_hash 15 50 7 900 l') ≡ true)
accept_invite-register_user_example =
    accept_invite-register_user same_hash false 10 900 15 4 9 50 7 (λ k. 20 + k) [] (97 ∷ [])
      "a's team" empty_lobby 0 (omega arith) free_name refl refl (omega arith) (omega arith) refl
      refl refl refl
