-- ===== src/Teams/Settings.antt =====
-- server/modules/teams/team.service.ts: creating, renaming and deleting teams.
use zenstier.Prelude.{
  ℕ, String, ◌+◌, Bool, true, not, Option, none, some, List, [], ◌∷◌, ◌++◌, ◌==◌, str_eq, opt_eq,
  if◌then◌else◌, update_many, delete_many, find_first, insert, any, map, find_many,
}
use zenstier.Prelude.Text.{trim, chars}
use zenstier.Prelude.Chars.{text_eq}
use zenstier.Fleet.{Device}
use zenstier.Tokens.{AuthToken}
use zenstier.Teams.{
  Org, Outcome, Role, Team, TeamMember, User, done, failed, is_named, team_created,
  settings_updated, team_name_required, team_not_found, personal_team, not_revoked, no_owner_role,
  slug_taken,
}
use zenstier.Teams.Members.{no_active}
use zenstier.Teams.Permissions.{SystemRoleSpec, system_roles, owner_role}
use zenstier.Teams.Slugs.{unique_slug}

-- `createMany` of the system roles; `role_ids` gives the fresh ids.
unfoldable pub seed_roles :
    (team_id : ℕ) (role_ids : ℕ → ℕ) (k : ℕ) → List SystemRoleSpec → List Role
seed_roles team_id role_ids k [] = []
seed_roles team_id role_ids k (spec ∷ rest) =
    record {
      id = role_ids k;
      team_id = team_id;
      name = spec.name;
      description = some spec.description;
      permissions = spec.granted;
      is_system = true;
      rank = spec.rank;
    }
    ∷ seed_roles team_id role_ids (k + 1) rest

abbrev pub is_taken : Org → List ℕ → Bool
is_taken o slug = any (λ (t : Team). text_eq t.slug slug) o.teams

-- What is written for a new team.
abbrev pub found_team :
    (owner_id team_id member_id : ℕ)
    → String
    → (slug : List ℕ) (is_personal : Bool) → List Role
    → (owner : Role) → Org
    → Org
found_team owner_id team_id member_id name slug is_personal roles owner o = record o {
  teams =
      insert (record { id = team_id; name = name; slug = slug; is_personal = is_personal }) o.teams;
  roles = roles;
  members =
      insert (record { id = member_id; team_id = team_id; user_id = owner_id; role_id = owner.id })
        o.members;
  audit = team_created owner_id team_id is_personal ∷ o.audit;
}

-- The Owner role of the new team being looked for.
abbrev pub settle_team :
    (owner_id team_id member_id : ℕ)
    → String
    → (slug : List ℕ) (is_personal : Bool) → List Role
    → Org
    → Option Role
    → Outcome
settle_team owner_id team_id member_id name slug is_personal roles o none = failed no_owner_role
settle_team owner_id team_id member_id name slug is_personal roles o (some owner) =
    done (found_team owner_id team_id member_id name slug is_personal roles owner o)

abbrev pub put_active : (team_id : ℕ) → User → User
put_active team_id u = record u { active_team_id = some team_id }

abbrev pub activate : (user_id team_id : ℕ) → Outcome → Outcome
activate user_id team_id (failed e) = failed e
activate user_id team_id (done o) =
    done (record o {
      users = update_many (λ (u : User). u.id == user_id) (put_active team_id) o.users;
    })

module _ (team_id member_id : ℕ) (role_ids : ℕ → ℕ) (random : List ℕ) where
  -- One transaction. The slugs are unique in the table.
  unfoldable pub create_team : (owner_id : ℕ) → String → (is_personal : Bool) → Org → Outcome
  unfolding seed_roles
  create_team owner_id name is_personal o =
      let roles = o.roles ++ seed_roles team_id role_ids 0 system_roles in
      let slug = unique_slug (is_taken o) random (chars name) in
      if is_taken o slug
      then failed slug_taken
      else settle_team owner_id team_id member_id name slug is_personal roles o
          (find_first (is_named team_id owner_role) roles)

  -- `team_name` is the display name with the words that follow it.
  unfoldable pub ensure_personal_team : (user_id : ℕ) → (team_name : String) → Org → Outcome
  unfolding create_team
  ensure_personal_team user_id team_name o =
      if any (λ (m : TeamMember). m.user_id == user_id) o.members
      then done o
      else activate user_id team_id (create_team user_id team_name true o)

unfoldable pub rename_team : (actor_id team_id : ℕ) → String → Org → Outcome
rename_team actor_id team_id name o =
    if str_eq (trim name) ""
    then failed team_name_required
    else if any (λ (t : Team). t.id == team_id) o.teams
    then done (record o {
      teams =
          update_many (λ (t : Team). t.id == team_id) (λ t. record t { name = trim name }) o.teams;
      audit = settings_updated actor_id team_id (trim name) ∷ o.audit;
    })
    else failed team_not_found

abbrev pub all_agree : (revoked : ℕ → Bool) → List ℕ → Bool
all_agree revoked names = not (any (λ n. not (revoked n)) names)

-- The rows of a team go with it.
abbrev pub erase_team : (team_id : ℕ) → Org → Org
erase_team team_id o = record o {
  teams = delete_many (λ (t : Team). t.id == team_id) o.teams;
  users = update_many (λ (u : User). opt_eq u.active_team_id (some team_id)) no_active o.users;
  roles = delete_many (λ (r : Role). r.team_id == team_id) o.roles;
  members = delete_many (λ (m : TeamMember). m.team_id == team_id) o.members;
  tokens = delete_many (λ (t : AuthToken). t.team_id == team_id) o.tokens;
  devices = delete_many (λ (d : Device). d.team_id == team_id) o.devices;
}

-- The broker's names of the team's tokens.
abbrev pub credentials_of : (team_id : ℕ) → Org → List ℕ
credentials_of team_id o =
    map (λ (t : AuthToken). t.mqtt_username)
      (find_many (λ (t : AuthToken). t.team_id == team_id) o.tokens)

-- `revoked` says for which names the broker confirms the deletion, or that there is none.
unfoldable pub delete_team : (revoked : ℕ → Bool) (team_id : ℕ) → Org → Outcome
delete_team revoked team_id o = elim (find_first (λ (t : Team). t.id == team_id) o.teams) [
  | none ↦ failed team_not_found
  | some team ↦
      if team.is_personal
      then failed personal_team
      else if all_agree revoked (credentials_of team_id o)
      then done (erase_team team_id o)
      else failed not_revoked
]
