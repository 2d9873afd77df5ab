-- ===== src/Teams.antt =====
-- server/modules/teams/team.service.ts: the tables of teams, and the operations on
-- roles. The rank of an actor is that of the actor's role in the team, which getTeamContext of
-- context.ts reads.
pub mod Members
pub mod Permissions
pub mod Deeds
pub mod Authority
pub mod Owners
pub mod Race
pub mod Slugs
pub mod Settings
pub mod Founding
pub mod Erasing
pub mod Invites
pub mod Joining
pub mod Welcome
pub mod Registering
pub mod Actions
pub mod Ranks
pub mod Requests
mod Tests
use zenstier.Prelude.{
  ℕ, String, Bool, true, false, not, ◌&&◌, ◌||◌, Option, none, some, List, [], ◌∷◌, ltb, leb, ◌==◌,
  opt_eq, str_eq, is_some, or_else, if◌then◌else◌, update_many, delete_many, find_first, count,
  insert, any,
}
use zenstier.Prelude.Text.{trim}
use zenstier.Fleet.{Device}
use zenstier.Tokens.{AuthToken}
use zenstier.Teams.Permissions.{is_permission, has, owner_role}

pub record Role : Type 0 where
  pub id : ℕ
  pub team_id : ℕ
  pub name : String
  pub description : Option String
  pub permissions : List String
  pub is_system : Bool
  pub rank : ℕ

pub record TeamMember : Type 0 where
  pub id : ℕ
  pub team_id : ℕ
  pub user_id : ℕ
  pub role_id : ℕ

pub record Team : Type 0 where
  pub id : ℕ
  pub name : String
  pub slug : List ℕ
  pub is_personal : Bool

pub record User : Type 0 where
  pub id : ℕ
  pub email : List ℕ
  pub active_team_id : Option ℕ

pub data TeamAudit : Type 0 where
  role_created role_updated role_deleted : (user_id team_id role_id : ℕ) → TeamAudit
  member_role_changed : (user_id team_id member_id : ℕ) (from to : String) → TeamAudit
  member_removed : (user_id team_id member_id : ℕ) (self : Bool) → TeamAudit
  team_created : (user_id team_id : ℕ) (is_personal : Bool) → TeamAudit
  settings_updated : (user_id team_id : ℕ) → String → TeamAudit
  member_invited : (user_id team_id invite_id : ℕ) → TeamAudit
  invite_revoked : (user_id team_id invite_id : ℕ) → TeamAudit
  member_joined : (user_id team_id : ℕ) → TeamAudit
  user_registered : (user_id : ℕ) → TeamAudit

pub record Org : Type 0 where
  pub teams : List Team
  pub users : List User
  pub roles : List Role
  pub members : List TeamMember
  pub audit : List TeamAudit
  pub tokens : List AuthToken
  pub devices : List Device

pub data TeamError : Type 0 where
  unknown_permission role_name_required name_taken role_not_found not_under_you rank_too_high :
      TeamError
  system_role owner_keeps_all role_in_use member_not_found own_role last_owner : TeamError
  not_a_member personal_team : TeamError
  team_name_required team_not_found not_revoked no_owner_role slug_taken : TeamError
  already_member invite_not_found invite_invalid revoked_invite used_invite expired_invite
        wrong_address user_missing :
      TeamError
  registration_closed email_taken forbidden invalid_input : TeamError

pub data Outcome : Type 0 where
  done : Org → Outcome
  failed : TeamError → Outcome

abbrev pub role_by : ℕ → Org → Option Role
role_by id o = find_first (λ (r : Role). r.id == id) o.roles

abbrev pub member_by : ℕ → Org → Option TeamMember
member_by id o = find_first (λ (m : TeamMember). m.id == id) o.members

-- `findFirst` by the id and the team.
abbrev pub is_role_in : (team_id role_id : ℕ) → Role → Bool
is_role_in team_id role_id r = r.id == role_id && r.team_id == team_id

abbrev pub is_member_in : (team_id member_id : ℕ) → TeamMember → Bool
is_member_in team_id member_id m = m.id == member_id && m.team_id == team_id

abbrev pub is_named : (team_id : ℕ) → String → Role → Bool
is_named team_id name r = r.team_id == team_id && str_eq r.name name

-- The relation `role: { name: "Owner" }` of a member of the team.
abbrev pub owner_named : Option Role → Bool
owner_named none = false
owner_named (some r) = str_eq r.name owner_role

abbrev pub is_owner : List Role → (team_id : ℕ) → TeamMember → Bool
is_owner roles team_id m =
    m.team_id == team_id && owner_named (find_first (λ (r : Role). r.id == m.role_id) roles)

abbrev pub owners : (team_id : ℕ) → Org → ℕ
owners team_id o = count (is_owner o.roles team_id) o.members

-- `ensureNotLastOwner` throws.
abbrev pub is_last_owner : (team_id : ℕ) → String → Org → Bool
is_last_owner team_id role_name o = str_eq role_name owner_role && leb (owners team_id o) 1

abbrev pub unset : String → Option String
unset s = if str_eq s "" then none else some s

abbrev pub trimmed : Option String → Option String
trimmed none = none
trimmed (some s) = unset (trim s)

-- `[...new Set(permissions)]`, the permissions that stand later being left out.
pub distinct : List String → List String → List String
distinct seen [] = []
distinct seen (p ∷ ps) = let rest = distinct (p ∷ seen) ps in if has p seen then rest else p ∷ rest

abbrev pub all_known : List String → Bool
all_known ps = not (any (λ p. not (is_permission p)) ps)

pub record RoleInput : Type 0 where
  pub name : String
  pub description : Option String
  pub permissions : List String
  pub rank : ℕ

pub record RoleChange : Type 0 where
  pub name : Option String
  pub description : Option String
  pub permissions : Option (List String)
  pub rank : Option ℕ

unfoldable pub create_role : (actor_id team_id new_id : ℕ) → RoleInput → Org → Outcome
unfolding distinct
create_role actor_id team_id new_id input o =
    if not (all_known input.permissions)
    then failed unknown_permission
    else if str_eq (trim input.name) ""
    then failed role_name_required
    else if any (is_named team_id (trim input.name)) o.roles
    then failed name_taken
    else done (record o {
      roles =
          insert
            (record {
              id = new_id;
              team_id = team_id;
              name = trim input.name;
              description = trimmed input.description;
              permissions = distinct [] input.permissions;
              is_system = false;
              rank = input.rank;
            })
            o.roles;
      audit = role_created actor_id team_id new_id ∷ o.audit;
    })

-- `if (x)` of a text that may be missing.
abbrev pub is_set : Option String → Bool
is_set none = false
is_set (some s) = not (str_eq s "")

abbrev pub new_name : Role → Option String → String
new_name r n = if is_set n then trim (or_else n "") else r.name

abbrev pub new_description : Option String → Option String → Option String
new_description old none = old
new_description old (some s) = unset (trim s)

abbrev pub new_permissions : List String → Option (List String) → List String
unfolding distinct
new_permissions old none = old
new_permissions old (some ps) = distinct [] ps

abbrev pub reaches : (actor_rank : ℕ) → Option ℕ → Bool
reaches actor_rank none = false
reaches actor_rank (some rank) = leb actor_rank rank

abbrev pub change_role : RoleChange → Role → Role
change_role c r = record r {
  name = new_name r c.name;
  description = new_description r.description c.description;
  permissions = new_permissions r.permissions c.permissions;
  rank = or_else c.rank r.rank;
}

abbrev pub known_change : Option (List String) → Bool
known_change none = true
known_change (some ps) = all_known ps

-- The name is unique in the team: the table refuses a second row with it.
abbrev pub clashes : RoleChange → Role → Org → Bool
clashes c role o =
    any (λ (x : Role). is_named role.team_id (new_name role c.name) x && not (x.id == role.id))
      o.roles

pub update_role : (actor_id actor_rank team_id role_id : ℕ) → RoleChange → Org → Outcome
update_role actor_id actor_rank team_id role_id c o =
    elim (find_first (is_role_in team_id role_id) o.roles) [
      | none ↦ failed role_not_found
      | some role ↦
          if leb actor_rank role.rank
          then failed not_under_you
          else if reaches actor_rank c.rank
          then failed rank_too_high
          else if role.is_system && (is_set c.name || is_some c.rank)
          then failed system_role
          else if str_eq role.name owner_role && is_some c.permissions
          then failed owner_keeps_all
          else if not (known_change c.permissions)
          then failed unknown_permission
          else if clashes c role o
          then failed name_taken
          else done (record o {
            roles = update_many (λ (x : Role). x.id == role_id) (change_role c) o.roles;
            audit = role_updated actor_id team_id role_id ∷ o.audit;
          })
    ]

abbrev pub uses : (role_id : ℕ) → TeamMember → Bool
uses role_id m = m.role_id == role_id

pub delete_role : (actor_id actor_rank team_id role_id : ℕ) → Org → Outcome
delete_role actor_id actor_rank team_id role_id o =
    elim (find_first (is_role_in team_id role_id) o.roles) [
      | none ↦ failed role_not_found
      | some role ↦
          if leb actor_rank role.rank
          then failed not_under_you
          else if role.is_system
          then failed system_role
          else if ltb 0 (count (uses role_id) o.members)
          then failed role_in_use
          else done (record o {
            roles = delete_many (λ (x : Role). x.id == role_id) o.roles;
            audit = role_deleted actor_id team_id role_id ∷ o.audit;
          })
    ]
