-- ===== src/Teams/Actions.antt =====
-- app/_actions/teams.ts and server/modules/teams/context.ts: what a request of a signed-in user does.
-- The forms' texts come as the schemas leave them; of the schemas' tests those on ranks and on empty
-- names are modelled. Ids, tokens and the clock are as fresh as for the services.
use zenstier.Prelude.{
  ℕ, String, Bool, not, ◌&&◌, Option, none, some, List, [], ◌∷◌, leb, ◌==◌, str_eq, if◌then◌else◌,
  find_first, any, delete_many, is_some,
}
use zenstier.Prelude.Text.{trim}
use zenstier.Teams.{
  Org, Role, User, TeamMember, Outcome, done, failed, RoleInput, RoleChange, create_role,
  update_role, delete_role, forbidden, invalid_input, not_a_member, rank_too_high,
}
use zenstier.Teams.Permissions.{has}
use zenstier.Teams.Members.{
  is_membership, role_of, change_member_role, remove_member, leave_team, switch_active_team,
}
use zenstier.Teams.Settings.{rename_team, delete_team, ensure_personal_team}
use zenstier.Teams.Invites.{
  TeamInvite, Lobby, Reply, ok, error, invite_member, revoke_invite, accept_invite,
}

pub record TeamContext : Type 0 where
  pub user_id : ℕ
  pub team_id : ℕ
  pub role : Role

abbrev pub active_team : (user_id : ℕ) → Org → Option ℕ
active_team user_id o = elim (find_first (λ (u : User). u.id == user_id) o.users) [
  | none ↦ none
  | some u ↦ u.active_team_id
]

abbrev pub any_membership : (user_id : ℕ) → Org → Option TeamMember
any_membership user_id o = find_first (λ (m : TeamMember). m.user_id == user_id) o.members

abbrev pub in_active : (user_id : ℕ) → Org → Option ℕ → Option TeamMember
in_active user_id o none = any_membership user_id o
in_active user_id o (some t) = find_first (is_membership user_id t) o.members

-- The membership in the active team, or any where that is stale or unset.
abbrev pub or_any : (user_id : ℕ) → Org → Option TeamMember → Option TeamMember
or_any user_id o none = any_membership user_id o
or_any user_id o (some m) = some m

abbrev pub context_of : (user_id : ℕ) → TeamMember → Option Role → Option TeamContext
context_of user_id m none = none
context_of user_id m (some role) =
    some (record { user_id = user_id; team_id = m.team_id; role = role })

abbrev pub with_role : (user_id : ℕ) → Org → Option TeamMember → Option TeamContext
with_role user_id o none = none
with_role user_id o (some m) = context_of user_id m (role_of m o)

abbrev pub context_in : (user_id : ℕ) → Org → Option TeamContext
context_in user_id o =
    with_role user_id o (or_any user_id o (in_active user_id o (active_team user_id o)))

-- What a user without any team starts with: the ids and texts of the personal team to be made.
pub record Starter : Type 0 where
  pub team_id : ℕ
  pub member_id : ℕ
  pub role_ids : ℕ → ℕ
  pub random : List ℕ
  pub team_name : String

abbrev pub founded_by : Org → Outcome → Org
founded_by o (done o') = o'
founded_by o (failed e) = o

-- The tables when the context is read: a user without any team gets a personal one first.
abbrev pub with_team : Starter → (user_id : ℕ) → Org → Org
with_team n user_id o =
    if is_some (any_membership user_id o)
    then o
    else founded_by o
        (ensure_personal_team n.team_id n.member_id n.role_ids n.random user_id n.team_name o)

unfoldable pub get_team_context : Starter → (user_id : ℕ) → Org → Option TeamContext
get_team_context n user_id o = context_in user_id (with_team n user_id o)

pub data TeamAction : Type 0 where
  invites : (email : List ℕ) (role_id invite_id token : ℕ) → TeamAction
  revokes : (invite_id : ℕ) → TeamAction
  assigns : (member_id role_id : ℕ) → TeamAction
  removes : (member_id : ℕ) → TeamAction
  creates_role : (new_id : ℕ) → RoleInput → TeamAction
  changes_permissions : (role_id : ℕ) → List String → TeamAction
  deletes_role : (role_id : ℕ) → TeamAction
  switches : (team_id : ℕ) → TeamAction
  accepts : (member_id token : ℕ) → TeamAction
  renames : String → TeamAction
  leaves : TeamAction
  deletes_team : (revoked : ℕ → Bool) → TeamAction

-- The permission that an action asks for.
abbrev pub needed : TeamAction → List String
needed (invites email role_id invite_id token) = "team:manage_members" ∷ []
needed (revokes invite_id) = "team:manage_members" ∷ []
needed (assigns member_id role_id) = "team:manage_members" ∷ []
needed (removes member_id) = "team:manage_members" ∷ []
needed (creates_role new_id input) = "team:manage_roles" ∷ []
needed (changes_permissions role_id permissions) = "team:manage_roles" ∷ []
needed (deletes_role role_id) = "team:manage_roles" ∷ []
needed (switches team_id) = []
needed (accepts member_id token) = []
needed (renames name) = "team:manage_settings" ∷ []
needed leaves = []
needed (deletes_team revoked) = "team:manage_settings" ∷ []

abbrev pub can : TeamContext → List String → Bool
can c ps = not (any (λ p. not (has p c.role.permissions)) ps)

abbrev pub settle : Lobby → Outcome → Reply
settle l (done o) = ok (record l { org = o })
settle l (failed e) = error e

-- The invites of a team go with it.
abbrev pub without_invites : (team_id : ℕ) → Reply → Reply
without_invites team_id (error e) = error e
without_invites team_id (ok l) =
    ok (record l { invites = delete_many (λ (i : TeamInvite). i.team_id == team_id) l.invites })

-- `roleSchema`: a name, and a rank from 1 to 99.
abbrev pub is_role_form : RoleInput → Bool
is_role_form input = not (str_eq (trim input.name) "") && leb 1 input.rank && leb input.rank 99

abbrev pub create_below : (actor_id team_id new_id : ℕ) (own_rank : ℕ) → RoleInput → Lobby → Reply
create_below actor_id team_id new_id own_rank input l =
    if not (is_role_form input)
    then error invalid_input
    else if leb own_rank input.rank
    then error rank_too_high
    else settle l (create_role actor_id team_id new_id input l.org)

abbrev pub only_permissions : List String → RoleChange
only_permissions ps = record { name = none; description = none; permissions = some ps; rank = none }

-- The tables once the context of the request is read; a request that fails keeps them so.
abbrev pub entered : Starter → (user_id : ℕ) → Lobby → Lobby
entered n user_id l = record l { org = with_team n user_id l.org }

module _ (hash : ℕ → ℕ) (now : ℕ) where
  -- The action, once it is permitted.
  unfoldable pub carry_out : TeamContext → TeamAction → Lobby → Reply
  carry_out c (invites email role_id invite_id token) l =
      invite_member hash c.user_id c.role.rank c.team_id email role_id invite_id token now l
  carry_out c (revokes invite_id) l = revoke_invite c.user_id c.team_id invite_id now l
  carry_out c (assigns member_id role_id) l =
      settle l (change_member_role c.user_id c.role.rank c.team_id member_id role_id l.org)
  carry_out c (removes member_id) l =
      settle l (remove_member c.user_id c.role.rank c.team_id member_id l.org)
  carry_out c (creates_role new_id input) l =
      create_below c.user_id c.team_id new_id c.role.rank input l
  carry_out c (changes_permissions role_id ps) l =
      settle l (update_role c.user_id c.role.rank c.team_id role_id (only_permissions ps) l.org)
  carry_out c (deletes_role role_id) l =
      settle l (delete_role c.user_id c.role.rank c.team_id role_id l.org)
  carry_out c (switches team_id) l = settle l (switch_active_team c.user_id team_id l.org)
  carry_out c (accepts member_id token) l = accept_invite hash c.user_id member_id token now l
  carry_out c (renames name) l = settle l (rename_team c.user_id c.team_id name l.org)
  carry_out c leaves l = settle l (leave_team c.user_id c.team_id l.org)
  carry_out c (deletes_team revoked) l =
      without_invites c.team_id (settle l (delete_team revoked c.team_id l.org))

  abbrev pub permitted : TeamAction → Lobby → Option TeamContext → Reply
  permitted a l none = error not_a_member
  permitted a l (some c) =
      let went = carry_out c a l in if can c (needed a) then went else error forbidden

  unfoldable pub perform : Starter → (user_id : ℕ) → TeamAction → Lobby → Reply
  unfolding get_team_context
  perform n user_id a l = permitted a (entered n user_id l) (get_team_context n user_id l.org)
