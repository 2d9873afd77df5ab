-- ===== src/Teams/Ranks.antt =====
-- app/_actions/teams.ts: what the actions do to the roles at or above the actor's own rank.
use zenstier.Prelude.{
  ℕ, ◌≤◌, ◌≡◌, refl, ap, String, Bool, false, ◌&&◌, List, [], arith, leb, ◌==◌, count, count-insert,
  count-update_many_same, count-delete_many_le,
}
use zenstier.Prelude.Text.{trim}
use zenstier.Teams.{
  Org, Role, Outcome, done, failed, RoleInput, create_role, update_role, delete_role, change_role,
  trimmed, distinct,
}
use zenstier.Teams.Members.{
  change_member_role, remove_member, check_leave, leave_team, switch_active_team,
}
use zenstier.Teams.Settings.{rename_team, delete_team}
use zenstier.Teams.Invites.{Lobby, invite_member, revoke_invite, accept_invite}
use zenstier.Teams.Joining.{after}
use zenstier.Teams.Actions.{
  without_invites, TeamContext, TeamAction, invites, revokes, assigns, removes, creates_role,
  changes_permissions, deletes_role, switches, accepts, renames, leaves, deletes_team, settle,
  create_below, only_permissions, carry_out,
}

-- The roles of a team at or above a rank.
abbrev pub is_high : (team_id rank : ℕ) → Role → Bool
is_high team_id rank r = r.team_id == team_id && leb rank r.rank

abbrev pub high : (team_id rank : ℕ) → Org → ℕ
high team_id rank o = count (is_high team_id rank) o.roles

abbrev org_of : Lobby → Outcome → Org
org_of l (done o) = o
org_of l (failed e) = l.org

-- Services that leave the roles alone, or take some away.
create-high :
    (actor_id team_id new_id own_rank : ℕ) (input : RoleInput) (l : Lobby) (t : ℕ)
    → high t own_rank (after l (create_below actor_id team_id new_id own_rank input l)).org
      ≤ high t own_rank l.org
unfolding create_role
create-high actor_id team_id new_id own_rank input l t =
    let new : Role = record {
      id = new_id;
      team_id = team_id;
      name = trim input.name;
      description = trimmed input.description;
      permissions = distinct [] input.permissions;
      is_system = false;
      rank = input.rank;
    } in
    ground (arith, count-insert (is_high t own_rank) new l.org.roles)

update-high :
    (actor_id actor_rank team_id role_id : ℕ) (ps : List String) (l : Lobby) (t k : ℕ)
    → high t k
        (after l (
          settle l
            (update_role actor_id actor_rank team_id role_id (only_permissions ps) l.org))).org
      ≤ high t k l.org
unfolding update_role
update-high actor_id actor_rank team_id role_id ps l t k =
    let same =
      count-update_many_same (is_high t k) (λ (x : Role). x.id == role_id)
        (change_role (only_permissions ps)) l.org.roles (λ x. refl) in
    ground arith

delete_role-high :
    (actor_id actor_rank team_id role_id : ℕ) (l : Lobby) (t k : ℕ)
    → high t k (after l (settle l (delete_role actor_id actor_rank team_id role_id l.org))).org
      ≤ high t k l.org
unfolding delete_role
delete_role-high actor_id actor_rank team_id role_id l t k =
    let less = count-delete_many_le (is_high t k) (λ (x : Role). x.id == role_id) l.org.roles in
    ground arith

delete_team-high :
    (revoked : ℕ → Bool) (team_id : ℕ) (l : Lobby) (t k : ℕ)
    → high t k
        (after l (without_invites team_id (settle l (delete_team revoked team_id l.org)))).org
      ≤ high t k l.org
unfolding delete_team
delete_team-high revoked team_id l t k =
    let less =
      count-delete_many_le (is_high t k) (λ (r : Role). r.team_id == team_id) l.org.roles in
    ground arith

same_roles :
    (t k : ℕ) {rs rs' : List Role} → rs' ≡ rs → count (is_high t k) rs' ≤ count (is_high t k) rs
same_roles t k e = omega (arith, ap (count (is_high t k)) e)

invite-roles :
    (hash : ℕ → ℕ) (actor_id actor_rank team_id : ℕ) (email : List ℕ)
    (role_id invite_id token now : ℕ) (l : Lobby)
    → (after l (
        invite_member hash actor_id actor_rank team_id email role_id invite_id token now
          l)).org.roles
      ≡ l.org.roles
unfolding invite_member
invite-roles hash actor_id actor_rank team_id email role_id invite_id token now l = ground arith

revoke-roles :
    (actor_id team_id invite_id now : ℕ) (l : Lobby)
    → (after l (revoke_invite actor_id team_id invite_id now l)).org.roles ≡ l.org.roles
unfolding revoke_invite
revoke-roles actor_id team_id invite_id now l = ground arith

accept-roles :
    (hash : ℕ → ℕ) (user_id member_id token now : ℕ) (l : Lobby)
    → (after l (accept_invite hash user_id member_id token now l)).org.roles ≡ l.org.roles
unfolding accept_invite
accept-roles hash user_id member_id token now l = ground arith

assign-roles :
    (actor_id actor_rank team_id member_id role_id : ℕ) (l : Lobby)
    → (after l (
        settle l
          (change_member_role actor_id actor_rank team_id member_id role_id l.org))).org.roles
      ≡ l.org.roles
unfolding change_member_role
assign-roles actor_id actor_rank team_id member_id role_id l = ground arith

remove-roles :
    (actor_id actor_rank team_id member_id : ℕ) (l : Lobby)
    → (after l (settle l (remove_member actor_id actor_rank team_id member_id l.org))).org.roles
      ≡ l.org.roles
unfolding remove_member
remove-roles actor_id actor_rank team_id member_id l = ground arith

leave-roles :
    (user_id team_id : ℕ) (l : Lobby)
    → (after l (settle l (leave_team user_id team_id l.org))).org.roles ≡ l.org.roles
unfolding leave_team check_leave
leave-roles user_id team_id l = ground arith

switch-roles :
    (user_id team_id : ℕ) (l : Lobby)
    → (after l (settle l (switch_active_team user_id team_id l.org))).org.roles ≡ l.org.roles
unfolding switch_active_team
switch-roles user_id team_id l = ground arith

rename-roles :
    (actor_id team_id : ℕ) (name : String) (l : Lobby)
    → (after l (settle l (rename_team actor_id team_id name l.org))).org.roles ≡ l.org.roles
unfolding rename_team
rename-roles actor_id team_id name l = ground arith

module _ (hash : ℕ → ℕ) (now : ℕ) where
  pub carry_out-high :
      (c : TeamContext) (a : TeamAction) (l : Lobby) (t : ℕ)
      → high t c.role.rank (after l (carry_out hash now c a l)).org ≤ high t c.role.rank l.org
  unfolding carry_out
  carry_out-high c (invites email role_id invite_id token) l t =
      same_roles t c.role.rank
        (invite-roles hash c.user_id c.role.rank c.team_id email role_id invite_id token now l)
  carry_out-high c (revokes invite_id) l t =
      same_roles t c.role.rank (revoke-roles c.user_id c.team_id invite_id now l)
  carry_out-high c (assigns member_id role_id) l t =
      same_roles t c.role.rank (assign-roles c.user_id c.role.rank c.team_id member_id role_id l)
  carry_out-high c (removes member_id) l t =
      same_roles t c.role.rank (remove-roles c.user_id c.role.rank c.team_id member_id l)
  carry_out-high c (creates_role new_id input) l t =
      create-high c.user_id c.team_id new_id c.role.rank input l t
  carry_out-high c (changes_permissions role_id ps) l t =
      update-high c.user_id c.role.rank c.team_id role_id ps l t c.role.rank
  carry_out-high c (deletes_role role_id) l t =
      delete_role-high c.user_id c.role.rank c.team_id role_id l t c.role.rank
  carry_out-high c (switches team_id) l t =
      same_roles t c.role.rank (switch-roles c.user_id team_id l)
  carry_out-high c (accepts member_id token) l t =
      same_roles t c.role.rank (accept-roles hash c.user_id member_id token now l)
  carry_out-high c (renames name) l t =
      same_roles t c.role.rank (rename-roles c.user_id c.team_id name l)
  carry_out-high c leaves l t = same_roles t c.role.rank (leave-roles c.user_id c.team_id l)
  carry_out-high c (deletes_team revoked) l t = delete_team-high revoked c.team_id l t c.role.rank
