-- ===== src/Teams/Members.antt =====
-- server/modules/teams/team.service.ts: the members of teams.
use zenstier.Prelude.{
  ℕ, Bool, true, false, not, ◌&&◌, Option, none, some, ◌∷◌, leb, ◌==◌, opt_eq, if◌then◌else◌,
  update_many, delete_many, find_first, any,
}
use zenstier.Teams.{
  Org, Outcome, Role, Team, TeamError, TeamMember, User, done, failed, is_last_owner, is_member_in,
  is_role_in, last_owner, member_not_found, member_removed, member_role_changed, not_a_member,
  not_under_you, own_role, personal_team, rank_too_high, role_by, role_not_found,
}

-- `include: { role: true }`; the foreign key says that the role is there.
abbrev pub role_of : TeamMember → Org → Option Role
role_of m o = role_by m.role_id o

abbrev pub put_role : ℕ → TeamMember → TeamMember
put_role role_id m = record m { role_id = role_id }

-- The member's role and the new role being found.
abbrev pub reassign :
    (actor_id actor_rank team_id : ℕ) → TeamMember → (from to : Role) → Org → Outcome
reassign actor_id actor_rank team_id member from to o =
    if leb actor_rank from.rank
    then failed not_under_you
    else if leb actor_rank to.rank
    then failed rank_too_high
    else if member.user_id == actor_id
    then failed own_role
    else if is_last_owner team_id from.name o
    then failed last_owner
    else done (record o {
      members = update_many (λ (x : TeamMember). x.id == member.id) (put_role to.id) o.members;
      audit = member_role_changed actor_id team_id member.id from.name to.name ∷ o.audit;
    })

unfoldable pub change_member_role :
    (actor_id actor_rank team_id member_id role_id : ℕ) → Org → Outcome
change_member_role actor_id actor_rank team_id member_id role_id o =
    elim (find_first (is_member_in team_id member_id) o.members) [
      | none ↦ failed member_not_found
      | some member ↦ elim (role_of member o) [
        | none ↦ failed role_not_found
        | some from ↦ elim (find_first (is_role_in team_id role_id) o.roles) [
          | none ↦ failed role_not_found
          | some to ↦ reassign actor_id actor_rank team_id member from to o
        ]
      ]
    ]

-- No user is left with the team as the active one.
abbrev pub leave_active : (user_id team_id : ℕ) → User → Bool
leave_active user_id team_id u = u.id == user_id && opt_eq u.active_team_id (some team_id)

abbrev pub no_active : User → User
no_active u = record u { active_team_id = none }

-- The deletion of a member and what follows it.
abbrev pub drop_member : (actor_id team_id : ℕ) → (self : Bool) → TeamMember → Org → Org
drop_member actor_id team_id self member o = record o {
  members = delete_many (λ (x : TeamMember). x.id == member.id) o.members;
  users = update_many (leave_active member.user_id team_id) no_active o.users;
  audit = member_removed actor_id team_id member.id self ∷ o.audit;
}

unfoldable pub remove_member : (actor_id actor_rank team_id member_id : ℕ) → Org → Outcome
remove_member actor_id actor_rank team_id member_id o =
    elim (find_first (is_member_in team_id member_id) o.members) [
      | none ↦ failed member_not_found
      | some member ↦ elim (role_of member o) [
        | none ↦ failed role_not_found
        | some role ↦
            if leb actor_rank role.rank && not (member.user_id == actor_id)
            then failed not_under_you
            else if is_last_owner team_id role.name o
            then failed last_owner
            else done (drop_member actor_id team_id false member o)
      ]
    ]

abbrev pub is_membership : (user_id team_id : ℕ) → TeamMember → Bool
is_membership user_id team_id m = m.team_id == team_id && m.user_id == user_id

abbrev pub is_personal_team : ℕ → Org → Bool
is_personal_team team_id o = any (λ (t : Team). t.id == team_id && t.is_personal) o.teams

pub data Leaving : Type 0 where
  may_leave : TeamMember → Leaving
  stays : TeamError → Leaving

-- `leaveTeam` up to the deletion.
unfoldable pub check_leave : (user_id team_id : ℕ) → Org → Leaving
check_leave user_id team_id o = elim (find_first (is_membership user_id team_id) o.members) [
  | none ↦ stays not_a_member
  | some member ↦ elim (role_of member o) [
    | none ↦ stays role_not_found
    | some role ↦
        if is_personal_team team_id o
        then stays personal_team
        else if is_last_owner team_id role.name o
        then stays last_owner
        else may_leave member
  ]
]

abbrev finish_leave : (user_id team_id : ℕ) → Org → Leaving → Outcome
finish_leave user_id team_id o (stays e) = failed e
finish_leave user_id team_id o (may_leave member) = done (drop_member user_id team_id true member o)

unfoldable pub leave_team : (user_id team_id : ℕ) → Org → Outcome
unfolding check_leave
leave_team user_id team_id o = finish_leave user_id team_id o (check_leave user_id team_id o)

unfoldable pub switch_active_team : (user_id team_id : ℕ) → Org → Outcome
switch_active_team user_id team_id o =
    if any (is_membership user_id team_id) o.members
    then done (record o {
      users =
          update_many (λ (u : User). u.id == user_id)
            (λ u. record u { active_team_id = some team_id }) o.users;
    })
    else failed not_a_member
