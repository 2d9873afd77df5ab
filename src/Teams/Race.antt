-- ===== src/Teams/Race.antt =====
-- server/modules/teams/team.service.ts: `leaveTeam` counts the Owners and then deletes, and another
-- process can run in between.
use zenstier.Prelude.{
  ℕ, ◌≡◌, ◌≢◌, true, arith, ◌==◌, delete_many, Distinct, find_first-delete_at, count-delete_at,
  Distinct-delete_many,
}
use zenstier.Teams.{TeamMember, Org, is_owner, owners}
use zenstier.Teams.Members.{drop_member, may_leave, check_leave}
use zenstier.Teams.Deeds.{member_id_of}
use zenstier.Teams.Owners.{check_leave-may_leave}

-- Where a team has two Owners, member ids being unique, and both leave it at once, each having been found
-- free to leave before the other was deleted, the team is left with none.
pub drop_member-no_owner :
    (a b team_id : ℕ) (o : Org) {m n : TeamMember}
    → Distinct member_id_of o.members
    → owners team_id o ≡ 2
    → check_leave a team_id o ≡ may_leave m
    → check_leave b team_id o ≡ may_leave n
    → m.id ≢ n.id
    → is_owner o.roles team_id m ≡ true
    → is_owner o.roles team_id n ≡ true
    → owners team_id (drop_member b team_id true n (drop_member a team_id true m o)) ≡ 0
drop_member-no_owner a b team_id o {m} {n} keys two may_m may_n apart own_m own_n =
    let q = is_owner o.roles team_id in
    let own_row = (check_leave-may_leave a team_id o keys may_m).1 in
    let other_row = (check_leave-may_leave b team_id o keys may_n).1 in
    let rest = delete_many (λ (y : TeamMember). y.id == m.id) o.members in
    let first = count-delete_at member_id_of q m.id o.members m keys own_row in
    let there = find_first-delete_at member_id_of n.id m.id o.members in
    let second =
      count-delete_at member_id_of q n.id rest n
        (Distinct-delete_many member_id_of (λ (y : TeamMember). y.id == m.id) o.members keys)
        (ground arith) in
    ground arith
