-- ===== src/Teams/Deeds.antt =====
-- server/modules/teams/team.service.ts: the deeds of an actor of some rank on the roles and members
-- of a team, and what they come to.
use zenstier.Prelude.{
  ℕ, ◌<◌, ◌≡◌, ◌⊎◌, inl, inr, true, false, some, arith, ◌==◌, find_first, update_many, delete_many,
  Distinct, Option-cases, count, find_first-holds, find_first-own,
}
use zenstier.Teams.{
  Role, TeamMember, Org, Outcome, done, RoleChange, role_by, member_by, is_role_in, is_member_in,
  uses, is_last_owner, new_name, change_role, reaches, update_role, delete_role,
}
use zenstier.Teams.Members.{role_of, put_role, change_member_role, remove_member}

-- What an actor who may manage roles and members can ask for.
pub data Deed : Type 0 where
  changes_role : (role_id : ℕ) → RoleChange → Deed
  deletes_role : (role_id : ℕ) → Deed
  assigns : (member_id role_id : ℕ) → Deed
  removes : (member_id : ℕ) → Deed

unfoldable pub act : (actor_id actor_rank team_id : ℕ) → Deed → Org → Outcome
unfolding update_role delete_role change_member_role remove_member
act actor_id actor_rank team_id (changes_role role_id c) o =
    update_role actor_id actor_rank team_id role_id c o
act actor_id actor_rank team_id (deletes_role role_id) o =
    delete_role actor_id actor_rank team_id role_id o
act actor_id actor_rank team_id (assigns member_id role_id) o =
    change_member_role actor_id actor_rank team_id member_id role_id o
act actor_id actor_rank team_id (removes member_id) o =
    remove_member actor_id actor_rank team_id member_id o

abbrev pub role_id_of : Role → ℕ
role_id_of r = r.id

abbrev pub member_id_of : TeamMember → ℕ
member_id_of m = m.id

-- What a deed has done that went through.
pub data Effect (actor_id actor_rank team_id : ℕ) (o o' : Org) : Type 0 where
  changed :
      (r : Role) (c : RoleChange)
      → role_by r.id o ≡ some r
      → r.rank < actor_rank
      → (reaches actor_rank c.rank ≡ false) × (r.is_system ≡ true → new_name r c.name ≡ r.name)
      → (o'.roles ≡ update_many (λ (x : Role). x.id == r.id) (change_role c) o.roles)
        × (o'.members ≡ o.members)
      → Effect actor_id actor_rank team_id o o'
  deleted :
      (r : Role)
      → role_by r.id o ≡ some r
      → (r.rank < actor_rank) × (count (uses r.id) o.members ≡ 0)
      → (o'.roles ≡ delete_many (λ (x : Role). x.id == r.id) o.roles) × (o'.members ≡ o.members)
      → Effect actor_id actor_rank team_id o o'
  assigned :
      (m : TeamMember) (from to : Role)
      → member_by m.id o ≡ some m
      → (role_of m o ≡ some from) × (role_by to.id o ≡ some to)
      → (from.rank < actor_rank) × (to.rank < actor_rank)
      → (m.team_id ≡ team_id) × (is_last_owner team_id from.name o ≡ false)
      → (o'.roles ≡ o.roles)
        × (o'.members ≡ update_many (λ (x : TeamMember). x.id == m.id) (put_role to.id) o.members)
      → Effect actor_id actor_rank team_id o o'
  removed :
      (m : TeamMember) (role : Role)
      → member_by m.id o ≡ some m
      → role_of m o ≡ some role
      → (role.rank < actor_rank) ⊎ (m.user_id ≡ actor_id)
      → (m.team_id ≡ team_id) × (is_last_owner team_id role.name o ≡ false)
      → (o'.roles ≡ o.roles)
        × (o'.members ≡ delete_many (λ (x : TeamMember). x.id == m.id) o.members)
      → Effect actor_id actor_rank team_id o o'

module _ (actor_id actor_rank team_id : ℕ) (o : Org) (ids : Distinct role_id_of o.roles)
    (keys : Distinct member_id_of o.members) where
  -- A row found by id and team is the one found by the id.
  role_in_team :
      (role_id : ℕ) {r : Role}
      → find_first (is_role_in team_id role_id) o.roles ≡ some r
      → (r.id ≡ role_id) × (role_by r.id o ≡ some r)
  role_in_team role_id {r} found =
      let hit = find_first-holds (is_role_in team_id role_id) o.roles found in
      (ground arith, find_first-own role_id_of (is_role_in team_id role_id) o.roles ids found)

  member_in_team :
      (member_id : ℕ) {m : TeamMember}
      → find_first (is_member_in team_id member_id) o.members ≡ some m
      → (m.team_id ≡ team_id) × (member_by m.id o ≡ some m)
  member_in_team member_id {m} found =
      let hit = find_first-holds (is_member_in team_id member_id) o.members found in
      (
        ground arith,
        find_first-own member_id_of (is_member_in team_id member_id) o.members keys found,
      )

  update_role-Effect :
      (role_id : ℕ) (c : RoleChange) {o' : Org}
      → update_role actor_id actor_rank team_id role_id c o ≡ done o'
      → Effect actor_id actor_rank team_id o o'
  unfolding update_role
  update_role-Effect role_id c {o'} h =
      elim (Option-cases (find_first (is_role_in team_id role_id) o.roles)) [
        | inl gone ↦ ground arith
        | inr (r, found) ↦
            let (id, own) = role_in_team role_id found in
            changed r c own (ground arith) (ground arith, λ system. ground arith)
              (rw id (ground arith), ground arith)
      ]

  delete_role-Effect :
      (role_id : ℕ) {o' : Org}
      → delete_role actor_id actor_rank team_id role_id o ≡ done o'
      → Effect actor_id actor_rank team_id o o'
  unfolding delete_role
  delete_role-Effect role_id {o'} h =
      elim (Option-cases (find_first (is_role_in team_id role_id) o.roles)) [
        | inl gone ↦ ground arith
        | inr (r, found) ↦
            let (id, own) = role_in_team role_id found in
            deleted r own (ground arith, rw id (ground arith)) (rw id (ground arith), ground arith)
      ]

  change_member_role-Effect :
      (member_id role_id : ℕ) {o' : Org}
      → change_member_role actor_id actor_rank team_id member_id role_id o ≡ done o'
      → Effect actor_id actor_rank team_id o o'
  unfolding change_member_role
  change_member_role-Effect member_id role_id {o'} h =
      elim (Option-cases (find_first (is_member_in team_id member_id) o.members)) [
        | inl gone ↦ ground arith
        | inr (m, found) ↦ elim (Option-cases (role_of m o)) [
          | inl gone ↦ ground arith
          | inr (from, has_role) ↦
              elim (Option-cases (find_first (is_role_in team_id role_id) o.roles)) [
                | inl gone ↦ ground arith
                | inr (to, target) ↦
                    let (in_team, own) = member_in_team member_id found in
                    assigned m from to own (has_role, (role_in_team role_id target).1)
                      (ground arith, ground arith) (in_team, ground arith)
                      (ground arith, ground arith)
              ]
        ]
      ]

  remove_member-Effect :
      (member_id : ℕ) {o' : Org}
      → remove_member actor_id actor_rank team_id member_id o ≡ done o'
      → Effect actor_id actor_rank team_id o o'
  unfolding remove_member
  remove_member-Effect member_id {o'} h =
      elim (Option-cases (find_first (is_member_in team_id member_id) o.members)) [
        | inl gone ↦ ground arith
        | inr (m, found) ↦ elim (Option-cases (role_of m o)) [
          | inl gone ↦ ground arith
          | inr (role, has_role) ↦
              let (in_team, own) = member_in_team member_id found in
              removed m role own has_role (ground arith) (in_team, ground arith)
                (ground arith, ground arith)
        ]
      ]

  pub act-Effect :
      (d : Deed) {o' : Org}
      → act actor_id actor_rank team_id d o ≡ done o'
      → Effect actor_id actor_rank team_id o o'
  unfolding act
  act-Effect (changes_role role_id c) h = update_role-Effect role_id c h
  act-Effect (deletes_role role_id) h = delete_role-Effect role_id h
  act-Effect (assigns member_id role_id) h = change_member_role-Effect member_id role_id h
  act-Effect (removes member_id) h = remove_member-Effect member_id h
