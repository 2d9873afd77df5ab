-- ===== src/Teams/Owners.antt =====
-- server/modules/teams/team.service.ts: a team keeps an Owner.
use zenstier.Prelude.{
  ℕ, ◌<◌, ◌≡◌, refl, sym, ap, ◌∙◌, subst, ◌⊎◌, inl, inr, true, false, some, List, [], ◌∷◌, arith,
  ◌==◌, str_eq, count, find_first, update_many, delete_many, All, Distinct, Option-cases,
  Bool-cases, find_first-holds, find_first-own, find_first-update_at, find_first-delete_at,
  All-found, All-mono, count_mono, count-zero, count-update_at, count-delete_at,
}
use zenstier.Teams.{
  Role, TeamMember, Org, done, role_by, member_by, is_owner, owner_named, owners, is_last_owner,
  RoleChange, new_name, change_role, uses, TeamError,
}
use zenstier.Teams.Members.{
  role_of, put_role, drop_member, Leaving, may_leave, stays, check_leave, leave_team, is_membership,
}
use zenstier.Teams.Permissions.{owner_role}
use zenstier.Teams.Deeds.{
  Deed, act, act-Effect, Effect, changed, deleted, assigned, removed, role_id_of, member_id_of,
}

-- The role named Owner is a system role.
abbrev pub IsOwnerGuarded : Role → Type 0
IsOwnerGuarded r = str_eq r.name owner_role ≡ true → r.is_system ≡ true

All-universal :
    (P : TeamMember → Type 0) (ms : List TeamMember) → ((m : TeamMember) → P m) → All P ms
All-universal P [] h = tt
All-universal P (m ∷ ms) h = (h m, All-universal P ms h)

Leaving-cases :
    (l : Leaving) → ((e : TeamError) × (l ≡ stays e)) ⊎ ((m : TeamMember) × (l ≡ may_leave m))
Leaving-cases (stays e) = inl (e, refl)
Leaving-cases (may_leave m) = inr (m, refl)

-- A member who may be taken out, and is an owner, is not the last.
weight :
    (o : Org) (t : ℕ) {team_id : ℕ} (m : TeamMember) (role : Role)
    → role_of m o ≡ some role
    → m.team_id ≡ team_id
    → is_last_owner team_id role.name o ≡ false
    → is_owner o.roles t m ≡ true
    → 1 < owners t o
weight o t {team_id} m role has at_team free owns =
    let t_team : team_id ≡ t = ground arith in
    let named : str_eq role.name owner_role ≡ true = ground (arith, ap owner_named has) in
    subst (λ k. 1 < owners k o) t_team (ground arith)

module _ (actor_id actor_rank team_id : ℕ) (o o' : Org) (guarded : All IsOwnerGuarded o.roles)
    (keys : Distinct member_id_of o.members) (t : ℕ) (some_owner : 0 < owners t o) where
  still_owner :
      (x : Role) (c : RoleChange)
      → role_by x.id o ≡ some x
      → (x.is_system ≡ true → new_name x c.name ≡ x.name)
      → (m : TeamMember) → is_owner o.roles t m ≡ true
      → is_owner (update_many (λ (y : Role). y.id == x.id) (change_role c) o.roles) t m ≡ true
  still_owner x c own keeps m owns =
      let up = find_first-update_at role_id_of m.role_id x.id (change_role c) o.roles (λ y. refl) in
      elim (Option-cases (role_of m o)) [
        | inl lost ↦ ground arith
        | inr (y, there) ↦ elim (Bool-cases (m.role_id == x.id)) [
          | inl same ↦
              let y_x : y ≡ x = ground arith in
              let named : str_eq x.name owner_role ≡ true =
                subst (λ (z : Role). str_eq z.name owner_role ≡ true) y_x (ground arith) in
              let kept =
                keeps (
                  All-found IsOwnerGuarded (λ (z : Role). z.id == x.id) o.roles guarded own
                    named) in
              let still : str_eq (change_role c y).name owner_role ≡ true =
                subst (λ (z : Role). str_eq (change_role c z).name owner_role ≡ true) (sym y_x)
                  (subst (λ n. str_eq n owner_role ≡ true) (sym kept) named) in
              ground arith
          | inr other ↦ ground arith
        ]
      ]

  changed-owners :
      (x : Role) (c : RoleChange)
      → role_by x.id o ≡ some x
      → (x.is_system ≡ true → new_name x c.name ≡ x.name)
      → o'.roles ≡ update_many (λ (y : Role). y.id == x.id) (change_role c) o.roles
      → o'.members ≡ o.members
      → 0 < owners t o'
  changed-owners x c own keeps e f =
      let new = update_many (λ (y : Role). y.id == x.id) (change_role c) o.roles in
      let le =
        count_mono (is_owner o.roles t) (is_owner new t) o.members
          (All-universal _ o.members (still_owner x c own keeps)) in
      let after : owners t o' ≡ count (is_owner new t) o.members = rw (e, f) refl in ground arith

  deleted-owners :
      (x : Role)
      → count (uses x.id) o.members ≡ 0
      → o'.roles ≡ delete_many (λ (y : Role). y.id == x.id) o.roles
      → o'.members ≡ o.members
      → 0 < owners t o'
  deleted-owners x free e f =
      let left = delete_many (λ (y : Role). y.id == x.id) o.roles in
      let le = count_mono (is_owner o.roles t) (is_owner left t) o.members (
        All-mono o.members
          (λ m idle owns.
            let up = find_first-delete_at role_id_of m.role_id x.id o.roles in ground arith)
          (count-zero (uses x.id) o.members free)) in
      let after : owners t o' ≡ count (is_owner left t) o.members = rw (e, f) refl in ground arith

  effect-owners : Effect actor_id actor_rank team_id o o' → 0 < owners t o'
  effect-owners (changed x c own low (no_reach, keeps) (e, f)) = changed-owners x c own keeps e f
  effect-owners (deleted x own (low, free) (e, f)) = deleted-owners x free e f
  effect-owners (assigned m from to own has low (at_team, free) (e, f)) =
      let moved =
        count-update_at member_id_of (is_owner o.roles t) (put_role to.id) m.id o.members m keys
          own in
      let after : owners t o'
          ≡ count (is_owner o.roles t)
              (update_many (λ (y : TeamMember). y.id == m.id) (put_role to.id) o.members) =
        rw (e, f) refl in
      ground (arith, weight o t m from has.0 at_team free)
  effect-owners (removed m role own has low (at_team, free) (e, f)) =
      let moved = count-delete_at member_id_of (is_owner o.roles t) m.id o.members m keys own in
      let after : owners t o'
          ≡ count (is_owner o.roles t) (delete_many (λ (y : TeamMember). y.id == m.id) o.members) =
        rw (e, f) refl in
      ground (arith, weight o t m role has at_team free)

-- A team that has an Owner still has one after whatever an actor of any team gets done with roles and
-- members, ids being unique and the roles named Owner being system roles.
pub act-owners :
    (actor_id actor_rank team_id t : ℕ) (d : Deed) (o o' : Org)
    → Distinct role_id_of o.roles
    → Distinct member_id_of o.members
    → All IsOwnerGuarded o.roles
    → act actor_id actor_rank team_id d o ≡ done o'
    → 0 < owners t o
    → 0 < owners t o'
act-owners actor_id actor_rank team_id t d o o' ids keys guarded h some_owner =
    effect-owners actor_id actor_rank team_id o o' guarded keys t some_owner
      (act-Effect actor_id actor_rank team_id o ids keys d h)

module _ (user_id team_id : ℕ) (o : Org) (keys : Distinct member_id_of o.members) where
  -- What a member who may leave is.
  pub check_leave-may_leave :
      {m : TeamMember}
      → check_leave user_id team_id o ≡ may_leave m
      → (m.team_id ≡ team_id)
        × (member_by m.id o ≡ some m)
        × ((r : Role) × (role_of m o ≡ some r) × (is_last_owner team_id r.name o ≡ false))
  unfolding check_leave
  check_leave-may_leave {m} h =
      elim (Option-cases (find_first (is_membership user_id team_id) o.members)) [
        | inl gone ↦ ground arith
        | inr (x, found) ↦ elim (Option-cases (role_of x o)) [
          | inl gone ↦ ground arith
          | inr (r, has) ↦
              let x_m : x ≡ m = ground arith in
              let found_m = found ∙ ap (λ y. some y) x_m in
              let hit = find_first-holds (is_membership user_id team_id) o.members found_m in
              (
                ground arith,
                find_first-own member_id_of (is_membership user_id team_id) o.members keys found_m,
                (r, ap (λ y. role_of y o) (sym x_m) ∙ has, ground arith),
              )
        ]
      ]

-- A team that has an Owner still has one after a member has left a team, member ids being unique.
pub leave_team-owners :
    (user_id team_id t : ℕ) (o o' : Org)
    → Distinct member_id_of o.members
    → leave_team user_id team_id o ≡ done o'
    → 0 < owners t o
    → 0 < owners t o'
unfolding leave_team
leave_team-owners user_id team_id t o o' keys h some_owner =
    elim (Leaving-cases (check_leave user_id team_id o)) [
      | inl (e, stay) ↦ ground arith
      | inr (m, may) ↦
          let (at_team, own, (r, has, free)) = check_leave-may_leave user_id team_id o keys may in
          let left : o' ≡ drop_member user_id team_id true m o = ground arith in
          let moved = count-delete_at member_id_of (is_owner o.roles t) m.id o.members m keys own in
          let heavy = weight o t m r has at_team free in rw left (ground arith)
    ]
