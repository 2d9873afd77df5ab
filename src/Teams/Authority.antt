-- ===== src/Teams/Authority.antt =====
-- server/modules/teams/team.service.ts: what an actor of some rank can do to the roles and members of
-- a team.
use zenstier.Prelude.{
  ℕ, ◌≤◌, ◌<◌, ◌≡◌, ◌≢◌, refl, ap, ◌∙◌, inl, inr, Option, none, some, List, arith, ◌==◌, find_first,
  update_many, delete_many, Distinct, Option-cases, Bool-cases, find_first-update_at,
  find_first-delete_at,
}
use zenstier.Teams.{Role, TeamMember, Org, done, role_by, member_by, change_role}
use zenstier.Teams.Members.{role_of, put_role}
use zenstier.Teams.Deeds.{
  Deed, act, act-Effect, Effect, changed, deleted, assigned, removed, role_id_of, member_id_of,
}

-- The rank of a member.
abbrev pub rank_of : Option Role → ℕ
rank_of none = 0
rank_of (some r) = r.rank

-- One row has a key.
same_row {ℓ} :
    {A : Type ℓ} (key : A → ℕ) (xs : List A) (i k : ℕ) {a b : A}
    → find_first (λ y. key y == i) xs ≡ some a
    → find_first (λ y. key y == k) xs ≡ some b
    → i ≡ k
    → a ≡ b
same_row key xs i k e f h = ground arith

module _ (actor_id actor_rank team_id : ℕ) (o o' : Org) where
  senior_role :
      (i : ℕ) (r : Role)
      → Effect actor_id actor_rank team_id o o'
      → role_by i o ≡ some r
      → actor_rank ≤ r.rank
      → role_by i o' ≡ some r
  senior_role i r (changed x c own low (no_reach, keeps) (e, f)) found high =
      let up = find_first-update_at role_id_of i x.id (change_role c) o.roles (λ y. refl) in
      let apart : i ≢ x.id = λ same. absurd (
        ground
          (arith, ap (λ (y : Role). y.rank) (same_row role_id_of o.roles i x.id found own same))) in
      rw e (ground arith)
  senior_role i r (deleted x own (low, free) (e, f)) found high =
      let up = find_first-delete_at role_id_of i x.id o.roles in
      let apart : i ≢ x.id = λ same. absurd (
        ground
          (arith, ap (λ (y : Role). y.rank) (same_row role_id_of o.roles i x.id found own same))) in
      rw e (ground arith)
  senior_role i r (assigned m from to own has low guard (e, f)) found high = rw e found
  senior_role i r (removed m role own has low guard (e, f)) found high = rw e found

  senior_member :
      (i : ℕ) (m : TeamMember)
      → Effect actor_id actor_rank team_id o o'
      → member_by i o ≡ some m
      → m.user_id ≢ actor_id
      → actor_rank ≤ rank_of (role_of m o)
      → member_by i o' ≡ some m
  senior_member i m (changed x c own low (no_reach, keeps) (e, f)) found other high = rw f found
  senior_member i m (deleted x own (low, free) (e, f)) found other high = rw f found
  senior_member i m (assigned x from to own has low guard (e, f)) found other high =
      let up = find_first-update_at member_id_of i x.id (put_role to.id) o.members (λ y. refl) in
      let apart : i ≢ x.id = λ same.
        let same_m = same_row member_id_of o.members i x.id found own same in
        absurd (ground (arith, ap (λ y. rank_of (role_of y o)) same_m, ap rank_of has.0)) in
      rw f (ground arith)
  senior_member i m (removed x role own has low guard (e, f)) found other high =
      let up = find_first-delete_at member_id_of i x.id o.members in
      let apart : i ≢ x.id = λ same.
        let same_m = same_row member_id_of o.members i x.id found own same in
        absurd (
          ground (
            arith,
            ap (λ y. rank_of (role_of y o)) same_m,
            ap rank_of has,
            ap (λ (y : TeamMember). y.user_id) same_m,
          )) in
      rw f (ground arith)

  no_rise :
      (i : ℕ) (m : TeamMember)
      → 0 < actor_rank
      → Effect actor_id actor_rank team_id o o'
      → member_by i o' ≡ some m
      → actor_rank ≤ rank_of (role_of m o')
      → (member_by i o ≡ some m) × (role_of m o' ≡ role_of m o)
  no_rise i m pos (changed x c own low (no_reach, keeps) (e, f)) found high =
      let up = find_first-update_at role_id_of m.role_id x.id (change_role c) o.roles (λ y. refl) in
      let after : role_of m o'
          ≡ find_first (λ (y : Role). y.id == m.role_id)
              (update_many (λ (y : Role). y.id == x.id) (change_role c) o.roles) =
        rw e refl in
      let low_after : (change_role c x).rank < actor_rank = ground arith in
      (
        rw f at found,
        elim (Option-cases (role_of m o)) [
          | inl lost ↦ ground arith
          | inr (y, there) ↦ elim (Bool-cases (m.role_id == x.id)) [
            | inl same ↦
                let id : m.role_id ≡ x.id = ground arith in
                let y_x = same_row role_id_of o.roles m.role_id x.id there own id in
                let now_at : role_of m o' ≡ some (change_role c y) = ground arith in
                let rank_y = ap (λ (z : Role). (change_role c z).rank) y_x in
                absurd (ground (arith, ap rank_of now_at))
            | inr other ↦ ground arith
          ]
        ],
      )
  no_rise i m pos (deleted x own (low, free) (e, f)) found high =
      let up = find_first-delete_at role_id_of m.role_id x.id o.roles in
      let after : role_of m o'
          ≡ find_first (λ (y : Role). y.id == m.role_id)
              (delete_many (λ (y : Role). y.id == x.id) o.roles) =
        rw e refl in
      (rw f at found, ground (arith, ap rank_of after))
  no_rise i m pos (assigned x from to own has low guard (e, f)) found high =
      let up = find_first-update_at member_id_of i x.id (put_role to.id) o.members (λ y. refl) in
      let after : member_by i o'
          ≡ find_first (λ (y : TeamMember). y.id == i)
              (update_many (λ (y : TeamMember). y.id == x.id) (put_role to.id) o.members) =
        rw f refl in
      let roles : role_of m o' ≡ role_of m o = rw e refl in
      elim (Option-cases (member_by i o)) [
        | inl lost ↦ ground arith
        | inr (y, there) ↦ elim (Bool-cases (i == x.id)) [
          | inl same ↦
              let now_at : m ≡ put_role to.id y = ground arith in
              let at_to : role_of m o ≡ some to =
                ap (λ (z : TeamMember). role_of z o) now_at ∙ has.1 in
              absurd (ground (arith, ap rank_of (roles ∙ at_to)))
          | inr other ↦ (ground arith, roles)
        ]
      ]
  no_rise i m pos (removed x role own has low guard (e, f)) found high =
      let up = find_first-delete_at member_id_of i x.id o.members in
      let after : member_by i o'
          ≡ find_first (λ (y : TeamMember). y.id == i)
              (delete_many (λ (y : TeamMember). y.id == x.id) o.members) =
        rw f refl in
      (ground arith, rw e refl)

-- Whatever an actor with a rank of more than 0 gets done, ids being unique: a role at or above that
-- rank stays as it is, so does every member with such a role but the actor, and a member who has such
-- a role afterwards had it before: no one rises to the rank of the actor.
pub act-seniors :
    (actor_id actor_rank team_id : ℕ) (d : Deed) (o o' : Org)
    → Distinct role_id_of o.roles
    → Distinct member_id_of o.members
    → 0 < actor_rank
    → act actor_id actor_rank team_id d o ≡ done o'
    → ((i : ℕ) (r : Role) → role_by i o ≡ some r → actor_rank ≤ r.rank → role_by i o' ≡ some r)
      × ((i : ℕ) (m : TeamMember)
          → member_by i o ≡ some m
          → m.user_id ≢ actor_id
          → actor_rank ≤ rank_of (role_of m o)
          → member_by i o' ≡ some m)
      × ((i : ℕ) (m : TeamMember)
          → member_by i o' ≡ some m
          → actor_rank ≤ rank_of (role_of m o')
          → (member_by i o ≡ some m) × (role_of m o' ≡ role_of m o))
act-seniors actor_id actor_rank team_id d o o' ids keys pos h =
    let effect = act-Effect actor_id actor_rank team_id o ids keys d h in
    (
      (λ i r. senior_role actor_id actor_rank team_id o o' i r effect),
      (λ i m. senior_member actor_id actor_rank team_id o o' i m effect),
      (λ i m. no_rise actor_id actor_rank team_id o o' i m pos effect),
    )
