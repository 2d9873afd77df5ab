-- ===== src/Teams/Founding.antt =====
-- server/modules/teams/team.service.ts: the Owners of a team when it is created and when it is deleted.
use zenstier.Prelude.{
  ℕ, ◌<◌, if◌then◌else◌, ◌≡◌, ◌≢◌, refl, ap, ◌∙◌, String, Bool, true, false, ◌&&◌, some, List, [],
  ◌∷◌, ◌++◌, arith, ◌==◌, ==_refl, is_some, count, find_first, All, All-mono, Absent, count-insert,
}
use zenstier.Prelude.Text.{chars}
use zenstier.Teams.{
  Org, Role, TeamMember, done, failed, slug_taken, role_by, is_named, is_owner, owner_named, owners,
}
use zenstier.Teams.Permissions.{system_roles, owner_role, permissions}
use zenstier.Teams.Deeds.{role_id_of}
use zenstier.Teams.Slugs.{slugify, candidate, unique_slug, unique_slug-free}
use zenstier.Teams.Settings.{seed_roles, found_team, settle_team, is_taken, create_team}

module _ {ℓ} {A : Type ℓ} where
  find_first-append_skip :
      (q : A → Bool) (xs ys : List A)
      → All (λ x. q x ≡ false) xs
      → find_first q (xs ++ ys) ≡ find_first q ys
  find_first-append_skip q [] ys h = refl
  find_first-append_skip q (x ∷ xs) ys (p, h) = ground (arith, find_first-append_skip q xs ys h)

  find_first-append_keep :
      (q : A → Bool) (xs ys : List A)
      → is_some (find_first q xs) ≡ true
      → find_first q (xs ++ ys) ≡ find_first q xs
  find_first-append_keep q [] ys h = ground arith
  find_first-append_keep q (x ∷ xs) ys h = ground (arith, find_first-append_keep q xs ys)

  count_same : (q q' : A → Bool) (xs : List A) → All (λ x. q x ≡ q' x) xs → count q xs ≡ count q' xs
  count_same q q' [] h = refl
  count_same q q' (x ∷ xs) (p, h) = ground (arith, count_same q q' xs h)

  count-none : (q : A → Bool) (xs : List A) → All (λ x. q x ≡ false) xs → count q xs ≡ 0
  count-none q [] h = refl
  count-none q (x ∷ xs) (p, h) = ground (arith, count-none q xs h)

-- The Owner role that a new team starts with.
abbrev owner_seed : (team_id role_id : ℕ) → Role
owner_seed team_id role_id = record {
  id = role_id;
  team_id = team_id;
  name = owner_role;
  description = some "Full control, including team settings and membership.";
  permissions = permissions;
  is_system = true;
  rank = 100;
}

-- The tables know nothing of the team, nor of its first role, and every member has a role.
abbrev pub IsNew : (team_id role_id : ℕ) → Org → Type 0
IsNew team_id role_id o =
    All (λ (r : Role). r.team_id ≢ team_id) o.roles
    × All (λ (m : TeamMember). m.team_id ≢ team_id) o.members
    × Absent role_id_of role_id o.roles
    × All (λ (m : TeamMember). is_some (role_by m.role_id o) ≡ true) o.members

module _ (team_id member_id : ℕ) (role_ids : ℕ → ℕ) (random : List ℕ) (owner_id : ℕ) (name : String)
    (is_personal : Bool) (o : Org) (new : IsNew team_id (role_ids 0) o) (j : ℕ) (lt : j < 50)
    (spare : is_taken o (candidate (slugify (chars name)) j) ≡ false) where
  abbrev roles : List Role
  unfolding seed_roles
  roles = o.roles ++ seed_roles team_id role_ids 0 system_roles

  abbrev seed : Role
  seed = owner_seed team_id (role_ids 0)

  abbrev founded : Org
  unfolding roles
  founded =
      found_team owner_id team_id member_id name (unique_slug (is_taken o) random (chars name))
        is_personal roles seed o

  seed_named : find_first (is_named team_id owner_role) roles ≡ some seed
  unfolding roles
  seed_named =
      find_first-append_skip (is_named team_id owner_role) o.roles _
        (All-mono o.roles (λ r other. ground arith) new.0)
      ∙ ground (arith, ==_refl team_id)

  seed_by_id : find_first (λ (r : Role). r.id == role_ids 0) roles ≡ some seed
  unfolding roles
  seed_by_id =
      find_first-append_skip (λ (r : Role). r.id == role_ids 0) o.roles _
        (All-mono o.roles (λ r other. ground arith) new.2)
      ∙ ground (arith, ==_refl (role_ids 0))

  created : create_team team_id member_id role_ids random owner_id name is_personal o ≡ done founded
  unfolding create_team founded
  created =
      ap
        (λ b.
          if b
          then failed slug_taken
          else settle_team owner_id team_id member_id name
              (unique_slug (is_taken o) random (chars name)) is_personal roles o
              (find_first (is_named team_id owner_role) roles))
        (unique_slug-free (is_taken o) random (chars name) j lt spare)
      ∙ ap
          (settle_team owner_id team_id member_id name
            (unique_slug (is_taken o) random (chars name)) is_personal roles o)
          seed_named

  -- A member who was there has the same role as before.
  same_owner :
      (t : ℕ) → All (λ (m : TeamMember). is_owner roles t m ≡ is_owner o.roles t m) o.members
  unfolding roles
  same_owner t =
      All-mono o.members
        (λ m has.
          ap (λ r. m.team_id == t && owner_named r)
            (find_first-append_keep (λ (r : Role). r.id == m.role_id) o.roles _ has))
        new.3

  others_none : count (is_owner roles team_id) o.members ≡ 0
  others_none =
      count-none (is_owner roles team_id) o.members
        (All-mono o.members (λ m other. ground arith) new.1)

  -- A new team, of an id that is new like that of its first role, in tables where every member has a
  -- role and where the slug of the name, or one of its forty-nine numbered forms, is free, is made and has exactly one Owner, and every other team has as many as before.
  pub create_team-owners :
      (t : ℕ)
      → t ≢ team_id
      → (o' : Org) × (create_team team_id member_id role_ids random owner_id name is_personal o
          ≡ done o')
        × (owners team_id o' ≡ 1)
        × (owners t o' ≡ owners t o)
  unfolding founded
  create_team-owners t other =
      let m : TeamMember = record {
        id = member_id;
        team_id = team_id;
        user_id = owner_id;
        role_id = role_ids 0;
      } in
      let owned : is_owner roles team_id m ≡ true =
        ap (λ r. team_id == team_id && owner_named r) seed_by_id
        ∙ ground (arith, ==_refl team_id) in
      let not_here : is_owner roles t m ≡ false = ground arith in
      (
        founded,
        created,
        count-insert (is_owner roles team_id) m o.members ∙ ground (arith, owned, others_none),
        count-insert (is_owner roles t) m o.members
            ∙ ground (
              arith,
              not_here,
              count_same (is_owner roles t) (is_owner o.roles t) o.members (same_owner t),
            ),
      )
