-- ===== src/Teams/Registering.antt =====
-- server/modules/auth/auth.service.ts and server/modules/teams/team.service.ts: an invited person
-- registers and joins.
use zenstier.Prelude.{
  ℕ, ◌≤◌, ◌<◌, ◌≡◌, refl, ap, ◌∙◌, String, Bool, true, false, ◌&&◌, none, some, List, [], ◌∷◌, ◌++◌,
  arith, ltb, ◌==◌, ==_refl, if◌then◌else◌, update_many, insert, touch, find_first, any,
  Option-cases, Bool-cases, inl, inr, find_first-insert, find_first-update_many,
}
use zenstier.Prelude.Chars.{text_eq, text_eq_refl, lower_case}
use zenstier.Prelude.Text.{chars}
use zenstier.Teams.{
  User, Org, Role, TeamMember, done, failed, slug_taken, is_named, user_registered,
}
use zenstier.Teams.Permissions.{system_roles, owner_role}
use zenstier.Teams.Slugs.{slugify, candidate, unique_slug, unique_slug-free}
use zenstier.Teams.Settings.{
  seed_roles, settle_team, found_team, put_active, is_taken, create_team, activate,
  ensure_personal_team,
}
use zenstier.Teams.Invites.{
  TeamInvite, Lobby, ok, has_email, accept_invite, is_pending, may_register, new_user,
  settle_registration, register_user,
}
use zenstier.Teams.Joining.{goes}
use zenstier.Teams.Welcome.{welcome}

-- A new team's Owner role is there.
owner_found :
    (team_id : ℕ) (role_ids : ℕ → ℕ) (roles : List Role)
    → (r : Role) × (find_first
          (is_named team_id owner_role)
          (roles ++ seed_roles team_id role_ids 0 system_roles)
        ≡ some r)
unfolding seed_roles
owner_found team_id role_ids [] =
    elim (Option-cases
      (find_first (is_named team_id owner_role) (seed_roles team_id role_ids 0 system_roles))) [
        | inl none_found ↦ absurd (ground (arith, ==_refl team_id))
        | inr (r, found) ↦ (r, found)
      ]
owner_found team_id role_ids (r ∷ rs) = elim (Bool-cases (is_named team_id owner_role r)) [
  | inl hit ↦ (r, ground arith)
  | inr miss ↦ let (x, found) = owner_found team_id role_ids rs in (x, ground arith)
]

module _ (team_id member_id : ℕ) (role_ids : ℕ → ℕ) (random : List ℕ) (team_name : String) where
  -- A user whose row is there gets through, the row keeping its email.
  ensure-done :
      (user_id : ℕ) (o : Org) (j : ℕ) {u : User}
      → j < 50
      → is_taken o (candidate (slugify (chars team_name)) j) ≡ false
      → find_first (λ (x : User). x.id == user_id) o.users ≡ some u
      → (o' : Org) × (v : User) × (ensure_personal_team team_id member_id role_ids random user_id
            team_name o
          ≡ done o')
        × (find_first (λ (x : User). x.id == user_id) o'.users ≡ some v)
        × (v.email ≡ u.email)
  unfolding ensure_personal_team create_team
  ensure-done user_id o j {u} lt spare there =
      elim (Bool-cases (any (λ (m : TeamMember). m.user_id == user_id) o.members)) [
        | inl has_team ↦ (o, u, ground arith, there, refl)
        | inr none_yet ↦
            let (r, owner) = owner_found team_id role_ids o.roles in
            let activated =
              find_first-update_many (λ (x : User). x.id == user_id) (λ (x : User). x.id == user_id)
                (put_active team_id) o.users (λ x. refl) in
            let new =
              found_team user_id team_id member_id team_name
                (unique_slug (is_taken o) random (chars team_name)) true
                (o.roles ++ seed_roles team_id role_ids 0 system_roles) r o in
            let created : create_team team_id member_id role_ids random user_id team_name true o
                ≡ done new =
              ap
                (λ b.
                  if b
                  then failed slug_taken
                  else settle_team user_id team_id member_id team_name
                      (unique_slug (is_taken o) random (chars team_name)) true
                      (o.roles ++ seed_roles team_id role_ids 0 system_roles) o
                      (find_first (is_named team_id owner_role)
                        (o.roles ++ seed_roles team_id role_ids 0 system_roles)))
                (unique_slug-free (is_taken o) random (chars team_name) j lt spare)
              ∙ ap
                  (settle_team user_id team_id member_id team_name
                    (unique_slug (is_taken o) random (chars team_name)) true
                    (o.roles ++ seed_roles team_id role_ids 0 system_roles) o)
                  owner in
            (
              record new {
                users = update_many (λ (x : User). x.id == user_id) (put_active team_id) o.users;
              },
              (if u.id == user_id then put_active team_id u else u),
              ap
                    (λ t.
                      if t
                      then done o
                      else activate user_id team_id
                          (create_team team_id member_id role_ids random user_id team_name true o))
                    none_yet
                  ∙ ap (activate user_id team_id) created,
              activated ∙ ap (touch (λ (x : User). x.id == user_id) (put_active team_id)) there,
              ground arith,
            )
      ]

  register-done :
      (allow_public : Bool) (now user_id : ℕ) (email : List ℕ) (l : Lobby) (j : ℕ)
      → j < 50
      → is_taken l.org (candidate (slugify (chars team_name)) j) ≡ false
      → may_register allow_public now email l ≡ true
      → any (has_email email) l.org.users ≡ false
      → find_first (λ (x : User). x.id == user_id) l.org.users ≡ none
      → (o : Org) × (u : User) × (register_user allow_public now user_id team_id member_id role_ids
            random email team_name l
          ≡ ok (record l { org = o }))
        × (find_first (λ (x : User). x.id == user_id) o.users ≡ some u)
        × (u.email ≡ email)
  unfolding register_user
  register-done allow_public now user_id email l j lt spare may free fresh =
      let stored =
        find_first-insert (λ (x : User). x.id == user_id) (new_user user_id email) l.org.users in
      let start : Org = record l.org {
        users = insert (new_user user_id email) l.org.users;
        audit = user_registered user_id ∷ l.org.audit;
      } in
      let (o, u, went, there, same) =
        ensure-done user_id start j {u = new_user user_id email} lt spare
          (ground (arith, ==_refl user_id)) in
      (o, u, ground (arith, ap (settle_registration l) went), there, same)

any-found :
    (p q : TeamInvite → Bool) (xs : List TeamInvite) {i : TeamInvite}
    → find_first q xs ≡ some i
    → p i ≡ true
    → any p xs ≡ true
any-found p q [] e h = absurd (ground arith)
any-found p q (x ∷ xs) {i} e h = elim (Bool-cases (q x)) [
  | inl hit ↦ let same : x ≡ i = ground arith in ground (arith, ap p same)
  | inr miss ↦ ground (arith, any-found p q xs {i = i})
]

may_register-pending :
    (allow_public : Bool) (now : ℕ) (email : List ℕ) (l : Lobby) (q : TeamInvite → Bool)
    {i : TeamInvite}
    → find_first q l.invites ≡ some i
    → is_pending i ≡ true
    → now < i.expires_at
    → text_eq i.email (lower_case email) ≡ true
    → may_register allow_public now email l ≡ true
unfolding may_register
may_register-pending true now email l q found pending early same = refl
may_register-pending false now email l q found pending early same =
    any-found
      (λ (x : TeamInvite).
        text_eq x.email (lower_case email) && is_pending x && ltb now x.expires_at)
      q l.invites found (ground arith)

-- An invite is its own authorisation: someone without an account whose address, in small letters, has
-- an open invite that has not expired can register, whether or not registration is public, and can
-- then join by the token of that invite until it expires; the slug of the personal team's name, or one
-- of its forty-nine numbered forms, being free.
pub accept_invite-register_user :
    (hash : ℕ → ℕ) (allow_public : Bool) (now later user_id team_id member_id new_member token : ℕ)
    (role_ids : ℕ → ℕ) (random email : List ℕ) (team_name : String) (l : Lobby) (j : ℕ)
    {i : TeamInvite}
    → j < 50
    → is_taken l.org (candidate (slugify (chars team_name)) j) ≡ false
    → find_first (λ (x : TeamInvite). x.token_hash == hash token) l.invites ≡ some i
    → is_pending i ≡ true
    → now < i.expires_at
    → later ≤ i.expires_at
    → i.email ≡ email
    → lower_case email ≡ email
    → any (has_email email) l.org.users ≡ false
    → find_first (λ (x : User). x.id == user_id) l.org.users ≡ none
    → (l' : Lobby) × (register_user allow_public now user_id team_id member_id role_ids random email
          team_name l
        ≡ ok l')
      × (goes (accept_invite hash user_id new_member token later l') ≡ true)
accept_invite-register_user hash allow_public now later user_id team_id member_id new_member token
      role_ids random email team_name l j {i} lt spare found pending early still same low free
      fresh =
    let may =
      may_register-pending allow_public now email l (λ (x : TeamInvite). x.token_hash == hash token)
        found pending early
        (ground (
          arith,
          ap (λ e. text_eq e (lower_case email)) same,
          ap (text_eq email) low,
          text_eq_refl email,
        )) in
    let (o, u, went, there, mine) =
      register-done team_id member_id role_ids random team_name allow_public now user_id email l j
        lt spare may free fresh in
    let right : text_eq (lower_case u.email) i.email ≡ true =
      ap (λ e. text_eq (lower_case e) i.email) mine
      ∙ ap (λ e. text_eq e i.email) low
      ∙ ap (text_eq email) same
      ∙ text_eq_refl email in
    (
      record l { org = o },
      went,
      ap goes (
          welcome hash user_id new_member token later (record l { org = o }) found there pending
            still right),
    )
