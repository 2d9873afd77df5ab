-- ===== src/Teams/Erasing.antt =====
-- server/modules/teams/team.service.ts: what is left of a team that is deleted.
use zenstier.Prelude.{
  ℕ, ◌≡◌, refl, subst, Bool, true, false, some, List, [], ◌∷◌, arith, ◌==◌, opt_eq, find_first,
  delete_many, update_many, All, Bool-cases, inl, inr, Option-cases, map, find_many,
}
use zenstier.Fleet.{Device}
use zenstier.Tokens.{AuthToken}
use zenstier.Teams.{Org, Role, Team, TeamMember, User, done}
use zenstier.Teams.Members.{no_active}
use zenstier.Teams.Settings.{all_agree, erase_team, credentials_of, delete_team}

module _ {ℓ} {A : Type ℓ} where
  All-delete_many_gone : (p : A → Bool) (xs : List A) → All (λ x. p x ≡ false) (delete_many p xs)
  All-delete_many_gone p [] = tt
  All-delete_many_gone p (x ∷ xs) = elim (Bool-cases (p x)) [
    | inl hit ↦ rw hit (All-delete_many_gone p xs)
    | inr miss ↦ rw miss (miss, All-delete_many_gone p xs)
  ]

  All-update_many_gone :
      (p : A → Bool) (f : A → A) (xs : List A)
      → ((x : A) → p (f x) ≡ false)
      → All (λ x. p x ≡ false) (update_many p f xs)
  All-update_many_gone p f [] h = tt
  All-update_many_gone p f (x ∷ xs) h = elim (Bool-cases (p x)) [
    | inl hit ↦ rw hit (h x, All-update_many_gone p f xs h)
    | inr miss ↦ rw miss (miss, All-update_many_gone p f xs h)
  ]

-- Every credential of the team is confirmed, in the table of tokens.
abbrev pub AllRevoked : (revoked : ℕ → Bool) (team_id : ℕ) → List AuthToken → Type 0
AllRevoked revoked team_id =
    All (λ (t : AuthToken). (t.team_id == team_id) ≡ true → revoked t.mqtt_username ≡ true)

all_agree-AllRevoked :
    (revoked : ℕ → Bool) (team_id : ℕ) (tokens : List AuthToken)
    → all_agree revoked (
        map
          (λ (t : AuthToken). t.mqtt_username)
          (find_many (λ (t : AuthToken). t.team_id == team_id) tokens))
      ≡ true
    → AllRevoked revoked team_id tokens
all_agree-AllRevoked revoked team_id [] h = tt
all_agree-AllRevoked revoked team_id (t ∷ tokens) h =
    (λ its. ground arith, all_agree-AllRevoked revoked team_id tokens (ground arith))

-- Of these tables, nothing is left of a team.
abbrev pub IsErased : (team_id : ℕ) → Org → Type 0
IsErased team_id o =
    All (λ (t : Team). (t.id == team_id) ≡ false) o.teams
    × All (λ (r : Role). (r.team_id == team_id) ≡ false) o.roles
    × All (λ (m : TeamMember). (m.team_id == team_id) ≡ false) o.members
    × All (λ (u : User). opt_eq u.active_team_id (some team_id) ≡ false) o.users
    × All (λ (t : AuthToken). (t.team_id == team_id) ≡ false) o.tokens
    × All (λ (d : Device). (d.team_id == team_id) ≡ false) o.devices

erase_team-IsErased : (team_id : ℕ) (o : Org) → IsErased team_id (erase_team team_id o)
erase_team-IsErased team_id o = (
  All-delete_many_gone (λ (t : Team). t.id == team_id) o.teams,
  All-delete_many_gone (λ (r : Role). r.team_id == team_id) o.roles,
  All-delete_many_gone (λ (m : TeamMember). m.team_id == team_id) o.members,
  All-update_many_gone (λ (u : User). opt_eq u.active_team_id (some team_id)) no_active o.users
      (λ u. refl),
  All-delete_many_gone (λ (t : AuthToken). t.team_id == team_id) o.tokens,
  All-delete_many_gone (λ (d : Device). d.team_id == team_id) o.devices,
)

-- A team that is deleted was not personal, and the broker has confirmed for the name of every token of
-- the team that it is revoked; afterwards no team has the id, no role, member, token or device is of that
-- team, and no user has it as the active one.
pub delete_team-IsErased :
    (revoked : ℕ → Bool) (team_id : ℕ) (o : Org) {o' : Org}
    → delete_team revoked team_id o ≡ done o'
    → (team : Team) × (find_first (λ (t : Team). t.id == team_id) o.teams ≡ some team)
      × (team.is_personal ≡ false)
      × AllRevoked revoked team_id o.tokens
      × IsErased team_id o'
unfolding delete_team
delete_team-IsErased revoked team_id o {o'} h =
    elim (Option-cases (find_first (λ (t : Team). t.id == team_id) o.teams)) [
      | inl gone ↦ absurd (ground arith)
      | inr (team, found) ↦ elim (Bool-cases (all_agree revoked (credentials_of team_id o))) [
        | inl agreed ↦
            let same : erase_team team_id o ≡ o' = ground arith in
            (
              team,
              found,
              ground arith,
              all_agree-AllRevoked revoked team_id o.tokens agreed,
              subst (IsErased team_id) same (erase_team-IsErased team_id o),
            )
        | inr refused ↦ absurd (ground arith)
      ]
    ]
