-- ===== src/Teams/Requests.antt =====
-- app/_actions/teams.ts and server/modules/teams/context.ts: who may do what.
use zenstier.Prelude.{ℕ, ◌≡◌, true, Option, none, some, any}
use zenstier.Teams.{Org, TeamMember}
use zenstier.Teams.Members.{is_membership}
use zenstier.Teams.Actions.{TeamContext}

-- A membership of the user.
abbrev Mine : (user_id : ℕ) → Org → Option TeamMember → Type 0
Mine user_id o none = Unit
Mine user_id o (some m) = any (is_membership user_id m.team_id) o.members ≡ true

-- What a context says: a membership of the user in the team, with the role.
abbrev pub IsContext : (user_id : ℕ) → Org → TeamContext → Type 0
IsContext user_id o c =
    (c.user_id ≡ user_id) × (any (is_membership user_id c.team_id) o.members ≡ true)
