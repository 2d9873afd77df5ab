-- ===== src/Teams/Tests/Requests.antt =====
-- A request of a member at a concrete organisation.
use zenstier.Prelude.{◌+◌, ◌≡◌, refl, true, none, []}
use zenstier.Teams.Tests.{org}
use zenstier.Teams.Invites.{Lobby}
use zenstier.Teams.Joining.{goes}
use zenstier.Prelude.Text.{trim, chars}
use zenstier.Prelude.Chars.{text_eq}
use zenstier.Teams.Slugs.{unique_slug, pick_slug, slugify, dash_runs, strip_front, strip_back}
use zenstier.Teams.Settings.{ensure_personal_team, create_team, seed_roles, rename_team}
use zenstier.Teams.Actions.{
  TeamAction, Starter, creates_role, renames, get_team_context, perform, carry_out,
}

abbrev lobby : Lobby
lobby = record { org = org; invites = [] }

abbrev starter : Starter
starter = record {
  team_id = 40;
  member_id = 41;
  role_ids = λ k. 50 + k;
  random = [];
  team_name = "Ann's team";
}

abbrev makes_role : TeamAction
makes_role =
    creates_role 9 (record { name = "Ops"; description = none; permissions = []; rank = 20 })

-- The user 99 has no team, and renames the personal one that the request makes.
newcomer : goes (perform (λ t. t) 0 starter 99 (renames "Mine") lobby) ≡ true
unfolding perform get_team_context carry_out ensure_personal_team create_team seed_roles rename_team
    unique_slug pick_slug slugify dash_runs strip_front strip_back text_eq trim chars
newcomer = refl
