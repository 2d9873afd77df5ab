-- ===== src/Alerts/Tests.antt =====
-- The alerts at a concrete rule and concrete samples.
use zenstier.Prelude.{ℕ, ◌≤◌, ◌≡◌, refl, true, false, none, some, List, [], ◌∷◌}
use zenstier.Alerts.{memory, offline, firing, AlertRule}
use zenstier.Alerts.Rules.{RuleBook, RuleInput, creates, done, call, set_rule_enabled}
use zenstier.Alerts.Dwell.{
  Sample, fires, fires_iff, held_since, row, announced, fired_count, resolved_count,
}
use zenstier.Alerts.{judge}
use zenstier.Alerts.Rules.{create_rule, rule_created, rule_updated, new_rule}
use zenstier.Prelude.Text.{trim}
use zenstier.Prelude.{◌+◌, insert}

abbrev down : AlertRule
down = record {
  id = 1;
  team_id = 3;
  user_id = 2;
  name = "down";
  metric = offline;
  threshold = 0;
  for_minutes = 1;
  webhook_url = none;
  enabled = true;
}

abbrev sample : ℕ → Sample
sample t = record { now = t; reading = record { device_id = 1; value = 1; breached = true } }

abbrev older_samples : List Sample
older_samples = sample 30000 ∷ sample 0 ∷ []

fires_at : fires down (sample 60000) older_samples ≡ true
unfolding row judge
fires_at = refl

fires_iff_example :
    (s : ℕ) × (held_since (sample 60000 ∷ older_samples) ≡ some s)
    × (s + 60000 ≤ 60000)
    × (fired_count (announced down older_samples) ≡ resolved_count (announced down older_samples))
fires_iff_example = (fires_iff down (sample 60000) older_samples).0 fires_at

abbrev book : RuleBook
book = record {
  rules = down ∷ [];
  states =
      record {
        rule_id = 1;
        device_id = 1;
        state = firing;
        since = some 0;
        last_value = 1;
        fired_at = some 60000;
        resolved_at = none;
      }
      ∷ [];
  audit = [];
}

abbrev input : RuleInput
input = record {
  name = " ram ";
  metric = memory;
  threshold = 90000;
  for_minutes = 5;
  webhook_url = none;
}

abbrev made : RuleBook
made = record book {
  rules =
      down
      ∷ record {
        id = 9;
        team_id = 3;
        user_id = 2;
        name = "ram";
        metric = memory;
        threshold = 90000;
        for_minutes = 5;
        webhook_url = none;
        enabled = true;
      }
      ∷ [];
  audit = rule_created 2 3 9 ∷ [];
}

creates-made : call (λ u. true) 2 3 (creates 9 input) book ≡ done made
unfolding call create_rule trim
creates-made = refl

abbrev paused : RuleBook
paused = record {
  rules = record down { enabled = false } ∷ [];
  states = [];
  audit = rule_updated 2 3 1 ∷ [];
}

disabled : set_rule_enabled 2 3 1 false book ≡ done paused
unfolding set_rule_enabled
disabled = refl

abbrev foreign : RuleBook
foreign = record book {
  rules = insert (new_rule 9 2 4 input) book.rules;
  audit = rule_created 2 4 9 ∷ [];
}

made_elsewhere : call (λ u. true) 2 4 (creates 9 input) book ≡ done foreign
unfolding call create_rule trim
made_elsewhere = refl
