-- ===== src/Commands/Tests.antt =====
-- Dispatches at concrete inputs.
use zenstier.Prelude.{arith, ℕ, ◌+◌, ◌*◌, ◌≡◌, refl, true, false, none, some, [], ◌∷◌, any}
use zenstier.RateLimit.{take, refill, check_command_rate_limit}
use zenstier.Fleet.{Device}
use zenstier.Worker.Tests.{box, fleet}
use zenstier.RateLimit.Check.{occurs}
use zenstier.Commands.{
  DispatchInput, Site, Batch, Prepared, refused, ready, messages, device_ids, prepare,
}
use zenstier.Commands.Targets.{IsReached, names, prepare-answers}
use zenstier.Commands.Publishing.{hears, fan_out-in_team}

abbrev ids : ℕ → ℕ → ℕ
ids batch_id device_id = 1000 * batch_id + device_id

abbrev other_box : Device
other_box = record box { id = 2; device_id = 11; team_id = 8; group_id = some 9 }

abbrev site : Site
site = record {
  world = record fleet { devices = box ∷ other_box ∷ [] };
  batches = [];
  audit = [];
  user_buckets = λ u. none;
  device_buckets = λ d. none;
}

abbrev input : DispatchInput
input = record {
  command = "uptime";
  device_ids = 10 ∷ 11 ∷ [];
  group_id = none;
  timeout_ms = 60000;
  use_broadcast_topic = false;
}

abbrev prepared : DispatchInput → Prepared
prepared i = prepare ids 30 100 2 3 5 i site

abbrev batch_of : Prepared → Batch
batch_of (refused e s) = record { id = 0; targets = []; skipped = [] }
batch_of (ready b s) = b

abbrev site_of : Prepared → Site
site_of (refused e s) = s
site_of (ready b s) = s

one_target : batch_of (prepared input) ≡ record { id = 5; targets = box ∷ []; skipped = [] }
unfolding prepare check_command_rate_limit take refill
one_target = refl

-- The dispatch goes through, with the broadcast options or without.
input_ready : prepared input ≡ ready (batch_of (prepared input)) (site_of (prepared input))
unfolding prepare check_command_rate_limit take refill
input_ready = refl

prepare-answers_example :
    occurs 10 (device_ids (batch_of (prepared input)).targets)
      + occurs 10 (names (batch_of (prepared input)).skipped)
    ≡ 1
prepare-answers_example = prepare-answers ids 30 100 2 3 5 input site 10 input_ready refl

input_heard : any (hears box) (messages ids (batch_of (prepared input)) input) ≡ true
unfolding messages prepare check_command_rate_limit take refill
input_heard = refl

fan_out-in_team_example : IsReached 3 input box
fan_out-in_team_example =
    fan_out-in_team ids 30 100 2 3 5 input site box (omega arith, (tt, tt)) refl input_ready refl
      input_heard
