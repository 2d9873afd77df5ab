-- ===== src/Schedules/Tests.antt =====
-- The schedules at a concrete plant.
use zenstier.Prelude.{
  ℕ, ◌+◌, ◌≤◌, ◌≡◌, refl, String, true, Option, none, some, List, [], ◌∷◌, arith, All, any, insert,
}
use zenstier.Prelude.Text.{trim}
use zenstier.Commands.{
  Site, Batch, Message, rejected, accepted, dispatch, Dispatch, prepare, messages, mark_dispatched,
}
use zenstier.Commands.Publishing.{hears}
use zenstier.Schedules.{
  Schedule, ScheduleInput, Plant, active, paused, create_schedule, done, validate_targets,
  schedule_created,
}
use zenstier.Schedules.Claim.{
  Step, claims, sets, step, steps, all_wins, waiting, all_wins-waiting, claim,
}
use zenstier.Schedules.Round.{run_due, plant_of, row, IsServed, input_of}
use zenstier.Schedules.Due.{run_due-row}
use zenstier.Schedules.Armed.{IsArmed, steps-IsArmed}
use zenstier.Worker.Tests.{box, fleet}
use zenstier.Prelude.{◌*◌}
use zenstier.RateLimit.{take, refill, check_command_rate_limit}

abbrev every_minute : String → ℕ → Option ℕ
every_minute cron now = some (now + 60)

abbrev backup : Schedule
backup = record {
  id = 1;
  team_id = 3;
  user_id = 2;
  name = "backup";
  command = "backup.sh";
  cron = "* * * * *";
  status = active;
  group_id = none;
  device_ids = 10 ∷ [];
  timeout_ms = 1000;
  last_run_at = none;
  last_status = none;
  next_run_at = some 100;
  run_count = 0;
}

abbrev site : Site
site = record {
  world = fleet;
  batches = [];
  audit = [];
  user_buckets = λ u. none;
  device_buckets = λ d. none;
}

abbrev plant : Plant
plant = record { schedules = backup ∷ []; groups = []; audit = []; site = site; sent = [] }

abbrev ids : ℕ → ℕ → ℕ
ids batch_id device_id = 1000 * batch_id + device_id

-- Two workers that both read the row, a pause between their claims, and a resumption.
abbrev race : List Step
race = claims 120 backup ∷ sets 125 2 3 1 paused ∷ claims 121 backup ∷ sets 130 2 3 1 active ∷ []

all_wins-waiting_example :
    all_wins every_minute 1 100 race plant + waiting 1 100 (steps every_minute race plant) ≤ 1
all_wins-waiting_example =
    all_wins-waiting every_minute (λ cron now next e. ground arith) 1 100 race plant
      (omega arith, (omega arith, (omega arith, (omega arith, tt))))

won_once : all_wins every_minute 1 100 race plant ≡ 1
unfolding all_wins step claim
won_once = refl

steps-IsArmed_example : All IsArmed (steps every_minute race plant).schedules
steps-IsArmed_example =
    steps-IsArmed every_minute race plant (refl, (tt, (refl, (tt, tt)))) (refl, tt)

run_due-row_example :
    (r : Schedule) × (row 1 (plant_of (run_due every_minute ids 30 (λ i. 5) (λ i. 121) 120 plant))
      ≡ some r)
    × IsServed every_minute 120 backup r
run_due-row_example =
    (run_due-row every_minute ids 30 (λ i. 5) (λ i. 121) 120 plant backup (tt, tt) (omega arith)
        (refl, tt) refl).1
      refl

abbrev order : ScheduleInput
order = record {
  name = "nightly ";
  command = "backup.sh";
  cron = "* * * * *";
  group_id = none;
  device_ids = 10 ∷ [];
  timeout_ms = none;
}

abbrev nightly : Schedule
nightly = record backup { id = 2; name = "nightly"; next_run_at = some 160; timeout_ms = 60000 }

abbrev ordered : Plant
ordered = record plant {
  schedules = insert nightly plant.schedules;
  audit = schedule_created 2 3 2 ∷ [];
}

creates-ordered : create_schedule every_minute 100 2 3 2 order plant ≡ done ordered
unfolding create_schedule validate_targets trim
creates-ordered = refl

abbrev launched : Dispatch
launched = dispatch ids 30 100 101 2 3 5 (input_of backup) site

abbrev batch_of : Dispatch → Batch
batch_of (rejected e s) = record { id = 0; targets = []; skipped = [] }
batch_of (accepted b ms s) = b

abbrev messages_of : Dispatch → List Message
messages_of (rejected e s) = []
messages_of (accepted b ms s) = ms

abbrev site_of : Dispatch → Site
site_of (rejected e s) = s
site_of (accepted b ms s) = s

launches : launched ≡ accepted (batch_of launched) (messages_of launched) (site_of launched)
unfolding dispatch prepare messages mark_dispatched check_command_rate_limit take refill
launches = refl

box-hears : any (hears box) (messages_of launched) ≡ true
unfolding dispatch prepare messages mark_dispatched check_command_rate_limit take refill
box-hears = refl
