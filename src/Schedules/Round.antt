-- ===== src/Schedules/Round.antt =====
-- server/modules/schedules/schedule.service.ts: `runDueSchedules`, a round of one worker that
-- nothing comes in between.
use zenstier.Prelude.{
  ℕ, ◌+◌, ◌≡◌, ◌⊎◌, String, Bool, true, false, ◌&&◌, Option, none, some, List, [], ◌∷◌, ◌++◌, leb,
  ◌==◌, if◌then◌else◌, update_many, length, take, find_first, find_many,
}
use zenstier.Commands.{DispatchInput, Dispatch, rejected, accepted, dispatch}
use zenstier.Schedules.{
  Schedule, is_active, Plant, by_id, only_without, schedule_ran, dispatched_to, failed_with,
  LastStatus,
}
use zenstier.Schedules.Claim.{claim, note}

abbrev pub is_past : (now : ℕ) → Option ℕ → Bool
is_past now none = false
is_past now (some t) = leb t now

abbrev pub is_due : (now : ℕ) → Schedule → Bool
is_due now s = is_active s.status && is_past now s.next_run_at

abbrev pub due : (now : ℕ) → Plant → List Schedule
due now p = take 50 (find_many (is_due now) p.schedules)

pub data Round : Type 0 where
  finished : (dispatched : ℕ) → Plant → Round
  aborted : Plant → Round

abbrev pub input_of : Schedule → DispatchInput
input_of s = record {
  command = s.command;
  device_ids = only_without s.group_id s.device_ids;
  group_id = s.group_id;
  timeout_ms = s.timeout_ms;
  use_broadcast_topic = false;
}

abbrev pub add_one : ℕ → Round → Round
add_one n (finished m p) = finished (n + m) p
add_one n (aborted p) = aborted p

-- An expression without a next time throws, out of the loop.
abbrev pub or_abort : Option ℕ → Plant → (ℕ → Round) → Round
or_abort none p run = aborted p
or_abort (some next) p run = run next

abbrev pub noted : (now : ℕ) → Schedule → LastStatus → List Schedule → List Schedule
unfolding note
noted now s st xs = update_many (by_id s.id) (note now st) xs

abbrev pub settled : (now : ℕ) → Schedule → Dispatch → Plant → ℕ × Plant
settled now s (rejected e site) p =
    (0, record p { site = site; schedules = noted now s (failed_with e) p.schedules })
settled now s (accepted b ms site) p = (
  1,
  record p {
    site = site;
    schedules = noted now s (dispatched_to (length b.targets)) p.schedules;
    audit = schedule_ran s.user_id s.team_id s.id (length b.targets) (length b.skipped) ∷ p.audit;
    sent = p.sent ++ ms;
  },
)

-- A claim that meets no row is another worker's.
abbrev pub pick : Bool → Plant → ℕ × Plant → ℕ × Plant
pick lost p ran = if lost then (0, p) else ran

-- `fresh` gives the batch ids, and `clock` the times of the dispatches.
module _ (next_run : String → ℕ → Option ℕ) (command_id_for : ℕ → ℕ → ℕ) (per_minute : ℕ)
    (fresh clock : ℕ → ℕ) where
  -- The body of the `try` and its `catch`.
  unfoldable pub run_claimed : (now : ℕ) → Schedule → Plant → ℕ × Plant
  run_claimed now s p =
      settled now s
        (dispatch command_id_for per_minute (clock s.id) (clock s.id) s.user_id s.team_id
          (fresh s.id) (input_of s) p.site)
        p

  -- One round of the loop, at the next time of the schedule.
  unfoldable pub run_one : (now next : ℕ) → Schedule → Plant → ℕ × Plant
  unfolding run_claimed claim
  run_one now next s p =
      let (n, xs) = claim next s p.schedules in
      let p' = record p { schedules = xs } in pick (n == 0) p' (run_claimed now s p')

  unfoldable pub run_each : (now : ℕ) → List Schedule → Plant → Round
  unfolding run_one
  run_each now [] p = finished 0 p
  run_each now (s ∷ ss) p =
      or_abort (next_run s.cron now) p
        (λ next. let (n, p') = run_one now next s p in add_one n (run_each now ss p'))

  unfoldable pub run_due : (now : ℕ) → Plant → Round
  unfolding run_each
  run_due now p = run_each now (due now p) p

-- What a round makes of the row of a schedule that ran: the next time is after now, and the outcome
-- is noted.
pub record IsServed (next_run : String → ℕ → Option ℕ) (now : ℕ) (s r : Schedule) : Type 0 where
  pub next : r.next_run_at ≡ next_run s.cron now
  pub last : r.last_run_at ≡ some now
  pub status : r.status ≡ s.status
  pub runs : (r.run_count ≡ s.run_count) ⊎ (r.run_count ≡ s.run_count + 1)

abbrev pub plant_of : Round → Plant
plant_of (finished n p) = p
plant_of (aborted p) = p

abbrev pub is_finished : Round → Bool
is_finished (finished n p) = true
is_finished (aborted p) = false

abbrev pub row : ℕ → Plant → Option Schedule
row i p = find_first (by_id i) p.schedules
