-- ===== src/Schedules.antt =====
-- server/modules/schedules/schedule.service.ts: schedules, and the round that claims and runs those
-- that are due. `next_run` stands for the package cron-parser, which gives the first time after
-- another that an expression names, in UTC, or fails. A round is cut where other processes can run:
-- it lists the due rows, and for each of them claims and then dispatches. The text of `lastStatus` is
-- kept as what it says.
pub mod Claim
pub mod Round
pub mod Turn
pub mod Due
pub mod Targets
pub mod Armed
mod Tests
use zenstier.Prelude.{
  ℕ, ◌+◌, String, Bool, true, false, not, ◌&&◌, Option, none, some, List, [], ◌∷◌, ◌++◌, leb, ◌==◌,
  opt_eq, str_eq, is_some, or_else, if◌then◌else◌, update_many, delete_many, find_first, find_many,
  count, insert, take, length, any,
}
use zenstier.Prelude.Text.{trim}
use zenstier.Prelude.Sweep.{elem}
use zenstier.Fleet.{Device}
use zenstier.Commands.{
  DispatchInput, DispatchError, Site, Message, Batch, Dispatch, rejected, accepted, dispatch,
}

pub data ScheduleStatus : Type 0 where
  active paused : ScheduleStatus

pub data LastStatus : Type 0 where
  dispatched_to : (devices : ℕ) → LastStatus
  failed_with : DispatchError → LastStatus

pub record Schedule : Type 0 where
  pub id : ℕ
  pub team_id : ℕ
  pub user_id : ℕ
  pub name : String
  pub command : String
  pub cron : String
  pub status : ScheduleStatus
  pub group_id : Option ℕ
  pub device_ids : List ℕ
  pub timeout_ms : ℕ
  pub last_run_at : Option ℕ
  pub last_status : Option LastStatus
  pub next_run_at : Option ℕ
  pub run_count : ℕ

pub record DeviceGroup : Type 0 where
  pub id : ℕ
  pub user_id : ℕ
  pub team_id : ℕ
  pub name : String

pub data ScheduleAudit : Type 0 where
  schedule_created schedule_updated schedule_deleted :
      (user_id team_id schedule_id : ℕ) → ScheduleAudit
  schedule_ran : (user_id team_id schedule_id devices skipped : ℕ) → ScheduleAudit

pub record Plant : Type 0 where
  pub schedules : List Schedule
  pub groups : List DeviceGroup
  pub audit : List ScheduleAudit
  pub site : Site
  pub sent : List Message

pub record ScheduleInput : Type 0 where
  pub name : String
  pub command : String
  pub cron : String
  pub group_id : Option ℕ
  pub device_ids : List ℕ
  pub timeout_ms : Option ℕ

pub data ScheduleError : Type 0 where
  name_required command_required invalid_cron group_not_found no_target foreign_device :
      ScheduleError
  schedule_not_found : ScheduleError

pub data Outcome : Type 0 where
  done : Plant → Outcome
  failed : ScheduleError → Outcome

abbrev pub is_active : ScheduleStatus → Bool
is_active active = true
is_active paused = false

abbrev pub by_id : ℕ → Schedule → Bool
by_id i s = s.id == i

abbrev pub in_team : (team_id schedule_id : ℕ) → Schedule → Bool
in_team team_id schedule_id s = s.id == schedule_id && s.team_id == team_id

abbrev pub has_id : (team_id group_id : ℕ) → DeviceGroup → Bool
has_id team_id group_id g = g.id == group_id && g.team_id == team_id

-- The devices that `validateTargets` counts.
abbrev pub is_owned : (team_id : ℕ) → List ℕ → Device → Bool
is_owned team_id ids d = d.team_id == team_id && elem d.device_id ids

-- `validateTargets`: the error it throws, if any.
pub validate_targets : (team_id : ℕ) → Option ℕ → List ℕ → Plant → Option ScheduleError
validate_targets team_id (some g) ids p =
    if any (has_id team_id g) p.groups then none else some group_not_found
validate_targets team_id none [] p = some no_target
validate_targets team_id none (i ∷ is) p =
    if count (is_owned team_id (i ∷ is)) p.site.world.devices == length (i ∷ is)
    then none
    else some foreign_device

abbrev pub only_without : Option ℕ → List ℕ → List ℕ
only_without none ids = ids
only_without (some g) ids = []

abbrev pub new_schedule : (user_id team_id new_id next : ℕ) → ScheduleInput → Schedule
new_schedule user_id team_id new_id next input = record {
  id = new_id;
  team_id = team_id;
  user_id = user_id;
  name = trim input.name;
  command = trim input.command;
  cron = trim input.cron;
  status = active;
  group_id = input.group_id;
  device_ids = only_without input.group_id input.device_ids;
  timeout_ms = or_else input.timeout_ms 60000;
  last_run_at = none;
  last_status = none;
  next_run_at = some next;
  run_count = 0;
}

abbrev pub add_schedule : (user_id team_id new_id next : ℕ) → ScheduleInput → Plant → Plant
add_schedule user_id team_id new_id next input p = record p {
  schedules = insert (new_schedule user_id team_id new_id next input) p.schedules;
  audit = schedule_created user_id team_id new_id ∷ p.audit;
}

abbrev checked :
    (user_id team_id new_id next : ℕ) → ScheduleInput → Plant → Option ScheduleError → Outcome
checked user_id team_id new_id next input p none =
    done (add_schedule user_id team_id new_id next input p)
checked user_id team_id new_id next input p (some e) = failed e

abbrev planned : (user_id team_id new_id : ℕ) → ScheduleInput → Plant → Option ℕ → Outcome
planned user_id team_id new_id input p none = failed invalid_cron
planned user_id team_id new_id input p (some next) =
    checked user_id team_id new_id next input p
      (validate_targets team_id input.group_id input.device_ids p)

abbrev pub put_status : ScheduleStatus → Option ℕ → Schedule → Schedule
put_status status next s = record s { status = status; next_run_at = next }

abbrev pub change_status :
    (user_id team_id schedule_id : ℕ) → ScheduleStatus → Option ℕ → Plant → Plant
change_status user_id team_id schedule_id status next p = record p {
  schedules = update_many (by_id schedule_id) (put_status status next) p.schedules;
  audit = schedule_updated user_id team_id schedule_id ∷ p.audit;
}

abbrev resumed : (user_id team_id schedule_id : ℕ) → Plant → Option ℕ → Outcome
resumed user_id team_id schedule_id p none = failed invalid_cron
resumed user_id team_id schedule_id p (some next) =
    done (change_status user_id team_id schedule_id active (some next) p)

module _ (next_run : String → ℕ → Option ℕ) where
  pub create_schedule : (now user_id team_id new_id : ℕ) → ScheduleInput → Plant → Outcome
  unfolding validate_targets
  create_schedule now user_id team_id new_id input p =
      if str_eq (trim input.name) ""
      then failed name_required
      else if str_eq (trim input.command) ""
      then failed command_required
      else planned user_id team_id new_id input p (next_run input.cron now)

  pub set_schedule_status : (now user_id team_id schedule_id : ℕ) → ScheduleStatus → Plant → Outcome
  set_schedule_status now user_id team_id schedule_id status p =
      elim (find_first (in_team team_id schedule_id) p.schedules) [
        | none ↦ failed schedule_not_found
        | some s ↦
            if is_active status
            then resumed user_id team_id schedule_id p (next_run s.cron now)
            else done (change_status user_id team_id schedule_id status none p)
      ]

pub delete_schedule : (user_id team_id schedule_id : ℕ) → Plant → Outcome
delete_schedule user_id team_id schedule_id p =
    elim (find_first (in_team team_id schedule_id) p.schedules) [
      | none ↦ failed schedule_not_found
      | some s ↦ done (record p {
        schedules = delete_many (by_id schedule_id) p.schedules;
        audit = schedule_deleted user_id team_id schedule_id ∷ p.audit;
      })
    ]
