-- ===== src/Schedules/Targets.antt =====
-- server/modules/schedules/schedule.service.ts: the targets that a schedule may have, and whom its runs
-- reach.
use zenstier.Prelude.{
  ℕ, ◌+◌, ◌≤◌, ◌≡◌, ◌≢◌, refl, ◌⊎◌, inl, inr, String, Bool, true, ◌&&◌, Option, none, some, List,
  [], ◌∷◌, arith, ◌==◌, is_some, if◌then◌else◌, any, count, length, All, Absent, Distinct,
  Option-cases, Bool-cases, insert,
}
use zenstier.Prelude.{subst, eq_iff}
use zenstier.Prelude.Text.{trim}
use zenstier.Fleet.{device_by, Device}
use zenstier.Commands.{
  DispatchError, Batch, Message, Site, accepted, dispatch, prepare, ready, refused, messages,
  Prepared,
}
use zenstier.Commands.Publishing.{hears, fan_out-in_team}
use zenstier.Commands.Targets.{IsReached}
use zenstier.Schedules.{
  Schedule, ScheduleInput, Plant, done, is_owned, has_id, validate_targets, create_schedule,
  only_without, new_schedule, active,
}
use zenstier.Schedules.Claim.{}
use zenstier.Schedules.Round.{input_of}

abbrev pub is_device : (team_id device_id : ℕ) → Device → Bool
is_device team_id i d = d.team_id == team_id && d.device_id == i

module _ (team_id : ℕ) (ds : List Device) where
  abbrev pub is_present : ℕ → Bool
  is_present i = any (is_device team_id i) ds

  present_count : List ℕ → ℕ
  present_count [] = 0
  present_count (i ∷ is) = (if is_present i then 1 else 0) + present_count is

  present_count-length : (is : List ℕ) → present_count is ≤ length is
  unfolding present_count
  present_count-length [] = ground arith
  present_count-length (i ∷ is) = ground (arith, present_count-length is)

  All-is_present : (is : List ℕ) → length is ≤ present_count is → All (λ i. is_present i ≡ true) is
  unfolding present_count
  All-is_present [] h = tt
  All-is_present (i ∷ is) h =
      let le = present_count-length is in (ground arith, All-is_present is (ground arith))

device_once :
    (team_id i : ℕ) (ds : List Device)
    → Distinct (λ (d : Device). d.device_id) ds
    → count (is_device team_id i) ds ≤ (if is_present team_id ds i then 1 else 0)
device_once team_id i [] d = ground arith
device_once team_id i (x ∷ ds) (a, d) = elim (Bool-cases (is_device team_id i x)) [
  | inl hit ↦ let rest = gone i ds (subst_absent x i ds (ground arith) a) in ground arith
  | inr miss ↦ ground (arith, device_once team_id i ds d)
]
  where
    subst_absent :
        (x : Device) (i : ℕ) (ds : List Device)
        → x.device_id ≡ i
        → Absent (λ (d : Device). d.device_id) x.device_id ds
        → Absent (λ (d : Device). d.device_id) i ds
    subst_absent x i ds e a = subst (λ k. Absent (λ (d : Device). d.device_id) k ds) e a

    gone :
        (i : ℕ) (ds : List Device)
        → Absent (λ (d : Device). d.device_id) i ds
        → count (is_device team_id i) ds ≡ 0
    gone i [] a = refl
    gone i (y ∷ ys) (n, a) = ground (arith, gone i ys a)

count-is_owned :
    (team_id i : ℕ) (is : List ℕ) (ds : List Device)
    → count (is_owned team_id (i ∷ is)) ds
      ≤ count (is_device team_id i) ds + count (is_owned team_id is) ds
count-is_owned team_id i is [] = ground arith
count-is_owned team_id i is (d ∷ ds) = ground (arith, count-is_owned team_id i is ds)

count-nothing : (team_id : ℕ) (ds : List Device) → count (is_owned team_id []) ds ≡ 0
count-nothing team_id [] = refl
count-nothing team_id (d ∷ ds) = ground (arith, count-nothing team_id ds)

count-present :
    (team_id : ℕ) (ds : List Device) (is : List ℕ)
    → Distinct (λ (d : Device). d.device_id) ds
    → count (is_owned team_id is) ds ≤ present_count team_id ds is
unfolding present_count
count-present team_id ds [] d = ground (arith, count-nothing team_id ds)
count-present team_id ds (i ∷ is) d = ground (
  arith,
  count-is_owned team_id i is ds,
  device_once team_id i ds d,
  count-present team_id ds is d,
)

-- What a schedule may aim at: a group of the team, or devices of the team, at least one.
pub data IsAimed (p : Plant) (team_id : ℕ) : Option ℕ → List ℕ → Type 0 where
  at_group :
      {g : ℕ} {ids : List ℕ}
      → any (has_id team_id g) p.groups ≡ true
      → IsAimed p team_id (some g) ids
  at_devices :
      {i : ℕ} {is : List ℕ}
      → All (λ j. is_present team_id p.site.world.devices j ≡ true) (i ∷ is)
      → IsAimed p team_id none (i ∷ is)

pub validate_targets-IsAimed :
    (team_id : ℕ) (g : Option ℕ) (ids : List ℕ) (p : Plant)
    → Distinct (λ (d : Device). d.device_id) p.site.world.devices
    → validate_targets team_id g ids p ≡ none
    → IsAimed p team_id g ids
unfolding validate_targets
validate_targets-IsAimed team_id (some g) ids p d h = at_group (ground arith)
validate_targets-IsAimed team_id none [] p d h = ground arith
validate_targets-IsAimed team_id none (i ∷ is) p d h = at_devices (
    All-is_present team_id p.site.world.devices (i ∷ is)
      (ground (arith, count-present team_id p.site.world.devices (i ∷ is) d)))

-- What is made by an accepted creation.
pub record IsMade (next_run : String → ℕ → Option ℕ) (now team_id : ℕ) (input : ScheduleInput)
    (p : Plant) (r : Schedule) : Type 0 where
  pub team : r.team_id ≡ team_id
  pub named : (r.name ≢ "") × (r.command ≢ "")
  pub aimed : IsAimed p team_id r.group_id r.device_ids
  pub on : r.status ≡ active
  pub planned : (next_run input.cron now ≡ r.next_run_at) × (is_some r.next_run_at ≡ true)

aim-kept :
    {p : Plant} {team_id : ℕ} (g : Option ℕ) (ids : List ℕ)
    → IsAimed p team_id g ids
    → IsAimed p team_id g (only_without g ids)
aim-kept (some g) ids (at_group h) = at_group h
aim-kept none [] x = elim x [ ]
aim-kept none (i ∷ is) (at_devices h) = at_devices h

-- A creation that is accepted, where device ids are unique, adds one active schedule, of the caller's
-- team, with a name and a command, at the time that its expression names next. It is aimed at a group
-- of the team or at devices of the team, at least one.
pub create_schedule-IsMade :
    (next_run : String → ℕ → Option ℕ) (now user_id team_id new_id : ℕ) (input : ScheduleInput)
    (p p' : Plant)
    → Distinct (λ (d : Device). d.device_id) p.site.world.devices
    → create_schedule next_run now user_id team_id new_id input p ≡ done p'
    → (r : Schedule) × (p'.schedules ≡ insert r p.schedules) × IsMade next_run now team_id input p r
unfolding create_schedule
create_schedule-IsMade next_run now user_id team_id new_id input p p' d h =
    elim (Option-cases (next_run input.cron now)) [
      | inl bad ↦ ground arith
      | inr (next, ok) ↦
          elim (Option-cases (validate_targets team_id input.group_id input.device_ids p)) [
            | inl fine ↦ (
              new_schedule user_id team_id new_id next input,
              ground arith,
              record {
                team = refl;
                named = (
                  ground (arith, eq_iff (trim input.name) ""),
                  ground (arith, eq_iff (trim input.command) ""),
                );
                aimed =
                    aim-kept input.group_id input.device_ids
                      (validate_targets-IsAimed team_id input.group_id input.device_ids p d fine);
                on = refl;
                planned = (ok, refl);
              },
            )
            | inr (e, bad) ↦ ground arith
          ]
    ]

Prepared-cases :
    (r : Prepared)
    → ((e : DispatchError) × (s : Site) × (r ≡ refused e s))
      ⊎ ((b : Batch) × (s : Site) × (r ≡ ready b s))
Prepared-cases (refused e s) = inl (e, s, refl)
Prepared-cases (ready b s) = inr (b, s, refl)

-- A device of the table that hears a run of a schedule is an online device of the schedule's team that
-- it is aimed at.
pub dispatch-in_team :
    (command_id_for : ℕ → ℕ → ℕ) (per_minute now after batch_id : ℕ) (s : Schedule)
    (site site' : Site) (b : Batch) (ms : List Message) (d : Device)
    → Distinct (λ (x : Device). x.device_id) site.world.devices
    → device_by d.device_id site.world ≡ some d
    → dispatch command_id_for per_minute now after s.user_id s.team_id batch_id (input_of s) site
      ≡ accepted b ms site'
    → any (hears d) ms ≡ true
    → IsReached s.team_id (input_of s) d
unfolding dispatch
dispatch-in_team command_id_for per_minute now after batch_id s site site' b ms d distinct here h
      heard =
    elim (Prepared-cases
      (prepare command_id_for per_minute now s.user_id s.team_id batch_id (input_of s) site)) [
        | inl (e, s', refusal) ↦ ground arith
        | inr (b', s', passed) ↦
            let same : messages command_id_for b' (input_of s) ≡ ms = ground arith in
            fan_out-in_team command_id_for per_minute now s.user_id s.team_id batch_id (input_of s)
              site d distinct here passed (ground arith) (rw same heard)
      ]
