-- ===== src/Schedules/Armed.antt =====
-- server/modules/schedules/schedule.service.ts: active schedules wait for a time, paused ones do not.
use zenstier.Prelude.{
  ℕ, ◌≡◌, refl, inl, inr, String, Bool, true, Option, none, some, List, [], ◌∷◌, arith, is_some,
  find_first, All, Option-cases, Bool-cases, update_many, insert, delete_many, All-insert,
  All-update_many_if, All-delete_many,
}
use zenstier.Prelude.{◌||◌, str_eq}
use zenstier.Prelude.Text.{trim}
use zenstier.Commands.{}
use zenstier.Schedules.{
  Schedule, ScheduleInput, ScheduleStatus, Plant, validate_targets, create_schedule, new_schedule,
  is_active, put_status, by_id, set_schedule_status, delete_schedule, in_team, active, paused,
  dispatched_to, failed_with,
}
use zenstier.Schedules.Claim.{
  claim, or_same, steps, step, Step, claims, notes, creates, sets, deletes, is_unclaimed, put_next,
  note,
}

-- An active schedule waits for a time, and a paused one for none.
abbrev pub IsArmed : Schedule → Type 0
IsArmed s = is_some s.next_run_at ≡ is_active s.status

-- A claim is of a row read while it was waiting.
abbrev pub IsTimed : Step → Type 0
IsTimed (claims now s) = is_some s.next_run_at ≡ true
IsTimed _ = Unit

module _ (next_run : String → ℕ → Option ℕ) where
  -- What an operation leaves of the table of schedules.
  data IsLeft (p : Plant) : Plant → Type 0 where
    same : {p' : Plant} → p'.schedules ≡ p.schedules → IsLeft p p'
    more :
        {p' : Plant} (r : Schedule) → p'.schedules ≡ insert r p.schedules → IsArmed r → IsLeft p p'
    less :
        {p' : Plant} (q : Schedule → Bool) → p'.schedules ≡ delete_many q p.schedules → IsLeft p p'
    changed :
        {p' : Plant} (q : Schedule → Bool) (f : Schedule → Schedule)
        → p'.schedules ≡ update_many q f p.schedules
        → ((x : Schedule) → q x ≡ true → IsArmed x → IsArmed (f x))
        → IsLeft p p'

  All-IsLeft : (p p' : Plant) → IsLeft p p' → All IsArmed p.schedules → All IsArmed p'.schedules
  All-IsLeft p p' (same e) h = rw e h
  All-IsLeft p p' (more r e a) h = rw e (All-insert IsArmed r p.schedules a h)
  All-IsLeft p p' (less q e) h = rw e (All-delete_many IsArmed q p.schedules h)
  All-IsLeft p p' (changed q f e k) h = rw e (All-update_many_if IsArmed q f p.schedules k h)

  set-IsLeft :
      (now user_id team_id j : ℕ) (status : ScheduleStatus) (p : Plant)
      → IsLeft p (or_same p (set_schedule_status next_run now user_id team_id j status p))
  unfolding set_schedule_status
  set-IsLeft now user_id team_id j paused p =
      elim (Option-cases (find_first (in_team team_id j) p.schedules)) [
        | inl gone ↦ same (ground arith)
        | inr (s, found) ↦ changed (by_id j) (put_status paused none) (ground arith) (λ x m k. refl)
      ]
  set-IsLeft now user_id team_id j active p =
      elim (Option-cases (find_first (in_team team_id j) p.schedules)) [
        | inl gone ↦ same (ground arith)
        | inr (s, found) ↦ elim (Option-cases (next_run s.cron now)) [
          | inl bad ↦ same (ground arith)
          | inr (next, ok) ↦
              changed (by_id j) (put_status active (some next)) (ground arith) (λ x m k. refl)
        ]
      ]

  create-IsLeft :
      (now user_id team_id new_id : ℕ) (input : ScheduleInput) (p : Plant)
      → IsLeft p (or_same p (create_schedule next_run now user_id team_id new_id input p))
  unfolding create_schedule
  create-IsLeft now user_id team_id new_id input p = elim (Option-cases (next_run input.cron now)) [
    | inl bad ↦ same (ground arith)
    | inr (next, ok) ↦
        elim (Option-cases (validate_targets team_id input.group_id input.device_ids p)) [
          | inl fine ↦
              elim (Bool-cases (str_eq (trim input.name) "" || str_eq (trim input.command) "")) [
                | inl missing ↦ same (ground arith)
                | inr there ↦
                    more (new_schedule user_id team_id new_id next input) (ground arith) refl
              ]
          | inr (e, bad) ↦ same (ground arith)
        ]
  ]

  step-IsLeft : (x : Step) (p : Plant) → IsTimed x → IsLeft p (step next_run x p)
  unfolding step note claim delete_schedule
  step-IsLeft (claims now s) p t = elim (Option-cases (next_run s.cron now)) [
    | inl bad ↦ same (ground arith)
    | inr (next, ok) ↦
        changed (is_unclaimed s) (put_next next) (ground arith) (λ x m k. ground arith)
  ]
  step-IsLeft (notes now j (dispatched_to n)) p t =
      changed (by_id j) (note now (dispatched_to n)) refl (λ x m k. k)
  step-IsLeft (notes now j (failed_with e)) p t =
      changed (by_id j) (note now (failed_with e)) refl (λ x m k. k)
  step-IsLeft (creates now user_id team_id new_id input) p t =
      create-IsLeft now user_id team_id new_id input p
  step-IsLeft (sets now user_id team_id j status) p t = set-IsLeft now user_id team_id j status p
  step-IsLeft (deletes user_id team_id j) p t =
      elim (Option-cases (find_first (in_team team_id j) p.schedules)) [
        | inl gone ↦ same (ground arith)
        | inr (s, found) ↦ less (by_id j) (ground arith)
      ]

  -- After any steps of any workers and users a schedule waits for a time exactly while it is active,
  -- if that held before and claims are made of rows that were read while they waited.
  pub steps-IsArmed :
      (xs : List Step) (p : Plant)
      → All IsTimed xs
      → All IsArmed p.schedules
      → All IsArmed (steps next_run xs p).schedules
  unfolding steps
  steps-IsArmed [] p t h = h
  steps-IsArmed (x ∷ xs) p (u, t) h =
      steps-IsArmed xs (step next_run x p) t
        (All-IsLeft p (step next_run x p) (step-IsLeft x p u) h)
