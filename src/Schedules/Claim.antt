-- ===== src/Schedules/Claim.antt =====
-- server/modules/schedules/schedule.service.ts: the claim, a conditional update, in a race of
-- workers and of the other operations on schedules.
use zenstier.Prelude.{
  ℕ, ◌+◌, ◌≤◌, ◌<◌, ◌≡◌, ◌≢◌, refl, String, Bool, ◌&&◌, Option, none, some, List, [], ◌∷◌, arith,
  opt_eq, if◌then◌else◌, inl, inr, Option-cases, Bool-cases, update_many, count, All, find_first,
  count-insert, count-update_many_same, count-update_many_le, count-update_many_none,
  count-delete_many_le,
}
use zenstier.Schedules.{
  Schedule, ScheduleStatus, active, paused, validate_targets, ScheduleInput, Plant, Outcome, done,
  failed, by_id, in_team, put_status, new_schedule, LastStatus, dispatched_to, failed_with,
  create_schedule, set_schedule_status, delete_schedule,
}

-- The row as the worker read it: `nextRunAt` is what it was.
abbrev pub is_unclaimed : Schedule → Schedule → Bool
is_unclaimed s x = by_id s.id x && opt_eq x.next_run_at s.next_run_at

abbrev pub put_next : ℕ → Schedule → Schedule
put_next next x = record x { next_run_at = some next }

-- How many rows the conditional update meets, and the table after it.
unfoldable pub claim : (next : ℕ) → Schedule → List Schedule → ℕ × List Schedule
claim next s xs = (count (is_unclaimed s) xs, update_many (is_unclaimed s) (put_next next) xs)

-- The update after a run that was dispatched, and after one that failed.
unfoldable pub note : (now : ℕ) → LastStatus → Schedule → Schedule
note now (dispatched_to n) x = record x {
  last_run_at = some now;
  last_status = some (dispatched_to n);
  run_count = x.run_count + 1;
}
note now (failed_with e) x = record x { last_run_at = some now; last_status = some (failed_with e) }

-- What any process does to the table of schedules.
pub data Step : Type 0 where
  claims : (now : ℕ) → Schedule → Step
  notes : (now schedule_id : ℕ) → LastStatus → Step
  creates : (now user_id team_id new_id : ℕ) → ScheduleInput → Step
  sets : (now user_id team_id schedule_id : ℕ) → ScheduleStatus → Step
  deletes : (user_id team_id schedule_id : ℕ) → Step

abbrev pub or_same : Plant → Outcome → Plant
or_same p (done p') = p'
or_same p (failed e) = p

-- A row that waits to run at `t`.
abbrev pub is_waiting_at : (i t : ℕ) → Schedule → Bool
is_waiting_at i t x = by_id i x && opt_eq x.next_run_at (some t)

abbrev pub waiting : (i t : ℕ) → Plant → ℕ
waiting i t p = count (is_waiting_at i t) p.schedules

module _ (next_run : String → ℕ → Option ℕ) where
  abbrev claimed : Schedule → Plant → Option ℕ → ℕ × Plant
  claimed s p none = (0, p)
  claimed s p (some next) =
      let (n, xs) = claim next s p.schedules in (n, record p { schedules = xs })

  unfoldable pub step : Step → Plant → Plant
  unfolding claim note create_schedule set_schedule_status delete_schedule
  step (claims now s) p = (claimed s p (next_run s.cron now)).1
  step (notes now i st) p = record p { schedules = update_many (by_id i) (note now st) p.schedules }
  step (creates now user_id team_id new_id input) p =
      or_same p (create_schedule next_run now user_id team_id new_id input p)
  step (sets now user_id team_id i status) p =
      or_same p (set_schedule_status next_run now user_id team_id i status p)
  step (deletes user_id team_id i) p = or_same p (delete_schedule user_id team_id i p)

  -- The rows that a step claims for the run of `i` at `t`.
  abbrev pub wins : (i t : ℕ) → Step → Plant → ℕ
  wins i t (claims now s) p =
      if is_waiting_at i t s then (claimed s p (next_run s.cron now)).0 else 0
  wins i t _ p = 0

  unfoldable pub all_wins : (i t : ℕ) → List Step → Plant → ℕ
  all_wins i t [] p = 0
  all_wins i t (x ∷ xs) p = wins i t x p + all_wins i t xs (step x p)

  unfoldable pub steps : List Step → Plant → Plant
  steps [] p = p
  steps (x ∷ xs) p = steps xs (step x p)

-- The step comes at `t` or later, and makes no new row `i`.
abbrev pub Later : (i t : ℕ) → Step → Type 0
Later i t (claims now s) = t ≤ now
Later i t (notes now j st) = Unit
Later i t (creates now user_id team_id new_id input) = new_id ≢ i
Later i t (sets now user_id team_id j status) = t ≤ now
Later i t (deletes user_id team_id j) = Unit

module _ (next_run : String → ℕ → Option ℕ)
    (later : (cron : String) (now next : ℕ) → next_run cron now ≡ some next → now < next)
    (i t : ℕ) where
  unclaimed_waiting :
      (s : Schedule)
      → s.id ≡ i
      → s.next_run_at ≡ some t
      → (xs : List Schedule) → count (is_unclaimed s) xs ≡ count (is_waiting_at i t) xs
  unclaimed_waiting s a b [] = refl
  unclaimed_waiting s a b (x ∷ xs) = ground (arith, unclaimed_waiting s a b xs)

  claim-waiting :
      (next : ℕ) (s : Schedule) (xs : List Schedule)
      → t < next
      → (if is_waiting_at i t s then (claim next s xs).0 else 0)
          + count (is_waiting_at i t) (claim next s xs).1
        ≤ count (is_waiting_at i t) xs
  unfolding claim
  claim-waiting next s xs h = elim (Bool-cases (is_waiting_at i t s)) [
    | inl mine ↦
        let same = unclaimed_waiting s (ground arith) (ground arith) xs in
        let gone =
          count-update_many_none (is_waiting_at i t) (is_unclaimed s) (put_next next) xs
            (λ x hit. ground arith) (λ x. ground arith) in
        ground arith
    | inr other ↦
        let le =
          count-update_many_le (is_waiting_at i t) (is_unclaimed s) (put_next next) xs
            (λ x. ground arith) in
        ground arith
  ]

  set-waiting :
      (now user_id team_id j : ℕ) (status : ScheduleStatus) (p : Plant)
      → t ≤ now
      → waiting i t (or_same p (set_schedule_status next_run now user_id team_id j status p))
        ≤ waiting i t p
  unfolding set_schedule_status
  set-waiting now user_id team_id j paused p h =
      let le =
        count-update_many_le (is_waiting_at i t) (by_id j) (put_status paused none) p.schedules
          (λ x. ground arith) in
      ground arith
  set-waiting now user_id team_id j active p h =
      elim (Option-cases (find_first (in_team team_id j) p.schedules)) [
        | inl gone ↦ ground arith
        | inr (s, found) ↦ elim (Option-cases (next_run s.cron now)) [
          | inl bad ↦ ground arith
          | inr (next, ok) ↦
              let up = later s.cron now next ok in
              let le =
                count-update_many_le (is_waiting_at i t) (by_id j) (put_status active (some next))
                  p.schedules (λ x. ground arith) in
              ground arith
        ]
      ]

  create-waiting :
      (now user_id team_id new_id : ℕ) (input : ScheduleInput) (p : Plant)
      → new_id ≢ i
      → waiting i t (or_same p (create_schedule next_run now user_id team_id new_id input p))
        ≤ waiting i t p
  unfolding create_schedule
  create-waiting now user_id team_id new_id input p h =
      elim (Option-cases (next_run input.cron now)) [
        | inl bad ↦ ground arith
        | inr (next, ok) ↦
            let one =
              count-insert (is_waiting_at i t) (new_schedule user_id team_id new_id next input)
                p.schedules in
            elim (Option-cases (validate_targets team_id input.group_id input.device_ids p)) [
              | inl fine ↦ ground arith
              | inr (e, bad) ↦ ground arith
            ]
      ]

  step-waiting :
      (x : Step) (p : Plant)
      → Later i t x
      → wins next_run i t x p + waiting i t (step next_run x p) ≤ waiting i t p
  unfolding step note delete_schedule
  step-waiting (claims now s) p h = elim (Option-cases (next_run s.cron now)) [
    | inl bad ↦ ground arith
    | inr (next, ok) ↦
        let up = later s.cron now next ok in
        let run = claim-waiting next s p.schedules (omega arith) in ground (arith, run)
  ]
  step-waiting (notes now j (dispatched_to n)) p h =
      let same =
        count-update_many_same (is_waiting_at i t) (by_id j) (note now (dispatched_to n))
          p.schedules (λ x. refl) in
      ground arith
  step-waiting (notes now j (failed_with e)) p h =
      let same =
        count-update_many_same (is_waiting_at i t) (by_id j) (note now (failed_with e)) p.schedules
          (λ x. refl) in
      ground arith
  step-waiting (creates now user_id team_id new_id input) p h =
      let le = create-waiting now user_id team_id new_id input p h in ground arith
  step-waiting (sets now user_id team_id j status) p h =
      let le = set-waiting now user_id team_id j status p h in ground arith
  step-waiting (deletes user_id team_id j) p h =
      ground (arith, count-delete_many_le (is_waiting_at i t) (by_id j) p.schedules)

  -- A run is claimed at most once for each row that waits for it: over any steps of any workers and users,
  -- made at the time of the run or later, expressions naming later times and no new schedule having its
  -- id, the claims of it that succeed and the rows that still wait for it are together no more than the
  -- rows that waited at first.
  pub all_wins-waiting :
      (xs : List Step) (p : Plant)
      → All (Later i t) xs
      → all_wins next_run i t xs p + waiting i t (steps next_run xs p) ≤ waiting i t p
  unfolding all_wins steps
  all_wins-waiting [] p h = ground arith
  all_wins-waiting (x ∷ xs) p (k, h) =
      let first = step-waiting x p k in
      let rest = all_wins-waiting xs (step next_run x p) h in omega arith
