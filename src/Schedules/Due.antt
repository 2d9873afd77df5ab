-- ===== src/Schedules/Due.antt =====
-- server/modules/schedules/schedule.service.ts: what a round of `runDueSchedules` comes to.
use zenstier.Prelude.{
  ℕ, ◌≤◌, ◌≡◌, refl, inl, inr, String, true, false, Option, none, some, List, [], ◌∷◌, arith, ◌==◌,
  is_some, Option-cases, Bool-cases, All, Distinct, length, find_first, find_many, ap, sym, subst,
  ◌∙◌, take_all, All-keep, Absent-find_many, All-find_first, Distinct-find_many,
  find_first-find_many, Absent,
}
use zenstier.Schedules.{Schedule, Plant, by_id}
use zenstier.Schedules.Round.{
  IsServed, Round, aborted, add_one, finished, is_due, is_finished, or_abort, plant_of, row,
  run_due, run_each, run_one,
}
use zenstier.Schedules.Turn.{one, run_one-other, run_one-row}

module _ (next_run : String → ℕ → Option ℕ) (command_id_for : ℕ → ℕ → ℕ) (per_minute : ℕ)
    (fresh clock : ℕ → ℕ) (now : ℕ) where
  abbrev turn : (next : ℕ) → Schedule → Plant → Plant
  turn = one next_run command_id_for per_minute fresh clock now

  abbrev each : List Schedule → Plant → Round
  each = run_each next_run command_id_for per_minute fresh clock now

  -- The expression of a schedule names a next time.
  abbrev IsPlanned : Schedule → Type 0
  IsPlanned s = is_some (next_run s.cron now) ≡ true

  plant_of-add_one : (n : ℕ) (r : Round) → plant_of (add_one n r) ≡ plant_of r
  plant_of-add_one n (finished m p) = refl
  plant_of-add_one n (aborted p) = refl

  is_finished-add_one : (n : ℕ) (r : Round) → is_finished (add_one n r) ≡ is_finished r
  is_finished-add_one n (finished m p) = refl
  is_finished-add_one n (aborted p) = refl

  run_each-planned :
      (next : ℕ) (s : Schedule) (ss : List Schedule) (p : Plant)
      → next_run s.cron now ≡ some next
      → each (s ∷ ss) p
        ≡ add_one
            (run_one next_run command_id_for per_minute fresh clock now next s p).0
            (each ss (turn next s p))
  unfolding run_each
  run_each-planned next s ss p h =
      ap
        (λ o. or_abort o p (λ t.
          add_one (run_one next_run command_id_for per_minute fresh clock now t s p).0
            (each ss (turn t s p))))
        h

  run_each-unplanned :
      (s : Schedule) (ss : List Schedule) (p : Plant)
      → next_run s.cron now ≡ none
      → each (s ∷ ss) p ≡ aborted p
  unfolding run_each
  run_each-unplanned s ss p h =
      ap
        (λ o. or_abort o p (λ t.
          add_one (run_one next_run command_id_for per_minute fresh clock now t s p).0
            (each ss (turn t s p))))
        h

  run_each-other :
      (ss : List Schedule) (p : Plant) (i : ℕ)
      → Absent (λ (s : Schedule). s.id) i ss
      → row i (plant_of (each ss p)) ≡ row i p
  unfolding run_each
  run_each-other [] p i h = refl
  run_each-other (s ∷ ss) p i (h, hs) = elim (Option-cases (next_run s.cron now)) [
    | inl bad ↦ ap (λ r. row i (plant_of r)) (run_each-unplanned s ss p bad)
    | inr (next, ok) ↦
        ap (λ r. row i (plant_of r)) (run_each-planned next s ss p ok)
        ∙ ap (row i) (plant_of-add_one _ (each ss (turn next s p)))
        ∙ run_each-other ss (turn next s p) i hs
        ∙ run_one-other next_run command_id_for per_minute fresh clock now next s p i h
  ]

  run_each-is_finished :
      (ss : List Schedule) (p : Plant) → All IsPlanned ss → is_finished (each ss p) ≡ true
  unfolding run_each
  run_each-is_finished [] p h = refl
  run_each-is_finished (s ∷ ss) p (h, hs) = elim (Option-cases (next_run s.cron now)) [
    | inl bad ↦ ground arith
    | inr (next, ok) ↦
        ap is_finished (run_each-planned next s ss p ok)
        ∙ is_finished-add_one _ (each ss (turn next s p))
        ∙ run_each-is_finished ss (turn next s p) hs
  ]

  -- The rows of a queue are still as the worker read them.
  abbrev Fresh : Plant → List Schedule → Type 0
  Fresh p ss = All (λ s. row s.id p ≡ some s) ss

  Fresh-turn :
      (next : ℕ) (s : Schedule) (ss : List Schedule) (p : Plant)
      → Absent (λ (x : Schedule). x.id) s.id ss
      → Fresh p ss
      → Fresh (turn next s p) ss
  Fresh-turn next s [] p h f = tt
  Fresh-turn next s (x ∷ ss) p (h, hs) (e, f) = (
    run_one-other next_run command_id_for per_minute fresh clock now next s p x.id
          (λ same. h (sym same))
        ∙ e,
    Fresh-turn next s ss p hs f,
  )

  -- Each schedule of the queue is run.
  run_each-row :
      (ss : List Schedule) (p : Plant) (s : Schedule)
      → All IsPlanned ss
      → Distinct (λ (x : Schedule). x.id) ss
      → Fresh p ss
      → find_first (by_id s.id) ss ≡ some s
      → (r : Schedule) × (row s.id (plant_of (each ss p)) ≡ some r) × IsServed next_run now s r
  run_each-row [] p s h d f found = ground arith
  run_each-row (x ∷ ss) p s (h, hs) (a, d) (e, f) found =
      elim (Option-cases (next_run x.cron now)) [
        | inl bad ↦ ground arith
        | inr (next, ok) ↦
            let step =
              ap (λ r. row s.id (plant_of r)) (run_each-planned next x ss p ok)
              ∙ ap (row s.id) (plant_of-add_one _ (each ss (turn next x p))) in
            elim (Bool-cases (x.id == s.id)) [
              | inl here ↦
                  let same : x ≡ s = ground arith in
                  let (r, now_row, run) =
                    run_one-row next_run command_id_for per_minute fresh clock now next x p ok e in
                  let gone = run_each-other ss (turn next x p) x.id a in
                  (
                    r,
                    step
                        ∙ subst (λ y. row y.id (plant_of (each ss (turn next x p))) ≡ some r) same
                            (gone ∙ now_row),
                    subst (λ y. IsServed next_run now y r) same run,
                  )
              | inr later ↦
                  let (r, later_row, run) =
                    run_each-row ss (turn next x p) s hs d (Fresh-turn next x ss p a f)
                      (ground arith) in
                  (r, step ∙ later_row, run)
            ]
      ]

  -- A round of a worker, where ids are distinct, at most fifty schedules are due and their expressions
  -- name a next time, comes to its end. Each schedule that was due is then planned for the next time after now and has now
  -- as its last run, its status as before and one run more at most, whatever became of the dispatch; the
  -- other schedules are as they were.
  pub run_due-row :
      (p : Plant) (s : Schedule)
      → Distinct (λ (x : Schedule). x.id) p.schedules
      → length (find_many (is_due now) p.schedules) ≤ 50
      → All IsPlanned (find_many (is_due now) p.schedules)
      → row s.id p ≡ some s
      → (is_finished (run_due next_run command_id_for per_minute fresh clock now p) ≡ true)
        × (is_due now s ≡ true
            → (r : Schedule) × (row s.id
                  (plant_of (run_due next_run command_id_for per_minute fresh clock now p))
                ≡ some r)
              × IsServed next_run now s r)
        × (is_due now s ≡ false
            → row s.id (plant_of (run_due next_run command_id_for per_minute fresh clock now p))
              ≡ some s)
  unfolding run_due
  run_due-row p s d few planned found =
      let all = take_all 50 (find_many (is_due now) p.schedules) few in
      let rows =
        All-keep _ (is_due now) p.schedules
          (All-find_first (λ (x : Schedule). x.id) p.schedules d) in
      let ids = Distinct-find_many (λ (x : Schedule). x.id) (is_due now) p.schedules d in
      rw all (
        run_each-is_finished (find_many (is_due now) p.schedules) p planned,
        (λ runs.
            run_each-row (find_many (is_due now) p.schedules) p s planned ids rows
              (find_first-find_many (by_id s.id) (is_due now) p.schedules found runs)),
        (λ idle.
            run_each-other (find_many (is_due now) p.schedules) p s.id
              (Absent-find_many (λ (x : Schedule). x.id) s.id (is_due now) p.schedules d found idle)
            ∙ found),
      )
