-- ===== src/Schedules/Turn.antt =====
-- server/modules/schedules/schedule.service.ts: one turn of the loop of `runDueSchedules`.
use zenstier.Prelude.{
  ℕ, ◌+◌, ◌≡◌, ◌≢◌, refl, inl, inr, String, false, Option, some, arith, ◌==◌, Bool-cases,
  update_many, count, length, find_first-update_many, find_first-holds, count-found, ap, sym, subst,
  ◌∙◌, find_first-update_many_other,
}
use zenstier.Commands.{Dispatch, rejected, accepted, dispatch}
use zenstier.Schedules.{Schedule, Plant, by_id, dispatched_to, failed_with}
use zenstier.Schedules.Claim.{claim, is_unclaimed, put_next, note}
use zenstier.Schedules.Round.{IsServed, input_of, pick, row, run_claimed, run_one, settled}

module _ (next_run : String → ℕ → Option ℕ) (command_id_for : ℕ → ℕ → ℕ) (per_minute : ℕ)
    (fresh clock : ℕ → ℕ) (now : ℕ) where
  abbrev pub one : (next : ℕ) → Schedule → Plant → Plant
  one next s p = (run_one next_run command_id_for per_minute fresh clock now next s p).1

  abbrev after : Schedule → Dispatch → Plant → Plant
  after s d p = (settled now s d p).1

  abbrev sent_by : Schedule → Plant → Dispatch
  sent_by s p =
      dispatch command_id_for per_minute (clock s.id) (clock s.id) s.user_id s.team_id (fresh s.id)
        (input_of s) p.site

  settled-other :
      (s : Schedule) (d : Dispatch) (p : Plant) (i : ℕ) → s.id ≢ i → row i (after s d p) ≡ row i p
  unfolding note
  settled-other s (rejected e site) p i h =
      find_first-update_many_other (by_id i) (by_id s.id) (note now (failed_with e)) p.schedules
        (λ x. refl) (λ x hit. ground arith)
  settled-other s (accepted b ms site) p i h =
      find_first-update_many_other (by_id i) (by_id s.id)
        (note now (dispatched_to (length b.targets))) p.schedules (λ x. refl)
        (λ x hit. ground arith)

  pub run_one-other :
      (next : ℕ) (s : Schedule) (p : Plant) (i : ℕ) → s.id ≢ i → row i (one next s p) ≡ row i p
  unfolding run_one run_claimed claim
  run_one-other next s p i h =
      let claimed =
        find_first-update_many_other (by_id i) (is_unclaimed s) (put_next next) p.schedules
          (λ x. refl) (λ x hit. ground arith) in
      let p' = record p { schedules = update_many (is_unclaimed s) (put_next next) p.schedules } in
      let noted = settled-other s (sent_by s p') p' i h in
      elim (Bool-cases (count (is_unclaimed s) p.schedules == 0)) [
        | inl lost ↦
            subst (λ b. row i (pick b p' (settled now s (sent_by s p') p')).1 ≡ row i p) (sym lost)
              claimed
        | inr won ↦
            subst (λ b. row i (pick b p' (settled now s (sent_by s p') p')).1 ≡ row i p) (sym won)
              (noted ∙ claimed)
      ]

  settled-row :
      (s r : Schedule) (d : Dispatch) (p : Plant)
      → row s.id p ≡ some r
      → r.next_run_at ≡ next_run s.cron now
      → r.status ≡ s.status
      → r.run_count ≡ s.run_count
      → (r' : Schedule) × (row s.id (after s d p) ≡ some r') × IsServed next_run now s r'
  unfolding note
  settled-row s r (rejected e site) p found a b c =
      let f = note now (failed_with e) in
      let same = find_first-holds (by_id s.id) p.schedules found in
      (
        f r,
        find_first-update_many (by_id s.id) (by_id s.id) f p.schedules (λ x. refl)
            ∙ rw found (rw same refl),
        record { next = a; last = refl; status = b; runs = inl c },
      )
  settled-row s r (accepted batch ms site) p found a b c =
      let f = note now (dispatched_to (length batch.targets)) in
      let same = find_first-holds (by_id s.id) p.schedules found in
      (
        f r,
        find_first-update_many (by_id s.id) (by_id s.id) f p.schedules (λ x. refl)
            ∙ rw found (rw same refl),
        record { next = a; last = refl; status = b; runs = inr (ap (λ n. n + 1) c) },
      )

  pub run_one-row :
      (next : ℕ) (s : Schedule) (p : Plant)
      → next_run s.cron now ≡ some next
      → row s.id p ≡ some s
      → (r : Schedule) × (row s.id (one next s p) ≡ some r) × IsServed next_run now s r
  unfolding run_one run_claimed claim
  run_one-row next s p ok found =
      let won = count-found (by_id s.id) (is_unclaimed s) p.schedules found (ground arith) in
      let some_row : (count (is_unclaimed s) p.schedules == 0) ≡ false = ground arith in
      let p' = record p { schedules = update_many (is_unclaimed s) (put_next next) p.schedules } in
      let claimed : row s.id p' ≡ some (put_next next s) =
        find_first-update_many (by_id s.id) (is_unclaimed s) (put_next next) p.schedules (λ x. refl)
        ∙ rw found (ground arith) in
      subst
        (λ b.
          (r : Schedule) × (row s.id (pick b p' (settled now s (sent_by s p') p')).1 ≡ some r)
          × IsServed next_run now s r)
        (sym some_row)
        (settled-row s (put_next next s) (sent_by s p') p' claimed (sym ok) refl refl)
