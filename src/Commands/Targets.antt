-- ===== src/Commands/Targets.antt =====
-- Whom a dispatch reaches, and whom it answers that it does not.
use zenstier.Prelude.{
  ℕ, ◌+◌, ◌<◌, ◌≡◌, refl, Bool, true, false, List, [], ◌∷◌, ◌++◌, arith, ◌==◌, ==_iff,
  if◌then◌else◌, find_many, All, All-find_many, All-keep, ap, Bool-cases, inl, inr,
}
use zenstier.Prelude.Sweep.{elem}
use zenstier.RateLimit.{RateLimitResult}
use zenstier.RateLimit.Check.{occurs, devices_of, check_answers_all}
use zenstier.Fleet.{Device}
use zenstier.Commands.{
  DispatchInput, Site, Batch, ready, Reason, is_target, targets_of, is_up, device_ids,
  skipped_offline, skipped_limited, charge, prepare, insert_batch,
}

All-meet :
    {P Q : Device → Type 0} (p : Device → Bool) (ds : List Device)
    → ((d : Device) → P d → p d ≡ true → Q d)
    → All P ds
    → All Q (find_many p ds)
All-meet p [] k h = tt
All-meet p (d ∷ ds) k (h, hs) = elim (Bool-cases (p d)) [
  | inl e ↦ rw e (k d h e, All-meet p ds k hs)
  | inr e ↦ rw e (All-meet p ds k hs)
]

-- What the code asks of a device that gets a command.
pub record IsReached (team_id : ℕ) (input : DispatchInput) (d : Device) : Type 0 where
  pub of_team : d.team_id ≡ team_id
  pub up : is_up d ≡ true
  pub asked_for : is_target team_id input d ≡ true

-- `prepare` took the branch that inserts rows.
pub record Accepts (command_id_for : ℕ → ℕ → ℕ) (user_id team_id batch_id : ℕ)
    (input : DispatchInput) (s : Site) (b : Batch) (s' : Site) : Type 0 where
  pub limit : RateLimitResult
  pub charged : Site
  pub free : limit.user_retry_after_ms ≡ 0
  pub id : b.id ≡ batch_id
  pub targets :
      b.targets
      ≡ find_many
          (λ d. elem d.device_id limit.allowed)
          (find_many is_up (targets_of team_id input s.world))
  pub skipped :
      b.skipped
      ≡ skipped_offline (targets_of team_id input s.world) ++ skipped_limited limit.limited
  pub world : charged.world ≡ s.world
  pub split :
      (j : ℕ)
      → occurs j limit.allowed + occurs j (devices_of limit.limited)
        ≡ occurs j (device_ids (find_many is_up (targets_of team_id input s.world)))
  pub after : s' ≡ insert_batch command_id_for user_id team_id batch_id input b.targets charged

pub prepare-ready :
    (command_id_for : ℕ → ℕ → ℕ) (per_minute now user_id team_id batch_id : ℕ)
    (input : DispatchInput) (s : Site) {b : Batch} {s' : Site}
    → prepare command_id_for per_minute now user_id team_id batch_id input s ≡ ready b s'
    → Accepts command_id_for user_id team_id batch_id input s b s'
unfolding prepare
prepare-ready command_id_for per_minute now user_id team_id batch_id input s {b} {s'} h =
    let online = find_many is_up (targets_of team_id input s.world) in
    let (charged, limit) = charge per_minute now user_id online s in
    let free : limit.user_retry_after_ms ≡ 0 = ground arith in
    let answers = λ (j : ℕ).
      check_answers_all per_minute now (device_ids online)
        (record { user = s.user_buckets user_id; devices = s.device_buckets }) j in
    record {
      limit = limit;
      split = λ j. (answers j).0 free;
      charged = charged;
      free = free;
      id = ground arith;
      targets = ground arith;
      skipped = ground arith;
      world = refl;
      after = ground arith;
    }

-- A command is prepared only for devices of the caller's team that are online and asked for.
pub prepare-IsReached :
    (command_id_for : ℕ → ℕ → ℕ) (per_minute now user_id team_id batch_id : ℕ)
    (input : DispatchInput) (s : Site) {b : Batch} {s' : Site}
    → prepare command_id_for per_minute now user_id team_id batch_id input s ≡ ready b s'
    → All (IsReached team_id input) b.targets
prepare-IsReached command_id_for per_minute now user_id team_id batch_id input s {b} h =
    let a = prepare-ready command_id_for per_minute now user_id team_id batch_id input s h in
    rw a.targets (All-keep (IsReached team_id input) _ _ reached)
  where
    asked : All (λ d. is_target team_id input d ≡ true) (targets_of team_id input s.world)
    asked = All-find_many (λ d. is_target team_id input d ≡ true) _ s.world.devices (λ x e. e)

    meets :
        (d : Device) → is_target team_id input d ≡ true → is_up d ≡ true → IsReached team_id input d
    meets d e u = record { of_team = ground arith; up = u; asked_for = e }

    reached : All (IsReached team_id input) (find_many is_up (targets_of team_id input s.world))
    reached = All-meet is_up (targets_of team_id input s.world) meets asked

abbrev pub names : List (ℕ × Reason) → List ℕ
names [] = []
names ((d, r) ∷ rest) = d ∷ names rest

-- A device is up or among those skipped as offline.
up_or_skipped :
    (j : ℕ) (ds : List Device)
    → occurs j (device_ids (find_many is_up ds)) + occurs j (names (skipped_offline ds))
      ≡ occurs j (device_ids ds)
up_or_skipped j [] = refl
up_or_skipped j (d ∷ ds) = ground (arith, up_or_skipped j ds)

names_limited : (l : List (ℕ × ℕ)) → names (skipped_limited l) ≡ devices_of l
names_limited [] = refl
names_limited ((d, w) ∷ l) = ap (λ r. d ∷ r) (names_limited l)

names-append :
    (j : ℕ) (xs ys : List (ℕ × Reason))
    → occurs j (names (xs ++ ys)) ≡ occurs j (names xs) + occurs j (names ys)
names-append j [] ys = omega arith
names-append j ((d, r) ∷ xs) ys = omega (arith, names-append j xs ys)

allowed_only :
    (j : ℕ) (allowed : List ℕ) (ds : List Device)
    → occurs j (device_ids (find_many (λ (d : Device). elem d.device_id allowed) ds))
      ≡ (if elem j allowed then occurs j (device_ids ds) else 0)
allowed_only j allowed [] = ground arith
allowed_only j allowed (d ∷ ds) = elim (Bool-cases (d.device_id == j)) [
  | inr other ↦ ground (arith, allowed_only j allowed ds)
  | inl same ↦
      let e : d.device_id ≡ j = (==_iff d.device_id j).0 same in
      let f : elem d.device_id allowed ≡ elem j allowed = ap (λ k. elem k allowed) e in
      ground (arith, allowed_only j allowed ds)
]

elem-occurs :
    (j : ℕ) (ks : List ℕ)
    → (elem j ks ≡ true → 0 < occurs j ks) × (elem j ks ≡ false → occurs j ks ≡ 0)
elem-occurs j [] = ground arith
elem-occurs j (k ∷ ks) = ground (arith, elem-occurs j ks)

-- Every device that was asked for in the team, and that stands once in the table, is answered once:
-- its command is prepared, or it is skipped with a reason.
pub prepare-answers :
    (command_id_for : ℕ → ℕ → ℕ) (per_minute now user_id team_id batch_id : ℕ)
    (input : DispatchInput) (s : Site) {b : Batch} {s' : Site} (j : ℕ)
    → prepare command_id_for per_minute now user_id team_id batch_id input s ≡ ready b s'
    → occurs j (device_ids (targets_of team_id input s.world)) ≡ 1
    → occurs j (device_ids b.targets) + occurs j (names b.skipped) ≡ 1
prepare-answers command_id_for per_minute now user_id team_id batch_id input s {b} j h once =
    let a = prepare-ready command_id_for per_minute now user_id team_id batch_id input s h in
    let targets = targets_of team_id input s.world in
    let online = find_many is_up targets in
    let sent = allowed_only j a.limit.allowed online in
    let offline_too = up_or_skipped j targets in
    let lists = names-append j (skipped_offline targets) (skipped_limited a.limit.limited) in
    let renamed = names_limited a.limit.limited in
    let inside = elem-occurs j a.limit.allowed in
    let split = a.split j in rw (a.targets, a.skipped, lists, renamed, sent) (ground arith)
