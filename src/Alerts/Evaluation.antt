-- ===== src/Alerts/Evaluation.antt =====
-- What a round of `evaluateAlerts` leaves for each rule and device.
use zenstier.Prelude.{
  ℕ, ◌≡◌, refl, ◌≢◌, ◌⊎◌, Bool, true, false, ◌&&◌, none, some, List, [], ◌∷◌, arith, ◌∙◌, ◌==◌,
  ==_iff, if◌then◌else◌, find_first, find_first-insert, find_first-update_many_apart,
  find_first-update_many_by, find_first-holds, Distinct, Absent, Option-cases, Bool-cases, inl, inr,
}
use zenstier.Fleet.{Device, DeviceMetric}
use zenstier.Alerts.{
  AlertRule, AlertRuleState, Reading, created, judge, at_state, state_of, write, read, Board,
  take_reading, take_readings, readings, evaluate_rules,
}

abbrev is_pair : AlertRule → Reading → (rule_id device_id : ℕ) → Bool
is_pair rule reading rule_id device_id = rule.id == rule_id && reading.device_id == device_id

module _ (now : ℕ) (rule : AlertRule) (reading : Reading) (states : List AlertRuleState) where
  key : AlertRuleState → Bool
  key = at_state rule.id reading.device_id

  -- The row that is written has the keys of the pair.
  key-judge :
      (e new : AlertRuleState)
      → key e ≡ true
      → judge now rule reading (some e) ≡ some new
      → (new.rule_id ≡ rule.id) × (new.device_id ≡ reading.device_id)
  unfolding judge key
  key-judge e new h w = ground arith

  write-missing :
      (i j : ℕ)
      → find_first key states ≡ none
      → state_of i j (write rule.id reading.device_id none (judge now rule reading none) states) ≡ (
          if is_pair rule reading i j
          then judge now rule reading (state_of i j states)
          else state_of i j states)
  unfolding judge key
  write-missing i j missing = elim (Bool-cases (is_pair rule reading i j)) [
    | inl same ↦
        let e : rule.id ≡ i = ground arith in
        let f : reading.device_id ≡ j = ground arith in
        let missing' : state_of i j states ≡ none = rw (e, f) at missing in
        rw same (
          rw missing'
            (ground (arith, find_first-insert (at_state i j) (created now rule reading) states)))
    | inr other ↦ ground (arith, find_first-insert (at_state i j) (created now rule reading) states)
  ]

  write-found :
      (i j : ℕ) (e new : AlertRuleState)
      → find_first key states ≡ some e
      → judge now rule reading (some e) ≡ some new
      → state_of i j (write rule.id reading.device_id (some e) (some new) states) ≡ (
          if is_pair rule reading i j
          then judge now rule reading (state_of i j states)
          else state_of i j states)
  unfolding key
  write-found i j e new found judged =
      let (same_rule, same_device) =
        key-judge e new (find_first-holds key states {a = e} found) judged in
      elim (Bool-cases (is_pair rule reading i j)) [
        | inl same ↦
            let a : rule.id ≡ i = ground arith in
            let b : reading.device_id ≡ j = ground arith in
            let found' : state_of i j states ≡ some e = rw (a, b) at found in
            let replaced =
              find_first-update_many_by (at_state i j) new states {old = e} (ground arith) found' in
            rw same (rw (found', judged, a, b) replaced)
        | inr other ↦ rw other (
            find_first-update_many_apart (at_state i j) (at_state rule.id reading.device_id)
              (λ x. new) states (λ x hit. ground arith) (λ x hit. ground arith))
      ]

judge-some :
    (now : ℕ) (rule : AlertRule) (reading : Reading) (e : AlertRuleState)
    → (new : AlertRuleState) × (judge now rule reading (some e) ≡ some new)
unfolding judge
judge-some now rule reading e = (_, refl)

-- A reading rewrites the row of its pair, and no other.
state_of-take_reading :
    (now : ℕ) (rule : AlertRule) (reading : Reading) (b : Board) (i j : ℕ)
    → state_of i j (take_reading now rule reading b).states ≡ (
        if is_pair rule reading i j
        then judge now rule reading (state_of i j b.states)
        else state_of i j b.states)
unfolding take_reading key
state_of-take_reading now rule reading b i j =
    elim (Option-cases (state_of rule.id reading.device_id b.states)) [
      | inl missing ↦ rw missing (write-missing now rule reading b.states i j missing)
      | inr (e, found) ↦
          let (new, judged) = judge-some now rule reading e in
          rw found (rw judged (write-found now rule reading b.states i j e new found judged))
    ]

device_id-read :
    (rule : AlertRule) (metrics : List DeviceMetric) (d : Device)
    → (read rule metrics d).device_id ≡ d.id
unfolding read
device_id-read rule metrics d = ground arith

module _ (now : ℕ) (metrics : List DeviceMetric) (rule : AlertRule) (i j : ℕ) where
  abbrev pass : List Device → Board → Board
  pass ds = take_readings now rule (readings rule metrics ds)

  state_of-pass-Absent :
      (ds : List Device) (b : Board)
      → (rule.id == i) ≡ false ⊎ Absent (λ (d : Device). d.id) j ds
      → state_of i j (pass ds b).states ≡ state_of i j b.states
  unfolding take_readings
  state_of-pass-Absent [] b h = refl
  state_of-pass-Absent (d ∷ ds) b h =
      let first = state_of-take_reading now rule (read rule metrics d) b i j in
      let id = device_id-read rule metrics d in
      let rest = state_of-pass-Absent ds b (later h) in
      let rest' =
        state_of-pass-Absent ds (take_reading now rule (read rule metrics d) b) (later h) in
      ground arith
    where
      later :
          (rule.id == i) ≡ false ⊎ Absent (λ (d : Device). d.id) j (d ∷ ds)
          → (rule.id == i) ≡ false ⊎ Absent (λ (d : Device). d.id) j ds
      later (inl e) = inl e
      later (inr (p, ps)) = inr ps

  state_of-pass :
      (ds : List Device) (b : Board) (d : Device)
      → Distinct (λ (x : Device). x.id) ds
      → find_first (λ (x : Device). x.id == j) ds ≡ some d
      → state_of i j (pass ds b).states ≡ (
          if rule.id == i && d.team_id == rule.team_id
          then judge now rule (read rule metrics d) (state_of i j b.states)
          else state_of i j b.states)
  unfolding take_readings
  state_of-pass [] b d u found = ground arith
  state_of-pass (x ∷ ds) b d (a, u) found =
      let first = state_of-take_reading now rule (read rule metrics x) b i j in
      let id = device_id-read rule metrics x in
      let b' = take_reading now rule (read rule metrics x) b in
      elim (Bool-cases (x.id == j)) [
        | inl here ↦
            let e : x ≡ d = ground arith in
            let k : x.id ≡ j = (==_iff x.id j).0 here in
            let gone : Absent (λ (y : Device). y.id) j ds = rw k at a in
            let rest = state_of-pass-Absent ds b (inr gone) in
            let rest' = state_of-pass-Absent ds b' (inr gone) in rw (← e) (ground arith)
        | inr later ↦
            let rest = state_of-pass ds b d u (ground arith) in
            let rest' = state_of-pass ds b' d u (ground arith) in ground arith
      ]

module _ (now : ℕ) (metrics : List DeviceMetric) (devices : List Device) (i j : ℕ) where
  -- One round of the loop over the rules.
  abbrev turn : AlertRule → Board → Board
  turn r b = if r.enabled then take_readings now r (readings r metrics devices) b else b

  turn-other :
      (r : AlertRule) (b : Board)
      → r.id ≢ i
      → state_of i j (turn r b).states ≡ state_of i j b.states
  turn-other r b h =
      ground (arith, state_of-pass-Absent now metrics r i j devices b (inl (ground arith)))

  state_of-evaluate_rules-Absent :
      (rules : List AlertRule) (b : Board)
      → Absent (λ (r : AlertRule). r.id) i rules
      → state_of i j (evaluate_rules now metrics devices rules b).states ≡ state_of i j b.states
  unfolding evaluate_rules
  state_of-evaluate_rules-Absent [] b h = refl
  state_of-evaluate_rules-Absent (r ∷ rules) b (h, hs) =
      state_of-evaluate_rules-Absent rules (turn r b) hs ∙ turn-other r b h

  -- After an evaluation, where ids are unique, the row of a rule and a device is what judging makes of the
  -- device's own reading and the row before, if the rule is enabled and the device is of its team; if
  -- not, the row is as before.
  pub state_of-evaluate_rules :
      (rules : List AlertRule) (b : Board) (rule : AlertRule) (d : Device)
      → Distinct (λ (r : AlertRule). r.id) rules
      → Distinct (λ (x : Device). x.id) devices
      → find_first (λ (r : AlertRule). r.id == i) rules ≡ some rule
      → find_first (λ (x : Device). x.id == j) devices ≡ some d
      → state_of i j (evaluate_rules now metrics devices rules b).states ≡ (
          if rule.enabled && d.team_id == rule.team_id
          then judge now rule (read rule metrics d) (state_of i j b.states)
          else state_of i j b.states)
  unfolding evaluate_rules
  state_of-evaluate_rules [] b rule d u v found present = ground arith
  state_of-evaluate_rules (r ∷ rules) b rule d (a, u) v found present =
      elim (Bool-cases (r.id == i)) [
        | inl here ↦
            let e : r ≡ rule = ground arith in
            let k : r.id ≡ i = (==_iff r.id i).0 here in
            let after = state_of-evaluate_rules-Absent rules (turn r b) (rw k at a) in
            let pass = state_of-pass now metrics r i j devices b d v present in
            rw (← e) (ground arith)
        | inr later ↦
            state_of-evaluate_rules rules (turn r b) rule d u v (ground arith) present
            ∙ (rw (turn-other r b (λ e. ground arith)))
      ]
