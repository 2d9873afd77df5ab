-- ===== src/Alerts.antt =====
-- server/modules/alerts/alert.service.ts: rules, their state for each device, and `evaluateAlerts`.
-- Percentages and thresholds are counted in thousandths of a percent.
pub mod Rules
pub mod Dwell
pub mod Evaluation
mod Tests
use zenstier.Prelude.{
  ℕ, ◌+◌, ◌*◌, String, Bool, true, false, not, ◌&&◌, Option, none, some, List, [], ◌∷◌, ◌++◌, ltb,
  leb, ◌==◌, str_eq, is_some, or_else, if◌then◌else◌, update_many, find_first, find_many, insert,
}
use zenstier.Fleet.{Device, DeviceMetric, Metrics, is_online}

pub data AlertMetric : Type 0 where
  cpu memory disk offline : AlertMetric

pub data AlertState : Type 0 where
  ok firing : AlertState

pub record AlertRule : Type 0 where
  pub id : ℕ
  pub team_id : ℕ
  pub user_id : ℕ
  pub name : String
  pub metric : AlertMetric
  pub threshold : ℕ
  pub for_minutes : ℕ
  pub webhook_url : Option String
  pub enabled : Bool

pub record AlertRuleState : Type 0 where
  pub rule_id : ℕ
  pub device_id : ℕ
  pub state : AlertState
  pub since : Option ℕ
  pub last_value : ℕ
  pub fired_at : Option ℕ
  pub resolved_at : Option ℕ

pub record Reading : Type 0 where
  pub device_id : ℕ
  pub value : ℕ
  pub breached : Bool

pub data Notice : Type 0 where
  fired resolved : (rule_id device_id : ℕ) → Notice

abbrev pub is_firing : AlertState → Bool
is_firing firing = true
is_firing ok = false

-- `existing?.state === FIRING`.
abbrev pub was_firing : Option AlertRuleState → Bool
was_firing none = false
was_firing (some e) = is_firing e.state

-- `existing?.since ?? now`.
abbrev pub since_of : (now : ℕ) → Option AlertRuleState → ℕ
since_of now none = now
since_of now (some e) = or_else e.since now

-- The condition has held for the rule's minutes, and the alert has not fired yet.
abbrev pub should_fire : (now : ℕ) → AlertRule → Option AlertRuleState → Bool
should_fire now rule e = leb (since_of now e + rule.for_minutes * 60000) now && not (was_firing e)

abbrev pub created : (now : ℕ) → AlertRule → Reading → AlertRuleState
created now rule reading =
    let fire = should_fire now rule none in
    record {
      rule_id = rule.id;
      device_id = reading.device_id;
      state = if fire then firing else ok;
      since = some now;
      last_value = reading.value;
      fired_at = if fire then some now else none;
      resolved_at = none;
    }

abbrev pub updated : (now : ℕ) → AlertRule → Reading → AlertRuleState → AlertRuleState
updated now rule reading e =
    let fire = should_fire now rule (some e) in
    record e {
      state = if fire then firing else e.state;
      since = some (since_of now (some e));
      last_value = reading.value;
      fired_at = if fire then some now else e.fired_at;
      resolved_at = if fire then none else e.resolved_at;
    }

abbrev pub settled : (now : ℕ) → Reading → AlertRuleState → AlertRuleState
settled now reading e = record e {
  state = ok;
  since = none;
  last_value = reading.value;
  resolved_at = if is_firing e.state then some now else e.resolved_at;
}

-- The row of a rule and a device after a reading.
pub judge : (now : ℕ) → AlertRule → Reading → Option AlertRuleState → Option AlertRuleState
judge now rule reading none = if reading.breached then some (created now rule reading) else none
judge now rule reading (some e) =
    some (if reading.breached then updated now rule reading e else settled now reading e)

-- What is announced at a reading.
pub announce : (now : ℕ) → AlertRule → Reading → Option AlertRuleState → List Notice
announce now rule reading e =
    if reading.breached
    then (if should_fire now rule e then fired rule.id reading.device_id ∷ [] else [])
    else if was_firing e
    then resolved rule.id reading.device_id ∷ []
    else []

abbrev pub at_state : (rule_id device_id : ℕ) → AlertRuleState → Bool
at_state rule_id device_id e = e.rule_id == rule_id && e.device_id == device_id

-- `findUnique` by the pair.
abbrev pub state_of : (rule_id device_id : ℕ) → List AlertRuleState → Option AlertRuleState
state_of rule_id device_id = find_first (at_state rule_id device_id)

-- `upsert`, or `update` of a row that is there.
abbrev pub write :
    (rule_id device_id : ℕ)
    → (existing judged : Option AlertRuleState) → List AlertRuleState
    → List AlertRuleState
write rule_id device_id e none states = states
write rule_id device_id none (some new) states = insert new states
write rule_id device_id (some e) (some new) states =
    update_many (at_state rule_id device_id) (λ old. new) states

-- The newest sample of a device; of two at one time the one stored last.
abbrev pub newer : DeviceMetric → Option DeviceMetric → DeviceMetric
newer m none = m
newer m (some best) = if leb m.recorded_at best.recorded_at then best else m

pub latest : (device_id : ℕ) → List DeviceMetric → Option DeviceMetric
latest device_id [] = none
latest device_id (m ∷ ms) =
    let best = latest device_id ms in if m.device_id == device_id then some (newer m best) else best

abbrev pub value_of : AlertMetric → Metrics → ℕ
value_of cpu m = m.cpu_percent
value_of memory m = m.mem_percent
value_of _ m = m.disk_percent

abbrev pub from_sample : AlertRule → Device → Option DeviceMetric → Reading
from_sample rule d none = record { device_id = d.id; value = 0; breached = false }
from_sample rule d (some m) =
    let value = value_of rule.metric m.sample in
    record { device_id = d.id; value = value; breached = leb rule.threshold value }

abbrev pub from_presence : Device → Reading
from_presence d = record {
  device_id = d.id;
  value = if is_online d.status then 0 else 1;
  breached = not (is_online d.status);
}

abbrev is_offline_rule : AlertMetric → Bool
is_offline_rule offline = true
is_offline_rule _ = false

-- The reading of a device for a rule.
pub read : AlertRule → List DeviceMetric → Device → Reading
unfolding latest
read rule metrics d =
    if is_offline_rule rule.metric
    then from_presence d
    else from_sample rule d (latest d.id metrics)

pub record Board : Type 0 where
  pub states : List AlertRuleState
  pub notices : List Notice

-- The body of the inner loop.
pub take_reading : (now : ℕ) → AlertRule → Reading → Board → Board
take_reading now rule reading b =
    let e = state_of rule.id reading.device_id b.states in
    record {
      states = write rule.id reading.device_id e (judge now rule reading e) b.states;
      notices = b.notices ++ announce now rule reading e;
    }

pub take_readings : (now : ℕ) → AlertRule → List Reading → Board → Board
take_readings now rule [] b = b
take_readings now rule (r ∷ rs) b = take_readings now rule rs (take_reading now rule r b)

abbrev pub readings : AlertRule → List DeviceMetric → List Device → List Reading
readings rule metrics [] = []
readings rule metrics (d ∷ ds) =
    let rest = readings rule metrics ds in
    if d.team_id == rule.team_id then read rule metrics d ∷ rest else rest

pub evaluate_rules : (now : ℕ) → List DeviceMetric → List Device → List AlertRule → Board → Board
evaluate_rules now metrics devices [] b = b
evaluate_rules now metrics devices (rule ∷ rules) b =
    evaluate_rules now metrics devices rules
      (if rule.enabled then take_readings now rule (readings rule metrics devices) b else b)
