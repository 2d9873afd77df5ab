-- ===== src/Fleet.antt =====
-- The tables of prisma/schema.prisma that the worker and the dispatcher share: devices, commands,
-- their output and the metric samples; and the messages of lib/protocol.ts as they are after
-- parsing. A table is the list of its rows. Ids are opaque to the code, which compares them, and so
-- are numbers here; a time is a number of milliseconds. Percentages and loads are counted in a unit
-- that makes them whole.
use zenstier.Prelude.{ℕ, String, Bool, true, false, Option, List, ◌∷◌, find_first, ◌==◌}
use zenstier.Prelude.Int.{ℤ}

pub data DeviceStatus : Type 0 where
  online offline unknown : DeviceStatus

pub data CommandStatus : Type 0 where
  pending dispatched running succeeded failed timeout canceled : CommandStatus

pub data OutputStream : Type 0 where
  stdout stderr system : OutputStream

-- What an agent reports of its host.
pub record Facts : Type 0 where
  pub hostname : Option String
  pub os_name : Option String
  pub os_version : Option String
  pub kernel : Option String
  pub arch : Option String
  pub agent_version : Option String

pub record Device : Type 0 where
  pub id : ℕ
  pub team_id : ℕ
  pub device_id : ℕ
  pub status : DeviceStatus
  pub last_seen_at : Option ℕ
  pub current_session_id : Option String
  pub facts : Facts
  pub group_id : Option ℕ

pub record Command : Type 0 where
  pub id : ℕ
  pub user_id : ℕ
  pub team_id : ℕ
  pub device_id : ℕ
  pub batch_id : ℕ
  pub command : String
  pub status : CommandStatus
  pub exit_code : Option ℤ
  pub stdout : Option String
  pub stderr : Option String
  pub truncated : Bool
  pub error : Option String
  pub timeout_ms : ℕ
  pub dispatched_at : Option ℕ
  pub started_at : Option ℕ
  pub finished_at : Option ℕ
  pub duration_ms : Option ℕ

pub record CommandOutput : Type 0 where
  pub command_id : ℕ
  pub device_id : ℕ
  pub seq : ℕ
  pub stream : OutputStream
  pub chunk : String

pub record Metrics : Type 0 where
  pub cpu_percent : ℕ
  pub mem_total_kb : ℕ
  pub mem_used_kb : ℕ
  pub mem_percent : ℕ
  pub disk_total_kb : ℕ
  pub disk_used_kb : ℕ
  pub disk_percent : ℕ
  pub load1 : ℕ
  pub load5 : ℕ
  pub load15 : ℕ
  pub uptime_sec : ℕ
  pub processes : ℕ

pub record DeviceMetric : Type 0 where
  pub device_id : ℕ
  pub sample : Metrics
  pub recorded_at : ℕ

-- What is published for the browsers.
pub data SseEvent : Type 0 where
  accepted : (command_id device_id : ℕ) (is_running : Bool) → SseEvent
  chunk : (command_id device_id : ℕ) → OutputStream → (seq : ℕ) → String → SseEvent
  result :
      (command_id device_id : ℕ)
      → CommandStatus
      → Option ℤ
      → (out err : String) (truncated : Bool) → Option ℕ
      → Option String
      → SseEvent
  device_status : (device_id : ℕ) → DeviceStatus → Option ℕ → SseEvent
  device_metrics : (device_id : ℕ) → Metrics → ℕ → SseEvent

pub record World : Type 0 where
  pub devices : List Device
  pub commands : List Command
  pub outputs : List CommandOutput
  pub metrics : List DeviceMetric
  pub events : List SseEvent
  pub group_pushes : List (ℕ × List ℕ)
  pub grace_until : ℕ

abbrev pub publish : SseEvent → World → World
publish e w = record w { events = e ∷ w.events }

-- `findUnique` by the id.
abbrev pub command_by : ℕ → World → Option Command
command_by id w = find_first (λ (c : Command). c.id == id) w.commands

-- `findUnique` by the public device id.
abbrev pub device_by : ℕ → World → Option Device
device_by device_id w = find_first (λ (d : Device). d.device_id == device_id) w.devices

-- The relation `command.device`.
abbrev pub device_of : Command → World → Option Device
device_of c w = find_first (λ (d : Device). d.id == c.device_id) w.devices

abbrev pub is_online : DeviceStatus → Bool
is_online online = true
is_online _ = false

-- A command that has its result.
abbrev pub is_terminal : CommandStatus → Bool
is_terminal pending = false
is_terminal dispatched = false
is_terminal running = false
is_terminal _ = true
