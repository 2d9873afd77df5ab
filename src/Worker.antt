-- ===== src/Worker.antt =====
-- server/worker/handlers.ts and server/worker/main.ts: the single writer of what agents report. A
-- handler takes the time, and whether the broker takes a message just then.
pub mod Presence
pub mod Results
pub mod Output
pub mod Reaper
pub mod Tests
use zenstier.Prelude.{
  ℕ, ◌+◌, ◌-◌, String, Bool, true, false, not, ◌&&◌, ◌||◌, Option, none, some, List, [], ◌∷◌, ltb,
  ◌==◌, str_eq, opt_eq, is_some, or_else, if◌then◌else◌, update_many, find_first, find_many, insert,
  any, take,
}
use zenstier.Prelude.Int.{ℤ}
use zenstier.Protocol.{
  Raw, empty, invalid, parsed, StatusPayload, ResultStatus, ResultKind, ResultPayload, accepted,
  chunk, result,
}
use zenstier.Fleet.{
  DeviceStatus, online, offline, CommandStatus, pending, dispatched, running, succeeded, failed,
  timeout, canceled, OutputStream, Facts, Device, Command, CommandOutput, Metrics, SseEvent, World,
  publish, command_by, device_by, device_of, is_online,
}

-- `x ?? undefined` in an update: an absent value leaves the column as it is.
abbrev keep : Option String → Option String → Option String
keep none old = old
keep (some x) old = some x

abbrev pub merge_facts : Facts → Facts → Facts
merge_facts new old = record {
  hostname = keep new.hostname old.hostname;
  os_name = keep new.os_name old.os_name;
  os_version = keep new.os_version old.os_version;
  kernel = keep new.kernel old.kernel;
  arch = keep new.arch old.arch;
  agent_version = keep new.agent_version old.agent_version;
}

abbrev pub at_device : ℕ → Device → Bool
at_device device_id d = d.device_id == device_id

abbrev pub set_online : ℕ → StatusPayload → Device → Device
set_online now p d = record d {
  status = online;
  last_seen_at = some now;
  current_session_id = p.session_id;
  facts = merge_facts p.facts d.facts;
}

abbrev pub set_offline : ℕ → Device → Device
set_offline now d = record d { status = offline; last_seen_at = some now }

-- `a && b && a !== b`, where the empty text counts as absent.
abbrev pub is_stale : Option String → Option String → Bool
is_stale (some s) (some t) = not (str_eq s "") && not (str_eq t "") && not (str_eq s t)
is_stale _ _ = false

abbrev groups_of : Option ℕ → List ℕ
groups_of none = []
groups_of (some g) = g ∷ []

-- `pushGroups`: a failure is logged and swallowed.
abbrev push_groups : Bool → ℕ → List ℕ → World → World
push_groups broker_up device_id groups w =
    if broker_up then record w { group_pushes = (device_id, groups) ∷ w.group_pushes } else w

abbrev store_metrics : ℕ → ℕ → Device → Option Metrics → World → World
store_metrics now device_id d none w = w
store_metrics now device_id d (some m) w =
    publish (SseEvent.device_metrics device_id m now) (record w {
      metrics = insert (record { device_id = d.id; sample = m; recorded_at = now }) w.metrics;
    })

status_online :
    (now : ℕ) (broker_up : Bool) (device_id : ℕ) → Device → StatusPayload → World → World
status_online now broker_up device_id d p w = store_metrics now device_id d p.metrics (
    push_groups broker_up device_id (groups_of d.group_id) (
      publish (SseEvent.device_status device_id online (some now))
        (record w { devices = update_many (at_device device_id) (set_online now p) w.devices })))

status_offline : (now device_id : ℕ) → Device → StatusPayload → World → World
status_offline now device_id d p w =
    if is_stale p.session_id d.current_session_id
    then w
    else publish (SseEvent.device_status device_id offline (some now))
        (record w { devices = update_many (at_device device_id) (set_offline now) w.devices })

pub handle_status : (now : ℕ) (broker_up : Bool) (device_id : ℕ) → Raw StatusPayload → World → World
unfolding status_online status_offline
handle_status now broker_up device_id empty w = w
handle_status now broker_up device_id invalid w = w
handle_status now broker_up device_id (parsed p) w = elim (device_by device_id w) [
  | none ↦ w
  | some d ↦
      if p.is_up
      then status_online now broker_up device_id d p w
      else status_offline now device_id d p w
]

unfoldable pub map_status : Option ResultStatus → CommandStatus
map_status (some ResultStatus.completed) = succeeded
map_status (some ResultStatus.failed) = CommandStatus.failed
map_status (some ResultStatus.rejected) = CommandStatus.failed
map_status (some ResultStatus.timeout) = CommandStatus.timeout
map_status (some ResultStatus.canceled) = CommandStatus.canceled
map_status (some ResultStatus.running) = CommandStatus.running
map_status _ = succeeded

abbrev pub is_queued : Option ResultStatus → Bool
is_queued (some ResultStatus.queued) = true
is_queued _ = false

-- `status: { in: [PENDING, DISPATCHED] }`.
abbrev pub is_waiting : CommandStatus → Bool
is_waiting pending = true
is_waiting dispatched = true
is_waiting _ = false

abbrev pub set_running : ℕ → Command → Command
set_running now c = record c { status = CommandStatus.running; started_at = some now }

abbrev pub on_accepted : (now device_id : ℕ) → ResultPayload → World → World
on_accepted now device_id p w =
    publish (SseEvent.accepted p.id device_id (not (is_queued p.status))) (
      if is_queued p.status then w else record w {
        commands =
            update_many (λ (c : Command). c.id == p.id && is_waiting c.status) (set_running now)
              w.commands;
      })

-- The unique key of an output row.
abbrev pub at_output : (command_id seq : ℕ) → CommandOutput → Bool
at_output command_id seq o = o.command_id == command_id && o.seq == seq

-- A second row with the key is refused by the table, and that is swallowed.
abbrev pub create_output : CommandOutput → List CommandOutput → List CommandOutput
create_output o os = if any (at_output o.command_id o.seq) os then os else insert o os

abbrev pub output_of : Command → ResultPayload → CommandOutput
output_of c p = record {
  command_id = p.id;
  device_id = c.device_id;
  seq = or_else p.seq 0;
  stream = or_else p.stream OutputStream.stdout;
  chunk = or_else p.text "";
}

abbrev pub on_chunk : (device_id : ℕ) → Command → ResultPayload → World → World
on_chunk device_id c p w =
    let o = output_of c p in
    publish (SseEvent.chunk p.id device_id o.stream o.seq o.chunk)
      (record w { outputs = create_output o w.outputs })

-- `x ? new Date(x) : undefined` in an update.
abbrev keep_time : Option ℕ → Option ℕ → Option ℕ
keep_time none old = old
keep_time (some t) old = some t

abbrev pub set_result : ℕ → ResultPayload → Command → Command
set_result now p c = record c {
  status = map_status p.status;
  exit_code = p.exit_code;
  stdout = p.stdout;
  stderr = p.stderr;
  truncated = or_else p.truncated false;
  error = p.error;
  duration_ms = p.duration_ms;
  started_at = keep_time p.started_at c.started_at;
  finished_at = some (or_else p.finished_at now);
}

abbrev pub on_result : (now device_id : ℕ) → ResultPayload → World → World
on_result now device_id p w =
    publish
      (SseEvent.result p.id device_id (map_status p.status) p.exit_code (or_else p.stdout "")
        (or_else p.stderr "") (or_else p.truncated false) p.duration_ms p.error)
      (record w {
        commands = update_many (λ (c : Command). c.id == p.id) (set_result now p) w.commands;
      })

abbrev on_kind : ResultKind → (now device_id : ℕ) → Command → ResultPayload → World → World
on_kind accepted now device_id c p w = on_accepted now device_id p w
on_kind chunk now device_id c p w = on_chunk device_id c p w
on_kind result now device_id c p w = on_result now device_id p w

-- `command.device.deviceId === deviceId`.
abbrev pub owns : ℕ → Command → World → Bool
owns device_id c w = elim (device_of c w) [ none ↦ false | some d ↦ d.device_id == device_id ]

pub handle_result : (now device_id : ℕ) → Raw ResultPayload → World → World
handle_result now device_id empty w = w
handle_result now device_id invalid w = w
handle_result now device_id (parsed p) w = elim (command_by p.id w) [
  | none ↦ w
  | some c ↦ if owns device_id c w then on_kind p.kind now device_id c p w else w
]

-- What `onMessage` is called with: the broker's uptime, where it is a number, a status or a result.
pub data Arrival : Type 0 where
  uptime : (now : ℕ) → Option ℕ → Arrival
  status : (now : ℕ) (broker_up : Bool) (device_id : ℕ) → Raw StatusPayload → Arrival
  report : (now device_id : ℕ) → Raw ResultPayload → Arrival

abbrev pub grace_window_ms : ℕ
grace_window_ms = 120000

abbrev on_uptime : ℕ → Option ℕ → World → World
on_uptime now none w = w
on_uptime now (some seconds) w =
    if ltb seconds 120 then record w { grace_until = now + grace_window_ms } else w

pub receive : Arrival → World → World
receive (uptime now seconds) w = on_uptime now seconds w
receive (status now broker_up device_id raw) w = handle_status now broker_up device_id raw w
receive (report now device_id raw) w = handle_result now device_id raw w

pub receive_all : List Arrival → World → World
receive_all [] w = w
receive_all (a ∷ rest) w = receive_all rest (receive a w)
