-- ===== src/Worker/Reaper.antt =====
-- server/worker/main.ts, `reap`: the backstop for presence and command lifetimes.
use zenstier.Prelude.{
  ℕ, ◌+◌, Bool, true, false, ◌&&◌, Option, none, some, List, [], ◌∷◌, ltb, ◌==◌, if◌then◌else◌,
  update_many, find_many, take, is_some, String, or_else, leb,
}
use zenstier.Prelude.Sweep.{keys}
use zenstier.Fleet.{
  Device, Command, CommandStatus, dispatched, running, timeout, World, SseEvent, offline, publish,
  is_online, device_of,
}
use zenstier.Worker.{at_device}

abbrev pub stale_after_ms : ℕ
stale_after_ms = 180000

-- `lastSeenAt < now - STALE_AFTER_MS`, or never seen.
abbrev seen_before : ℕ → Option ℕ → Bool
seen_before now none = true
seen_before now (some t) = ltb (t + stale_after_ms) now

abbrev pub is_stale_device : ℕ → Device → Bool
is_stale_device now d = is_online d.status && seen_before now d.last_seen_at

abbrev pub mark_offline : Device → Device
mark_offline d = record d { status = offline }

reap_devices : List Device → World → World
reap_devices [] w = w
reap_devices (d ∷ ds) w = reap_devices ds (
    publish (SseEvent.device_status d.device_id offline none)
      (record w { devices = update_many (at_device d.device_id) mark_offline w.devices }))

-- DISPATCHED or RUNNING, and dispatched at some time.
abbrev is_in_flight : CommandStatus → Bool
is_in_flight dispatched = true
is_in_flight running = true
is_in_flight _ = false

abbrev pub is_awaited : Command → Bool
is_awaited c = is_in_flight c.status && is_some c.dispatched_at

abbrev pub deadline : ℕ → Command → ℕ
deadline now c = or_else c.dispatched_at now + c.timeout_ms + 30000

abbrev pub no_response : String
no_response = "No response from agent before timeout"

abbrev pub mark_timeout : ℕ → Command → Command
mark_timeout now c = record c { status = timeout; finished_at = some now; error = some no_response }

-- `cmd.device.deviceId`; the foreign key says that the device is there.
abbrev public_id : Option Device → ℕ
public_id none = 0
public_id (some d) = d.device_id

-- One round of the loop over the commands.
abbrev expire : ℕ → Command → World → World
expire now c w =
    if ltb now (deadline now c)
    then w
    else publish
        (SseEvent.result c.id (public_id (device_of c w)) timeout none "" "" false none
          (some no_response))
        (record w {
          commands = update_many (λ (x : Command). x.id == c.id) (mark_timeout now) w.commands;
        })

reap_commands : ℕ → List Command → World → World
reap_commands now [] w = w
reap_commands now (c ∷ cs) w = reap_commands now cs (expire now c w)

abbrev reap_all : ℕ → World → World
reap_all now w =
    let w' = reap_devices (find_many (is_stale_device now) w.devices) w in
    reap_commands now (take 200 (find_many is_awaited w'.commands)) w'

pub reap : (now : ℕ) (connected : Bool) → World → World
unfolding reap_devices reap_commands
reap now connected w = if ltb now w.grace_until then w else if connected then reap_all now w else w

abbrev pub is_due : ℕ → Command → Bool
is_due now c = leb (deadline now c) now

abbrev due_ids : ℕ → List Command → List ℕ
due_ids now cs = keys (λ (c : Command). c.id) (find_many (is_due now) cs)

module _ (now : ℕ) (w : World) where
  stale : List Device
  stale = find_many (is_stale_device now) w.devices
