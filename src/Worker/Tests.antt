-- ===== src/Worker/Tests.antt =====
-- The worker at concrete messages.
use zenstier.Prelude.{◌≤◌, ◌≡◌, refl, true, false, Option, none, some, List, [], ◌∷◌, arith}
use zenstier.Prelude.Int.{pos}
use zenstier.Protocol.{
  invalid, parsed, StatusPayload, ResultStatus, ResultKind, ResultPayload, accepted, chunk, result,
}
use zenstier.Fleet.{
  online, dispatched, Facts, Device, Command, CommandOutput, World, device_by, command_by,
}
use zenstier.Worker.{
  Arrival, status, report, receive_all, handle_status, set_online, set_result, map_status,
}
use zenstier.Worker.Results.{receive_all-terminal}
use zenstier.Worker.Presence.{online-late_wills}
use zenstier.Worker.Output.{copies, stored, receive_all-outputs}

abbrev pub no_facts : Facts
no_facts = record {
  hostname = none;
  os_name = none;
  os_version = none;
  kernel = none;
  arch = none;
  agent_version = none;
}

abbrev pub box : Device
box = record {
  id = 1;
  team_id = 3;
  device_id = 10;
  status = online;
  last_seen_at = some 5;
  current_session_id = some "old";
  facts = no_facts;
  group_id = some 4;
}

abbrev pub job : Command
job = record {
  id = 7;
  user_id = 2;
  team_id = 3;
  device_id = 1;
  batch_id = 6;
  command = "uptime";
  status = dispatched;
  exit_code = none;
  stdout = none;
  stderr = none;
  truncated = false;
  error = none;
  timeout_ms = 1000;
  dispatched_at = some 5;
  started_at = none;
  finished_at = none;
  duration_ms = none;
}

abbrev pub fleet : World
fleet = record {
  devices = box ∷ [];
  commands = job ∷ [];
  outputs = [];
  metrics = [];
  events = [];
  group_pushes = [];
  grace_until = 0;
}

abbrev pub blank : ResultKind → Option ResultStatus → ResultPayload
blank kind reported = record {
  id = 7;
  kind = kind;
  status = reported;
  exit_code = some (pos 0);
  stdout = none;
  stderr = none;
  truncated = none;
  started_at = none;
  finished_at = none;
  duration_ms = none;
  error = none;
  seq = some 2;
  stream = none;
  text = some "hi";
}

abbrev pub completed : ResultPayload
completed = blank result (some ResultStatus.completed)

abbrev finished : World
finished = record fleet { commands = set_result 20 completed job ∷ [] }

abbrev elsewhere : ResultPayload
elsewhere = record completed { id = 8 }

abbrev pub slow : List Arrival
slow =
    report 30 10 (parsed (blank accepted (some ResultStatus.running)))
    ∷ status 32 true 10 invalid
    ∷ []

receive_all-terminal_example :
    command_by 7 (receive_all slow finished) ≡ some (set_result 20 completed job)
unfolding map_status
receive_all-terminal_example =
    receive_all-terminal slow finished 7 (set_result 20 completed job) refl refl (refl, (refl, tt))

abbrev up : StatusPayload
up = record { is_up = true; session_id = some "new"; facts = no_facts; metrics = none }

abbrev will : StatusPayload
will = record { is_up = false; session_id = some "old"; facts = no_facts; metrics = none }

online-late_wills_example :
    (receive_all (status 50 true 10 (parsed up) ∷ status 51 true 10 (parsed will) ∷ []) fleet
      ≡ handle_status 50 true 10 (parsed up) fleet)
    × (device_by 10 (handle_status 50 true 10 (parsed up) fleet) ≡ some (set_online 50 up box))
online-late_wills_example =
    online-late_wills 50 true 10 up "new" fleet box (status 51 true 10 (parsed will) ∷ []) refl refl
      refl ((refl, refl, refl), tt)

abbrev twice : List Arrival
twice = report 20 10 (parsed (blank chunk none)) ∷ report 21 10 (parsed (blank chunk none)) ∷ []

receive_all-outputs_example :
    (copies 7 2 (receive_all twice fleet) ≤ 1)
    × ((o : CommandOutput)
        → stored 7 2 fleet ≡ some o
        → stored 7 2 (receive_all twice fleet) ≡ some o)
receive_all-outputs_example = receive_all-outputs twice fleet 7 2 (omega arith)
