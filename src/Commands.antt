-- ===== src/Commands.antt =====
-- server/modules/commands/command.service.ts: dispatching a command. The dispatch is cut where other
-- processes can run: `prepare` ends with the transaction that inserts the rows, then the messages are
-- published, then `mark_dispatched` follows. The id of a batch comes from `randomUUID` and is an
-- argument; `command_id_for`, which is a uuid v5, is a parameter.
pub mod Targets
pub mod Publishing
pub mod Race
mod Tests
use zenstier.Prelude.{
  ℕ, ◌+◌, ◌-◌, ◌*◌, ◌/◌, String, Bool, true, false, not, ◌&&◌, Option, none, some, List, [], ◌∷◌,
  ◌++◌, map, ltb, ◌==◌, opt_eq, is_some, if◌then◌else◌, update_many, find_many, length,
}
use zenstier.Prelude.Sweep.{elem}
use zenstier.RateLimit.{Bucket, Buckets, RateLimitResult, check_command_rate_limit, put, ceil_div}
use zenstier.Fleet.{Device, Command, CommandStatus, pending, dispatched, World, is_online}

pub record DispatchInput : Type 0 where
  pub command : String
  pub device_ids : List ℕ
  pub group_id : Option ℕ
  pub timeout_ms : ℕ
  pub use_broadcast_topic : Bool

pub record CommandBatch : Type 0 where
  pub id : ℕ
  pub user_id : ℕ
  pub team_id : ℕ
  pub command : String
  pub group_id : Option ℕ

pub data Audit : Type 0 where
  command_rate_limited : (user_id team_id retry_after_ms : ℕ) → Audit
  command_dispatched : (user_id team_id batch_id : ℕ) → String → List ℕ → Audit

-- A message to one device, with its own command id, or to the topic of a group, with the batch id.
pub data Message : Type 0 where
  to_device : (device_id command_id batch_id : ℕ) → String → Message
  to_group : (group_id batch_id : ℕ) → String → Message

pub data Reason : Type 0 where
  is_offline : Reason
  rate_limited : (seconds : ℕ) → Reason

pub data DispatchError : Type 0 where
  no_matching_devices all_offline all_rate_limited : DispatchError
  rate_limit_reached : (seconds : ℕ) → DispatchError

pub record Site : Type 0 where
  pub world : World
  pub batches : List CommandBatch
  pub audit : List Audit
  pub user_buckets : ℕ → Option Bucket
  pub device_buckets : ℕ → Option Bucket

pub record Batch : Type 0 where
  pub id : ℕ
  pub targets : List Device
  pub skipped : List (ℕ × Reason)

pub data Prepared : Type 0 where
  refused : DispatchError → Site → Prepared
  ready : Batch → Site → Prepared

-- The `where` of `findMany`.
abbrev pub is_target : (team_id : ℕ) → DispatchInput → Device → Bool
is_target team_id input d =
    d.team_id == team_id
    && (if is_some input.group_id && length input.device_ids == 0
        then opt_eq d.group_id input.group_id
        else elem d.device_id input.device_ids)

abbrev pub targets_of : (team_id : ℕ) → DispatchInput → World → List Device
targets_of team_id input w = find_many (is_target team_id input) w.devices

abbrev pub is_up : Device → Bool
is_up d = is_online d.status

abbrev pub device_ids : List Device → List ℕ
device_ids [] = []
device_ids (d ∷ ds) = d.device_id ∷ device_ids ds

abbrev pub skipped_offline : List Device → List (ℕ × Reason)
skipped_offline [] = []
skipped_offline (d ∷ ds) =
    let rest = skipped_offline ds in if is_up d then rest else (d.device_id, is_offline) ∷ rest

abbrev pub skipped_limited : List (ℕ × ℕ) → List (ℕ × Reason)
skipped_limited [] = []
skipped_limited ((d, wait) ∷ rest) = (d, rate_limited (ceil_div wait 1000)) ∷ skipped_limited rest

abbrev is_empty {ℓ} : {A : Type ℓ} → List A → Bool
is_empty [] = true
is_empty (x ∷ xs) = false

-- The limiter is charged before anything is written.
abbrev pub charge : (per_minute now user_id : ℕ) → List Device → Site → Site × RateLimitResult
charge per_minute now user_id online s =
    let (b, limit) =
      check_command_rate_limit per_minute now (device_ids online)
        (record { user = s.user_buckets user_id; devices = s.device_buckets }) in
    (
      record s {
        user_buckets = λ u. if user_id == u then b.user else s.user_buckets u;
        device_buckets = b.devices;
      },
      limit,
    )

module _ (command_id_for : ℕ → ℕ → ℕ) where
  abbrev pub new_command : (user_id team_id batch_id : ℕ) → DispatchInput → Device → Command
  new_command user_id team_id batch_id input t = record {
    id = command_id_for batch_id t.device_id;
    user_id = user_id;
    team_id = team_id;
    device_id = t.id;
    batch_id = batch_id;
    command = input.command;
    status = pending;
    exit_code = none;
    stdout = none;
    stderr = none;
    truncated = false;
    error = none;
    timeout_ms = input.timeout_ms;
    dispatched_at = none;
    started_at = none;
    finished_at = none;
    duration_ms = none;
  }

  -- The transaction: the batch, a row for each target, and the audit row.
  abbrev pub insert_batch :
      (user_id team_id batch_id : ℕ) → DispatchInput → List Device → Site → Site
  insert_batch user_id team_id batch_id input ts s = record s {
    world = record s.world {
      commands = s.world.commands ++ map (new_command user_id team_id batch_id input) ts;
    };
    batches =
        record {
          id = batch_id;
          user_id = user_id;
          team_id = team_id;
          command = input.command;
          group_id = input.group_id;
        }
        ∷ s.batches;
    audit = command_dispatched user_id team_id batch_id input.command (device_ids ts) ∷ s.audit;
  }

  -- From the answer of the rate limiter on.
  abbrev pub admit :
      (user_id team_id batch_id : ℕ)
      → DispatchInput
      → (targets online : List Device) → RateLimitResult
      → Site
      → Prepared
  admit user_id team_id batch_id input targets online limit s =
      if ltb 0 limit.user_retry_after_ms
      then refused (rate_limit_reached (ceil_div limit.user_retry_after_ms 1000)) (record s {
        audit = command_rate_limited user_id team_id limit.user_retry_after_ms ∷ s.audit;
      })
      else (let final = find_many (λ d. elem d.device_id limit.allowed) online in
          if is_empty final
          then refused all_rate_limited s
          else ready
              (record {
                id = batch_id;
                targets = final;
                skipped = skipped_offline targets ++ skipped_limited limit.limited;
              })
              (insert_batch user_id team_id batch_id input final s))

  unfoldable pub prepare :
      (per_minute now user_id team_id batch_id : ℕ) → DispatchInput → Site → Prepared
  prepare per_minute now user_id team_id batch_id input s =
      let targets = targets_of team_id input s.world in
      let online = find_many is_up targets in
      if is_empty targets
      then refused no_matching_devices s
      else if is_empty online
      then refused all_offline s
      else (let (s', limit) = charge per_minute now user_id online s in
          admit user_id team_id batch_id input targets online limit s')

  abbrev pub fan_out : ℕ → String → List Device → List Message
  fan_out batch_id command [] = []
  fan_out batch_id command (t ∷ ts) =
      to_device t.device_id (command_id_for batch_id t.device_id) batch_id command
      ∷ fan_out batch_id command ts

  abbrev group_or_each : Option ℕ → Batch → DispatchInput → List Message
  group_or_each none b input = fan_out b.id input.command b.targets
  group_or_each (some g) b input =
      if input.use_broadcast_topic
      then to_group g b.id input.command ∷ []
      else fan_out b.id input.command b.targets

  -- What is published for a batch.
  unfoldable pub messages : Batch → DispatchInput → List Message
  messages b input = group_or_each input.group_id b input

  abbrev pub answer : ℕ → List Device → List (ℕ × ℕ)
  answer batch_id [] = []
  answer batch_id (t ∷ ts) = (t.device_id, command_id_for batch_id t.device_id) ∷ answer batch_id ts

abbrev pub set_dispatched : ℕ → Command → Command
set_dispatched now c = record c { status = dispatched; dispatched_at = some now }

-- The `updateMany` after the last message is out.
unfoldable pub mark_dispatched : (now batch_id : ℕ) → World → World
mark_dispatched now batch_id w = record w {
  commands = update_many (λ (c : Command). c.batch_id == batch_id) (set_dispatched now) w.commands;
}

pub data Dispatch : Type 0 where
  rejected : DispatchError → Site → Dispatch
  accepted : Batch → List Message → Site → Dispatch

-- The whole of `dispatchCommand`, when nothing comes in between; `after` is the time of the last
-- update.
unfoldable pub dispatch :
    (command_id_for : ℕ → ℕ → ℕ)
    → (per_minute now after user_id team_id batch_id : ℕ) → DispatchInput
    → Site
    → Dispatch
unfolding prepare messages mark_dispatched
dispatch command_id_for per_minute now after user_id team_id batch_id input s =
    elim (prepare command_id_for per_minute now user_id team_id batch_id input s) [
      | refused e s' ↦ rejected e s'
      | ready b s' ↦
          accepted b (messages command_id_for b input)
            (record s' { world = mark_dispatched after batch_id s'.world })
    ]
