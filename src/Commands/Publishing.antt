-- ===== src/Commands/Publishing.antt =====
-- Which devices hear what a dispatch publishes, and the rows that stand before it does.
use zenstier.Prelude.{
  ℕ, ◌≡◌, refl, Bool, true, false, ◌&&◌, some, List, [], ◌∷◌, ◌++◌, arith, ◌==◌, opt_eq, sym, ap,
  ◌∙◌, find_many, Distinct, is_some, if◌then◌else◌, any, All, map, inl, inr, String, Option-cases,
  ==_refl,
}
use mathlib.Core.List.{append_assoc}
use zenstier.Prelude.Sweep.{elem, keys, elem-keys}
use zenstier.Fleet.{Device, Command, CommandStatus, device_by}
use zenstier.Commands.{
  DispatchInput, Site, Batch, ready, Message, to_device, to_group, device_ids, fan_out, messages,
  prepare, new_command, is_target, is_up,
}
use zenstier.Commands.Targets.{IsReached, prepare-ready}

-- An agent subscribes to its own topic and to that of its group.
abbrev pub hears : Device → Message → Bool
hears d (to_device device_id command_id batch_id command) = device_id == d.device_id
hears d (to_group group_id batch_id command) = opt_eq d.group_id (some group_id)

hears-fan_out :
    (command_id_for : ℕ → ℕ → ℕ) (batch_id : ℕ) (command : String) (ts : List Device) (d : Device)
    → any (hears d) (fan_out command_id_for batch_id command ts) ≡ elem d.device_id (device_ids ts)
hears-fan_out command_id_for batch_id command [] d = refl
hears-fan_out command_id_for batch_id command (t ∷ ts) d =
    ground (arith, hears-fan_out command_id_for batch_id command ts d)

abbrev pub is_broadcast : DispatchInput → Bool
is_broadcast input = input.use_broadcast_topic && is_some input.group_id

-- Who hears a batch: its targets, each on its own topic; but with the broadcast option and a group,
-- the devices of that group, whatever the targets.
pub hears-messages :
    (command_id_for : ℕ → ℕ → ℕ) (b : Batch) (input : DispatchInput) (d : Device)
    → any (hears d) (messages command_id_for b input) ≡ (
        if is_broadcast input
        then opt_eq d.group_id input.group_id
        else elem d.device_id (device_ids b.targets))
unfolding messages
hears-messages command_id_for b input d = elim (Option-cases input.group_id) [
  | inl alone ↦ ground (arith, hears-fan_out command_id_for b.id input.command b.targets d)
  | inr (g, group) ↦ ground (arith, hears-fan_out command_id_for b.id input.command b.targets d)
]

abbrev pub public_id : Device → ℕ
public_id d = d.device_id

elem-find_many :
    (p : Device → Bool) (j : ℕ) (ds : List Device)
    → elem j (device_ids (find_many p ds)) ≡ true
    → elem j (device_ids ds) ≡ true
elem-find_many p j [] h = h
elem-find_many p j (d ∷ ds) h = ground (arith, elem-find_many p j ds)

find_many-find_many :
    (p q : Device → Bool) (ds : List Device)
    → find_many p (find_many q ds) ≡ find_many (λ d. q d && p d) ds
find_many-find_many p q [] = refl
find_many-find_many p q (d ∷ ds) = ground (arith, find_many-find_many p q ds)

device_ids-keys : (ds : List Device) → device_ids ds ≡ keys public_id ds
device_ids-keys [] = refl
device_ids-keys (d ∷ ds) = ap (λ rest. d.device_id ∷ rest) (device_ids-keys ds)

-- Without the broadcast option the team is a boundary: where the public ids in the table are distinct, a
-- device of the table that hears the command is of the caller's team, online and asked for.
pub fan_out-in_team :
    (command_id_for : ℕ → ℕ → ℕ) (per_minute now user_id team_id batch_id : ℕ)
    (input : DispatchInput) (s : Site) {b : Batch} {s' : Site} (d : Device)
    → Distinct public_id s.world.devices
    → device_by d.device_id s.world ≡ some d
    → prepare command_id_for per_minute now user_id team_id batch_id input s ≡ ready b s'
    → is_broadcast input ≡ false
    → any (hears d) (messages command_id_for b input) ≡ true
    → IsReached team_id input d
fan_out-in_team command_id_for per_minute now user_id team_id batch_id input s {b} d distinct here h
      narrow heard =
    let a = prepare-ready command_id_for per_minute now user_id team_id batch_id input s h in
    let asked = λ (x : Device). is_target team_id input x in
    let listed : elem d.device_id (device_ids b.targets) ≡ true =
      ground (arith, hears-messages command_id_for b input d) in
    let among : elem d.device_id (device_ids (find_many is_up (find_many asked s.world.devices)))
        ≡ true =
      elem-find_many (λ x. elem x.device_id a.limit.allowed) d.device_id
        (find_many is_up (find_many asked s.world.devices))
        (sym (ap (λ ts. elem d.device_id (device_ids ts)) a.targets) ∙ listed) in
    let meets : (asked d && is_up d) ≡ true =
      sym (
        ap (λ ts. elem d.device_id (device_ids ts))
          (find_many-find_many is_up asked s.world.devices)
        ∙ ap (elem d.device_id)
            (device_ids-keys (find_many (λ x. asked x && is_up x) s.world.devices))
        ∙ elem-keys public_id (λ x. asked x && is_up x) d.device_id s.world.devices d distinct here)
      ∙ among in
    record { of_team = ground arith; up = ground arith; asked_for = ground arith }

-- A row as `createMany` writes it for a target.
abbrev pub is_row_of :
    (command_id_for : ℕ → ℕ → ℕ) → (team_id batch_id : ℕ) → Device → Command → Bool
is_row_of command_id_for team_id batch_id t c =
    c.id == command_id_for batch_id t.device_id
    && c.device_id == t.id
    && c.team_id == team_id
    && c.batch_id == batch_id
    && (elim c.status [ CommandStatus.pending ↦ true | _ ↦ false ])

any-append : (p : Command → Bool) (xs ys : List Command) → any p ys ≡ true → any p (xs ++ ys) ≡ true
any-append p [] ys h = h
any-append p (x ∷ xs) ys h = ground (arith, any-append p xs ys h)

row_of_new :
    (command_id_for : ℕ → ℕ → ℕ) (user_id team_id batch_id : ℕ) (input : DispatchInput) (t : Device)
    → is_row_of command_id_for team_id batch_id t
        (new_command command_id_for user_id team_id batch_id input t)
      ≡ true
row_of_new command_id_for user_id team_id batch_id input t =
    rw (
      ==_refl (command_id_for batch_id t.device_id),
      ==_refl t.id,
      ==_refl team_id,
      ==_refl batch_id,
    )

rows_made :
    (command_id_for : ℕ → ℕ → ℕ) (user_id team_id batch_id : ℕ) (input : DispatchInput)
    (before : List Command) (ts : List Device)
    → All
        (λ t.
          any
            (is_row_of command_id_for team_id batch_id t)
            (before ++ map (new_command command_id_for user_id team_id batch_id input) ts)
          ≡ true)
        ts
rows_made command_id_for user_id team_id batch_id input before [] = tt
rows_made command_id_for user_id team_id batch_id input before (t ∷ ts) =
    let new = new_command command_id_for user_id team_id batch_id input in
    let made = row_of_new command_id_for user_id team_id batch_id input t in
    let rest = rows_made command_id_for user_id team_id batch_id input (before ++ new t ∷ []) ts in
    (any-append _ before (new t ∷ map new ts) (rw made), rw append_assoc at rest)

-- Rows stand before anything is published: when the messages of a batch go out, the table holds for
-- each target a pending row of the team and the batch, under the id that the agent will report.
pub prepare-rows :
    (command_id_for : ℕ → ℕ → ℕ) (per_minute now user_id team_id batch_id : ℕ)
    (input : DispatchInput) (s : Site) {b : Batch} {s' : Site}
    → prepare command_id_for per_minute now user_id team_id batch_id input s ≡ ready b s'
    → All
        (λ t. any (is_row_of command_id_for team_id batch_id t) s'.world.commands ≡ true)
        b.targets
prepare-rows command_id_for per_minute now user_id team_id batch_id input s {b} h =
    let a = prepare-ready command_id_for per_minute now user_id team_id batch_id input s h in
    rw a.after
      (rows_made command_id_for user_id team_id batch_id input a.charged.world.commands b.targets)
