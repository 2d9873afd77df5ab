-- ===== src/Groups.antt =====
-- server/modules/devices/group.service.ts: the groups of devices, and the members that the broker lets
-- listen to a group. The broker's answers are arguments: each may be a failure, which throws, and a
-- command may also take effect without its answer arriving in time, which throws too. An answer is
-- taken to be that of its own command.
pub mod Steps
pub mod Broker
pub mod Moves
pub mod Lost
mod Tests
use zenstier.Prelude.{
  ℕ, String, Bool, true, false, not, ◌&&◌, ◌||◌, Option, none, some, List, [], ◌∷◌, ◌==◌, opt_eq,
  str_eq, is_some, if◌then◌else◌, find_first, find_many, update_many, delete_many, insert, any,
}
use zenstier.Prelude.Text.{trim}
use zenstier.Fleet.{Device}

pub record DeviceGroup : Type 0 where
  pub id : ℕ
  pub team_id : ℕ
  pub user_id : ℕ
  pub name : String

-- The tables, and whom the broker has in which group: `subscribed group device`.
pub record Fold : Type 0 where
  pub groups : List DeviceGroup
  pub devices : List Device
  pub subscribed : ℕ → ℕ → Bool

pub data GroupError : Type 0 where
  name_required name_taken group_not_found device_not_found broker_failed not_unique : GroupError

-- A call that throws may have changed the broker before.
pub data Outcome : Type 0 where
  done : Fold → Outcome
  failed : GroupError → Fold → Outcome

-- The broker carries a command out and says so; or it refuses; or it carries it out and the answer is
-- late.
pub data Answer : Type 0 where
  agreed refused lost : Answer

abbrev pub took : Answer → Bool
took refused = false
took _ = true

-- A command that makes `s'` of `s` at the broker, and what follows it.
abbrev pub by_answer : Answer → (s s' : Fold) → (Fold → Outcome) → Outcome
by_answer agreed s s' next = next s'
by_answer refused s s' next = failed broker_failed s
by_answer lost s s' next = failed broker_failed s'

abbrev pub fold_of : Outcome → Fold
fold_of (done s) = s
fold_of (failed e s) = s

abbrev pub is_group_in : (team_id group_id : ℕ) → DeviceGroup → Bool
is_group_in team_id group_id g = g.id == group_id && g.team_id == team_id

abbrev pub is_device_in : (team_id device_id : ℕ) → Device → Bool
is_device_in team_id device_id d = d.device_id == device_id && d.team_id == team_id

abbrev pub set_subscribed : (group_id device_id : ℕ) → Bool → (ℕ → ℕ → Bool) → ℕ → ℕ → Bool
set_subscribed group_id device_id b f g d = if g == group_id && d == device_id then b else f g d

abbrev pub clear_group : (group_id : ℕ) → (ℕ → ℕ → Bool) → ℕ → ℕ → Bool
clear_group group_id f g d = if g == group_id then false else f g d

-- `addGroupClient` and `removeGroupClient`, where the broker carries them out.
abbrev pub add_member : (group_id device_id : ℕ) → Fold → Fold
add_member group_id device_id s = record s {
  subscribed = set_subscribed group_id device_id true s.subscribed;
}

abbrev pub remove_member : (group_id device_id : ℕ) → Fold → Fold
remove_member group_id device_id s = record s {
  subscribed = set_subscribed group_id device_id false s.subscribed;
}

-- The names of a user's groups are unique in the table.
pub create_group : (provisioned : Bool) (actor_id team_id new_id : ℕ) → String → Fold → Outcome
create_group provisioned actor_id team_id new_id name s =
    if str_eq (trim name) ""
    then failed name_required s
    else if any (λ (g : DeviceGroup). g.team_id == team_id && str_eq g.name (trim name)) s.groups
    then failed name_taken s
    else if any (λ (g : DeviceGroup). g.user_id == actor_id && str_eq g.name (trim name)) s.groups
    then failed not_unique s
    else if provisioned
    then done (record s {
      groups =
          insert (record { id = new_id; team_id = team_id; user_id = actor_id; name = trim name })
            s.groups;
    })
    else failed broker_failed s

abbrev pub clashes : (group : DeviceGroup) → String → List DeviceGroup → Bool
clashes group name groups =
    any
      (λ (g : DeviceGroup).
        g.user_id == group.user_id && str_eq g.name name && not (g.id == group.id))
      groups

pub rename_group : (team_id group_id : ℕ) → String → Fold → Outcome
rename_group team_id group_id name s =
    if str_eq (trim name) ""
    then failed name_required s
    else elim (find_first (is_group_in team_id group_id) s.groups) [
      | none ↦ failed group_not_found s
      | some group ↦
          if clashes group (trim name) s.groups
          then failed not_unique s
          else done (record s {
            groups =
                update_many (λ (g : DeviceGroup). g.id == group_id)
                  (λ g. record g { name = trim name }) s.groups;
          })
    ]

-- The loop that detaches the members; a failure is only logged.
pub detach : (removed : ℕ → Answer) (group_id : ℕ) → List Device → Fold → Fold
detach removed group_id [] s = s
detach removed group_id (d ∷ rest) s =
    detach removed group_id rest
      (if took (removed d.device_id) then remove_member group_id d.device_id s else s)

abbrev pub no_group : Device → Device
no_group d = record d { group_id = none }

-- What follows the detaching: the broker drops the group, then its role, then the row goes, and with it
-- the group of its devices.
abbrev pub drop_row : (group_id : ℕ) → Fold → Outcome
drop_row group_id s = done (record s {
  groups = delete_many (λ (g : DeviceGroup). g.id == group_id) s.groups;
  devices = update_many (λ (d : Device). opt_eq d.group_id (some group_id)) no_group s.devices;
})

abbrev pub drop_role : (role_dropped : Answer) (group_id : ℕ) → Fold → Outcome
drop_role role_dropped group_id s = by_answer role_dropped s s (drop_row group_id)

abbrev pub drop_group : (group_dropped role_dropped : Answer) (group_id : ℕ) → Fold → Outcome
drop_group group_dropped role_dropped group_id s =
    by_answer group_dropped s (record s { subscribed = clear_group group_id s.subscribed })
      (drop_role role_dropped group_id)

pub delete_group :
    (removed : ℕ → Answer) (group_dropped role_dropped : Answer) (team_id group_id : ℕ)
    → Fold
    → Outcome
unfolding detach
delete_group removed group_dropped role_dropped team_id group_id s =
    if any (is_group_in team_id group_id) s.groups
    then drop_group group_dropped role_dropped group_id (
        detach removed group_id
          (find_many (λ (d : Device). opt_eq d.group_id (some group_id)) s.devices) s)
    else failed group_not_found s

abbrev pub put_group : Option ℕ → Device → Device
put_group group d = record d { group_id = group }

abbrev pub write_group : Option ℕ → Device → Fold → Outcome
write_group group device s = done (record s {
  devices = update_many (λ (d : Device). d.id == device.id) (put_group group) s.devices;
})

-- Joining the new group, the device having left the old one.
abbrev pub join : (added : Answer) (device : Device) → Option ℕ → Fold → Outcome
join added device none s = write_group none device s
join added device (some g) s =
    if opt_eq device.group_id (some g)
    then write_group (some g) device s
    else by_answer added s (add_member g device.device_id s) (write_group (some g) device)

abbrev pub leave :
    (removed added : Answer) (device : Device) (old group : Option ℕ) → Fold → Outcome
leave removed added device none group s = join added device group s
leave removed added device (some old) group s =
    if opt_eq (some old) group
    then join added device group s
    else by_answer removed s (remove_member old device.device_id s) (join added device group)

abbrev pub is_target : (team_id : ℕ) → Option ℕ → Fold → Bool
is_target team_id none s = true
is_target team_id (some g) s = any (is_group_in team_id g) s.groups

pub set_device_group :
    (removed added : Answer) (team_id device_id : ℕ) (group : Option ℕ) → Fold → Outcome
set_device_group removed added team_id device_id group s =
    elim (find_first (is_device_in team_id device_id) s.devices) [
      | none ↦ failed device_not_found s
      | some device ↦
          if is_target team_id group s
          then leave removed added device device.group_id group s
          else failed group_not_found s
    ]
