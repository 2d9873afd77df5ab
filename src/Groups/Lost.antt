-- ===== src/Groups/Lost.antt =====
-- server/modules/devices/group.service.ts: a move that fails half-way.
use zenstier.Prelude.{
  ℕ, ◌≡◌, refl, ap, true, false, some, arith, ◌==◌, ==_refl, opt_eq, find_first, update_many,
}
use zenstier.Fleet.{Device}
use zenstier.Groups.{
  Fold, Answer, agreed, refused, done, failed, broker_failed, is_device_in, remove_member,
  put_group, is_target, set_device_group,
}

module _ (team_id device_id : ℕ) (s : Fold) (device : Device) (old new : ℕ)
    (found : find_first (is_device_in team_id device_id) s.devices ≡ some device)
    (was : device.group_id ≡ some old) (apart : (old == new) ≡ false)
    (old_there : is_target team_id (some old) s ≡ true)
    (new_there : is_target team_id (some new) s ≡ true) where
  -- The device out of its old group at the broker, and nothing else changed.
  abbrev half_way : Fold
  half_way = remove_member old device.device_id s

  abbrev rewritten : Fold
  rewritten = record half_way {
    devices = update_many (λ (d : Device). d.id == device.id) (put_group (some old)) s.devices;
  }

  fails_half_way :
      set_device_group agreed refused team_id device_id (some new) s ≡ failed broker_failed half_way
  unfolding set_device_group
  fails_half_way = ground (arith, ap (λ o. opt_eq o (some new)) was)

  again :
      (removed added : Answer)
      → set_device_group removed added team_id device_id (some old) half_way ≡ done rewritten
  unfolding set_device_group
  again removed added = ground (arith, ==_refl old, ap (λ o. opt_eq o (some old)) was)

  -- When the broker takes a device out of its old group and then refuses to add it to the new one, the
  -- table keeps the old group; putting the device into that group again goes through whatever the broker
  -- would answer, and still leaves it out of the group at the broker.
  pub set_device_group-lost :
      (removed added : Answer)
      → (s' s'' : Fold) × (set_device_group agreed refused team_id device_id (some new) s
          ≡ failed broker_failed s')
        × (s'.devices ≡ s.devices)
        × (set_device_group removed added team_id device_id (some old) s' ≡ done s'')
        × (s''.subscribed old device.device_id ≡ false)
  set_device_group-lost removed added = (
    half_way,
    rewritten,
    fails_half_way,
    refl,
    again removed added,
    ground (arith, ==_refl old, ==_refl device.device_id),
  )
