-- ===== src/Groups/Tests.antt =====
-- Moves of devices between groups at a concrete fleet.
use zenstier.Prelude.{
  ℕ, ◌≡◌, refl, true, false, none, some, [], ◌∷◌, ◌==◌, ◌&&◌, if◌then◌else◌, arith,
}
use zenstier.Fleet.{Device, online}
use zenstier.Groups.Lost.{set_device_group-lost}
use zenstier.Groups.{
  Fold, agreed, refused, lost, failed, broker_failed, done, fold_of, set_device_group,
}
use zenstier.Groups.Moves.{group_of, IsExact, IsSound, set_device_group-IsExact}
use zenstier.Groups.Broker.{act, moves, act-IsSound}

-- The device 10 is in group 5.
abbrev box : Device
box = record {
  id = 1;
  team_id = 3;
  device_id = 10;
  status = online;
  last_seen_at = none;
  current_session_id = none;
  facts = record {
    hostname = none;
    os_name = none;
    os_version = none;
    kernel = none;
    arch = none;
    agent_version = none;
  };
  group_id = some 5;
}

abbrev fold : Fold
fold = record {
  groups =
      record { id = 5; team_id = 3; user_id = 1; name = "web" }
      ∷ record { id = 6; team_id = 3; user_id = 1; name = "db" }
      ∷ [];
  devices = box ∷ [];
  subscribed = λ g k. g == 5 && k == 10;
}

exact : IsExact fold
exact g k = ground arith

sound : IsSound fold
sound g k in_broker = ground arith

abbrev moved : Fold
moved = record fold {
  devices = record box { group_id = some 6 } ∷ [];
  subscribed = λ g k.
      if g == 6 && k == 10 then true else if g == 5 && k == 10 then false else g == 5 && k == 10;
}

went : set_device_group agreed agreed 3 10 (some 6) fold ≡ done moved
unfolding set_device_group
went = refl

set_device_group-IsExact_example :
    IsExact moved
    × ((k : ℕ) → group_of k moved.devices ≡ (if k == 10 then some 6 else group_of k fold.devices))
set_device_group-IsExact_example =
    set_device_group-IsExact agreed agreed 3 10 (some 6) fold (tt, tt) (tt, tt) exact went

-- The broker takes the device out of its group, and its answer is late.
act-IsSound_example : IsSound (fold_of (act 3 (moves lost refused 10 (some 6)) fold))
act-IsSound_example =
    act-IsSound 3 (moves lost refused 10 (some 6)) fold (tt, tt) (tt, tt) refl sound

set_device_group-lost_example :
    (s' s'' : Fold) × (set_device_group agreed refused 3 10 (some 6) fold ≡ failed broker_failed s')
    × (s'.devices ≡ fold.devices)
    × (set_device_group agreed agreed 3 10 (some 5) s' ≡ done s'')
    × (s''.subscribed 5 10 ≡ false)
set_device_group-lost_example =
    set_device_group-lost 3 10 fold box 5 6 refl refl refl refl refl agreed agreed
