-- ===== src/Worker/Presence.antt =====
-- Whether a device is online, under wills that arrive late.
use zenstier.Prelude.{
  ℕ, String, ◌≡◌, refl, ◌≢◌, Bool, true, false, some, List, [], ◌∷◌, arith, ◌==◌, update_many,
  find_first-update_many, find_first-update_many_other, ap, All, ==_iff, find_first-holds,
}
use zenstier.Protocol.{Raw, empty, invalid, parsed, StatusPayload}
use zenstier.Fleet.{Device, World, device_by}
use zenstier.Worker.{
  Arrival, status, report, uptime, receive, receive_all, handle_status, at_device, set_online,
  set_offline, is_stale,
}

-- A last will of another session of the device than `session`.
abbrev pub IsLateWill : ℕ → String → Arrival → Type 0
IsLateWill device_id session (status now broker_up from (parsed p)) =
    (from ≡ device_id) × (p.is_up ≡ false) × (is_stale p.session_id (some session) ≡ true)
IsLateWill device_id session _ = ⊥

-- The row after a status message, looked up by any public id.
device_by-online :
    (now : ℕ) (broker_up : Bool) (device_id : ℕ) (p : StatusPayload) (w : World) (d : Device)
    → device_by device_id w ≡ some d
    → p.is_up ≡ true
    → device_by device_id (handle_status now broker_up device_id (parsed p) w)
      ≡ some (set_online now p d)
unfolding handle_status
device_by-online now broker_up device_id p w d found up =
    let self =
      (==_iff d.device_id device_id).0
        (find_first-holds (at_device device_id) w.devices {a = d} found) in
    rw (found, handle_status)
      (ground (
        arith,
        find_first-update_many (at_device device_id) (at_device device_id) (set_online now p)
            w.devices (λ x. refl),
      ))

late_will :
    (a : Arrival) (device_id : ℕ) (session : String) (w : World) (d : Device)
    → device_by device_id w ≡ some d
    → d.current_session_id ≡ some session
    → IsLateWill device_id session a
    → receive a w ≡ w
unfolding receive handle_status
late_will (status now broker_up from (parsed p)) device_id session w d found own
      (same, down, stale) =
    let found' = rw (← same) at found in rw (found', handle_status) (ground arith)
late_will (status now broker_up from empty) device_id session w d found own h = absurd h
late_will (status now broker_up from invalid) device_id session w d found own h = absurd h
late_will (report now from raw) device_id session w d found own h = absurd h
late_will (uptime now seconds) device_id session w d found own h = absurd h

late_wills :
    (arrivals : List Arrival) (device_id : ℕ) (session : String) (w : World) (d : Device)
    → device_by device_id w ≡ some d
    → d.current_session_id ≡ some session
    → All (IsLateWill device_id session) arrivals
    → receive_all arrivals w ≡ w
unfolding receive_all
late_wills [] device_id session w d found own h = refl
late_wills (a ∷ rest) device_id session w d found own (h, hs) =
    rw (late_will a device_id session w d found own h)
      (late_wills rest device_id session w d found own hs)

-- Presence is fenced by the session: once a device has reported online in a session, the late wills
-- of its other sessions change nothing at all, however many come.
pub online-late_wills :
    (now : ℕ) (broker_up : Bool) (device_id : ℕ) (p : StatusPayload) (session : String) (w : World)
    (d : Device) (wills : List Arrival)
    → device_by device_id w ≡ some d
    → p.is_up ≡ true
    → p.session_id ≡ some session
    → All (IsLateWill device_id session) wills
    → (receive_all (status now broker_up device_id (parsed p) ∷ wills) w
        ≡ handle_status now broker_up device_id (parsed p) w)
      × (device_by device_id (handle_status now broker_up device_id (parsed p) w)
          ≡ some (set_online now p d))
unfolding receive_all receive
online-late_wills now broker_up device_id p session w d wills found up own late =
    let after = device_by-online now broker_up device_id p w d found up in
    (late_wills wills device_id session _ (set_online now p d) after own late, after)

-- A status message leaves the rows of all other devices, and every command and output, as they are.
pub handle_status-other :
    (now : ℕ) (broker_up : Bool) (device_id other : ℕ) (raw : Raw StatusPayload) (w : World)
    → other ≢ device_id
    → let w' = handle_status now broker_up device_id raw w in
      (device_by other w' ≡ device_by other w)
      × (w'.commands ≡ w.commands)
      × (w'.outputs ≡ w.outputs)
unfolding handle_status
handle_status-other now broker_up device_id other empty w h = (refl, refl, refl)
handle_status-other now broker_up device_id other invalid w h = (refl, refl, refl)
handle_status-other now broker_up device_id other (parsed p) w h =
    ground (arith, keeps (set_online now p) (λ x. refl), keeps (set_offline now) (λ x. refl))
  where
    keeps :
        (f : Device → Device)
        → ((x : Device) → (f x).device_id ≡ x.device_id)
        → device_by other (record w { devices = update_many (at_device device_id) f w.devices })
          ≡ device_by other w
    keeps f same =
        find_first-update_many_other (at_device other) (at_device device_id) f w.devices
          (λ x. ap (λ (k : ℕ). k == other) (same x)) (λ x at. ground arith)
