-- ===== src/Groups/Broker.antt =====
-- server/modules/devices/group.service.ts: which devices listen to which group, whatever the broker
-- answers.
use zenstier.Prelude.{
  ℕ, String, ◌≡◌, refl, sym, ap, ◌∙◌, subst, Bool, true, false, Option, some, List, [], ◌∷◌, arith,
  ◌==◌, opt_eq, if◌then◌else◌, find_first, find_many, update_many, any, touch, Distinct,
  Option-cases, inl, inr, find_first-own, find_first-update_many,
}
use zenstier.Fleet.{Device}
use zenstier.Groups.{
  Fold, Answer, agreed, refused, lost, took, Outcome, failed, fold_of, group_not_found, is_group_in,
  is_device_in, clear_group, remove_member, no_group, leave, is_target, set_device_group,
  create_group, rename_group, detach, drop_group, delete_group,
}
use zenstier.Groups.Steps.{is_lost, shrunk, remove_member-IsSound, leave-IsSound}
use zenstier.Groups.Moves.{id_of, public_id, group_in, group_of, IsSound}

detach-devices :
    (removed : ℕ → Answer) (group_id : ℕ) (list : List Device) (s : Fold)
    → (detach removed group_id list s).devices ≡ s.devices
unfolding detach
detach-devices removed group_id [] s = refl
detach-devices removed group_id (d ∷ rest) s =
    detach-devices removed group_id rest
      (if took (removed d.device_id) then remove_member group_id d.device_id s else s)
    ∙ ground arith

detach-IsSound :
    (removed : ℕ → Answer) (group_id : ℕ) (list : List Device) (s : Fold)
    → IsSound s
    → IsSound (detach removed group_id list s)
unfolding detach
detach-IsSound removed group_id [] s sound = sound
detach-IsSound removed group_id (d ∷ rest) s sound =
    detach-IsSound removed group_id rest
      (if took (removed d.device_id) then remove_member group_id d.device_id s else s)
      (elim (took (removed d.device_id))
        as (λ b. IsSound (if b then remove_member group_id d.device_id s else s)) [
          | true ↦ remove_member-IsSound group_id d.device_id s sound
          | false ↦ sound
        ])

clear_group-IsSound :
    (group_id : ℕ) (s : Fold)
    → IsSound s
    → IsSound (record s { subscribed = clear_group group_id s.subscribed })
clear_group-IsSound group_id s sound g k in_t = sound g k (ground arith)

-- The group of a device after a group is gone.
group_of-drop :
    (group_id k g : ℕ) (devices : List Device)
    → (g == group_id) ≡ false
    → group_of k devices ≡ some g
    → group_of k (update_many (λ (d : Device). opt_eq d.group_id (some group_id)) no_group devices)
      ≡ some g
group_of-drop group_id k g devices other there =
    let up =
      find_first-update_many (λ (d : Device). d.device_id == k)
        (λ (d : Device). opt_eq d.group_id (some group_id)) no_group devices (λ d. refl) in
    elim (Option-cases (find_first (λ (d : Device). d.device_id == k) devices)) [
      | inl gone ↦ absurd (ground (arith, ap group_in gone))
      | inr (x, found) ↦
          let its : x.group_id ≡ some g = sym (ap group_in found) ∙ there in
          ap group_in up
          ∙ ap
              (λ o. group_in (touch (λ (d : Device). opt_eq d.group_id (some group_id)) no_group o))
              found
          ∙ ground (arith, ap (λ o. opt_eq o (some group_id)) its)
    ]

drop_group-IsSound :
    (group_dropped role_dropped : Answer) (group_id : ℕ) (s : Fold)
    → IsSound s
    → IsSound (fold_of (drop_group group_dropped role_dropped group_id s))
drop_group-IsSound refused role_dropped group_id s sound = sound
drop_group-IsSound lost role_dropped group_id s sound = clear_group-IsSound group_id s sound
drop_group-IsSound agreed refused group_id s sound = clear_group-IsSound group_id s sound
drop_group-IsSound agreed lost group_id s sound = clear_group-IsSound group_id s sound
drop_group-IsSound agreed agreed group_id s sound =
    λ g k in_t. group_of-drop group_id k g s.devices (ground arith) (sound g k (ground arith))

-- What users do with groups, with the answers that the broker gives.
pub data Request : Type 0 where
  creates : (provisioned : Bool) (actor_id new_id : ℕ) → String → Request
  renames : (group_id : ℕ) → String → Request
  deletes : (removed : ℕ → Answer) (group_dropped role_dropped : Answer) (group_id : ℕ) → Request
  moves : (removed added : Answer) (device_id : ℕ) → Option ℕ → Request

unfoldable pub act : (team_id : ℕ) → Request → Fold → Outcome
unfolding create_group rename_group delete_group set_device_group
act team_id (creates provisioned actor_id new_id name) s =
    create_group provisioned actor_id team_id new_id name s
act team_id (renames group_id name) s = rename_group team_id group_id name s
act team_id (deletes removed group_dropped role_dropped group_id) s =
    delete_group removed group_dropped role_dropped team_id group_id s
act team_id (moves removed added device_id group) s =
    set_device_group removed added team_id device_id group s

-- The broker does not add a device to a group while its answer to that is late.
abbrev pub IsTimely : Request → Type 0
IsTimely (moves removed added device_id group) = is_lost added ≡ false
IsTimely _ = Unit

-- Whether the broker agrees to each command of a request, refuses it, or carries it out with its answer
-- late, and so whether the request goes through or fails in the middle, afterwards the broker has every
-- device in no group but the one of the table, when that was so before and the ids of devices are
-- distinct, as long as it is not an addition to a group that is carried out with its answer late.
pub act-IsSound :
    (team_id : ℕ) (r : Request) (s : Fold)
    → Distinct id_of s.devices
    → Distinct public_id s.devices
    → IsTimely r
    → IsSound s
    → IsSound (fold_of (act team_id r s))
unfolding act create_group rename_group delete_group set_device_group
act-IsSound team_id (creates provisioned actor_id new_id name) s ids keys timely sound =
    shrunk s (fold_of (create_group provisioned actor_id team_id new_id name s)) (ground arith)
      (λ g k in_t. ground arith) sound
act-IsSound team_id (renames group_id name) s ids keys timely sound =
    shrunk s (fold_of (rename_group team_id group_id name s)) (ground arith)
      (λ g k in_t. ground arith) sound
act-IsSound team_id (deletes removed group_dropped role_dropped group_id) s ids keys timely sound =
    let members = find_many (λ (d : Device). opt_eq d.group_id (some group_id)) s.devices in
    elim (any (is_group_in team_id group_id) s.groups)
      as (λ b. IsSound (
        fold_of (
          if b
          then drop_group group_dropped role_dropped group_id (detach removed group_id members s)
          else failed group_not_found s))) [
            | true ↦
                drop_group-IsSound group_dropped role_dropped group_id
                  (detach removed group_id members s)
                  (detach-IsSound removed group_id members s sound)
            | false ↦ sound
          ]
act-IsSound team_id (moves removed added device_id group) s ids keys timely sound =
    elim (Option-cases (find_first (is_device_in team_id device_id) s.devices)) [
      | inl gone ↦
          shrunk s (fold_of (set_device_group removed added team_id device_id group s))
            (ground arith) (λ g k in_t. ground arith) sound
      | inr (device, found) ↦
          let by_key =
            find_first-own public_id (is_device_in team_id device_id) s.devices keys found in
          let by_id = find_first-own id_of (is_device_in team_id device_id) s.devices ids found in
          let moved : IsSound (
              fold_of (
                if is_target team_id group s
                then leave removed added device device.group_id group s
                else failed group_not_found s)) =
            elim (is_target team_id group s)
              as (λ b. IsSound (
                fold_of (
                  if b
                  then leave removed added device device.group_id group s
                  else failed group_not_found s))) [
                    | true ↦
                        leave-IsSound device s.devices ids keys by_key by_id removed added
                          device.group_id group s timely refl refl sound
                    | false ↦ sound
                  ] in
          let same : (if is_target team_id group s
                then leave removed added device device.group_id group s
                else failed group_not_found s)
              ≡ set_device_group removed added team_id device_id group s =
            ground arith in
          subst (λ r. IsSound (fold_of r)) same moved
    ]
