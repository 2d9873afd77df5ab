-- ===== src/Groups/Steps.antt =====
-- server/modules/devices/group.service.ts: a device that leaves a group and joins another, whatever the
-- broker answers.
use zenstier.Prelude.{
  ℕ, ◌≡◌, refl, sym, ap, ◌∙◌, Bool, true, false, Option, none, some, List, arith, ◌==◌, ==_refl,
  opt_eq, if◌then◌else◌, find_first, update_many, Distinct, Bool-cases, inl, inr,
}
use zenstier.Fleet.{Device}
use zenstier.Groups.{
  Fold, Answer, lost, by_answer, fold_of, add_member, remove_member, put_group, write_group, join,
  leave,
}
use zenstier.Groups.Moves.{id_of, public_id, group_in, group_of, group_of-write, IsSound}

-- Carried out, and the answer late.
abbrev pub is_lost : Answer → Bool
is_lost lost = true
is_lost _ = false

-- Fewer members stay sound.
pub shrunk :
    (s t : Fold)
    → t.devices ≡ s.devices
    → ((g k : ℕ) → t.subscribed g k ≡ true → s.subscribed g k ≡ true)
    → IsSound s
    → IsSound t
shrunk s t e h sound g k in_t = ap (group_of k) e ∙ sound g k (h g k in_t)

pub remove_member-IsSound :
    (group_id device_id : ℕ) (s : Fold) → IsSound s → IsSound (remove_member group_id device_id s)
remove_member-IsSound group_id device_id s =
    shrunk s (remove_member group_id device_id s) refl (λ g k in_t. ground arith)

module _ (device : Device) (devices : List Device) (ids : Distinct id_of devices)
    (keys : Distinct public_id devices)
    (by_key : find_first (λ (d : Device). d.device_id == device.device_id) devices ≡ some device)
    (by_id : find_first (λ (d : Device). d.id == device.id) devices ≡ some device) where
  write-IsSound :
      (group : Option ℕ) (s : Fold)
      → s.devices ≡ devices
      → ((g k : ℕ)
          → (k == device.device_id) ≡ false
          → s.subscribed g k ≡ true
          → group_of k devices ≡ some g)
      → ((g : ℕ) → s.subscribed g device.device_id ≡ true → group ≡ some g)
      → IsSound (fold_of (write_group group device s))
  write-IsSound group s e others mine g k in_s =
      let seen =
        ap (λ ds. group_of k (update_many (λ (d : Device). d.id == device.id) (put_group group) ds))
          e
        ∙ group_of-write device devices ids keys by_key by_id group k in
      elim (Bool-cases (k == device.device_id)) [
        | inl me ↦
            let same : k ≡ device.device_id = ground arith in
            seen
            ∙ ap (λ b. if b then group else group_of k devices) me
            ∙ mine g (sym (ap (s.subscribed g) same) ∙ in_s)
        | inr other ↦
            seen ∙ ap (λ b. if b then group else group_of k devices) other ∙ others g k other in_s
      ]

  -- Where the broker has the device in a group, that is its old and its new one.
  abbrev Ready : Option ℕ → Fold → Type 0
  Ready group s =
      (g : ℕ)
      → s.subscribed g device.device_id ≡ true
      → (device.group_id ≡ some g) × (group ≡ some g)

  join-IsSound :
      (added : Answer) (group : Option ℕ) (s : Fold)
      → is_lost added ≡ false
      → s.devices ≡ devices
      → IsSound s
      → Ready group s
      → IsSound (fold_of (join added device group s))
  join-IsSound added none s timely e sound ready =
      write-IsSound none s e (λ g k other in_s. sym (ap (group_of k) e) ∙ sound g k in_s)
        (λ g in_s. (ready g in_s).1)
  join-IsSound added (some g0) s timely e sound ready =
      elim (Bool-cases (opt_eq device.group_id (some g0))) [
        | inl stays ↦ rw stays (
            write-IsSound (some g0) s e (λ g k other in_s. sym (ap (group_of k) e) ∙ sound g k in_s)
              (λ g in_s. (ready g in_s).1))
        | inr moves ↦ rw moves (
            elim added
                as (λ b.
                  is_lost b ≡ false
                  → IsSound (
                      fold_of (
                        by_answer b s (add_member g0 device.device_id s)
                          (write_group (some g0) device)))) [
                            | Answer.agreed ↦ λ late.
                                write-IsSound (some g0) (add_member g0 device.device_id s) e
                                  (λ g k other in_s.
                                    sym (ap (group_of k) e) ∙ sound g k (ground arith))
                                  (λ g in_s. elim (Bool-cases (g == g0)) [
                                    | inl same ↦ ground arith
                                    | inr apart ↦ (ready g (ground arith)).1
                                  ])
                            | Answer.refused ↦ λ late. sound
                            | Answer.lost ↦ λ late. absurd (ground arith)
                          ]
              timely)
      ]

  known :
      (s : Fold)
      → s.devices ≡ devices
      → IsSound s
      → (g : ℕ) → s.subscribed g device.device_id ≡ true
      → device.group_id ≡ some g
  known s e sound g in_s =
      sym (ap group_in by_key)
      ∙ sym (ap (group_of device.device_id) e)
      ∙ sound g device.device_id in_s

  pub leave-IsSound :
      (removed added : Answer) (old group : Option ℕ) (s : Fold)
      → is_lost added ≡ false
      → s.devices ≡ devices
      → device.group_id ≡ old
      → IsSound s
      → IsSound (fold_of (leave removed added device old group s))
  leave-IsSound removed added none group s timely e was sound =
      join-IsSound added group s timely e sound
        (λ g in_s. absurd (ground (arith, known s e sound g in_s)))
  leave-IsSound removed added (some o) group s timely e was sound =
      elim (Bool-cases (opt_eq (some o) group)) [
        | inl stays ↦ rw stays (
            join-IsSound added group s timely e sound
              (λ g in_s. (known s e sound g in_s, ground (arith, known s e sound g in_s))))
        | inr moves ↦
            rw moves
              (elim removed
                as (λ b. IsSound (
                  fold_of (
                    by_answer b s (remove_member o device.device_id s)
                      (join added device group)))) [
                        | Answer.agreed ↦
                            join-IsSound added group (remove_member o device.device_id s) timely e
                              (remove_member-IsSound o device.device_id s sound)
                              (λ g in_s. absurd (
                                ground (
                                  arith,
                                  known s e sound g (ground arith),
                                  ==_refl device.device_id,
                                )))
                        | Answer.refused ↦ sound
                        | Answer.lost ↦ remove_member-IsSound o device.device_id s sound
                      ])
      ]
