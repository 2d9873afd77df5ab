-- ===== src/Groups/Moves.antt =====
-- server/modules/devices/group.service.ts: moving a device keeps the broker and the table together.
use zenstier.Prelude.{
  ℕ, ◌≡◌, refl, sym, ap, ◌∙◌, subst, true, false, ◌&&◌, Option, none, some, List, arith, ◌==◌,
  ==_refl, opt_eq, if◌then◌else◌, find_first, update_many, touch, Distinct, Option-cases,
  Bool-cases, inl, inr, find_first-holds, find_first-own, find_first-update_many,
}
use zenstier.Fleet.{Device}
use zenstier.Groups.{
  Fold, Answer, by_answer, Outcome, done, failed, is_device_in, add_member, remove_member,
  put_group, write_group, join, leave, set_device_group,
}

abbrev pub id_of : Device → ℕ
id_of d = d.id

abbrev pub public_id : Device → ℕ
public_id d = d.device_id

abbrev pub group_in : Option Device → Option ℕ
group_in none = none
group_in (some d) = d.group_id

-- The group of the device with a public id, by the table: the abstract view of both.
abbrev pub group_of : ℕ → List Device → Option ℕ
group_of k devices = group_in (find_first (λ (d : Device). d.device_id == k) devices)

-- The broker has a device in exactly the group that the table says.
abbrev pub IsExact : Fold → Type 0
IsExact s = (g k : ℕ) → s.subscribed g k ≡ opt_eq (group_of k s.devices) (some g)

-- The broker has a device in no group but the one that the table says.
abbrev pub IsSound : Fold → Type 0
IsSound s = (g k : ℕ) → s.subscribed g k ≡ true → group_of k s.devices ≡ some g

module _ (device : Device) (devices : List Device) (ids : Distinct id_of devices)
    (keys : Distinct public_id devices)
    (by_key : find_first (λ (d : Device). d.device_id == device.device_id) devices ≡ some device)
    (by_id : find_first (λ (d : Device). d.id == device.id) devices ≡ some device) where
  -- Only the one device changes its group.
  pub group_of-write :
      (group : Option ℕ) (k : ℕ)
      → group_of k (update_many (λ (d : Device). d.id == device.id) (put_group group) devices)
        ≡ (if k == device.device_id then group else group_of k devices)
  group_of-write group k =
      let moved =
        find_first-update_many (λ (d : Device). d.device_id == k)
          (λ (d : Device). d.id == device.id) (put_group group) devices (λ d. refl) in
      let by = λ (i : ℕ). find_first (λ (d : Device). d.device_id == i) devices in
      let with_id = λ (i : ℕ). find_first (λ (d : Device). d.id == i) devices in
      elim (Option-cases (by k)) [
        | inl gone ↦
            let other : (k == device.device_id) ≡ false =
              elim (Bool-cases (k == device.device_id)) [
                | inl mine ↦
                    let same_key : k ≡ device.device_id = ground arith in
                    absurd (ground (arith, ap by same_key))
                | inr apart ↦ apart
              ] in
            ap group_in moved
            ∙ ap (λ o. group_in (touch (λ (d : Device). d.id == device.id) (put_group group) o))
                gone
            ∙ ground (arith, ap group_in gone)
        | inr (x, there) ↦
            let touched =
              ap group_in moved
              ∙ ap (λ o. group_in (touch (λ (d : Device). d.id == device.id) (put_group group) o))
                  there in
            elim (Bool-cases (k == device.device_id)) [
              | inl mine ↦
                  let same_key : k ≡ device.device_id = ground arith in
                  let same : some x ≡ some device = sym there ∙ ap by same_key ∙ by_key in
                  let same_id : x.id ≡ device.id = ground arith in touched ∙ ground arith
              | inr other ↦
                  let own =
                    find_first-own id_of (λ (d : Device). d.device_id == k) devices ids there in
                  let key = find_first-holds (λ (d : Device). d.device_id == k) devices there in
                  let apart : (x.id == device.id) ≡ false = elim (Bool-cases (x.id == device.id)) [
                    | inl same_id ↦
                        let met : some x ≡ some device =
                          sym own ∙ ap with_id (ground arith) ∙ by_id in
                        absurd (ground arith)
                    | inr apart ↦ apart
                  ] in
                  touched ∙ ground (arith, ap group_in there)
            ]
      ]

  view : (s : Fold) → s.devices ≡ devices → (k : ℕ) → group_of k s.devices ≡ group_of k devices
  view s e k = ap (group_of k) e

  -- A device that joins: where the broker has it in a group before, that is its old and its new one.
  abbrev Ready : Option ℕ → Fold → Type 0
  Ready group s =
      (g : ℕ)
      → s.subscribed g device.device_id ≡ (opt_eq device.group_id (some g) && opt_eq group (some g))

  -- The broker is exact on the other devices.
  abbrev Others : Fold → Type 0
  Others s =
      (g k : ℕ)
      → (k == device.device_id) ≡ false
      → s.subscribed g k ≡ opt_eq (group_of k devices) (some g)

  abbrev Written : Option ℕ → Fold → Type 0
  Written group s =
      (g k : ℕ)
      → s.subscribed g k
        ≡ opt_eq (if k == device.device_id then group else group_of k devices) (some g)

  written :
      (group : Option ℕ) (s : Fold)
      → Others s
      → ((g : ℕ) → s.subscribed g device.device_id ≡ opt_eq group (some g))
      → Written group s
  written group s others mine g k = elim (Bool-cases (k == device.device_id)) [
    | inl me ↦
        let same : k ≡ device.device_id = ground arith in
        ap (s.subscribed g) same
        ∙ mine g
        ∙ ap (λ b. opt_eq (if b then group else group_of k devices) (some g)) (sym me)
    | inr other ↦
        others g k other
        ∙ ap (λ b. opt_eq (if b then group else group_of k devices) (some g)) (sym other)
  ]

  -- What a join that goes through has written.
  abbrev Joined : Option ℕ → Outcome → Type 0
  Joined group (failed e s) = Unit
  Joined group (done s) =
      Written group s
      × (s.devices ≡ update_many (λ (d : Device). d.id == device.id) (put_group group) devices)

  join-Joined :
      (added : Answer) (group : Option ℕ) (s : Fold)
      → s.devices ≡ devices
      → Others s
      → Ready group s
      → Joined group (join added device group s)
  join-Joined added none s e others ready = (
    written none s others (λ g. ready g ∙ ground arith),
    ap (update_many (λ (d : Device). d.id == device.id) (put_group none)) e,
  )
  join-Joined added (some g0) s e others ready =
      elim (Bool-cases (opt_eq device.group_id (some g0))) [
        | inl stays ↦ rw stays (
          written (some g0) s others (λ g. ready g ∙ ground arith),
          ap (update_many (λ (d : Device). d.id == device.id) (put_group (some g0))) e,
        )
        | inr moves ↦
            rw moves
              (elim added
                as (λ b. Joined (some g0) (
                  by_answer b s (add_member g0 device.device_id s)
                    (write_group (some g0) device))) [
                      | Answer.agreed ↦ (
                        written (some g0) (add_member g0 device.device_id s)
                            (λ g k other. ground (arith, others g k other))
                            (λ g. ground (arith, ready g, ==_refl device.device_id)),
                        ap (update_many (λ (d : Device). d.id == device.id) (put_group (some g0)))
                            e,
                      )
                      | Answer.refused ↦ tt
                      | Answer.lost ↦ tt
                    ])
      ]

  -- From an exact broker: leaving the old group makes the device ready for the new one.
  leave-Joined :
      (removed added : Answer) (old group : Option ℕ) (s : Fold)
      → s.devices ≡ devices
      → device.group_id ≡ old
      → Others s
      → ((g : ℕ) → s.subscribed g device.device_id ≡ opt_eq old (some g))
      → Joined group (leave removed added device old group s)
  leave-Joined removed added none group s e was others mine =
      join-Joined added group s e others
        (λ g. mine g ∙ ap (λ o. opt_eq o (some g) && opt_eq group (some g)) (sym was))
  leave-Joined removed added (some o) group s e was others mine =
      elim (Bool-cases (opt_eq (some o) group)) [
        | inl stays ↦ rw stays (
            join-Joined added group s e others
              (λ g. ground (arith, mine g, ap (λ z. opt_eq z (some g)) was)))
        | inr moves ↦
            rw moves
              (elim removed
                as (λ b.
                  Joined group (
                    by_answer b s (remove_member o device.device_id s) (join added device group))) [
                      | Answer.agreed ↦
                          join-Joined added group (remove_member o device.device_id s) e
                            (λ g k other. ground (arith, others g k other))
                            (λ g. ground (
                              arith,
                              mine g,
                              ap (λ z. opt_eq z (some g)) was,
                              ==_refl device.device_id,
                            ))
                      | Answer.refused ↦ tt
                      | Answer.lost ↦ tt
                    ])
      ]

  -- What a move that goes through leaves: an exact broker, and the table with the one device moved.
  Joined-IsExact :
      (group : Option ℕ) (s : Fold)
      → Joined group (done s)
      → IsExact s
        × ((k : ℕ)
            → group_of k s.devices ≡ (if k == device.device_id then group else group_of k devices))
  Joined-IsExact group s (written_all, e) =
      let seen = λ (k : ℕ). ap (group_of k) e ∙ group_of-write group k in
      ((λ g k. written_all g k ∙ ap (λ o. opt_eq o (some g)) (sym (seen k))), seen)

-- A move that goes through refines the map from devices to groups: where ids are distinct and the broker
-- has every device in exactly the group of the table, both have the one device in its new group
-- afterwards, or in none, and every other device where it was.
pub set_device_group-IsExact :
    (removed added : Answer) (team_id device_id : ℕ) (group : Option ℕ) (s : Fold) {s' : Fold}
    → Distinct id_of s.devices
    → Distinct public_id s.devices
    → IsExact s
    → set_device_group removed added team_id device_id group s ≡ done s'
    → IsExact s'
      × ((k : ℕ) → group_of k s'.devices ≡ (if k == device_id then group else group_of k s.devices))
unfolding set_device_group
set_device_group-IsExact removed added team_id device_id group s {s'} ids keys exact went =
    elim (Option-cases (find_first (is_device_in team_id device_id) s.devices)) [
      | inl gone ↦ absurd (ground arith)
      | inr (device, found) ↦
          let by_key =
            find_first-own public_id (is_device_in team_id device_id) s.devices keys found in
          let by_id = find_first-own id_of (is_device_in team_id device_id) s.devices ids found in
          let key : device.device_id ≡ device_id =
            ground (arith, find_first-holds (is_device_in team_id device_id) s.devices found) in
          let left : leave removed added device device.group_id group s ≡ done s' = ground arith in
          let here = ap group_in by_key in
          let joined =
            leave-Joined device s.devices ids keys by_key by_id removed added device.group_id group
              s refl refl (λ g k other. exact g k)
              (λ g. exact g device.device_id ∙ ap (λ o. opt_eq o (some g)) here) in
          let (now_exact, seen) =
            Joined-IsExact device s.devices ids keys by_key by_id group s'
              (subst (Joined device s.devices ids keys by_key by_id group) left joined) in
          (now_exact, λ k. seen k ∙ ap (λ i. if k == i then group else group_of k s.devices) key)
    ]
