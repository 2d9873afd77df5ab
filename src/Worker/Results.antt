-- ===== src/Worker/Results.antt =====
-- What the messages of agents do to the commands, in any order.
use zenstier.Prelude.{
  ℕ, ◌≡◌, refl, ◌≢◌, Bool, true, false, ◌&&◌, some, List, [], ◌∷◌, arith, ◌==◌, ==_iff,
  if◌then◌else◌, touch, find_first-update_many, find_first-holds, Option-cases, Bool-cases, inl,
  inr, sym, subst, All, ◌∙◌, or_else,
}
use zenstier.Protocol.{
  Raw, empty, invalid, parsed, StatusPayload, ResultPayload, accepted, chunk, result, ResultKind,
}
use zenstier.Fleet.{Command, World, command_by, is_terminal}
use zenstier.Worker.{
  Arrival, status, report, uptime, receive, receive_all, handle_status, handle_result, owns,
  map_status, is_waiting, set_running, set_result, on_kind, on_accepted, on_result, is_queued,
}

commands-handle_status :
    (now : ℕ) (broker_up : Bool) (device_id : ℕ) (raw : Raw StatusPayload) (w : World)
    → (handle_status now broker_up device_id raw w).commands ≡ w.commands
unfolding handle_status
commands-handle_status now broker_up device_id empty w = refl
commands-handle_status now broker_up device_id invalid w = refl
commands-handle_status now broker_up device_id (parsed p) w = ground arith

-- What an accepted and a result message write to the row of a command.
command_by-on_accepted :
    (id now device_id : ℕ) (p : ResultPayload) (w : World)
    → command_by id (on_accepted now device_id p w) ≡ (
        if is_queued p.status
        then command_by id w
        else touch
            (λ (c : Command). c.id == p.id && is_waiting c.status)
            (set_running now)
            (command_by id w))
command_by-on_accepted id now device_id p w = ground (
  arith,
  find_first-update_many (λ (c : Command). c.id == id)
      (λ (c : Command). c.id == p.id && is_waiting c.status) (set_running now) w.commands
      (λ c. refl),
)

command_by-on_result :
    (id now device_id : ℕ) (p : ResultPayload) (w : World)
    → command_by id (on_result now device_id p w)
      ≡ touch (λ (c : Command). c.id == p.id) (set_result now p) (command_by id w)
command_by-on_result id now device_id p w =
    find_first-update_many (λ (c : Command). c.id == id) (λ (c : Command). c.id == p.id)
      (set_result now p) w.commands (λ c. refl)

-- The row found by an id has that id.
id_of-command_by : (id : ℕ) (w : World) {c : Command} → command_by id w ≡ some c → c.id ≡ id
id_of-command_by id w {c} h =
    (==_iff c.id id).0 (find_first-holds (λ (x : Command). x.id == id) w.commands {a = c} h)

abbrev pub may_write : ℕ → Raw ResultPayload → Command → World → Bool
may_write device_id (parsed p) c w = c.id == p.id && owns device_id c w
may_write device_id _ c w = false

kind-other :
    (kind : ResultKind) (now device_id : ℕ) (named c : Command) (p : ResultPayload) (w : World)
    (id : ℕ)
    → command_by id w ≡ some c
    → (c.id == p.id) ≡ false
    → command_by id (on_kind kind now device_id named p w) ≡ some c
kind-other accepted now device_id named c p w id found other =
    ground (arith, command_by-on_accepted id now device_id p w)
kind-other chunk now device_id named c p w id found other = found
kind-other result now device_id named c p w id found other =
    ground (arith, command_by-on_result id now device_id p w)

-- A report touches no command but the one that it names, and that only if the device owns it.
pub report-other :
    (now device_id : ℕ) (raw : Raw ResultPayload) (w : World) (id : ℕ) (c : Command)
    → command_by id w ≡ some c
    → may_write device_id raw c w ≡ false
    → command_by id (handle_result now device_id raw w) ≡ some c
unfolding handle_result
report-other now device_id empty w id c found other = found
report-other now device_id invalid w id c found other = found
report-other now device_id (parsed p) w id c found other = elim (Bool-cases (c.id == p.id)) [
  | inl named ↦
      let same : id ≡ p.id = sym (id_of-command_by id w found) ∙ (==_iff c.id p.id).0 named in
      let found' : command_by p.id w ≡ some c = subst (λ k. command_by k w ≡ some c) same found in
      rw (found', handle_result) (ground arith)
  | inr unnamed ↦ elim (Option-cases (command_by p.id w)) [
    | inl missing ↦ rw (missing, handle_result) found
    | inr (n, found') ↦
        let skip = kind-other p.kind now device_id n c p w id found unnamed in
        rw (found', handle_result) (ground (arith, skip))
  ]
]

-- An accepted or a chunk message leaves a finished command as it is.
abbrev pub is_final : Raw ResultPayload → ℕ → Bool
is_final (parsed p) id = (elim p.kind [ result ↦ true | _ ↦ false ]) && p.id == id
is_final _ id = false

kind-terminal :
    (kind : ResultKind) (now device_id : ℕ) (named c : Command) (p : ResultPayload) (w : World)
    (id : ℕ)
    → command_by id w ≡ some c
    → is_terminal c.status ≡ true
    → kind ≢ result
    → command_by id (on_kind kind now device_id named p w) ≡ some c
kind-terminal accepted now device_id named c p w id found done other =
    ground (arith, command_by-on_accepted id now device_id p w)
kind-terminal chunk now device_id named c p w id found done other = found
kind-terminal result now device_id named c p w id found done other = absurd (other refl)

report-terminal :
    (now device_id : ℕ) (raw : Raw ResultPayload) (w : World) (id : ℕ) (c : Command)
    → command_by id w ≡ some c
    → is_terminal c.status ≡ true
    → is_final raw id ≡ false
    → command_by id (handle_result now device_id raw w) ≡ some c
unfolding handle_result
report-terminal now device_id empty w id c found done other = found
report-terminal now device_id invalid w id c found done other = found
report-terminal now device_id (parsed p) w id c found done other =
    elim (Bool-cases (c.id == p.id)) [
      | inr unnamed ↦ report-other now device_id (parsed p) w id c found (rw unnamed)
      | inl named ↦
          let same : p.id ≡ id = sym ((==_iff c.id p.id).0 named) ∙ id_of-command_by id w found in
          let not_result : p.kind ≢ result = λ e. ground arith in
          elim (Option-cases (command_by p.id w)) [
            | inl missing ↦ rw (missing, handle_result) found
            | inr (n, found') ↦
                let skip = kind-terminal p.kind now device_id n c p w id found done not_result in
                rw (found', handle_result) (ground (arith, skip))
          ]
    ]

abbrev pub finishes : Arrival → ℕ → Bool
finishes (status now broker_up device_id raw) id = false
finishes (uptime now seconds) id = false
finishes (report now device_id raw) id = is_final raw id

-- Once a command has its result, no message but a further result for it changes anything of it:
-- late "accepted" and chunk messages, reports of other devices and on other commands, malformed
-- payloads and status messages, in any number and order.
pub receive_all-terminal :
    (arrivals : List Arrival) (w : World) (id : ℕ) (c : Command)
    → command_by id w ≡ some c
    → is_terminal c.status ≡ true
    → All (λ a. finishes a id ≡ false) arrivals
    → command_by id (receive_all arrivals w) ≡ some c
unfolding receive_all receive
receive_all-terminal [] w id c found done h = found
receive_all-terminal (status now broker_up device_id raw ∷ rest) w id c found done (h, hs) =
    receive_all-terminal rest _ id c (rw commands-handle_status found) done hs
receive_all-terminal (uptime now seconds ∷ rest) w id c found done (h, hs) =
    receive_all-terminal rest _ id c (ground arith) done hs
receive_all-terminal (report now device_id raw ∷ rest) w id c found done (h, hs) =
    receive_all-terminal rest _ id c (report-terminal now device_id raw w id c found done h) done hs

report-result :
    (now device_id : ℕ) (p : ResultPayload) (w : World) (c : Command)
    → command_by p.id w ≡ some c
    → owns device_id c w ≡ true
    → p.kind ≡ result
    → command_by p.id (handle_result now device_id (parsed p) w) ≡ some (set_result now p c)
unfolding handle_result
report-result now device_id p w c found own kind =
    let self = id_of-command_by p.id w found in
    rw (found, handle_result) (ground (arith, command_by-on_result p.id now device_id p w))

-- What the row of a command holds of a result.
abbrev pub Holds : (now : ℕ) → ResultPayload → Command → Type 0
Holds now p r =
    (r.status ≡ map_status p.status)
    × (r.exit_code ≡ p.exit_code)
    × (r.stdout ≡ p.stdout)
    × (r.stderr ≡ p.stderr)
    × (r.truncated ≡ or_else p.truncated false)
    × (r.error ≡ p.error)
    × (r.duration_ms ≡ p.duration_ms)
    × (r.finished_at ≡ some (or_else p.finished_at now))

-- The row as the result writes it is what is left.
pub receive_all-set_result :
    (now device_id : ℕ) (p : ResultPayload) (w : World) (c : Command) (later : List Arrival)
    → command_by p.id w ≡ some c
    → owns device_id c w ≡ true
    → p.kind ≡ result
    → is_terminal (map_status p.status) ≡ true
    → All (λ a. finishes a p.id ≡ false) later
    → command_by p.id (receive_all (report now device_id (parsed p) ∷ later) w)
      ≡ some (set_result now p c)
unfolding receive_all receive
receive_all-set_result now device_id p w c later found own kind done h =
    receive_all-terminal later _ p.id (set_result now p c)
      (report-result now device_id p w c found own kind) done h
