-- ===== src/Worker/Output.antt =====
-- Streamed output under at-least-once delivery.
use zenstier.Prelude.{
  ℕ, ◌≤◌, ◌≡◌, refl, ap, subst, ◌⊎◌, Bool, true, Option, none, some, List, [], ◌∷◌, arith,
  if◌then◌else◌, find_first, find_first-insert, count, count-insert, count-find_first-none,
  Option-cases, Bool-cases, inl, inr, or_else,
}
use zenstier.Protocol.{
  Raw, empty, invalid, parsed, StatusPayload, ResultPayload, ResultKind, accepted, chunk, result,
}
use zenstier.Fleet.{CommandOutput, Command, World, command_by}
use zenstier.Worker.{
  Arrival, status, report, uptime, receive, receive_all, handle_status, handle_result, owns,
  on_kind, create_output, at_output, output_of,
}

-- The rows with one unique key.
abbrev pub copies : (command_id seq : ℕ) → World → ℕ
copies command_id seq w = count (at_output command_id seq) w.outputs

abbrev pub stored : (command_id seq : ℕ) → World → Option CommandOutput
stored command_id seq w = find_first (at_output command_id seq) w.outputs

-- The outputs after a message: as they were, or with one `create_output`.
abbrev Writes : List CommandOutput → List CommandOutput → Type 0
Writes before after = (after ≡ before) ⊎ ((o : CommandOutput) × (after ≡ create_output o before))

outputs-handle_status :
    (now : ℕ) (broker_up : Bool) (device_id : ℕ) (raw : Raw StatusPayload) (w : World)
    → (handle_status now broker_up device_id raw w).outputs ≡ w.outputs
unfolding handle_status
outputs-handle_status now broker_up device_id empty w = refl
outputs-handle_status now broker_up device_id invalid w = refl
outputs-handle_status now broker_up device_id (parsed p) w = ground arith

kind-Writes :
    (kind : ResultKind) (now device_id : ℕ) (c : Command) (p : ResultPayload) (w : World)
    → Writes w.outputs (on_kind kind now device_id c p w).outputs
kind-Writes accepted now device_id c p w = inl (ground arith)
kind-Writes chunk now device_id c p w = inr (output_of c p, refl)
kind-Writes result now device_id c p w = inl refl

receive-Writes : (a : Arrival) (w : World) → Writes w.outputs (receive a w).outputs
unfolding receive handle_result
receive-Writes (uptime now seconds) w = inl (ground arith)
receive-Writes (status now broker_up device_id raw) w =
    inl (outputs-handle_status now broker_up device_id raw w)
receive-Writes (report now device_id empty) w = inl refl
receive-Writes (report now device_id invalid) w = inl refl
receive-Writes (report now device_id (parsed p)) w = elim (Option-cases (command_by p.id w)) [
  | inl missing ↦ inl (rw (missing, handle_result))
  | inr (c, found) ↦ elim (Bool-cases (owns device_id c w)) [
    | inl own ↦ rw (found, handle_result) (rw own (kind-Writes p.kind now device_id c p w))
    | inr other ↦ inl (rw (found, handle_result) (rw other))
  ]
]

create_output-copies :
    (o : CommandOutput) (os : List CommandOutput) (command_id seq : ℕ)
    → count (at_output command_id seq) os ≤ 1
    → count (at_output command_id seq) (create_output o os) ≤ 1
create_output-copies o os command_id seq h =
    elim (Option-cases (find_first (at_output o.command_id o.seq) os)) [
      | inr (x, there) ↦ rw there h
      | inl free ↦
          let new = count-insert (at_output command_id seq) o os in
          let none_yet = count-find_first-none (at_output o.command_id o.seq) os free in
          rw free (elim (Bool-cases (at_output command_id seq o)) [
            | inr unlike ↦ ground arith
            | inl like ↦
                let e : o.command_id ≡ command_id = ground arith in
                let f : o.seq ≡ seq = ground arith in
                let none_yet' : count (at_output command_id seq) os ≡ 0 =
                  subst (λ n. count (at_output command_id n) os ≡ 0) f
                    (subst (λ n. count (at_output n o.seq) os ≡ 0) e none_yet) in
                omega (arith, new, none_yet', ap {B = ℕ} (λ b. if b then 1 else 0) like)
          ])
    ]

create_output-stored :
    (o x : CommandOutput) (os : List CommandOutput) (command_id seq : ℕ)
    → find_first (at_output command_id seq) os ≡ some x
    → find_first (at_output command_id seq) (create_output o os) ≡ some x
create_output-stored o x os command_id seq h =
    ground (arith, find_first-insert (at_output command_id seq) o os)

receive-copies :
    (a : Arrival) (w : World) (command_id seq : ℕ)
    → copies command_id seq w ≤ 1
    → copies command_id seq (receive a w) ≤ 1
receive-copies a w command_id seq h = elim (receive-Writes a w) [
  | inl same ↦ rw same h
  | inr (o, made) ↦ rw made (create_output-copies o w.outputs command_id seq h)
]

receive-stored :
    (a : Arrival) (w : World) (command_id seq : ℕ) (o : CommandOutput)
    → stored command_id seq w ≡ some o
    → stored command_id seq (receive a w) ≡ some o
receive-stored a w command_id seq o h = elim (receive-Writes a w) [
  | inl same ↦ rw same h
  | inr (x, made) ↦ rw made (create_output-stored x o w.outputs command_id seq h)
]

-- However often and in whatever order messages are delivered, there is at most one row of output
-- for a command and a sequence number, and a row once stored stays as it is.
pub receive_all-outputs :
    (arrivals : List Arrival) (w : World) (command_id seq : ℕ)
    → copies command_id seq w ≤ 1
    → (copies command_id seq (receive_all arrivals w) ≤ 1)
      × ((o : CommandOutput)
          → stored command_id seq w ≡ some o
          → stored command_id seq (receive_all arrivals w) ≡ some o)
unfolding receive_all
receive_all-outputs [] w command_id seq h = (h, λ o found. found)
receive_all-outputs (a ∷ rest) w command_id seq h =
    let (few, kept) =
      receive_all-outputs rest (receive a w) command_id seq (receive-copies a w command_id seq h) in
    (few, λ o found. kept o (receive-stored a w command_id seq o found))

-- A chunk of a device's own command, the first with its sequence number, is stored as it was sent.
pub report-chunk :
    (now device_id : ℕ) (p : ResultPayload) (w : World) (c : Command)
    → command_by p.id w ≡ some c
    → owns device_id c w ≡ true
    → p.kind ≡ chunk
    → stored p.id (or_else p.seq 0) w ≡ none
    → stored p.id (or_else p.seq 0) (receive (report now device_id (parsed p)) w)
      ≡ some (output_of c p)
unfolding receive handle_result
report-chunk now device_id p w c found own kind free =
    let o = output_of c p in
    rw (found, handle_result)
      (ground (arith, find_first-insert (at_output p.id (or_else p.seq 0)) o w.outputs))
