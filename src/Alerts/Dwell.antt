-- ===== src/Alerts/Dwell.antt =====
-- When an alert fires. The history of one rule and device is the list of its samples, newest first.
use zenstier.Prelude.{
  ℕ, suc, ◌+◌, ◌*◌, ◌≤◌, ◌<◌, ◌≡◌, refl, ◌↔◌, Bool, true, false, ◌&&◌, Option, none, some, List, [],
  ◌∷◌, arith, or_else, if◌then◌else◌, All, All-mono, ◌++◌, Option-cases, inl, inr,
}
use zenstier.Alerts.{
  AlertRule, AlertRuleState, Reading, Notice, fired, resolved, was_firing, since_of, should_fire,
  judge, announce,
}

pub record Sample : Type 0 where
  pub now : ℕ
  pub reading : Reading

-- The row after the samples.
unfoldable pub row : AlertRule → List Sample → Option AlertRuleState
row rule [] = none
row rule (x ∷ older) = judge x.now rule x.reading (row rule older)

-- Whether the newest sample fires the alert.
abbrev pub fires : AlertRule → Sample → List Sample → Bool
fires rule x older = x.reading.breached && should_fire x.now rule (row rule older)

-- Independently of the rows: when the condition, true at the newest sample, became true.
abbrev pub held_since : List Sample → Option ℕ
held_since [] = none
held_since (x ∷ older) =
    if x.reading.breached then some (or_else (held_since older) x.now) else none

abbrev column : Option AlertRuleState → Option ℕ
column none = none
column (some e) = e.since

row-held_since : (rule : AlertRule) (h : List Sample) → column (row rule h) ≡ held_since h
unfolding row judge
row-held_since rule [] = refl
row-held_since rule (x ∷ older) = ground (arith, row-held_since rule older)

-- Times do not go back, so the newest sample is the latest.
abbrev pub Descends : ℕ → List Sample → Type 0
Descends t [] = Unit
Descends t (x ∷ older) = (x.now ≤ t) × Descends x.now older

All-before :
    (h : List Sample) (t : ℕ) (s : ℕ)
    → Descends t h
    → t ≤ s
    → All (λ y. y.reading.breached ≡ false → y.now ≤ s) h
All-before [] t s d k = tt
All-before (x ∷ older) t s (b, d) k = (λ e. omega arith, All-before older x.now s d (omega arith))

-- A sample that is not breached lies before the current breach.
ok_before :
    (h : List Sample) (t s : ℕ)
    → Descends t h
    → held_since h ≡ some s
    → All (λ y. y.reading.breached ≡ false → y.now ≤ s) h
ok_before [] t s d e = tt
ok_before (x ∷ older) t s (b, d) e = elim (Option-cases (held_since older)) [
  | inl fresh ↦ (λ bad. ground arith, All-before older x.now s d (ground arith))
  | inr (s', held) ↦
      let same : s' ≡ s = ground arith in
      (λ bad. ground arith, ok_before older x.now s d (rw same at held))
]

held_since-breach :
    (rule : AlertRule) (x : Sample) (older : List Sample)
    → x.reading.breached ≡ true
    → held_since (x ∷ older) ≡ some (since_of x.now (row rule older))
held_since-breach rule x older b = ground (arith, row-held_since rule older)

-- An alert fires at a sample only if the condition has held continuously for the rule's minutes: no
-- sample of that time, up to the newest, was within the threshold, and the alert was not firing.
pub fires-held :
    (rule : AlertRule) (x : Sample) (older : List Sample)
    → Descends x.now older
    → fires rule x older ≡ true
    → (x.reading.breached ≡ true)
      × All (λ y. x.now < y.now + rule.for_minutes * 60000 → y.reading.breached ≡ true) older
      × (was_firing (row rule older) ≡ false)
fires-held rule x older d f =
    let start = since_of x.now (row rule older) in
    let begun = held_since-breach rule x older (ground arith) in
    let long : start + rule.for_minutes * 60000 ≤ x.now = ground arith in
    let bad = (ok_before (x ∷ older) x.now start (omega arith, d) begun).1 in
    (
      ground arith,
      All-mono older (λ y before recent. within y before recent long) bad,
      ground arith,
    )
  where
    within :
        (y : Sample)
        → (y.reading.breached ≡ false → y.now ≤ since_of x.now (row rule older))
        → x.now < y.now + rule.for_minutes * 60000
        → since_of x.now (row rule older) + rule.for_minutes * 60000 ≤ x.now
        → y.reading.breached ≡ true
    within y before recent long = ground arith

-- The rounds of one rule and device, newest sample first, with what they announce.
unfoldable pub announced : AlertRule → List Sample → List Notice
announced rule [] = []
announced rule (x ∷ older) = announce x.now rule x.reading (row rule older) ++ announced rule older

abbrev pub fired_count : List Notice → ℕ
fired_count [] = 0
fired_count (fired r d ∷ ns) = suc (fired_count ns)
fired_count (resolved r d ∷ ns) = fired_count ns

abbrev pub resolved_count : List Notice → ℕ
resolved_count [] = 0
resolved_count (fired r d ∷ ns) = resolved_count ns
resolved_count (resolved r d ∷ ns) = suc (resolved_count ns)

-- Firing and resolving alternate: over any samples an alert has fired as often as it has resolved,
-- and once more exactly while it is firing.
pub announced_alternate :
    (rule : AlertRule) (h : List Sample)
    → fired_count (announced rule h)
      ≡ resolved_count (announced rule h) + (if was_firing (row rule h) then 1 else 0)
unfolding announced row judge announce
announced_alternate rule [] = refl
announced_alternate rule (x ∷ older) = ground (arith, announced_alternate rule older)

-- An alert fires at a sample exactly when the condition holds there, became true at least the rule's
-- minutes before, and every earlier firing has been resolved.
pub fires_iff :
    (rule : AlertRule) (x : Sample) (older : List Sample)
    → (fires rule x older ≡ true) ↔ (
        (s : ℕ) × (held_since (x ∷ older) ≡ some s)
        × (s + rule.for_minutes * 60000 ≤ x.now)
        × (fired_count (announced rule older) ≡ resolved_count (announced rule older)))
fires_iff rule x older =
    let even = announced_alternate rule older in
    let begun = held_since-breach rule x older in
    (
      λ f. (since_of x.now (row rule older), begun (ground arith), ground arith, ground arith),
      λ (s, held, long, quiet).
          let breach : x.reading.breached ≡ true = ground arith in
          let same = begun breach in ground arith,
    )
