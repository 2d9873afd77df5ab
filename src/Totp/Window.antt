-- ===== src/Totp/Window.antt =====
-- server/modules/auth/totp.ts: which codes are accepted, and when.
use zenstier.Prelude.{
  ℕ, zero, suc, ◌+◌, ◌-◌, ◌*◌, ◌%◌, ◌^◌, ◌≤◌, ◌<◌, ◌≡◌, ◌↔◌, sym, ap, subst, ◌∙◌, inl, inr, Bool,
  true, false, Option, none, some, List, arith, ltb, if◌then◌else◌, Option-cases, Bool-cases,
}
use zenstier.Totp.{
  base32_decode, code_of_key, decimal, truncated, big_endian, strip_spaces, is_six_digits, same,
  current_counter, code_digits, generate_code, code_at, settle_round, rounds, verify_code,
}
use zenstier.Totp.Codes.{same_refl, same-eq, strip_spaces-digits, generate_code-is_six_digits}

module _ (hmac : (key message : List ℕ) → List ℕ) (secret cleaned : List ℕ)
    (counter window : ℕ) where
  abbrev at : ℕ → Option (List ℕ)
  at = code_at hmac secret counter window

  abbrev later : (n k : ℕ) → Option Bool
  later n k = rounds hmac secret cleaned counter window n (k + 1)

  -- Some code of the rounds is the one submitted.
  abbrev Hit : (n k : ℕ) → Type 0
  Hit n k = (j : ℕ) × (j < n) × (at (k + j) ≡ some cleaned)

  rounds-Hit : (n k : ℕ) → rounds hmac secret cleaned counter window n k ≡ some true → Hit n k
  unfolding rounds settle_round
  rounds-Hit zero k h = ground arith
  rounds-Hit (suc n) k h = elim (Option-cases (at k)) [
    | inl bad ↦ ground (arith, ap (λ o. settle_round o cleaned (later n k)) bad)
    | inr (code, made) ↦
        let step = ap (λ o. settle_round o cleaned (later n k)) made in
        elim (Bool-cases (same code cleaned)) [
          | inl hit ↦
              (0, omega arith, ap at (omega arith) ∙ made ∙ ap some (same-eq code cleaned hit))
          | inr miss ↦
              let (j, lt, found) = rounds-Hit n (k + 1) (ground arith) in
              (suc j, omega arith, ap at (omega arith) ∙ found)
        ]
  ]

  module _ {key : List ℕ} (valid : base32_decode secret ≡ some key) where
    code_made : (k : ℕ) → window ≤ counter + k → (code : List ℕ) × (at k ≡ some code)
    unfolding generate_code code_of_key
    code_made k early = (
      decimal code_digits
          (truncated (hmac key (big_endian 8 (counter + k - window))) % 10 ^ code_digits),
      ground (arith, ap (code_of_key hmac (counter + k - window) code_digits) valid),
    )

    rounds-found :
        (n k : ℕ)
        → window ≤ counter + k
        → Hit n k
        → rounds hmac secret cleaned counter window n k ≡ some true
    unfolding rounds settle_round
    rounds-found zero k early (j, lt, found) = absurd (omega arith)
    rounds-found (suc n) k early (j, lt, found) =
        let (code, made) = code_made k early in
        let step = ap (λ o. settle_round o cleaned (later n k)) made in
        elim (Bool-cases (same code cleaned)) [
          | inl hit ↦ ground arith
          | inr miss ↦
              elim j
                  as (λ i.
                    i < suc n
                    → at (k + i) ≡ some cleaned
                    → rounds hmac secret cleaned counter window (suc n) k ≡ some true) [
                      | zero ↦ λ l e.
                          let same_code : some code ≡ some cleaned =
                            sym made ∙ ap at (omega arith) ∙ e in
                          let c_e : code ≡ cleaned = ground arith in
                          ground (arith, subst (λ c. same code c ≡ true) c_e (same_refl code))
                      | suc i ↦ λ l e.
                          let rest =
                            rounds-found n (k + 1) (omega arith)
                              (i, omega arith, ap at (omega arith) ∙ e) in
                          ground arith
                    ]
                lt found
        ]

code_at_early :
    (hmac : (key message : List ℕ) → List ℕ) (secret : List ℕ) (counter window j c : ℕ)
    → window ≤ counter + j
    → counter + j ≡ c + window
    → code_at hmac secret counter window j ≡ generate_code hmac secret c code_digits
code_at_early hmac secret counter window j c early e =
    let not_yet : ltb (counter + j) window ≡ false = ground arith in
    let same_c : counter + j - window ≡ c = omega arith in
    ap (λ b. if b then none else generate_code hmac secret (counter + j - window) code_digits)
      not_yet
    ∙ ap (λ n. generate_code hmac secret n code_digits) same_c

-- With a secret in base32 and a time past the window, a code is accepted exactly when, without its
-- blanks, it is six digits and is the code of a counter at most `window` steps from the current one.
pub verify_code_iff :
    (hmac : (key message : List ℕ) → List ℕ) (secret submitted key : List ℕ) (window at_ms : ℕ)
    → base32_decode secret ≡ some key
    → window ≤ current_counter at_ms
    → (verify_code hmac secret submitted window at_ms ≡ some true) ↔ (
        (is_six_digits (strip_spaces submitted) ≡ true)
        × ((c : ℕ) × (current_counter at_ms ≤ c + window)
            × (c ≤ current_counter at_ms + window)
            × (generate_code hmac secret c code_digits ≡ some (strip_spaces submitted))))
unfolding verify_code
verify_code_iff hmac secret submitted key window at_ms valid early =
    let cleaned = strip_spaces submitted in
    let now = current_counter at_ms in
    elim (Bool-cases (is_six_digits cleaned)) [
      | inr other ↦ (λ h. ground arith, λ (six, rest). ground arith)
      | inl six ↦ (
        (λ h.
            let (j, lt, found) =
              rounds-Hit hmac secret cleaned now window (window + window + 1) 0 (ground arith) in
            (
              six,
              (
                now + j - window,
                omega arith,
                omega arith,
                sym (
                      code_at_early hmac secret now window (0 + j) (now + j - window) (omega arith)
                        (omega arith))
                    ∙ found,
              ),
            )),
        (λ (t, (c, lo, hi, made)).
            let hit =
              rounds-found hmac secret cleaned now window valid (window + window + 1) 0
                (omega arith)
                (
                  c + window - now,
                  omega arith,
                  code_at_early hmac secret now window (0 + (c + window - now)) c (omega arith)
                        (omega arith)
                      ∙ made,
                ) in
            ground arith),
      )
    ]

-- A code made at one time, with a secret in base32, is accepted at every time past the window that is
-- at most `window` steps of 30 seconds away.
pub verify_code-generate_code :
    (hmac : (key message : List ℕ) → List ℕ) (secret key code : List ℕ) (window made_ms at_ms : ℕ)
    → base32_decode secret ≡ some key
    → generate_code hmac secret (current_counter made_ms) code_digits ≡ some code
    → window * 30000 ≤ at_ms
    → at_ms ≤ made_ms + window * 30000
    → made_ms ≤ at_ms + window * 30000
    → verify_code hmac secret code window at_ms ≡ some true
verify_code-generate_code hmac secret key code window made_ms at_ms valid made early lo hi =
    let six = generate_code-is_six_digits hmac secret (current_counter made_ms) made in
    let bare = strip_spaces-digits code (ground arith) in
    (verify_code_iff hmac secret code key window at_ms valid (omega arith)).1
      (rw bare six, (current_counter made_ms, omega arith, omega arith, made ∙ ap some (sym bare)))
