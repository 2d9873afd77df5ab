-- ===== src/Teams/Slugs.antt =====
-- server/modules/teams/team.service.ts: slugify and uniqueSlug. A text is the list of its character
-- codes, over ASCII.
use zenstier.Prelude.{
  ℕ, zero, suc, ◌+◌, ◌/◌, ◌%◌, ◌≤◌, ◌<◌, ◌≡◌, ◌≢◌, refl, ap, Bool, true, false, not, ◌&&◌, ◌||◌,
  List, [], ◌∷◌, ◌++◌, arith, ltb, leb, ◌==◌, if◌then◌else◌, length, take, All, Bool-cases, inl,
  inr,
}
use zenstier.Prelude.Chars.{lower_case}

abbrev pub dash : ℕ
dash = 45

abbrev pub is_slug_char : ℕ → Bool
is_slug_char c = (leb 97 c && leb c 122) || (leb 48 c && leb c 57)

-- `replace(/[^a-z0-9]+/g, "-")`; the flag says that the last character was in such a run.
unfoldable pub dash_runs : (in_run : Bool) → List ℕ → List ℕ
dash_runs in_run [] = []
dash_runs in_run (c ∷ s) =
    let rest = dash_runs (not (is_slug_char c)) s in
    if is_slug_char c then c ∷ rest else if in_run then rest else dash ∷ rest

unfoldable pub strip_front : List ℕ → List ℕ
strip_front [] = []
strip_front (c ∷ s) = if c == dash then strip_front s else c ∷ s

abbrev pub is_nil : List ℕ → Bool
is_nil [] = true
is_nil (c ∷ s) = false

unfoldable pub strip_back : List ℕ → List ℕ
strip_back [] = []
strip_back (c ∷ s) = let rest = strip_back s in if c == dash && is_nil rest then [] else c ∷ rest

abbrev pub team_text : List ℕ
team_text = 116 ∷ 101 ∷ 97 ∷ 109 ∷ []

abbrev pub or_team : List ℕ → List ℕ
or_team s = if is_nil s then team_text else s

unfoldable pub slugify : List ℕ → List ℕ
unfolding dash_runs strip_front strip_back
slugify name = or_team (take 40 (strip_back (strip_front (dash_runs false (lower_case name)))))

-- A number below a hundred in decimal.
abbrev pub show_small : ℕ → List ℕ
show_small n = if ltb n 10 then (n + 48) ∷ [] else (n / 10 + 48) ∷ (n % 10 + 48) ∷ []

abbrev pub candidate : (slug : List ℕ) → ℕ → List ℕ
candidate slug i = if i == 0 then slug else slug ++ (dash ∷ show_small i)

-- The `for` of `uniqueSlug`, `n` rounds from the `i`th on, and the random slug after it.
unfoldable pub pick_slug : (taken : List ℕ → Bool) (slug random : List ℕ) (n i : ℕ) → List ℕ
pick_slug taken slug random zero i = slug ++ (dash ∷ random)
pick_slug taken slug random (suc n) i =
    let rest = pick_slug taken slug random n (i + 1) in
    if taken (candidate slug i) then rest else candidate slug i

unfoldable pub unique_slug : (taken : List ℕ → Bool) (random base : List ℕ) → List ℕ
unfolding slugify pick_slug
unique_slug taken random base = pick_slug taken (slugify base) random 50 0

-- A slug holds small letters, digits and dashes, and does not begin with a dash.
abbrev pub IsSlugChar : ℕ → Type 0
IsSlugChar c = (is_slug_char c || c == dash) ≡ true

abbrev pub starts_with_dash : List ℕ → Bool
starts_with_dash [] = false
starts_with_dash (c ∷ s) = c == dash

dash_runs-All : (in_run : Bool) (s : List ℕ) → All IsSlugChar (dash_runs in_run s)
unfolding dash_runs
dash_runs-All in_run [] = tt
dash_runs-All true (c ∷ s) = elim (Bool-cases (is_slug_char c)) [
  | inl good ↦ rw good (ground arith, dash_runs-All false s)
  | inr bad ↦ rw bad (dash_runs-All true s)
]
dash_runs-All false (c ∷ s) = elim (Bool-cases (is_slug_char c)) [
  | inl good ↦ rw good (ground arith, dash_runs-All false s)
  | inr bad ↦ rw bad (refl, dash_runs-All true s)
]

strip_front-All : (s : List ℕ) → All IsSlugChar s → All IsSlugChar (strip_front s)
unfolding strip_front
strip_front-All [] h = tt
strip_front-All (c ∷ s) (p, h) = elim (Bool-cases (c == dash)) [
  | inl is ↦ rw is (strip_front-All s h)
  | inr other ↦ rw other (p, h)
]

strip_front-starts : (s : List ℕ) → starts_with_dash (strip_front s) ≡ false
unfolding strip_front
strip_front-starts [] = refl
strip_front-starts (c ∷ s) = ground (arith, strip_front-starts s)

strip_back-All : (s : List ℕ) → All IsSlugChar s → All IsSlugChar (strip_back s)
unfolding strip_back
strip_back-All [] h = tt
strip_back-All (c ∷ s) (p, h) = elim (Bool-cases (c == dash && is_nil (strip_back s))) [
  | inl cut ↦ rw cut tt
  | inr kept ↦ rw kept (p, strip_back-All s h)
]

strip_back-starts :
    (s : List ℕ) → starts_with_dash s ≡ false → starts_with_dash (strip_back s) ≡ false
unfolding strip_back
strip_back-starts [] h = refl
strip_back-starts (c ∷ s) h = ground arith

take-All : (n : ℕ) (s : List ℕ) → All IsSlugChar s → All IsSlugChar (take n s)
take-All zero s h = tt
take-All (suc n) [] h = tt
take-All (suc n) (c ∷ s) (p, h) = (p, take-All n s h)

length-take_le : (n : ℕ) (s : List ℕ) → length (take n s) ≤ n
length-take_le zero s = omega arith
length-take_le (suc n) [] = omega arith
length-take_le (suc n) (c ∷ s) = omega (arith, length-take_le n s)

take-starts :
    (n : ℕ) (s : List ℕ) → starts_with_dash s ≡ false → starts_with_dash (take n s) ≡ false
take-starts zero s h = refl
take-starts (suc n) [] h = refl
take-starts (suc n) (c ∷ s) h = h

-- A slug has from one to forty characters, all of them small letters, digits or dashes, and the first
-- one is no dash.
abbrev pub IsSlug : List ℕ → Type 0
IsSlug s = All IsSlugChar s × (0 < length s) × (length s ≤ 40) × (starts_with_dash s ≡ false)

or_team-IsSlug :
    (s : List ℕ)
    → All IsSlugChar s
    → length s ≤ 40
    → starts_with_dash s ≡ false
    → IsSlug (or_team s)
or_team-IsSlug [] h l d = ((refl, (refl, (refl, (refl, tt)))), omega arith, omega arith, refl)
or_team-IsSlug (c ∷ s) h l d = (h, omega arith, l, d)

slugify-IsSlug : (name : List ℕ) → IsSlug (slugify name)
unfolding slugify
slugify-IsSlug name =
    let runs = dash_runs false (lower_case name) in
    let cut = strip_back (strip_front runs) in
    or_team-IsSlug (take 40 cut)
      (take-All 40 cut (
        strip_back-All (strip_front runs)
          (strip_front-All runs (dash_runs-All false (lower_case name)))))
      (length-take_le 40 cut)
      (take-starts 40 cut (strip_back-starts (strip_front runs) (strip_front-starts runs)))

pick_slug-free :
    (taken : List ℕ → Bool) (slug random : List ℕ) (n i j : ℕ)
    → i ≤ j
    → j < i + n
    → taken (candidate slug j) ≡ false
    → taken (pick_slug taken slug random n i) ≡ false
unfolding pick_slug
pick_slug-free taken slug random zero i j lo hi free = absurd (omega arith)
pick_slug-free taken slug random (suc n) i j lo hi free =
    elim (Bool-cases (taken (candidate slug i))) [
      | inl used ↦
          let here : i ≢ j = λ e. ground (arith, ap (λ k. taken (candidate slug k)) e) in
          rw used (pick_slug-free taken slug random n (i + 1) j (omega arith) (omega arith) free)
      | inr unused ↦ rw unused unused
    ]

-- When one of the slug and its forty-nine numbered forms is free, the slug of a new team is free.
pub unique_slug-free :
    (taken : List ℕ → Bool) (random base : List ℕ) (j : ℕ)
    → j < 50
    → taken (candidate (slugify base) j) ≡ false
    → taken (unique_slug taken random base) ≡ false
unfolding unique_slug
unique_slug-free taken random base j lt free =
    pick_slug-free taken (slugify base) random 50 0 j (omega arith) (omega arith) free
