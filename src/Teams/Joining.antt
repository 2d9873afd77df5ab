-- ===== src/Teams/Joining.antt =====
-- server/modules/teams/team.service.ts: how often an invite lets someone in.
use zenstier.Prelude.{
  ℕ, ◌+◌, ◌≤◌, ◌<◌, ◌≡◌, refl, ap, Bool, true, false, ◌&&◌, Option, none, some, List, [], ◌∷◌,
  arith, ◌==◌, is_some, if◌then◌else◌, update_many, find_first, count, Option-cases, Bool-cases,
  inl, inr, find_first-holds, count-update_many_le,
}
use zenstier.Prelude.Chars.{lower_case, trim_text}
use zenstier.Teams.{User, is_role_in}
use zenstier.Teams.Invites.{
  TeamInvite, Lobby, Reply, ok, error, upsert, is_invite_for, reissue, new_invite, invite_member,
  put_revoked, put_accepted, admit_user, open_invite, accept_invite, revoke_invite, is_pending,
}

-- What users do with invites.
pub data Move : Type 0 where
  invites :
      (actor_id actor_rank team_id : ℕ) (email : List ℕ) (role_id invite_id token now : ℕ) → Move
  accepts : (user_id member_id token now : ℕ) → Move
  revokes : (actor_id team_id invite_id now : ℕ) → Move

-- A request that fails changes nothing.
abbrev pub after : Lobby → Reply → Lobby
after l (ok l') = l'
after l (error e) = l

abbrev pub goes : Reply → Bool
goes (ok l) = true
goes (error e) = false

abbrev pub is_usable : (h : ℕ) → TeamInvite → Bool
is_usable h i = i.token_hash == h && is_pending i

-- How many invites with the token hash `h` are open.
abbrev pub usable : (h : ℕ) → Lobby → ℕ
usable h l = count (is_usable h) l.invites

count-upsert :
    (q p : TeamInvite → Bool) (f : TeamInvite → TeamInvite) (new : TeamInvite) (b : ℕ)
    (xs : List TeamInvite)
    → ((x : TeamInvite) → (if q (f x) then 1 else 0) ≤ b)
    → (if q new then 1 else 0) ≤ b
    → count q (upsert p f new xs) ≤ count q xs + b
count-upsert q p f new b [] h k = ground arith
count-upsert q p f new b (x ∷ xs) h k = ground (arith, h x, count-upsert q p f new b xs h k)

-- An update of a row that is counted, among others, into rows that are not.
count-update_many_lt :
    (q p r : TeamInvite → Bool) (f : TeamInvite → TeamInvite) (xs : List TeamInvite)
    {i : TeamInvite}
    → ((x : TeamInvite) → q (f x) ≡ false)
    → find_first r xs ≡ some i
    → q i ≡ true
    → p i ≡ true
    → count q (update_many p f xs) < count q xs
count-update_many_lt q p r f [] h e k m = absurd (ground arith)
count-update_many_lt q p r f (x ∷ xs) {i} h e k m = elim (Bool-cases (r x)) [
  | inl hit ↦
      let same : x ≡ i = ground arith in
      ground (arith, ap q same, ap p same, h x, count-update_many_le q p f xs h)
  | inr miss ↦
      let less = count-update_many_lt q p r f xs {i = i} h (ground arith) k m in ground (arith, h x)
]

module _ (hash : ℕ → ℕ) where
  pub act : Move → Lobby → Reply
  unfolding invite_member accept_invite revoke_invite
  act (invites actor_id actor_rank team_id email role_id invite_id token now) l =
      invite_member hash actor_id actor_rank team_id email role_id invite_id token now l
  act (accepts user_id member_id token now) l = accept_invite hash user_id member_id token now l
  act (revokes actor_id team_id invite_id now) l = revoke_invite actor_id team_id invite_id now l

  -- One where the move lets a user in by the token hash `h`.
  abbrev pub joins : (h : ℕ) → Move → Lobby → ℕ
  joins h (accepts user_id member_id token now) l =
      if hash token == h && goes (accept_invite hash user_id member_id token now l) then 1 else 0
  joins h _ l = 0

  -- One where the move issues the token with the hash `h`.
  abbrev pub issues : (h : ℕ) → Move → ℕ
  issues h (invites actor_id actor_rank team_id email role_id invite_id token now) =
      if hash token == h then 1 else 0
  issues h _ = 0

  pub all_joins : (h : ℕ) → List Move → Lobby → ℕ
  all_joins h [] l = 0
  all_joins h (m ∷ rest) l = joins h m l + all_joins h rest (after l (act m l))

  pub all_issues : (h : ℕ) → List Move → ℕ
  all_issues h [] = 0
  all_issues h (m ∷ rest) = issues h m + all_issues h rest

  pub moves : List Move → Lobby → Lobby
  moves [] l = l
  moves (m ∷ rest) l = moves rest (after l (act m l))

  invite-usable :
      (h actor_id actor_rank team_id : ℕ) (email : List ℕ) (role_id invite_id token now : ℕ)
      (l : Lobby)
      → usable h (
          after l
            (invite_member hash actor_id actor_rank team_id email role_id invite_id token now l))
        ≤ usable h l + (if hash token == h then 1 else 0)
  unfolding invite_member
  invite-usable h actor_id actor_rank team_id email role_id invite_id token now l =
      let normalised = lower_case (trim_text email) in
      let grown =
        count-upsert (is_usable h) (is_invite_for team_id normalised)
          (reissue actor_id role_id (hash token) now)
          (new_invite actor_id team_id normalised role_id invite_id (hash token) now)
          (if hash token == h then 1 else 0) l.invites (λ x. ground arith) (ground arith) in
      elim (Option-cases (find_first (is_role_in team_id role_id) l.org.roles)) [
        | inl gone ↦ ground arith
        | inr (role, found) ↦ ground arith
      ]

  admit-usable :
      (user_id member_id now : ℕ) (i : TeamInvite) (l : Lobby) (o : Option User) (h : ℕ)
      (r : TeamInvite → Bool)
      → find_first r l.invites ≡ some i
      → is_pending i ≡ true
      → (if i.token_hash == h && goes (admit_user hash user_id member_id now i l o) then 1 else 0)
          + usable h (after l (admit_user hash user_id member_id now i l o))
        ≤ usable h l
  admit-usable user_id member_id now i l none h r found open_now = ground arith
  admit-usable user_id member_id now i l (some user) h r found open_now =
      let spent =
        count-update_many_le (is_usable h) (λ (x : TeamInvite). x.id == i.id) (put_accepted now)
          l.invites (λ x. ground arith) in
      elim (Bool-cases (i.token_hash == h)) [
        | inl same ↦
            let less =
              count-update_many_lt (is_usable h) (λ (x : TeamInvite). x.id == i.id) r
                (put_accepted now) l.invites (λ x. ground arith) found (ground arith)
                (ground arith) in
            ground arith
        | inr other ↦ ground arith
      ]

  open-usable :
      (user_id member_id now : ℕ) (l : Lobby) (h t : ℕ) (o : Option TeamInvite)
      → find_first (λ (i : TeamInvite). i.token_hash == t) l.invites ≡ o
      → (if t == h && goes (open_invite hash user_id member_id now l o) then 1 else 0)
          + usable h (after l (open_invite hash user_id member_id now l o))
        ≤ usable h l
  open-usable user_id member_id now l h t none found = ground arith
  open-usable user_id member_id now l h t (some i) found =
      let by_token : i.token_hash ≡ t =
        ground (arith, find_first-holds (λ (x : TeamInvite). x.token_hash == t) l.invites found) in
      let user = find_first (λ (u : User). u.id == user_id) l.org.users in
      elim (Bool-cases (is_some i.revoked_at)) [
        | inl revoked ↦ ground arith
        | inr valid ↦ elim (Bool-cases (is_some i.accepted_at)) [
          | inl used ↦ ground arith
          | inr fresh ↦
              let pending : is_pending i ≡ true = ground arith in
              let admitted =
                admit-usable user_id member_id now i l user h
                  (λ (x : TeamInvite). x.token_hash == t) found pending in
              ground arith
        ]
      ]

  act-usable :
      (h : ℕ) (m : Move) (l : Lobby)
      → joins h m l + usable h (after l (act m l)) ≤ usable h l + issues h m
  unfolding act accept_invite revoke_invite
  act-usable h (invites actor_id actor_rank team_id email role_id invite_id token now) l =
      omega (arith, invite-usable h actor_id actor_rank team_id email role_id invite_id token now l)
  act-usable h (accepts user_id member_id token now) l = omega (
    arith,
    open-usable user_id member_id now l h (hash token)
        (find_first (λ (i : TeamInvite). i.token_hash == hash token) l.invites) refl,
  )
  act-usable h (revokes actor_id team_id invite_id now) l =
      let spent =
        count-update_many_le (is_usable h) (λ (x : TeamInvite). x.id == invite_id) (put_revoked now)
          l.invites (λ x. ground arith) in
      ground arith

  -- In any sequence of requests to invite, to accept and to revoke, whatever their answers, at most as
  -- many users join by tokens with one hash as such tokens were issued, those counted in that are open
  -- at the start; what is left open is not more than the difference.
  pub all_joins-usable :
      (h : ℕ) (list : List Move) (l : Lobby)
      → all_joins h list l + usable h (moves list l) ≤ usable h l + all_issues h list
  unfolding all_joins all_issues moves
  all_joins-usable h [] l = omega arith
  all_joins-usable h (m ∷ rest) l =
      omega (arith, act-usable h m l, all_joins-usable h rest (after l (act m l)))
