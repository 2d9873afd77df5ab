-- ===== src/Teams/Welcome.antt =====
-- server/modules/teams/team.service.ts: who joins by an invite.
use zenstier.Prelude.{
  ℕ, ◌≤◌, ◌≡◌, refl, sym, ap, ◌∙◌, Bool, true, not, some, List, [], ◌∷◌, arith, ◌==◌, if◌then◌else◌,
  update_many, find_first, Option-cases, Bool-cases, inl, inr,
}
use zenstier.Prelude.Chars.{text_eq, lower_case}
use zenstier.Teams.{User, TeamMember, member_joined, wrong_address}
use zenstier.Teams.Members.{is_membership, put_role}
use zenstier.Teams.Settings.{}
use zenstier.Teams.Invites.{
  TeamInvite, Lobby, ok, error, upsert, put_accepted, admit_user, open_invite, accept_invite,
  is_pending,
}
use zenstier.Teams.Joining.{after, goes}

upsert-found :
    (p : TeamMember → Bool) (f : TeamMember → TeamMember) (new : TeamMember) (k : ℕ)
    (xs : List TeamMember)
    → ((x : TeamMember) → p (f x) ≡ p x)
    → ((x : TeamMember) → (f x).role_id ≡ k)
    → p new ≡ true
    → new.role_id ≡ k
    → (m : TeamMember) × (find_first p (upsert p f new xs) ≡ some m) × (m.role_id ≡ k)
upsert-found p f new k [] h r n e = (new, ground arith, e)
upsert-found p f new k (x ∷ xs) h r n e = elim (Bool-cases (p x)) [
  | inl hit ↦ (f x, ground (arith, h x), r x)
  | inr miss ↦ let (m, found, role) = upsert-found p f new k xs h r n e in (m, ground arith, role)
]

-- The tables after a user joined.
abbrev pub joined_lobby : (user_id member_id now : ℕ) → TeamInvite → Lobby → Lobby
joined_lobby user_id member_id now i l = record l {
  org = record l.org {
    members =
        upsert (is_membership user_id i.team_id) (put_role i.role_id)
          (record { id = member_id; team_id = i.team_id; user_id = user_id; role_id = i.role_id })
          l.org.members;
    users =
        update_many (λ (u : User). u.id == user_id)
          (λ u. record u { active_team_id = some i.team_id }) l.org.users;
    audit = member_joined user_id i.team_id ∷ l.org.audit;
  };
  invites = update_many (λ (x : TeamInvite). x.id == i.id) (put_accepted now) l.invites;
}

module _ (hash : ℕ → ℕ) where
  open-goes :
      (user_id member_id now : ℕ) (l : Lobby) (i : TeamInvite)
      → goes (open_invite hash user_id member_id now l (some i)) ≡ true
      → (is_pending i ≡ true)
        × (now ≤ i.expires_at)
        × (goes (
              admit_user hash user_id member_id now i l
                (find_first (λ (u : User). u.id == user_id) l.org.users))
            ≡ true)
  open-goes user_id member_id now l i h = (ground arith, ground arith, ground arith)

  admit-goes :
      (user_id member_id now : ℕ) (i : TeamInvite) (l : Lobby) (u : User)
      → goes (admit_user hash user_id member_id now i l (some u)) ≡ true
      → text_eq (lower_case u.email) i.email ≡ true
  admit-goes user_id member_id now i l u h = ground arith

  pub welcome :
      (user_id member_id token now : ℕ) (l : Lobby) {i : TeamInvite} {u : User}
      → find_first (λ (x : TeamInvite). x.token_hash == hash token) l.invites ≡ some i
      → find_first (λ (x : User). x.id == user_id) l.org.users ≡ some u
      → is_pending i ≡ true
      → now ≤ i.expires_at
      → text_eq (lower_case u.email) i.email ≡ true
      → accept_invite hash user_id member_id token now l
        ≡ ok (joined_lobby user_id member_id now i l)
  unfolding accept_invite
  welcome user_id member_id token now l {i} {u} found there pending early right =
      let opened : open_invite hash user_id member_id now l (some i)
          ≡ admit_user hash user_id member_id now i l
              (find_first (λ (x : User). x.id == user_id) l.org.users) =
        ground arith in
      ap (open_invite hash user_id member_id now l) found
      ∙ opened
      ∙ ap (admit_user hash user_id member_id now i l) there
      ∙ ap (λ t. if not t then error wrong_address else ok (joined_lobby user_id member_id now i l))
          right

  -- What is so of an invite that lets a user in, and of the user's membership afterwards.
  abbrev pub Joined : (user_id member_id token now : ℕ) → Lobby → TeamInvite → User → Type 0
  Joined user_id member_id token now l i u =
      (find_first (λ (x : TeamInvite). x.token_hash == hash token) l.invites ≡ some i)
      × (find_first (λ (x : User). x.id == user_id) l.org.users ≡ some u)
      × (is_pending i ≡ true)
      × (now ≤ i.expires_at)
      × (text_eq (lower_case u.email) i.email ≡ true)
      × ((m : TeamMember) × (find_first (is_membership user_id i.team_id)
              (after l (accept_invite hash user_id member_id token now l)).org.members
            ≡ some m)
          × (m.role_id ≡ i.role_id))

  -- Whoever joins by a token is the one user that the open and unexpired invite of that token was
  -- addressed to, and then has the role in the team that the invite names.
  pub accept_invite-joins :
      (user_id member_id token now : ℕ) (l : Lobby)
      → goes (accept_invite hash user_id member_id token now l) ≡ true
      → (i : TeamInvite) × (u : User) × Joined user_id member_id token now l i u
  unfolding accept_invite
  accept_invite-joins user_id member_id token now l h =
      let by_token = find_first (λ (x : TeamInvite). x.token_hash == hash token) l.invites in
      let by_id = find_first (λ (x : User). x.id == user_id) l.org.users in
      elim (Option-cases by_token) [
        | inl gone ↦
            absurd
              (ground (arith, ap (λ o. goes (open_invite hash user_id member_id now l o)) gone))
        | inr (i, found) ↦
            let now_open = ap (λ o. goes (open_invite hash user_id member_id now l o)) found in
            elim (Option-cases by_id) [
              | inl nobody ↦ absurd (
                  ground
                    (arith, ap (λ o. goes (admit_user hash user_id member_id now i l o)) nobody))
              | inr (u, there) ↦
                  let (pending, early, admitted) =
                    open-goes user_id member_id now l i (sym now_open ∙ h) in
                  let right = admit-goes user_id member_id now i l u (
                    sym (ap (λ o. goes (admit_user hash user_id member_id now i l o)) there)
                    ∙ admitted) in
                  let new : TeamMember = record {
                    id = member_id;
                    team_id = i.team_id;
                    user_id = user_id;
                    role_id = i.role_id;
                  } in
                  let (m, member, role) =
                    upsert-found (is_membership user_id i.team_id) (put_role i.role_id) new
                      i.role_id l.org.members (λ x. refl) (λ x. refl) (ground arith) refl in
                  let result =
                    welcome user_id member_id token now l found there pending early right in
                  (
                    i,
                    u,
                    (
                      found,
                      there,
                      pending,
                      early,
                      right,
                      (
                        m,
                        ap
                              (λ r.
                                find_first (is_membership user_id i.team_id)
                                  (after l r).org.members)
                              result
                            ∙ member,
                        role,
                      ),
                    ),
                  )
            ]
      ]
