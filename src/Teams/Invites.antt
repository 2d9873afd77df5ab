-- ===== src/Teams/Invites.antt =====
-- server/modules/teams/team.service.ts and server/modules/auth/auth.service.ts: invites to a team, and
-- who may register. The hash of an invite token and the clock are parameters; a token is as fresh as
-- the ids are.
use zenstier.Prelude.{
  ℕ, ◌+◌, String, Bool, false, not, ◌&&◌, ◌||◌, Option, none, some, List, [], ◌∷◌, leb, ltb, ◌==◌,
  is_some, if◌then◌else◌, update_many, find_first, insert, any,
}
use zenstier.Prelude.Chars.{text_eq, lower_case, trim_text}
use zenstier.Teams.{
  Org, User, TeamError, Outcome, done, failed, is_role_in, role_not_found, rank_too_high,
  already_member, invite_not_found, invite_invalid, revoked_invite, used_invite, expired_invite,
  wrong_address, user_missing, registration_closed, email_taken, member_invited, invite_revoked,
  member_joined, user_registered,
}
use zenstier.Teams.Members.{is_membership, put_role}
use zenstier.Teams.Settings.{ensure_personal_team}

pub record TeamInvite : Type 0 where
  pub id : ℕ
  pub team_id : ℕ
  pub email : List ℕ
  pub role_id : ℕ
  pub token_hash : ℕ
  pub invited_by_id : ℕ
  pub expires_at : ℕ
  pub accepted_at : Option ℕ
  pub revoked_at : Option ℕ

-- The tables of teams and that of invites.
pub record Lobby : Type 0 where
  pub org : Org
  pub invites : List TeamInvite

pub data Reply : Type 0 where
  ok : Lobby → Reply
  error : TeamError → Reply

abbrev pub has_email : List ℕ → User → Bool
has_email email u = text_eq u.email email

abbrev pub is_member : (team_id : ℕ) → Option User → Org → Bool
is_member team_id none o = false
is_member team_id (some u) o = any (is_membership u.id team_id) o.members

-- `upsert` of a row found by a unique key.
abbrev pub upsert {ℓ} : {A : Type ℓ} → (A → Bool) → (A → A) → A → List A → List A
upsert p f new [] = new ∷ []
upsert p f new (x ∷ xs) = let rest = upsert p f new xs in if p x then f x ∷ xs else x ∷ rest

abbrev pub is_invite_for : (team_id : ℕ) → List ℕ → TeamInvite → Bool
is_invite_for team_id email i = i.team_id == team_id && text_eq i.email email

-- Seven days.
abbrev pub invite_ms : ℕ
invite_ms = 604800000

abbrev pub reissue : (actor_id role_id token_hash now : ℕ) → TeamInvite → TeamInvite
reissue actor_id role_id token_hash now i = record i {
  role_id = role_id;
  token_hash = token_hash;
  invited_by_id = actor_id;
  expires_at = now + invite_ms;
  accepted_at = none;
  revoked_at = none;
}

abbrev pub new_invite :
    (actor_id team_id : ℕ) (email : List ℕ) (role_id invite_id token_hash now : ℕ) → TeamInvite
new_invite actor_id team_id email role_id invite_id token_hash now = record {
  id = invite_id;
  team_id = team_id;
  email = email;
  role_id = role_id;
  token_hash = token_hash;
  invited_by_id = actor_id;
  expires_at = now + invite_ms;
  accepted_at = none;
  revoked_at = none;
}

abbrev pub is_invite_in : (team_id invite_id : ℕ) → TeamInvite → Bool
is_invite_in team_id invite_id i = i.id == invite_id && i.team_id == team_id

abbrev pub put_revoked : (now : ℕ) → TeamInvite → TeamInvite
put_revoked now i = record i { revoked_at = some now }

abbrev pub put_accepted : (now : ℕ) → TeamInvite → TeamInvite
put_accepted now i = record i { accepted_at = some now }

module _ (hash : ℕ → ℕ) where
  -- The row that `upsert` answers with: the one that is there keeps its id.
  abbrev pub upserted_id : (team_id : ℕ) (email : List ℕ) (invite_id : ℕ) → Lobby → ℕ
  upserted_id team_id email invite_id l =
      elim (find_first (is_invite_for team_id email) l.invites) [ none ↦ invite_id | some i ↦ i.id ]

  unfoldable pub invite_member :
      (actor_id actor_rank team_id : ℕ) (email : List ℕ) (role_id invite_id token now : ℕ)
      → Lobby
      → Reply
  unfolding trim_text
  invite_member actor_id actor_rank team_id email role_id invite_id token now l =
      let normalised = lower_case (trim_text email) in
      elim (find_first (is_role_in team_id role_id) l.org.roles) [
        | none ↦ error role_not_found
        | some role ↦
            if leb actor_rank role.rank
            then error rank_too_high
            else if is_member team_id (find_first (has_email normalised) l.org.users) l.org
            then error already_member
            else ok (record l {
              org = record l.org {
                audit =
                    member_invited actor_id team_id (upserted_id team_id normalised invite_id l)
                    ∷ l.org.audit;
              };
              invites =
                  upsert (is_invite_for team_id normalised)
                    (reissue actor_id role_id (hash token) now)
                    (new_invite actor_id team_id normalised role_id invite_id (hash token) now)
                    l.invites;
            })
      ]

  -- The invite being found and open.
  abbrev pub admit_user : (user_id member_id now : ℕ) → TeamInvite → Lobby → Option User → Reply
  admit_user user_id member_id now i l none = error user_missing
  admit_user user_id member_id now i l (some user) =
      if not (text_eq (lower_case user.email) i.email)
      then error wrong_address
      else ok (record l {
        org = record l.org {
          members =
              upsert (is_membership user_id i.team_id) (put_role i.role_id)
                (record {
                  id = member_id;
                  team_id = i.team_id;
                  user_id = user_id;
                  role_id = i.role_id;
                })
                l.org.members;
          users =
              update_many (λ (u : User). u.id == user_id)
                (λ u. record u { active_team_id = some i.team_id }) l.org.users;
          audit = member_joined user_id i.team_id ∷ l.org.audit;
        };
        invites = update_many (λ (x : TeamInvite). x.id == i.id) (put_accepted now) l.invites;
      })

  abbrev pub open_invite : (user_id member_id now : ℕ) → Lobby → Option TeamInvite → Reply
  open_invite user_id member_id now l none = error invite_invalid
  open_invite user_id member_id now l (some i) =
      if is_some i.revoked_at
      then error revoked_invite
      else if is_some i.accepted_at
      then error used_invite
      else if ltb i.expires_at now
      then error expired_invite
      else admit_user user_id member_id now i l
          (find_first (λ (u : User). u.id == user_id) l.org.users)

  unfoldable pub accept_invite : (user_id member_id token now : ℕ) → Lobby → Reply
  accept_invite user_id member_id token now l =
      open_invite user_id member_id now l
        (find_first (λ (i : TeamInvite). i.token_hash == hash token) l.invites)

unfoldable pub revoke_invite : (actor_id team_id invite_id now : ℕ) → Lobby → Reply
revoke_invite actor_id team_id invite_id now l =
    if any (is_invite_in team_id invite_id) l.invites
    then ok (record l {
      org = record l.org { audit = invite_revoked actor_id team_id invite_id ∷ l.org.audit };
      invites = update_many (λ (x : TeamInvite). x.id == invite_id) (put_revoked now) l.invites;
    })
    else error invite_not_found

-- An invite that was neither accepted nor revoked.
abbrev pub is_pending : TeamInvite → Bool
is_pending i = not (is_some i.accepted_at) && not (is_some i.revoked_at)

-- With public registration closed, only an invite for the address opens it.
unfoldable pub may_register : (allow_public : Bool) (now : ℕ) (email : List ℕ) → Lobby → Bool
may_register allow_public now email l =
    allow_public
    || any
        (λ (i : TeamInvite).
          text_eq i.email (lower_case email) && is_pending i && ltb now i.expires_at)
        l.invites

abbrev pub new_user : (user_id : ℕ) (email : List ℕ) → User
new_user user_id email = record { id = user_id; email = email; active_team_id = none }

abbrev pub settle_registration : Lobby → Outcome → Reply
settle_registration l (failed e) = error e
settle_registration l (done o) = ok (record l { org = o })

-- The email is unique in the table of users.
unfoldable pub register_user :
    (allow_public : Bool) (now user_id team_id member_id : ℕ) (role_ids : ℕ → ℕ)
    (random email : List ℕ) (team_name : String)
    → Lobby
    → Reply
unfolding may_register ensure_personal_team
register_user allow_public now user_id team_id member_id role_ids random email team_name l =
    if not (may_register allow_public now email l)
    then error registration_closed
    else if any (has_email email) l.org.users
    then error email_taken
    else settle_registration l (
        ensure_personal_team team_id member_id role_ids random user_id team_name (record l.org {
          users = insert (new_user user_id email) l.org.users;
          audit = user_registered user_id ∷ l.org.audit;
        }))
