-- ===== src/Teams/Tests.antt =====
-- The teams at a concrete organisation of two owners and a viewer.
mod Invites
mod Requests
use zenstier.Prelude.{◌<◌, ◌≡◌, refl, true, false, none, some, [], ◌∷◌, arith, All, Distinct}
use zenstier.Teams.{Role, TeamMember, Org, done, member_by, owners, member_role_changed}
use zenstier.Teams.Members.{
  may_leave, put_role, drop_member, check_leave, leave_team, change_member_role,
}
use zenstier.Teams.Permissions.{permissions}
use zenstier.Teams.Deeds.{assigns, act, role_id_of, member_id_of}
use zenstier.Teams.Authority.{act-seniors}
use zenstier.Teams.Owners.{IsOwnerGuarded, act-owners}
use zenstier.Teams.Race.{drop_member-no_owner}

abbrev owner_row : Role
owner_row = record {
  id = 1;
  team_id = 3;
  name = "Owner";
  description = none;
  permissions = permissions;
  is_system = true;
  rank = 100;
}

abbrev viewer_row : Role
viewer_row = record owner_row {
  id = 2;
  name = "Viewer";
  permissions = "device:read" ∷ [];
  rank = 10;
}

abbrev guest_row : Role
guest_row = record viewer_row { id = 3; name = "Guest"; is_system = false; rank = 5 }

abbrev ann : TeamMember
ann = record { id = 1; team_id = 3; user_id = 11; role_id = 1 }

abbrev bob : TeamMember
bob = record { id = 2; team_id = 3; user_id = 12; role_id = 1 }

abbrev eve : TeamMember
eve = record { id = 3; team_id = 3; user_id = 13; role_id = 2 }

abbrev pub org : Org
org = record {
  teams = record { id = 3; name = "ops"; slug = []; is_personal = false } ∷ [];
  users = [];
  roles = owner_row ∷ viewer_row ∷ guest_row ∷ [];
  members = ann ∷ bob ∷ eve ∷ [];
  audit = [];
  tokens = [];
  devices = [];
}

abbrev assigned : Org
assigned = record org {
  members = ann ∷ bob ∷ put_role 3 eve ∷ [];
  audit = member_role_changed 11 3 3 "Viewer" "Guest" ∷ [];
}

assigns-guest : act 11 100 3 (assigns 3 3) org ≡ done assigned
unfolding act change_member_role
assigns-guest = refl

ids : Distinct role_id_of org.roles
ids = ground arith

keys : Distinct member_id_of org.members
keys = ground arith

guarded : All IsOwnerGuarded org.roles
guarded = (λ e. refl, (λ e. refl, (λ e. ground arith, tt)))

ann_leaves : leave_team 11 3 org ≡ done (drop_member 11 3 true ann org)
unfolding leave_team check_leave
ann_leaves = refl

may_ann : check_leave 11 3 org ≡ may_leave ann
unfolding check_leave
may_ann = refl

may_bob : check_leave 12 3 org ≡ may_leave bob
unfolding check_leave
may_bob = refl

act-seniors_example : member_by 2 assigned ≡ some bob
act-seniors_example =
    (act-seniors 11 100 3 (assigns 3 3) org assigned ids keys (omega arith) assigns-guest).1 2 bob
      refl (λ e. omega arith) (omega arith)

act-owners_example : 0 < owners 3 assigned
act-owners_example =
    act-owners 11 100 3 3 (assigns 3 3) org assigned ids keys guarded assigns-guest (omega arith)

drop_member-no_owner_example :
    owners 3 (drop_member 12 3 true bob (drop_member 11 3 true ann org)) ≡ 0
drop_member-no_owner_example =
    drop_member-no_owner 11 12 3 org keys refl may_ann may_bob (λ e. omega arith) refl refl
