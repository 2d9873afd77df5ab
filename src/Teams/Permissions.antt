-- ===== src/Teams/Permissions.antt =====
-- server/modules/teams/permissions.ts: the catalogue of permissions and the roles of a new team.
use zenstier.Prelude.{ℕ, String, Bool, not, List, [], ◌∷◌, str_eq, any, find_many}

abbrev pub permissions : List String
permissions =
    "device:read" ∷ "device:create" ∷ "device:update" ∷ "device:delete" ∷ "device:revoke"
    ∷ "command:read" ∷ "command:execute" ∷ "ai:use" ∷ "audit:read" ∷ "team:read"
    ∷ "team:manage_members" ∷ "team:manage_roles" ∷ "team:manage_settings" ∷ []

abbrev pub has : String → List String → Bool
has p ps = any (λ q. str_eq q p) ps

abbrev pub is_permission : String → Bool
is_permission p = has p permissions

abbrev pub owner_role : String
owner_role = "Owner"

pub record SystemRoleSpec : Type 0 where
  pub name : String
  pub description : String
  pub rank : ℕ
  pub granted : List String

abbrev pub system_roles : List SystemRoleSpec
system_roles =
    record {
      name = owner_role;
      description = "Full control, including team settings and membership.";
      rank = 100;
      granted = permissions;
    }
    ∷ record {
      name = "Admin";
      description = "Manages devices, members and roles, but not team settings.";
      rank = 80;
      granted = find_many (λ p. not (str_eq p "team:manage_settings")) permissions;
    }
    ∷ record {
      name = "Operator";
      description = "Runs commands and enrolls devices. Cannot manage the team.";
      rank = 50;
      granted =
          "device:read" ∷ "device:create" ∷ "device:update" ∷ "command:read" ∷ "command:execute"
          ∷ "ai:use" ∷ "audit:read" ∷ "team:read" ∷ [];
    }
    ∷ record {
      name = "Viewer";
      description = "Read-only access to devices, history and the audit log.";
      rank = 10;
      granted = "device:read" ∷ "command:read" ∷ "audit:read" ∷ "team:read" ∷ [];
    }
    ∷ []
