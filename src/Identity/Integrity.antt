-- ===== src/Identity/Integrity.antt =====
-- What holds of the catalog between two calls.
pub mod Rows
pub mod Unique
pub mod Users
pub mod Deletion
pub mod Creation
pub mod Roles
pub mod Operations
pub mod Calls
pub mod History
pub mod System
pub mod Start
use snowflake_emulator.Base.{◌≡◌, ◌⊎◌, Text, List, []}
use snowflake_emulator.Base.Members.{Has}
use snowflake_emulator.Identity.Types.{RoleRecord, UserRecord, RoleGrantRecord, UserGrant, Catalog}
use snowflake_emulator.Identity.Hierarchy.{IsAcyclic}

abbrev pub IsRole : Text → List RoleRecord → Type 0
IsRole id roles = (r : RoleRecord) × Has r roles × (r.id ≡ id)

abbrev pub IsUser : Text → List UserRecord → Type 0
IsUser id users = (u : UserRecord) × Has u users × (u.id ≡ id)

pub record IsSound (t : Catalog) : Type 0 where
  pub acyclic : IsAcyclic t.role_grants
  pub ends :
      (g : RoleGrantRecord)
      → Has g t.role_grants
      → IsRole g.child_role_id t.roles × IsRole g.parent_role_id t.roles
  pub granted :
      (g : UserGrant) → Has g t.user_grants → IsUser g.user_id t.users × IsRole g.role_id t.roles
  -- A user has its default role, if there is one.
  pub defaults :
      (u : UserRecord)
      → Has u t.users
      → (u.default_role_id ≡ [])
        ⊎ Has (record { user_id = u.id; role_id = u.default_role_id }) t.user_grants
  pub unique_users :
      (u v : UserRecord) → Has u t.users → Has v t.users → (u.id ≡ v.id) ⊎ (u.name ≡ v.name) → u ≡ v
  pub unique_roles :
      (r s : RoleRecord) → Has r t.roles → Has s t.roles → (r.id ≡ s.id) ⊎ (r.name ≡ s.name) → r ≡ s
