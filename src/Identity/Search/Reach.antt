-- ===== src/Identity/Search/Reach.antt =====
-- Roles that a role inherits, as a relation.
use snowflake_emulator.Base.{◌≡◌, Text, List}
use snowflake_emulator.Base.Members.{Has}
use snowflake_emulator.Identity.Types.{RoleGrantRecord}

-- The child was granted to the parent, who inherits it.
abbrev pub Edge : List RoleGrantRecord → Text → Text → Type 0
Edge grants parent child =
    (g : RoleGrantRecord) × Has g grants × (g.parent_role_id ≡ parent) × (g.child_role_id ≡ child)

-- Through any number of grants.
pub data Inherits (grants : List RoleGrantRecord) (start : Text) : Text → Type 0 where
  itself : Inherits grants start start
  further : {a b : Text} → Inherits grants start a → Edge grants a b → Inherits grants start b
