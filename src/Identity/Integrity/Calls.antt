-- ===== src/Identity/Integrity/Calls.antt =====
-- Calls of the service, one after the other.
use snowflake_emulator.Base.{Text, text_eq, Bool, List, [], ◌∷◌}
use snowflake_emulator.Base.Result.{Result, ok, err}
use snowflake_emulator.Identity.Types.{Error, Catalog, UserChanges, Call}
use snowflake_emulator.Identity.Service
use snowflake_emulator.Identity.Service.{as_role_in_use, as_role_cycle}
use snowflake_emulator.Identity.Authorize

-- The calls that change the catalog, but for `bootstrap`.
pub data Change : Type 0 where
  creates_user : Text → Text → Text → Bool → Text → Change
  alters_user : Text → UserChanges → Change
  sets_password sets_comment sets_default_role : Text → Text → Change
  sets_disabled : Text → Bool → Change
  deletes_user : Text → Change
  creates_role : Text → Text → Change
  grants_to_user revokes_from_user : Text → Text → Change
  grants_to_role revokes_from_role : Text → Text → Change
  deletes_role : Text → Change
  grants_on_warehouse revokes_on_warehouse : Text → Text → Text → Change
  grants_on_object revokes_on_object : Text → Text → Text → Text → Change

abbrev pub committed : Catalog → Result Error Catalog → Catalog
committed t (ok t') = t'
committed t (err e) = t

unfoldable pub apply : Call → Change → Catalog → Catalog
unfolding Service.create_user_configured Service.alter_user Service.set_password
    Service.set_user_comment Service.set_default_role Service.set_user_disabled Service.delete_user
    Service.create_role Service.grant_role_to_user Service.revoke_role_from_user
    Service.grant_role_to_role Service.revoke_role_from_role Service.delete_role
    Authorize.grant_warehouse_privilege Authorize.revoke_warehouse_privilege
    Authorize.grant_object_privilege Authorize.revoke_object_privilege
apply c (creates_user name password role disabled comment) t =
    (Service.create_user_configured c name password role disabled comment t).0
apply c (alters_user name changes) t = committed t (Service.alter_user c name changes t)
apply c (sets_password name password) t = committed t (Service.set_password c name password t)
apply c (sets_comment name comment) t = committed t (Service.set_user_comment c name comment t)
apply c (sets_default_role name role) t = committed t (Service.set_default_role c name role t)
apply c (sets_disabled name disabled) t = committed t (Service.set_user_disabled c name disabled t)
apply c (deletes_user name) t = committed t (Service.delete_user c name t)
apply c (creates_role name comment) t = (Service.create_role c name comment t).0
apply c (grants_to_user role name) t = committed t (Service.grant_role_to_user c role name t)
apply c (revokes_from_user role name) t = committed t (Service.revoke_role_from_user c role name t)
apply c (grants_to_role child parent) t = committed t (Service.grant_role_to_role c child parent t)
apply c (revokes_from_role child parent) t =
    committed t (Service.revoke_role_from_role c child parent t)
apply c (deletes_role name) t = committed t (Service.delete_role c name t)
apply c (grants_on_warehouse privilege warehouse role) t =
    committed t (Authorize.grant_warehouse_privilege c privilege warehouse role t)
apply c (revokes_on_warehouse privilege warehouse role) t =
    committed t (Authorize.revoke_warehouse_privilege c privilege warehouse role t)
apply c (grants_on_object privilege type name role) t =
    committed t (Authorize.grant_object_privilege c privilege type name role t)
apply c (revokes_on_object privilege type name role) t =
    committed t (Authorize.revoke_object_privilege c privilege type name role t)

unfoldable pub apply_all : List (Call × Change) → Catalog → Catalog
unfolding apply
apply_all [] t = t
apply_all ((c, change) ∷ rest) t = apply_all rest (apply c change t)
