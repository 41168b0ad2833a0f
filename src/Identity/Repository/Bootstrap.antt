-- ===== src/Identity/Repository/Bootstrap.antt =====
-- BootstrapIdentity (pkg/metadata/identity_repository.go), one transaction.
use snowflake_emulator.Base.{
  ℕ, Text, text_eq, Option, none, some, Bool, true, false, List, [], ◌∷◌, ◌++◌, map, ◌==◌,
  if◌then◌else◌,
}
use snowflake_emulator.Base.Members.{any, find_first}
use snowflake_emulator.Base.Result.{Result, ok, err, ◌>>=◌}
use snowflake_emulator.Identity.Types.{
  Error, database_failed, UserRecord, RoleRecord, RoleGrantRecord, Catalog, role_account_admin,
}
use snowflake_emulator.Identity.Repository.{when_up, or_error, insert_user_grant, add_role_grant}

abbrev pub made_system : RoleRecord → RoleRecord → RoleRecord
made_system new r =
    if r.name == new.name then record r { comment = new.comment; is_system = true } else r

-- INSERT ... ON CONFLICT (name) DO UPDATE; an id in use is an error.
unfoldable pub upsert_role : ℕ → RoleRecord → List RoleRecord → Result Error (List RoleRecord)
unfolding any
upsert_role now new roles =
    if any (λ (r : RoleRecord). r.name == new.name) roles
    then ok (map (made_system new) roles)
    else if any (λ (r : RoleRecord). r.id == new.id) roles
    then err database_failed
    else ok (roles ++ record new { is_system = true; created_at = now } ∷ [])

unfoldable pub upsert_roles : ℕ → List RoleRecord → List RoleRecord → Result Error (List RoleRecord)
unfolding upsert_role
upsert_roles now [] roles = ok roles
upsert_roles now (new ∷ news) roles = upsert_role now new roles >>= upsert_roles now news

abbrev pub named : List RoleRecord → Text → Option RoleRecord
named roles name = find_first (λ (r : RoleRecord). r.name == name) roles

abbrev pub join_edge :
    ℕ → Option RoleRecord → Option RoleRecord → List RoleGrantRecord → List RoleGrantRecord
join_edge now none parent gs = gs
join_edge now (some child) none gs = gs
join_edge now (some child) (some parent) gs = add_role_grant now child.id parent.id gs

-- INSERT ... SELECT of the two roles with these names, which are unique.
unfoldable pub insert_edges :
    ℕ → List RoleRecord → List (Text × Text) → List RoleGrantRecord → List RoleGrantRecord
unfolding find_first add_role_grant
insert_edges now roles [] gs = gs
insert_edges now roles ((child, parent) ∷ es) gs =
    insert_edges now roles es (join_edge now (named roles child) (named roles parent) gs)

-- The demonstration administrator, who gets ACCOUNTADMIN as default role and as grant.
unfoldable pub insert_admin : ℕ → UserRecord → Catalog → Result Error Catalog
unfolding find_first insert_user_grant
insert_admin now admin t = or_error database_failed (named t.roles role_account_admin) >>= λ role.
    ok (record t {
      users =
          record admin {
            default_role_id = role.id;
            disabled = false;
            must_change_password = false;
            created_at = now;
          }
          ∷ [];
      user_grants = t.user_grants ++ record { user_id = admin.id; role_id = role.id } ∷ [];
    })

-- Only where there is no user.
unfoldable pub if_no_user : ℕ → UserRecord → Catalog → List UserRecord → Result Error Catalog
unfolding insert_admin
if_no_user now admin t [] = insert_admin now admin t
if_no_user now admin t (u ∷ us) = ok t

unfoldable pub bootstrap_identity :
    Bool → ℕ → List RoleRecord → List (Text × Text) → UserRecord → Catalog → Result Error Catalog
unfolding upsert_roles insert_edges if_no_user
bootstrap_identity up now roles hierarchy admin t = when_up up (
    upsert_roles now roles t.roles >>= λ known.
    let t' : Catalog = record t {
      roles = known;
      role_grants = insert_edges now known hierarchy t.role_grants;
    } in
    if_no_user now admin t' t'.users)
