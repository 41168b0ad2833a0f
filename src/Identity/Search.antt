-- ===== src/Identity/Search.antt =====
-- The search through the role hierarchy: the function `visit` inside EffectiveRoles,
-- AuthorizeWarehouse and AuthorizeObject (pkg/identity/service.go), which adds to a set of role ids.
pub mod Reach
pub mod Found
pub mod Exact
use snowflake_emulator.Base.{
  ℕ, zero, suc, Text, text_eq, List, [], ◌∷◌, ◌==◌, if◌then◌else◌, length, contains,
}
use snowflake_emulator.Identity.Types.{RoleGrantRecord}

-- The loop over the grants: `next` is the recursive call.
unfoldable pub each_child :
    (Text → List Text → List Text) → List RoleGrantRecord → Text → List Text → List Text
each_child next [] parent wanted = wanted
each_child next (g ∷ gs) parent wanted =
    each_child next gs parent
      (if g.parent_role_id == parent then next g.child_role_id wanted else wanted)

-- `fuel` bounds the depth of the recursion.
unfoldable pub visit_within : ℕ → List RoleGrantRecord → Text → List Text → List Text
unfolding contains each_child
visit_within zero grants parent wanted = wanted
visit_within (suc fuel) grants parent wanted =
    if contains wanted parent
    then wanted
    else each_child (visit_within fuel grants) grants parent (parent ∷ wanted)

-- Each nested call adds the child of a grant that was not in the set.
unfoldable pub visit : List RoleGrantRecord → Text → List Text → List Text
unfolding visit_within
visit grants parent wanted = visit_within (suc (length grants)) grants parent wanted

-- `for _, id := range ids { visit(id) }`
unfoldable pub visit_all : List RoleGrantRecord → List Text → List Text → List Text
unfolding visit
visit_all grants [] wanted = wanted
visit_all grants (id ∷ ids) wanted = visit_all grants ids (visit grants id wanted)
