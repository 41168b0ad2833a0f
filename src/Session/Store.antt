-- ===== src/Session/Store.antt =====
-- The session table (pkg/session/store.go). `up` says whether the database executes the statement;
-- a statement or a transaction that fails changes nothing. The JSON of the parameters is kept as the
-- parameters themselves, and SQL variables are not stored.
use snowflake_emulator.Base.{
  ℕ, Text, Option, none, some, Bool, true, false, not, List, ltb, leb, length, keep, if◌then◌else◌,
}
use snowflake_emulator.Base.Dict.{Dict, get, put, remove, retain, values}
use snowflake_emulator.Base.Result.{Result, ok, err}
use snowflake_emulator.Base.Sort.{sort_by}
use snowflake_emulator.Session.Types.{Session, Error, session_not_found, persist_failed}

-- INSERT OR REPLACE
unfoldable pub save : Bool → Session → Dict Session → Dict Session × Bool
save up s t = if up then (put t s.token s, true) else (t, false)

unfoldable pub load : Bool → Text → Dict Session → Result Error Session
load up token t =
    if up
    then elim (get t token) [ none ↦ err session_not_found | some s ↦ ok s ]
    else err persist_failed

unfoldable pub delete : Bool → Text → Dict Session → Dict Session × Bool
delete up token t = if up then (remove t token, true) else (t, false)

-- UPDATE _sessions SET last_accessed_at = ? WHERE token = ?
unfoldable pub touch : Bool → Text → ℕ → Dict Session → Dict Session × Bool
touch up token at t =
    if up
    then elim (get t token) [
      | none ↦ (t, true)
      | some s ↦ (put t token (record s { last_accessed_at = at }), true)
    ]
    else (t, false)

abbrev is_taken : Option Session → Bool
is_taken none = false
is_taken (some s) = true

-- One transaction: INSERT, which the primary key refuses for a token in use, then DELETE.
unfoldable pub replace_token : Bool → Text → Session → Dict Session → Dict Session × Bool
replace_token up old s t =
    if up
    then (if is_taken (get t s.token) then (t, false) else (remove (put t s.token s) old, true))
    else (t, false)

unfoldable pub delete_expired : Bool → ℕ → Dict Session → Dict Session × Option ℕ
delete_expired up now t =
    if up
    then (
      retain (λ token s. not (ltb s.expires_at now)) t,
      some (length (keep (λ s. ltb s.expires_at now) (values t))),
    )
    else (t, none)

-- ORDER BY created_at DESC
unfoldable pub list_all : Bool → Dict Session → Option (List Session)
unfolding values sort_by
list_all up t =
    if up then some (sort_by (λ a b. leb b.created_at a.created_at) (values t)) else none
