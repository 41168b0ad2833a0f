-- ===== src/Statement/Listing.antt =====
-- History listings (pkg/query/statement_manager.go): what memory holds, merged with what the store
-- recorded. The order in which Go ranges over the map of statements does not matter behind the sort,
-- but for statements created at one instant.
use snowflake_emulator.Base.{
  nat_eq, ◌∷◌, ℕ, ◌+◌, Text, text_eq, Option, none, some, Bool, not, ◌&&◌, List, [], ◌++◌, map, ltb,
  leb, ◌==◌, length, take, keep, contains, if◌then◌else◌,
}
use snowflake_emulator.Base.Dict.{values}
use snowflake_emulator.Base.Int.{ℤ, pos, is_pos, to_ℕ}
use snowflake_emulator.Base.Sort.{sort_by}
use snowflake_emulator.Statement.Types.{Statement, StatementSummary, HistoryStore, StatementManager}
use snowflake_emulator.Statement.Manager.{summarize}

-- The most recent first.
abbrev pub newer : StatementSummary → StatementSummary → Bool
newer a b = leb b.created_on a.created_on

-- `if limit > 0 && len(xs) > limit { xs = xs[:limit] }`
abbrev pub limit_to {ℓ} : {A : Type ℓ} → ℤ → List A → List A
limit_to limit xs =
    if is_pos limit && ltb (to_ℕ limit) (length xs) then take (to_ℕ limit) xs else xs

unfoldable pub handles : List Statement → List Text
handles ss = map (λ s. s.handle) ss

-- The loop over all summaries, with what it has appended so far: it breaks at the limit, if there is
-- one.
unfoldable pub filter_for_user :
    Text → ℤ → List StatementSummary → List StatementSummary → List StatementSummary
filter_for_user user_id limit filtered [] = filtered
filter_for_user user_id limit filtered (s ∷ all) =
    let matches = s.user_id == user_id in
    let appended = if matches then filtered ++ s ∷ [] else filtered in
    let rest = filter_for_user user_id limit appended all in
    if matches && (is_pos limit && length appended == to_ℕ limit) then appended else rest

module _ {S : Type 0} (h : HistoryStore S) where
  -- Rows that memory may hold too are asked for on top of the limit.
  abbrev fetch : ℤ → List Text → ℕ
  fetch limit seen = if is_pos limit then to_ℕ limit + length seen else 0

  abbrev pub or_nothing : Option (List StatementSummary) → List StatementSummary
  or_nothing none = []
  or_nothing (some records) = records

  unfoldable pub recorded_statements : ℤ → List Text → StatementManager S → List StatementSummary
  unfolding keep contains
  recorded_statements limit seen m = elim m.history [
    | none ↦ []
    | some store ↦
        keep (λ r. not (contains seen r.handle))
          (or_nothing (h.list_statement_history (fetch limit seen) store))
  ]

  -- What memory and the store hold together, before the sort.
  unfoldable pub merged_statements : ℤ → StatementManager S → List StatementSummary
  unfolding values summarize handles recorded_statements
  merged_statements limit m =
      map summarize (values m.statements)
      ++ recorded_statements limit (handles (values m.statements)) m

  unfoldable pub list_statements_with_context : ℤ → StatementManager S → List StatementSummary
  unfolding merged_statements sort_by
  list_statements_with_context limit m = limit_to limit (sort_by newer (merged_statements limit m))

  unfoldable pub list_statements : ℤ → StatementManager S → List StatementSummary
  unfolding list_statements_with_context
  list_statements limit m = list_statements_with_context limit m

  unfoldable pub list_statements_for_user : Text → ℤ → StatementManager S → List StatementSummary
  unfolding list_statements_with_context filter_for_user
  list_statements_for_user user_id limit m =
      filter_for_user user_id limit [] (list_statements_with_context (pos 0) m)
