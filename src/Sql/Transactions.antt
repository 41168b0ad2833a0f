-- ===== src/Sql/Transactions.antt =====
-- Transaction control by its first words (pkg/query/classifier.go).
use snowflake_emulator.Base.{
  ℕ, ◌≡◌, Text, str, Bool, false, ◌||◌, ◌&&◌, [], ◌∷◌, has_prefix, refl, arith, ◌==◌, nat_eq,
}
use snowflake_emulator.Sql.Comments.{leading_sql}
use snowflake_emulator.Sql.Kinds.{
  starts_with, is_transaction_statement, is_transaction, is_begin, is_commit, is_rollback,
}

or_regroup :
    (a b c d : Bool)
    → (a || (b || (c || (d || false)))) ≡ ((a || (b || false)) || ((c || false) || (d || false)))
or_regroup a b c d = ground arith

or_apart :
    (a b c : Bool)
    → (a && c) ≡ false
    → (b && c) ≡ false
    → ((a || (b || false)) && (c || false)) ≡ false
or_apart a b c p q = ground arith

apart : (c d : Bool) → (c && d) ≡ false → ((c || false) && (d || false)) ≡ false
apart c d p = ground arith

-- Prefixes with different first characters exclude each other.
prefixes_differ :
    (s : Text) (c d : ℕ) (p q : Text)
    → (c == d) ≡ false
    → (has_prefix s (c ∷ p) && has_prefix s (d ∷ q)) ≡ false
unfolding has_prefix
prefixes_differ [] c d p q e = refl
prefixes_differ (b ∷ s) c d p q e = ground arith

-- A statement controls a transaction exactly when it begins, commits or rolls back one, and no
-- statement does two of these.
pub transaction_kinds :
    (sql : Text)
    → (is_transaction sql ≡ (is_begin sql || (is_commit sql || is_rollback sql)))
      × ((is_begin sql && is_commit sql) ≡ false)
      × ((is_begin sql && is_rollback sql) ≡ false)
      × ((is_commit sql && is_rollback sql) ≡ false)
unfolding is_transaction is_transaction_statement is_begin is_commit is_rollback starts_with
transaction_kinds sql =
    let s = leading_sql sql in
    (
      or_regroup (has_prefix s (str "BEGIN")) (has_prefix s (str "START TRANSACTION"))
          (has_prefix s (str "COMMIT")) (has_prefix s (str "ROLLBACK")),
      or_apart _ _ _ (prefixes_differ s 66 67 (str "EGIN") (str "OMMIT") refl)
          (prefixes_differ s 83 67 (str "TART TRANSACTION") (str "OMMIT") refl),
      or_apart _ _ _ (prefixes_differ s 66 82 (str "EGIN") (str "OLLBACK") refl)
          (prefixes_differ s 83 82 (str "TART TRANSACTION") (str "OLLBACK") refl),
      apart _ _ (prefixes_differ s 67 82 (str "OMMIT") (str "OLLBACK") refl),
    )
