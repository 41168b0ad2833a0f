-- ===== src/Sql/Tests.antt =====
-- The theorems about SQL texts at concrete inputs.
use snowflake_emulator.Base.{◌≡◌, str, true, false, ◌||◌, ◌&&◌, length, refl}
use snowflake_emulator.Sql.Comments.{trim_leading_comments, round}
use snowflake_emulator.Sql.Comments.Rounds.{
  Continues, resumed, IsBare, trim_leading_comments-eq-resumed, trim_leading_comments-IsBare,
}
use snowflake_emulator.Sql.Kinds.{is_transaction, is_begin, is_commit, is_rollback, is_create_table}
use snowflake_emulator.Sql.Transactions.{transaction_kinds}

nested : trim_leading_comments (str " /* a /* b */ c */ SELECT 1 ") ≡ str "SELECT 1"
unfolding trim_leading_comments
nested = refl

after_comments : is_create_table (str "/* a */ create table t (n int)") ≡ true
unfolding is_create_table
after_comments = refl

unclosed : trim_leading_comments (str "/* /* */ SELECT 1") ≡ str ""
unfolding trim_leading_comments
unclosed = refl

trim_leading_comments-eq-resumed_example :
    (trim_leading_comments (str "/* a */ /* b */ x")
      ≡ resumed trim_leading_comments (round (str "/* a */ /* b */ x")))
    × Continues (length (str "/* a */ /* b */ x")) (round (str "/* a */ /* b */ x"))
trim_leading_comments-eq-resumed_example =
    trim_leading_comments-eq-resumed (str "/* a */ /* b */ x")

trim_leading_comments-IsBare_example : IsBare (trim_leading_comments (str "/* a */ /* b */ x"))
trim_leading_comments-IsBare_example = trim_leading_comments-IsBare (str "/* a */ /* b */ x")

transaction_kinds_example :
    (is_transaction (str "commit;")
      ≡ (is_begin (str "commit;") || (is_commit (str "commit;") || is_rollback (str "commit;"))))
    × ((is_begin (str "commit;") && is_commit (str "commit;")) ≡ false)
    × ((is_begin (str "commit;") && is_rollback (str "commit;")) ≡ false)
    × ((is_commit (str "commit;") && is_rollback (str "commit;")) ≡ false)
transaction_kinds_example = transaction_kinds (str "commit;")
