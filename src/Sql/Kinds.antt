-- ===== src/Sql/Kinds.antt =====
-- The kinds of statements that are known by their first words (pkg/query/classifier.go).
use snowflake_emulator.Base.{Text, str, Bool, false, ◌||◌, List, [], ◌∷◌, has_prefix}
use snowflake_emulator.Sql.Comments.{leading_sql}

-- Any of the prefixes, tried from left to right.
unfoldable pub starts_with : Text → List Text → Bool
unfolding has_prefix
starts_with s [] = false
starts_with s (p ∷ ps) = has_prefix s p || starts_with s ps

unfoldable pub is_create_stage : Text → Bool
unfolding starts_with leading_sql
is_create_stage sql =
    starts_with (leading_sql sql) (str "CREATE STAGE" ∷ str "CREATE OR REPLACE STAGE" ∷ [])

unfoldable pub is_drop_stage : Text → Bool
unfolding starts_with leading_sql
is_drop_stage sql = starts_with (leading_sql sql) (str "DROP STAGE" ∷ [])

unfoldable pub is_list_stage : Text → Bool
unfolding starts_with leading_sql
is_list_stage sql = starts_with (leading_sql sql) (str "LIST @" ∷ [])

unfoldable pub is_show_stages : Text → Bool
unfolding starts_with leading_sql
is_show_stages sql = starts_with (leading_sql sql) (str "SHOW STAGES" ∷ [])

unfoldable pub is_create_procedure : Text → Bool
unfolding starts_with leading_sql
is_create_procedure sql =
    starts_with (leading_sql sql) (str "CREATE PROCEDURE" ∷ str "CREATE OR REPLACE PROCEDURE" ∷ [])

unfoldable pub is_drop_procedure : Text → Bool
unfolding starts_with leading_sql
is_drop_procedure sql = starts_with (leading_sql sql) (str "DROP PROCEDURE" ∷ [])

unfoldable pub is_call : Text → Bool
unfolding starts_with leading_sql
is_call sql = starts_with (leading_sql sql) (str "CALL" ∷ [])

unfoldable pub is_show_procedures : Text → Bool
unfolding starts_with leading_sql
is_show_procedures sql = starts_with (leading_sql sql) (str "SHOW PROCEDURES" ∷ [])

unfoldable pub is_create_function : Text → Bool
unfolding starts_with leading_sql
is_create_function sql =
    starts_with (leading_sql sql) (str "CREATE FUNCTION" ∷ str "CREATE OR REPLACE FUNCTION" ∷ [])

unfoldable pub is_drop_function : Text → Bool
unfolding starts_with leading_sql
is_drop_function sql = starts_with (leading_sql sql) (str "DROP FUNCTION" ∷ [])

unfoldable pub is_show_functions : Text → Bool
unfolding starts_with leading_sql
is_show_functions sql =
    starts_with (leading_sql sql) (str "SHOW FUNCTIONS" ∷ str "SHOW USER FUNCTIONS" ∷ [])

unfoldable pub is_create_stream : Text → Bool
unfolding starts_with leading_sql
is_create_stream sql =
    starts_with (leading_sql sql) (str "CREATE STREAM" ∷ str "CREATE OR REPLACE STREAM" ∷ [])

unfoldable pub is_drop_stream : Text → Bool
unfolding starts_with leading_sql
is_drop_stream sql = starts_with (leading_sql sql) (str "DROP STREAM" ∷ [])

unfoldable pub is_show_streams : Text → Bool
unfolding starts_with leading_sql
is_show_streams sql = starts_with (leading_sql sql) (str "SHOW STREAMS" ∷ [])

unfoldable pub is_create_task : Text → Bool
unfolding starts_with leading_sql
is_create_task sql =
    starts_with (leading_sql sql) (str "CREATE TASK" ∷ str "CREATE OR REPLACE TASK" ∷ [])

unfoldable pub is_alter_task : Text → Bool
unfolding starts_with leading_sql
is_alter_task sql = starts_with (leading_sql sql) (str "ALTER TASK" ∷ [])

unfoldable pub is_drop_task : Text → Bool
unfolding starts_with leading_sql
is_drop_task sql = starts_with (leading_sql sql) (str "DROP TASK" ∷ [])

unfoldable pub is_execute_task : Text → Bool
unfolding starts_with leading_sql
is_execute_task sql = starts_with (leading_sql sql) (str "EXECUTE TASK" ∷ [])

unfoldable pub is_show_tasks : Text → Bool
unfolding starts_with leading_sql
is_show_tasks sql = starts_with (leading_sql sql) (str "SHOW TASKS" ∷ [])

unfoldable pub is_create_view : Text → Bool
unfolding starts_with leading_sql
is_create_view sql =
    starts_with (leading_sql sql) (str "CREATE VIEW" ∷ str "CREATE OR REPLACE VIEW" ∷ [])

unfoldable pub is_drop_view : Text → Bool
unfolding starts_with leading_sql
is_drop_view sql = starts_with (leading_sql sql) (str "DROP VIEW" ∷ [])

unfoldable pub is_show_views : Text → Bool
unfolding starts_with leading_sql
is_show_views sql = starts_with (leading_sql sql) (str "SHOW VIEWS" ∷ [])

unfoldable pub is_create_dynamic_table : Text → Bool
unfolding starts_with leading_sql
is_create_dynamic_table sql =
    starts_with (leading_sql sql)
      (str "CREATE DYNAMIC TABLE" ∷ str "CREATE OR REPLACE DYNAMIC TABLE" ∷ [])

unfoldable pub is_alter_dynamic_table : Text → Bool
unfolding starts_with leading_sql
is_alter_dynamic_table sql = starts_with (leading_sql sql) (str "ALTER DYNAMIC TABLE" ∷ [])

unfoldable pub is_drop_dynamic_table : Text → Bool
unfolding starts_with leading_sql
is_drop_dynamic_table sql = starts_with (leading_sql sql) (str "DROP DYNAMIC TABLE" ∷ [])

unfoldable pub is_show_dynamic_tables : Text → Bool
unfolding starts_with leading_sql
is_show_dynamic_tables sql = starts_with (leading_sql sql) (str "SHOW DYNAMIC TABLES" ∷ [])

unfoldable pub is_transaction_statement : Text → Bool
unfolding starts_with
is_transaction_statement upper_sql =
    starts_with upper_sql
      (str "BEGIN" ∷ str "START TRANSACTION" ∷ str "COMMIT" ∷ str "ROLLBACK" ∷ [])

unfoldable pub is_transaction : Text → Bool
unfolding is_transaction_statement leading_sql
is_transaction sql = is_transaction_statement (leading_sql sql)

unfoldable pub is_create_table : Text → Bool
unfolding starts_with leading_sql
is_create_table sql = starts_with (leading_sql sql) (
    str "CREATE TABLE"
    ∷ str "CREATE TEMP TABLE"
    ∷ str "CREATE TEMPORARY TABLE"
    ∷ str "CREATE TRANSIENT TABLE"
    ∷ str "CREATE OR REPLACE TABLE"
    ∷ str "CREATE OR REPLACE TEMP TABLE"
    ∷ str "CREATE OR REPLACE TEMPORARY TABLE"
    ∷ str "CREATE OR REPLACE TRANSIENT TABLE"
    ∷ [])

unfoldable pub is_create_schema : Text → Bool
unfolding starts_with leading_sql
is_create_schema sql =
    starts_with (leading_sql sql) (str "CREATE SCHEMA" ∷ str "CREATE OR REPLACE SCHEMA" ∷ [])

unfoldable pub is_create_database : Text → Bool
unfolding starts_with leading_sql
is_create_database sql =
    starts_with (leading_sql sql) (str "CREATE DATABASE" ∷ str "CREATE OR REPLACE DATABASE" ∷ [])

unfoldable pub is_drop_database : Text → Bool
unfolding starts_with leading_sql
is_drop_database sql = starts_with (leading_sql sql) (str "DROP DATABASE" ∷ [])

unfoldable pub is_drop_schema : Text → Bool
unfolding starts_with leading_sql
is_drop_schema sql = starts_with (leading_sql sql) (str "DROP SCHEMA" ∷ [])

unfoldable pub is_drop_table : Text → Bool
unfolding starts_with leading_sql
is_drop_table sql = starts_with (leading_sql sql) (str "DROP TABLE" ∷ [])

unfoldable pub is_copy : Text → Bool
unfolding starts_with leading_sql
is_copy sql = starts_with (leading_sql sql) (str "COPY" ∷ [])

unfoldable pub is_merge : Text → Bool
unfolding starts_with leading_sql
is_merge sql = starts_with (leading_sql sql) (str "MERGE" ∷ [])

unfoldable pub is_begin : Text → Bool
unfolding starts_with leading_sql
is_begin sql = starts_with (leading_sql sql) (str "BEGIN" ∷ str "START TRANSACTION" ∷ [])

unfoldable pub is_commit : Text → Bool
unfolding starts_with leading_sql
is_commit sql = starts_with (leading_sql sql) (str "COMMIT" ∷ [])

unfoldable pub is_rollback : Text → Bool
unfolding starts_with leading_sql
is_rollback sql = starts_with (leading_sql sql) (str "ROLLBACK" ∷ [])
