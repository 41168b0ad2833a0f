-- ===== src/Metadata/Tables.antt =====
-- Change and removal of tables (pkg/metadata/repository.go).
use snowflake_emulator.Base.{
  ℕ, Text, str, text_eq, to_upper, Bool, not, List, [], ◌∷◌, ◌++◌, map, ◌==◌, if◌then◌else◌, keep,
}
use snowflake_emulator.Base.Members.{any}
use snowflake_emulator.Base.Result.{Result, ok, err, ◌>>=◌}
use snowflake_emulator.Metadata.Types.{
  Error, not_found, empty_name, Database, Schema, Table, ColumnDef, Store, Call, database_failed,
}
use snowflake_emulator.Metadata.Namespaces.{
  when_up, dot, get_schema, get_database, delete_object_privileges,
}
use snowflake_emulator.Metadata.Objects.{
  is_named, is_view, is_physical, physical_name, get_table, get_table_by_name,
  serialize_column_defs,
}

-- The update of a row that is there.
abbrev registered : ℕ → Text → Text → Text → Text → Table → Table
registered now schema_id name type columns r =
    if is_named schema_id name r
    then record r { table_type = type; column_definitions = columns; created_at = now }
    else r

-- INSERT ... ON CONFLICT (schema_id, name) DO UPDATE
unfoldable pub upsert_table :
    ℕ → Text → Text → Text → Text → Text → List Table → Result Error (List Table)
unfolding any
upsert_table now id schema_id name type columns rows =
    if any (is_named schema_id name) rows
    then ok (map (registered now schema_id name type columns) rows)
    else if any (λ (r : Table). r.id == id) rows
    then err database_failed
    else ok (
        rows
        ++ record {
          id = id;
          schema_id = schema_id;
          name = name;
          table_type = type;
          comment = [];
          created_at = now;
          owner = [];
          clustering_key = [];
          column_definitions = columns;
        }
          ∷ [])

abbrev read_named :
    Bool → Text → Text → Store → Result Error (List Table) → Store × Result Error Table
read_named up schema_id name t (err e) = (t, err e)
read_named up schema_id name t (ok rows) =
    let t' : Store = record t { tables = rows } in (t', get_table_by_name up schema_id name t')

unfoldable pub register_table :
    Call → Text → Text → Text → Text → List ColumnDef → Store → Store × Result Error Table
unfolding upsert_table get_table_by_name to_upper serialize_column_defs
register_table c id schema_id name type columns t =
    if name == []
    then (t, err empty_name)
    else read_named (c.up 1) schema_id (to_upper name) t (
        when_up (c.up 0) (
          upsert_table c.now id schema_id (to_upper name) (to_upper type)
            (serialize_column_defs columns) t.tables))

unfoldable pub delete_table_metadata : Call → Text → Text → Store → Result Error Store
unfolding get_schema get_database delete_object_privileges keep to_upper
delete_table_metadata c schema_id name t = do
  schema ← get_schema (c.up 0) schema_id t
  db ← get_database (c.up 1) schema.database_id t
  when_up (c.up 2) (
      ok (record t {
        tables = keep (λ r. not (is_named schema_id (to_upper name) r)) t.tables;
        object_privileges =
            delete_object_privileges (str "TABLE") (dot (dot db.name schema.name) (to_upper name))
              t.object_privileges;
      }))

-- The transaction of `drop_table`.
unfoldable pub remove_table : Bool → Database → Schema → Table → Text → Store → Result Error Store
unfolding delete_object_privileges keep any
remove_table up db schema r id t = when_up up (
    if any (λ (o : Table). o.id == id) t.tables
    then ok (record t {
      object_privileges =
          delete_object_privileges (str "TABLE") (dot (dot db.name schema.name) r.name)
            t.object_privileges;
      physical_tables =
          keep (λ p. not (is_physical db.name (physical_name schema.name r.name) p))
            t.physical_tables;
      tables = keep (λ (o : Table). not (o.id == id)) t.tables;
    })
    else err not_found)

unfoldable pub drop_table : Call → Text → Store → Result Error Store
unfolding get_table get_schema get_database remove_table
drop_table c id t = do
  r ← get_table (c.up 0) id t
  if is_view r
      then err not_found
      else get_schema (c.up 1) r.schema_id t >>= λ schema.
          get_database (c.up 2) schema.database_id t >>= λ db.
          remove_table (c.up 3) db schema r id t

abbrev comment_table : Text → Text → Table → Table
comment_table id comment r = if r.id == id then record r { comment = comment } else r

unfoldable pub update_table_comment : Bool → Text → Text → Store → Result Error Store
unfolding any
update_table_comment up id comment t = when_up up (
    if any (λ (r : Table). r.id == id) t.tables
    then ok (record t { tables = map (comment_table id comment) t.tables })
    else err not_found)
