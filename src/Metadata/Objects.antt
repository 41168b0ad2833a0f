-- ===== src/Metadata/Objects.antt =====
-- Creation and look-up of tables (pkg/metadata/repository.go).
use snowflake_emulator.Base.{
  ℕ, Text, str, text_eq, text_leb, to_upper, Option, none, some, Bool, true, false, not, ◌&&◌, ◌||◌,
  List, [], ◌∷◌, ◌++◌, map, ◌==◌, if◌then◌else◌, keep,
}
use snowflake_emulator.Base.Members.{any, find_first}
use snowflake_emulator.Base.Result.{Result, ok, err, ◌>>=◌}
use snowflake_emulator.Base.Sort.{sort_by}
use snowflake_emulator.Metadata.Types.{
  Error, not_found, already_exists, empty_name, no_columns, Database, Schema, Table, ColumnDef,
  PhysicalTable, Store, Call,
}
use snowflake_emulator.Metadata.Namespaces.{when_up, one, get_schema, get_database}

-- strings.Join
unfoldable pub join : Text → List Text → Text
join separator [] = []
join separator (x ∷ []) = x
join separator (x ∷ y ∷ ys) = x ++ separator ++ join separator (y ∷ ys)

abbrev default_clause : Option Text → Text
default_clause none = []
default_clause (some value) = str " DEFAULT " ++ value

abbrev column_clause : ColumnDef → Text
column_clause c =
    c.name
    ++ 32 ∷ c.type_name
    ++ (if c.nullable then [] else str " NOT NULL")
    ++ default_clause c.default

abbrev key_clause : List ColumnDef → List Text
key_clause [] = []
key_clause (c ∷ cs) =
    (str "PRIMARY KEY (" ++ join (str ", ") (map (λ (k : ColumnDef). k.name) (c ∷ cs)) ++ str ")")
    ∷ []

-- What stands between the parentheses of CREATE TABLE.
unfoldable pub column_clauses : List ColumnDef → Text
unfolding join keep
column_clauses cs =
    join (str ", ")
      (map column_clause cs ++ key_clause (keep (λ (c : ColumnDef). c.primary_key) cs))

abbrev of_bool : Bool → Text
of_bool b = if b then str "true" else str "false"

abbrev or_empty : Option Text → Text
or_empty none = []
or_empty (some value) = value

unfoldable pub serialize_column_defs : List ColumnDef → Text
unfolding join
serialize_column_defs cs = join (str ";") (
    map
      (λ (c : ColumnDef). join (str ":") (
        c.name
        ∷ c.type_name
        ∷ of_bool c.nullable
        ∷ of_bool c.primary_key
        ∷ or_empty c.default
        ∷ []))
      cs)

unfoldable pub get_table : Bool → Text → Store → Result Error Table
unfolding find_first one
get_table up id t = when_up up (one (find_first (λ (r : Table). r.id == id) t.tables))

abbrev pub is_named : Text → Text → Table → Bool
is_named schema_id name r = r.schema_id == schema_id && r.name == name

unfoldable pub get_table_by_name : Bool → Text → Text → Store → Result Error Table
unfolding find_first one to_upper
get_table_by_name up schema_id name t =
    when_up up (one (find_first (is_named schema_id (to_upper name)) t.tables))

abbrev pub is_view : Table → Bool
is_view r = r.table_type == str "VIEW"

abbrev is_dynamic : Table → Bool
is_dynamic r = r.table_type == str "DYNAMIC TABLE"

unfoldable pub get_ordinary_table_by_name : Bool → Text → Text → Store → Result Error Table
unfolding get_table_by_name
get_ordinary_table_by_name up schema_id name t = elim (get_table_by_name up schema_id name t) [
  | err e ↦ err not_found
  | ok r ↦ if is_view r || is_dynamic r then err not_found else ok r
]

list_catalog_tables : Bool → (Table → Bool) → Text → Store → Result Error (List Table)
unfolding keep sort_by text_leb
list_catalog_tables up selected schema_id t = when_up up (
    ok (
      sort_by (λ (a : Table) (b : Table). text_leb a.name b.name)
        (keep (λ (r : Table). r.schema_id == schema_id && selected r) t.tables)))

unfoldable pub list_tables : Bool → Text → Store → Result Error (List Table)
unfolding list_catalog_tables
list_tables up schema_id t =
    list_catalog_tables up (λ r. not (is_view r || is_dynamic r)) schema_id t

unfoldable pub list_views : Bool → Text → Store → Result Error (List Table)
unfolding list_catalog_tables
list_views up schema_id t = list_catalog_tables up is_view schema_id t

-- CREATE TABLE IF NOT EXISTS
abbrev pub is_physical : Text → Text → PhysicalTable → Bool
is_physical namespace name p = p.namespace == namespace && p.name == name

unfoldable pub add_physical : Text → Text → Text → List PhysicalTable → List PhysicalTable
unfolding any
add_physical namespace name columns ps =
    if any (is_physical namespace name) ps
    then ps
    else ps ++ record { namespace = namespace; name = name; columns = columns } ∷ []

abbrev pub physical_name : Text → Text → Text
physical_name schema table = schema ++ 95 ∷ table

-- The transaction of `create_table`, with the new row.
unfoldable pub insert_table : Bool → Database → Schema → Text → Table → Store → Result Error Store
unfolding any add_physical
insert_table up db schema columns r t = when_up up (
    if any (λ (o : Table). o.id == r.id || is_named r.schema_id r.name o) t.tables
    then err already_exists
    else ok (record t {
      physical_tables =
          add_physical db.name (physical_name schema.name r.name) columns t.physical_tables;
      tables = t.tables ++ r ∷ [];
    }))

abbrev read_table : Bool → Text → Store → Result Error Store → Store × Result Error Table
read_table up id t (err e) = (t, err e)
read_table up id t (ok t') = (t', get_table up id t')

abbrev pub new_table : ℕ → Text → Text → Text → Text → List ColumnDef → Table
new_table now id schema_id name comment columns = record {
  id = id;
  schema_id = schema_id;
  name = to_upper name;
  table_type = str "BASE TABLE";
  comment = comment;
  created_at = now;
  owner = [];
  clustering_key = [];
  column_definitions = serialize_column_defs columns;
}

abbrev is_without : List ColumnDef → Bool
is_without [] = true
is_without (c ∷ cs) = false

unfoldable pub create_table :
    Call → Text → Text → Text → List ColumnDef → Text → Store → Store × Result Error Table
unfolding get_schema get_database insert_table get_table to_upper column_clauses
    serialize_column_defs
create_table c id schema_id name columns comment t =
    if name == []
    then (t, err empty_name)
    else if is_without columns
    then (t, err no_columns)
    else read_table (c.up 3) id t (
        get_schema (c.up 0) schema_id t >>= λ schema.
        get_database (c.up 1) schema.database_id t >>= λ db.
        insert_table (c.up 2) db schema (column_clauses columns)
          (new_table c.now id schema_id name comment columns) t)
