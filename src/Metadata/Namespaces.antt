-- ===== src/Metadata/Namespaces.antt =====
-- Databases and schemas (pkg/metadata/repository.go), and the privileges on what is dropped
-- (pkg/metadata/object_privilege_repository.go).
use snowflake_emulator.Base.{
  ℕ, ◌+◌, Text, str, text_eq, nat_eq, text_leb, to_upper, Option, none, some, Bool, true, false,
  not, ◌&&◌, ◌||◌, List, [], ◌∷◌, ◌++◌, map, ◌==◌, if◌then◌else◌, keep, contains,
}
use snowflake_emulator.Base.Members.{any, find_first}
use snowflake_emulator.Base.Result.{Result, ok, err, ◌>>=◌}
use snowflake_emulator.Base.Sort.{sort_by}
use snowflake_emulator.Identity.Types.{ObjectPrivilegeRecord}
use snowflake_emulator.Metadata.Types.{
  Error, not_found, already_exists, empty_name, database_failed, Database, Schema, Table,
  PhysicalTable, Store, Call,
}

abbrev pub when_up {ℓ} : {A : Type ℓ} → Bool → Result Error A → Result Error A
when_up up r = if up then r else err database_failed

-- One row, or none.
unfoldable pub one {ℓ} : {A : Type ℓ} → Option A → Result Error A
one none = err not_found
one (some a) = ok a

-- SQL's LIKE: % stands for any text, _ for any character. `rest` is the match of the pattern after
-- a %, which is tried at every place.
unfoldable pub anywhere : (Text → Bool) → Text → Bool
anywhere rest [] = rest []
anywhere rest (c ∷ cs) = rest (c ∷ cs) || anywhere rest cs

abbrev after_one : (ℕ → Bool) → (Text → Bool) → Text → Bool
after_one is_match rest [] = false
after_one is_match rest (c ∷ cs) = is_match c && rest cs

abbrev pub is_empty_text : Text → Bool
is_empty_text [] = true
is_empty_text (c ∷ cs) = false

unfoldable pub like : Text → Text → Bool
unfolding anywhere
like [] = is_empty_text
like (p ∷ ps) =
    let rest = like ps in
    if p == 37
    then anywhere rest
    else if p == 95
    then after_one (λ c. true) rest
    else after_one (λ c. c == p) rest

abbrev pub is_on_object : Text → Text → ObjectPrivilegeRecord → Bool
is_on_object type name g =
    (g.object_type == to_upper type && g.object_name == to_upper name)
    || like (to_upper name ++ str ".%") g.object_name

unfoldable pub delete_object_privileges :
    Text → Text → List ObjectPrivilegeRecord → List ObjectPrivilegeRecord
unfolding keep to_upper like
delete_object_privileges type name gs = keep (λ g. not (is_on_object type name g)) gs

abbrev pub dot : Text → Text → Text
dot a b = a ++ 46 ∷ b

unfoldable pub get_database : Bool → Text → Store → Result Error Database
unfolding find_first one
get_database up id t = when_up up (one (find_first (λ (d : Database). d.id == id) t.databases))

unfoldable pub get_database_by_name : Bool → Text → Store → Result Error Database
unfolding find_first one to_upper
get_database_by_name up name t =
    when_up up (one (find_first (λ (d : Database). d.name == to_upper name) t.databases))

unfoldable pub list_databases : Bool → Store → Result Error (List Database)
unfolding sort_by text_leb
list_databases up t =
    when_up up (ok (sort_by (λ (a : Database) (b : Database). text_leb a.name b.name) t.databases))

unfoldable pub get_schema : Bool → Text → Store → Result Error Schema
unfolding find_first one
get_schema up id t = when_up up (one (find_first (λ (s : Schema). s.id == id) t.schemas))

unfoldable pub get_schema_by_name : Bool → Text → Text → Store → Result Error Schema
unfolding find_first one to_upper
get_schema_by_name up database_id name t = when_up up (
    one (
      find_first (λ (s : Schema). s.database_id == database_id && s.name == to_upper name)
        t.schemas))

unfoldable pub list_schemas : Bool → Text → Store → Result Error (List Schema)
unfolding keep sort_by text_leb
list_schemas up database_id t = when_up up (
    ok (
      sort_by (λ (a : Schema) (b : Schema). text_leb a.name b.name)
        (keep (λ (s : Schema). s.database_id == database_id) t.schemas)))

-- UNIQUE(database_id, name), and the key.
abbrev pub clashes_schema : Text → Text → Text → Schema → Bool
clashes_schema id database_id name s =
    s.id == id || (s.database_id == database_id && s.name == name)

unfoldable pub create_schema :
    Call → Text → Text → Text → Text → Store → Store × Result Error Schema
unfolding any get_schema to_upper
create_schema c id database_id name comment t =
    let t' : Store = record t {
      schemas =
          t.schemas
          ++ record {
            id = id;
            database_id = database_id;
            name = to_upper name;
            comment = comment;
            created_at = c.now;
            owner = [];
          }
            ∷ [];
    } in
    if name == []
    then (t, err empty_name)
    else if not (c.up 0)
    then (t, err database_failed)
    else if any (clashes_schema id database_id (to_upper name)) t.schemas
    then (t, err already_exists)
    else (t', get_schema (c.up 1) id t')

-- CREATE SCHEMA IF NOT EXISTS
abbrev pub add_namespace : Text → List Text → List Text
add_namespace name ns = if contains ns name then ns else ns ++ name ∷ []

-- The transaction of `create_database`.
unfoldable pub insert_database : Bool → ℕ → Text → Text → Text → Store → Result Error Store
unfolding any contains
insert_database up now id name comment t = when_up up (
    if any (λ (d : Database). d.id == id || d.name == name) t.databases
    then err already_exists
    else ok (record t {
      namespaces = add_namespace name t.namespaces;
      databases =
          t.databases
          ++ record {
            id = id;
            name = name;
            account_id = [];
            comment = comment;
            created_at = now;
            owner = [];
          }
            ∷ [];
    }))

abbrev default_schema : Text
default_schema = str "PUBLIC"

-- The default schema, and then the row of the database.
abbrev pub finish_database :
    Bool → Text → Store × Result Error Schema → Store × Result Error Database
finish_database up id (t, err e) = (t, err e)
finish_database up id (t, ok s) = (t, get_database up id t)

abbrev pub with_default_schema :
    Call → Text → Text → Store → Result Error Store → Store × Result Error Database
with_default_schema c id schema_id t (err e) = (t, err e)
with_default_schema c id schema_id t (ok t') = finish_database (c.up 3) id (
    create_schema (record c { up = λ i. c.up (1 + i) }) schema_id id default_schema
      (str "Public schema") t')

unfoldable pub create_database :
    Call → Text → Text → Text → Text → Store → Store × Result Error Database
unfolding insert_database create_schema get_database to_upper
create_database c id schema_id name comment t =
    if name == []
    then (t, err empty_name)
    else with_default_schema c id schema_id t
        (insert_database (c.up 0) c.now id (to_upper name) comment t)

unfoldable pub drop_database : Call → Text → Store → Result Error Store
unfolding get_database delete_object_privileges keep any
drop_database c id t = do
  db ← get_database (c.up 0) id t
  when_up (c.up 1) (
      if any (λ (d : Database). d.id == id) t.databases
      then ok (record t {
        object_privileges = delete_object_privileges (str "DATABASE") db.name t.object_privileges;
        namespaces = keep (λ n. not (n == db.name)) t.namespaces;
        physical_tables =
            keep (λ (p : PhysicalTable). not (p.namespace == db.name)) t.physical_tables;
        databases = keep (λ (d : Database). not (d.id == id)) t.databases;
      })
      else err not_found)

abbrev comment_database : Text → Text → Database → Database
comment_database id comment d = if d.id == id then record d { comment = comment } else d

unfoldable pub update_database_comment : Bool → Text → Text → Store → Result Error Store
unfolding any
update_database_comment up id comment t = when_up up (
    if any (λ (d : Database). d.id == id) t.databases
    then ok (record t { databases = map (comment_database id comment) t.databases })
    else err not_found)

unfoldable pub drop_schema : Call → Text → Store → Result Error Store
unfolding get_schema get_database delete_object_privileges keep any
drop_schema c id t = do
  schema ← get_schema (c.up 0) id t
  db ← get_database (c.up 1) schema.database_id t
  when_up (c.up 2) (
      if any (λ (s : Schema). s.id == id) t.schemas
      then ok (record t {
        object_privileges =
            delete_object_privileges (str "SCHEMA") (dot db.name schema.name) t.object_privileges;
        tables = keep (λ (r : Table). not (r.schema_id == id)) t.tables;
        schemas = keep (λ (s : Schema). not (s.id == id)) t.schemas;
      })
      else err not_found)

abbrev default_database : Text
default_database = str "TEST_DB"

abbrev as_done : Store × Result Error Schema → Store × Result Error (Unit {0})
as_done (t, ok s) = (t, ok tt)
as_done (t, err e) = (t, err e)

-- Any error of the look-up counts as a missing row.
abbrev unless_found :
    Result Error Schema → Store → Store × Result Error Schema → Store × Result Error (Unit {0})
unless_found (ok s) t made = (t, ok tt)
unless_found (err e) t made = as_done made

abbrev ensure_schema : Call → Text → Store × Result Error Database → Store × Result Error (Unit {0})
ensure_schema c schema_id (t, err e) = (t, err e)
ensure_schema c schema_id (t, ok db) =
    unless_found (get_schema_by_name (c.up 5) db.id default_schema t) t (
      create_schema (record c { up = λ i. c.up (6 + i) }) schema_id db.id default_schema
        (str "Default schema") t)

unfoldable pub ensure_default_namespace :
    Call → Text → Text → Text → Store → Store × Result Error (Unit {0})
unfolding get_database_by_name create_database get_schema_by_name create_schema
ensure_default_namespace c id first_schema second_schema t =
    elim (get_database_by_name (c.up 0) default_database t) [
      | ok db ↦ ensure_schema c second_schema (t, ok db)
      | err e ↦ ensure_schema c second_schema (
          create_database (record c { up = λ i. c.up (1 + i) }) id first_schema default_database
            (str "Default database") t)
    ]
