-- ===== src/Metadata/Dropping.antt =====
-- What a dropped table leaves.
use snowflake_emulator.Metadata.Likeness.{and_true}
use snowflake_emulator.Metadata.Similarity.{IsClean, IsCovered, delete_object_privileges-IsCovered}
use snowflake_emulator.Base.{
  none, some, Option, to_upper, ◌++◌, ◌&&◌, ◌↔◌, text_beq_iff, ◌≡◌, refl, Text, str, text_eq, Bool,
  true, false, not, ◌∷◌, ◌==◌, arith, keep, none,
}
use snowflake_emulator.Base.Members.{Has-any, find_first-Has, Has-keep-not, Has, any}
use snowflake_emulator.Base.Result.{ok}
use snowflake_emulator.Identity.Types.{ObjectPrivilegeRecord}
use snowflake_emulator.Metadata.Types.{Database, Schema, Table, PhysicalTable, Store, Call}
use snowflake_emulator.Metadata.Namespaces.{
  when_up, one, dot, delete_object_privileges, get_schema, get_database,
}
use snowflake_emulator.Metadata.Objects.{is_view, is_physical, physical_name, get_table}
use snowflake_emulator.Metadata.Tables.{remove_table, drop_table}

abbrev full_name : Database → Schema → Table → Text
full_name db schema r = dot (dot db.name schema.name) r.name

-- The fields of the catalog that a table has no part in.
abbrev pub SameElsewhere : Store → Store → Type 0
SameElsewhere t t' =
    (t'.databases ≡ t.databases)
    × (t'.schemas ≡ t.schemas)
    × (t'.stages ≡ t.stages)
    × (t'.file_formats ≡ t.file_formats)
    × (t'.namespaces ≡ t.namespaces)

-- The row with the id, the table of DuckDB and the privileges on the table or below a name that it
-- is similar to are gone, and nothing else is.
abbrev pub IsGone : Text → Database → Schema → Table → Store → Store → Type 0
IsGone id db schema r t t' =
    ((o : Table) → Has o t'.tables ↔ (Has o t.tables × ¬ (o.id ≡ id)))
    × ((p : PhysicalTable)
        → Has p t'.physical_tables ↔ (
            Has p t.physical_tables
            × ¬ ((p.namespace ≡ db.name) × (p.name ≡ schema.name ++ 95 ∷ r.name))))
    × ((g : ObjectPrivilegeRecord)
        → Has g t'.object_privileges
          ↔ (Has g t.object_privileges × ¬ IsCovered (str "TABLE") (full_name db schema r) g))
    × SameElsewhere t t'

both_texts : (a b c d : Text) → (a == b && c == d) ≡ true → (a ≡ b) × (c ≡ d)
both_texts a b c d h =
    let (e, f) = and_true (a == b) (c == d) h in ((text_beq_iff a b).0 e, (text_beq_iff c d).0 f)

texts_both : (a b c d : Text) → (a ≡ b) × (c ≡ d) → (a == b && c == d) ≡ true
texts_both a b c d (e, f) = rw ((text_beq_iff a b).1 e, (text_beq_iff c d).1 f) refl

abbrev without_table : Database → Schema → Table → Text → Store → Store
without_table db schema r id t = record t {
  object_privileges =
      delete_object_privileges (str "TABLE") (dot (dot db.name schema.name) r.name)
        t.object_privileges;
  physical_tables =
      keep (λ p. not (is_physical db.name (physical_name schema.name r.name) p)) t.physical_tables;
  tables = keep (λ (o : Table). not (o.id == id)) t.tables;
}

without_table-IsGone :
    (db : Database) (schema : Schema) (r : Table) (id : Text) (t : Store)
    → IsClean (to_upper (full_name db schema r))
    → IsGone id db schema r t (without_table db schema r id t)
without_table-IsGone db schema r id t clean = (
  λ o.
      Has-keep-not (λ (x : Table). x.id == id) t.tables o (o.id ≡ id) (text_beq_iff o.id id).0
        (text_beq_iff o.id id).1,
  λ p.
      let name = physical_name schema.name r.name in
      Has-keep-not (is_physical db.name name) t.physical_tables p
        ((p.namespace ≡ db.name) × (p.name ≡ name)) (both_texts p.namespace db.name p.name name)
        (texts_both p.namespace db.name p.name name),
  λ g.
      delete_object_privileges-IsCovered (str "TABLE") (full_name db schema r) t.object_privileges g
        clean,
  (refl, refl, refl, refl, refl),
)

one_found : (up : Bool) (o : Option Table) (r : Table) → when_up up (one o) ≡ ok r → o ≡ some r
unfolding one
one_found true none r e = cc
one_found true (some a) r e = ground (arith, e)
one_found false o r e = cc

get_table-any :
    (up : Bool) (id : Text) (t : Store) (r : Table)
    → get_table up id t ≡ ok r
    → any (λ (o : Table). o.id == id) t.tables ≡ true
unfolding get_table
get_table-any up id t r e =
    let (m, same) = find_first-Has (λ (o : Table). o.id == id) t.tables r (one_found up _ r e) in
    Has-any (λ (o : Table). o.id == id) r t.tables m same

-- With a database that answers, DropTable of a table that is no view, in a schema of a database,
-- and without % in its full name, succeeds. Then exactly the rows with its id are gone from the
-- tables, exactly the table of its name from DuckDB, and exactly those privileges that are on the
-- table or on something below a name that its own is similar to, where _ stands for any character;
-- the other parts of the catalog are as before.
pub drop_table-IsGone :
    (c : Call) (id : Text) (r : Table) (schema : Schema) (db : Database) (t : Store)
    → c.up 3 ≡ true
    → get_table (c.up 0) id t ≡ ok r
    → get_schema (c.up 1) r.schema_id t ≡ ok schema
    → get_database (c.up 2) schema.database_id t ≡ ok db
    → is_view r ≡ false
    → IsClean (to_upper (full_name db schema r))
    → (t' : Store) × (drop_table c id t ≡ ok t') × IsGone id db schema r t t'
unfolding drop_table remove_table
drop_table-IsGone c id r schema db t up er es ed ordinary clean = (
  without_table db schema r id t,
  rw (er, ordinary, es, ed, up, get_table-any (c.up 0) id t r er) refl,
  without_table-IsGone db schema r id t clean,
)
