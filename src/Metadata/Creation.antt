-- ===== src/Metadata/Creation.antt =====
-- What was created is found.
use snowflake_emulator.Base.{
  map, ℕ, ◌≡◌, refl, Text, str, text_eq, text_beq, text_beq_iff, to_upper, Bool, true, false, ◌&&◌,
  ◌||◌, List, [], ◌∷◌, ◌++◌, ◌==◌, arith, some,
}
use snowflake_emulator.Base.Members.{any, find_first}
use snowflake_emulator.Base.Result.{ok}
use snowflake_emulator.Metadata.Types.{Database, Schema, Table, ColumnDef, Store, Call}
use snowflake_emulator.Metadata.Columns.{described, read_columns}
use snowflake_emulator.Metadata.Namespaces.{
  get_database, get_database_by_name, get_schema, get_schema_by_name, create_schema,
  insert_database, create_database, clashes_schema, add_namespace,
}

or_false : (a b : Bool) → (a || b) ≡ false → (a ≡ false) × (b ≡ false)
or_false a b h = ground arith

or_none : (a b : Bool) → a ≡ false → b ≡ false → (a || b) ≡ false
or_none a b h k = ground arith

-- The only row that passes a test is the last.
module _ {A : Type 0} (p q : A → Bool) where
  find_first-last :
      (xs : List A) (a : A)
      → ((x : A) → q x ≡ false → p x ≡ false)
      → any q xs ≡ false
      → p a ≡ true
      → find_first p (xs ++ a ∷ []) ≡ some a
  unfolding find_first any
  find_first-last [] a less fresh e = rw e refl
  find_first-last (x ∷ xs) a less fresh e =
      let (here, later) = or_false (q x) (any q xs) fresh in
      rw (less x here) (find_first-last xs a less later e)

  any_less :
      (xs : List A) → ((x : A) → q x ≡ false → p x ≡ false) → any q xs ≡ false → any p xs ≡ false
  unfolding any
  any_less [] less fresh = refl
  any_less (x ∷ xs) less fresh =
      let (here, later) = or_false (q x) (any q xs) fresh in
      rw (less x here) (any_less xs less later)

abbrev pub new_database : ℕ → Text → Text → Text → Database
new_database now id name comment = record {
  id = id;
  name = to_upper name;
  account_id = [];
  comment = comment;
  created_at = now;
  owner = [];
}

abbrev pub public_schema : ℕ → Text → Text → Schema
public_schema now id database_id = record {
  id = id;
  database_id = database_id;
  name = to_upper (str "PUBLIC");
  comment = str "Public schema";
  created_at = now;
  owner = [];
}

abbrev with_database : ℕ → Text → Text → Text → Text → Store → Store
with_database now id schema_id name comment t = record t {
  namespaces = add_namespace (to_upper name) t.namespaces;
  databases = t.databases ++ new_database now id name comment ∷ [];
  schemas = t.schemas ++ public_schema now schema_id id ∷ [];
}

text_same : (a : Text) → (a == a) ≡ true
text_same a = (text_beq_iff a a).1 refl

-- CreateDatabase of a name that is not empty, with a database that answers, without a database of
-- that name and with ids in no row yet, succeeds: the database is then found by its name, and has
-- a schema PUBLIC.
pub create_database_found :
    (c : Call) (id schema_id name comment : Text) (t : Store)
    → ((i : ℕ) → c.up i ≡ true)
    → (name == []) ≡ false
    → any (λ (d : Database). d.id == id || d.name == to_upper name) t.databases ≡ false
    → any (λ (s : Schema). s.id == schema_id || s.database_id == id) t.schemas ≡ false
    → (t' : Store) × (create_database c id schema_id name comment t
        ≡ (t', ok (new_database c.now id name comment)))
      × (get_database_by_name true name t' ≡ ok (new_database c.now id name comment))
      × (get_schema_by_name true id (str "PUBLIC") t' ≡ ok (public_schema c.now schema_id id))
unfolding create_database insert_database create_schema get_schema get_database get_database_by_name
    get_schema_by_name text_beq
create_database_found c id schema_id name comment t up named fresh fresh_schema = (
  with_database c.now id schema_id name comment t,
  rw
      (
        named,
        up 0,
        fresh,
        up 1,
        any_less (clashes_schema schema_id id (to_upper (str "PUBLIC")))
            (λ (s : Schema). s.id == schema_id || s.database_id == id) t.schemas
            (λ s e.
              let (a, b) = or_false (s.id == schema_id) (s.database_id == id) e in rw (a, b) refl)
            fresh_schema,
        up 2,
        find_first-last (λ (s : Schema). s.id == schema_id)
            (λ (s : Schema). s.id == schema_id || s.database_id == id) t.schemas
            (public_schema c.now schema_id id)
            (λ s e. (or_false (s.id == schema_id) (s.database_id == id) e).0) fresh_schema
            (text_same schema_id),
        up 3,
        find_first-last (λ (d : Database). d.id == id)
            (λ (d : Database). d.id == id || d.name == to_upper name) t.databases
            (new_database c.now id name comment)
            (λ d e. (or_false (d.id == id) (d.name == to_upper name) e).0) fresh (text_same id),
      )
      refl,
  rw
      (find_first-last (λ (d : Database). d.name == to_upper name)
        (λ (d : Database). d.id == id || d.name == to_upper name) t.databases
        (new_database c.now id name comment)
        (λ d e. (or_false (d.id == id) (d.name == to_upper name) e).1) fresh
        (text_same (to_upper name)))
      refl,
  rw
      (find_first-last (λ (s : Schema). s.database_id == id && s.name == to_upper (str "PUBLIC"))
        (λ (s : Schema). s.id == schema_id || s.database_id == id) t.schemas
        (public_schema c.now schema_id id)
        (λ s e. rw (or_false (s.id == schema_id) (s.database_id == id) e).1 refl) fresh_schema
        (rw (text_same id) refl))
      refl,
)

-- The row that CREATE TABLE asks for; the columns are what its text of definitions is read as.
pub record IsCreated (now : ℕ) (id schema_id name comment : Text) (columns : List ColumnDef)
    (r : Table) : Type 0 where
  pub same_id : r.id ≡ id
  pub in_schema : r.schema_id ≡ schema_id
  pub upper_name : r.name ≡ to_upper name
  pub ordinary : r.table_type ≡ str "BASE TABLE"
  pub same_comment : r.comment ≡ comment
  pub at_once : r.created_at ≡ now
  pub without_owner : r.owner ≡ []
  pub unclustered : r.clustering_key ≡ []
  pub same_columns : read_columns r.column_definitions ≡ map described columns
