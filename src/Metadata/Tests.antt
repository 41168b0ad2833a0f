-- ===== src/Metadata/Tests.antt =====
-- The theorems about the catalog at concrete inputs.
use snowflake_emulator.Base.Int.{pos, negsuc, ◌≤ℤ◌}
use snowflake_emulator.Base.{
  Text, List, ◌≡◌, ◌↔◌, arith, inl, inr, subst, refl, text_beq, text_beq_iff, nat_eq, str, text_eq,
  to_upper, true, false, none, [], ◌∷◌,
}
use snowflake_emulator.Base.Members.{Has, any}
use snowflake_emulator.Base.Result.{ok}
use snowflake_emulator.Identity.Types.{ObjectPrivilegeRecord}
use snowflake_emulator.Metadata.Types.{Database, Schema, Table, ColumnDef, Store, Call}
use snowflake_emulator.Metadata.Namespaces.{
  like, delete_object_privileges, get_database, get_database_by_name, get_schema,
  get_schema_by_name, create_database,
}
use snowflake_emulator.Metadata.Objects.{new_table, get_table}
use snowflake_emulator.Metadata.Tables.{drop_table}
use snowflake_emulator.Metadata.Streams.{Stream}
use snowflake_emulator.Metadata.Offsets.{
  StreamCall, advances, drops, creates, run_streams, IsAhead, run_streams-IsAhead,
}
use snowflake_emulator.Metadata.Tasks.{Task}
use snowflake_emulator.Metadata.States.{TaskCall, HaveStates, run_tasks, run_tasks-HaveStates}
use snowflake_emulator.Metadata.States
use snowflake_emulator.Metadata.Likeness.{IsWithin, delete_object_privileges_iff}
use snowflake_emulator.Metadata.Dropping.{IsGone, drop_table-IsGone}
use snowflake_emulator.Metadata.Creation.{new_database, public_schema, create_database_found}

abbrev answered : Call
answered = record { now = 7; up = λ i. true }

abbrev blank : Store
blank = record {
  databases = [];
  schemas = [];
  tables = [];
  stages = [];
  file_formats = [];
  object_privileges = [];
  namespaces = [];
  physical_tables = [];
}

abbrev shop : Database
shop = new_database 1 (str "d1") (str "SHOP") []

abbrev public : Schema
public = public_schema 1 (str "s1") (str "d1")

abbrev price : ColumnDef
price = record {
  name = str "PRICE";
  type_name = str "INT";
  nullable = false;
  default = none;
  primary_key = true;
}

abbrev goods : Table
goods = new_table 1 (str "t1") (str "s1") (str "GOODS") [] (price ∷ [])

abbrev on_goods : ObjectPrivilegeRecord
on_goods = record {
  role_id = str "r1";
  object_type = str "TABLE";
  object_name = str "SHOP.PUBLIC.GOODS";
  privilege = str "SELECT";
  created_at = 1;
}

abbrev with_schema : Store
with_schema = record blank {
  databases = shop ∷ [];
  schemas = public ∷ [];
  namespaces = str "SHOP" ∷ [];
}

abbrev with_goods : Store
with_goods = record with_schema {
  tables = goods ∷ [];
  object_privileges = on_goods ∷ [];
  physical_tables =
      record {
        namespace = str "SHOP";
        name = str "PUBLIC_GOODS";
        columns = str "PRICE INT NOT NULL, PRIMARY KEY (PRICE)";
      }
      ∷ [];
}

-- An underscore in the name of an object stands for any character.
like_wildcard : like (str "MY_DB.%") (str "MYXDB.PUBLIC") ≡ true
unfolding like
like_wildcard = refl

delete_object_privileges_iff_example :
    Has on_goods (delete_object_privileges (str "DATABASE") (str "shop") (on_goods ∷ []))
    ↔ (Has on_goods (on_goods ∷ []) × ¬ IsWithin (str "DATABASE") (str "shop") on_goods)
unfolding to_upper
delete_object_privileges_iff_example =
    delete_object_privileges_iff (str "DATABASE") (str "shop") (on_goods ∷ []) on_goods
      (refl, refl, (refl, refl, (refl, refl, (refl, refl, tt))))

drop_table-IsGone_example :
    (t' : Store) × (drop_table answered (str "t1") with_goods ≡ ok t')
    × IsGone (str "t1") shop public goods with_goods t'
unfolding to_upper get_table get_schema get_database text_beq
drop_table-IsGone_example =
    drop_table-IsGone answered (str "t1") goods public shop with_goods refl refl refl refl refl (
      refl,
      (
        refl,
        (
          refl,
          (
            refl,
            (
              refl,
              (
                refl,
                (
                  refl,
                  (
                    refl,
                    (refl, (refl, (refl, (refl, (refl, (refl, (refl, (refl, (refl, tt))))))))),
                  ),
                ),
              ),
            ),
          ),
        ),
      ),
    )

create_database_found_example :
    (t' : Store) × (create_database answered (str "d1") (str "s1") (str "shop") [] blank
      ≡ (t', ok (new_database 7 (str "d1") (str "shop") [])))
    × (get_database_by_name true (str "shop") t' ≡ ok (new_database 7 (str "d1") (str "shop") []))
    × (get_schema_by_name true (str "d1") (str "PUBLIC") t'
        ≡ ok (public_schema 7 (str "s1") (str "d1")))
unfolding any text_beq
create_database_found_example =
    create_database_found answered (str "d1") (str "s1") (str "shop") [] blank (λ i. refl) refl refl
      refl

abbrev changes_of : Text → Text → Stream
changes_of id name = record {
  id = id;
  schema_id = str "s1";
  name = name;
  source_database = str "SHOP";
  source_schema = str "PUBLIC";
  source_table = str "GOODS";
  stream_type = [];
  offset = negsuc 0;
  created_at = 0;
  owner = str "r1";
}

abbrev stream_calls : List (Call × StreamCall)
stream_calls =
    (answered, advances (str "a") (pos 5))
    ∷ (answered, creates (changes_of (str "b") (str "other")) false)
    ∷ (answered, advances (str "a") (pos 4))
    ∷ (answered, drops (str "s1") (str "other") false)
    ∷ []

empty_source : IsAhead (str "a") (negsuc 0) (changes_of (str "a") (str "NEW_GOODS") ∷ [])
empty_source s (inl e) _ = subst (λ (x : Stream). negsuc 0 ≤ℤ x.offset) e (omega arith)
empty_source s (inr nowhere) _ = absurd nowhere

differ : ¬ (str "b" ≡ str "a")
unfolding text_beq
differ e = cc ((text_beq_iff (str "b") (str "a")).1 e)

run_streams-IsAhead_example :
    IsAhead
      (str "a")
      (negsuc 0)
      (run_streams stream_calls (changes_of (str "a") (str "NEW_GOODS") ∷ []))
run_streams-IsAhead_example =
    run_streams-IsAhead (str "a") (negsuc 0) stream_calls
      (changes_of (str "a") (str "NEW_GOODS") ∷ []) (tt, (differ, (tt, (tt, tt)))) empty_source

abbrev nightly : Task
nightly = record {
  id = str "k1";
  schema_id = str "s1";
  name = str "nightly";
  warehouse = str "wh";
  schedule = str "1 MINUTE";
  definition = str "SELECT 1";
  state = [];
  created_at = 0;
  last_executed_at = none;
  last_completed_at = none;
  last_error = [];
  owner = str "r1";
}

abbrev task_calls : List (Call × TaskCall)
task_calls =
    (answered, States.creates nightly false)
    ∷ (answered, States.sets_state (str "k1") (str "started"))
    ∷ (answered, States.sets_state (str "k1") (str "paused"))
    ∷ (answered, States.records (str "k1") [])
    ∷ []

run_tasks-HaveStates_example : HaveStates (run_tasks task_calls [])
run_tasks-HaveStates_example = run_tasks-HaveStates task_calls [] (λ k m. absurd m)
