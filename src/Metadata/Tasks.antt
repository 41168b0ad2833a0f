-- ===== src/Metadata/Tasks.antt =====
-- Tasks (pkg/metadata/task_repository.go), as the rows of their table.
use snowflake_emulator.Base.{
  ℕ, Text, str, text_eq, text_leb, to_upper, trim_space, Option, none, some, Bool, not, ◌&&◌, ◌||◌,
  List, [], ◌∷◌, ◌++◌, map, ◌==◌, if◌then◌else◌, keep,
}
use snowflake_emulator.Base.Members.{any, find_first}
use snowflake_emulator.Base.Result.{Result, ok, err}
use snowflake_emulator.Base.Sort.{sort_by}
use snowflake_emulator.Metadata.Types.{
  Error, not_found, empty_name, invalid_state, database_failed, Call,
}
use snowflake_emulator.Metadata.Namespaces.{when_up, one}

pub record Task : Type 0 where
  pub id : Text
  pub schema_id : Text
  pub name : Text
  pub warehouse : Text
  pub schedule : Text
  pub definition : Text
  pub state : Text
  pub created_at : ℕ
  pub last_executed_at : Option ℕ
  pub last_completed_at : Option ℕ
  pub last_error : Text
  pub owner : Text

abbrev pub started : Text
started = str "STARTED"

abbrev pub suspended : Text
suspended = str "SUSPENDED"

unfoldable pub get_task : Bool → Text → List Task → Result Error Task
unfolding find_first one
get_task up id rows = when_up up (one (find_first (λ (k : Task). k.id == id) rows))

abbrev pub is_task : Text → Text → Task → Bool
is_task schema_id name k = k.schema_id == schema_id && k.name == name

unfoldable pub get_task_by_name : Bool → Text → Text → List Task → Result Error Task
unfolding find_first one to_upper
get_task_by_name up schema_id name rows =
    when_up up (one (find_first (is_task schema_id (to_upper name)) rows))

-- The rows of a transaction that inserts, after the deletion of the row it replaces.
unfoldable pub insert_task : Bool → Bool → Task → List Task → Result Error (List Task)
unfolding any keep
insert_task up replace new rows =
    let others =
      if replace then keep (λ k. not (is_task new.schema_id new.name k)) rows else rows in
    when_up up (
      if any (λ (k : Task). k.id == new.id || is_task new.schema_id new.name k) others
      then err database_failed
      else ok (others ++ new ∷ []))

abbrev pub read_task :
    Bool → Text → List Task → Result Error (List Task) → List Task × Result Error Task
read_task up id rows (err e) = (rows, err e)
read_task up id rows (ok all) = (all, get_task up id all)

abbrev pub new_task : ℕ → Task → Task
new_task now asked = record asked {
  name = to_upper (trim_space asked.name);
  warehouse = to_upper (trim_space asked.warehouse);
  schedule = trim_space asked.schedule;
  definition = trim_space asked.definition;
  state = suspended;
  created_at = now;
  last_executed_at = none;
  last_completed_at = none;
  last_error = [];
}

unfoldable pub create_task : Call → Task → Bool → List Task → List Task × Result Error Task
unfolding insert_task get_task to_upper trim_space
create_task c asked replace rows =
    let new = new_task c.now asked in
    if new.name == [] || (new.warehouse == [] || (new.schedule == [] || new.definition == []))
    then (rows, err empty_name)
    else read_task (c.up 1) new.id rows (insert_task (c.up 0) replace new rows)

unfoldable pub list_tasks : Bool → Text → List Task → Result Error (List Task)
unfolding keep sort_by text_leb
list_tasks up schema_id rows = when_up up (
    ok (
      sort_by (λ (a : Task) (b : Task). text_leb a.name b.name)
        (keep (λ (k : Task). schema_id == [] || k.schema_id == schema_id) rows)))

abbrev pub with_state : Text → Text → Task → Task
with_state id state k = if k.id == id then record k { state = state } else k

unfoldable pub set_task_state : Bool → Text → Text → List Task → Result Error (List Task)
unfolding any to_upper
set_task_state up id state rows =
    if not (to_upper state == started) && not (to_upper state == suspended)
    then err invalid_state
    else when_up up (
        if any (λ (k : Task). k.id == id) rows
        then ok (map (with_state id (to_upper state)) rows)
        else err not_found)

abbrev pub executed : ℕ → Text → Text → Task → Task
executed now id problem k =
    if k.id == id
    then record k {
      last_executed_at = some now;
      last_completed_at = some now;
      last_error = problem;
    }
    else k

unfoldable pub record_task_execution : Call → Text → Text → List Task → Result Error (List Task)
record_task_execution c id problem rows =
    when_up (c.up 0) (ok (map (executed c.now id problem) rows))

unfoldable pub drop_task : Bool → Text → Text → Bool → List Task → Result Error (List Task)
unfolding any keep to_upper
drop_task up schema_id name if_exists rows = when_up up (
    if not (any (is_task schema_id (to_upper name)) rows) && not if_exists
    then err not_found
    else ok (keep (λ k. not (is_task schema_id (to_upper name) k)) rows))
