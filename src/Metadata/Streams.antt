-- ===== src/Metadata/Streams.antt =====
-- Streams (pkg/metadata/stream_repository.go), as the rows of their table.
use snowflake_emulator.Base.{
  ℕ, Text, str, text_eq, text_leb, to_upper, trim_space, Bool, not, ◌&&◌, ◌||◌, List, [], ◌∷◌, ◌++◌,
  map, ◌==◌, if◌then◌else◌, keep,
}
use snowflake_emulator.Base.Int.{ℤ, ltb_int}
use snowflake_emulator.Base.Members.{any, find_first}
use snowflake_emulator.Base.Result.{Result, ok, err, ◌>>=◌}
use snowflake_emulator.Base.Sort.{sort_by}
use snowflake_emulator.Metadata.Types.{Error, not_found, already_exists, empty_name, Call}
use snowflake_emulator.Metadata.Namespaces.{when_up, one}

-- `offset` is the highest row id of the source table, -1 where the table is empty.
pub record Stream : Type 0 where
  pub id : Text
  pub schema_id : Text
  pub name : Text
  pub source_database : Text
  pub source_schema : Text
  pub source_table : Text
  pub stream_type : Text
  pub offset : ℤ
  pub created_at : ℕ
  pub owner : Text

unfoldable pub get_stream : Bool → Text → List Stream → Result Error Stream
unfolding find_first one
get_stream up id rows = when_up up (one (find_first (λ (s : Stream). s.id == id) rows))

abbrev pub is_stream : Text → Text → Stream → Bool
is_stream schema_id name s = s.schema_id == schema_id && s.name == name

unfoldable pub get_stream_by_name : Bool → Text → Text → List Stream → Result Error Stream
unfolding find_first one to_upper
get_stream_by_name up schema_id name rows =
    when_up up (one (find_first (is_stream schema_id (to_upper name)) rows))

abbrev pub clashes_stream : Stream → Stream → Bool
clashes_stream new s = s.id == new.id || is_stream new.schema_id new.name s

-- The rows of a transaction that inserts, after the deletion of the row it replaces.
unfoldable pub insert_stream : Bool → Bool → Stream → List Stream → Result Error (List Stream)
unfolding any keep
insert_stream up replace new rows =
    let others =
      if replace then keep (λ s. not (is_stream new.schema_id new.name s)) rows else rows in
    when_up up
      (if any (clashes_stream new) others then err already_exists else ok (others ++ new ∷ []))

abbrev pub read_stream :
    Bool → Text → List Stream → Result Error (List Stream) → List Stream × Result Error Stream
read_stream up id rows (err e) = (rows, err e)
read_stream up id rows (ok all) = (all, get_stream up id all)

abbrev pub new_stream : ℕ → Stream → Stream
new_stream now asked = record asked {
  name = to_upper asked.name;
  source_database = to_upper asked.source_database;
  source_schema = to_upper asked.source_schema;
  source_table = to_upper asked.source_table;
  stream_type = to_upper (if asked.stream_type == [] then str "APPEND_ONLY" else asked.stream_type);
  created_at = now;
}

unfoldable pub create_stream :
    Call → Stream → Bool → List Stream → List Stream × Result Error Stream
unfolding insert_stream get_stream to_upper trim_space
create_stream c asked replace rows =
    if trim_space asked.name == [] || trim_space asked.source_table == []
    then (rows, err empty_name)
    else read_stream (c.up 1) asked.id rows
        (insert_stream (c.up 0) replace (new_stream c.now asked) rows)

-- Without a schema, the streams of all schemas.
unfoldable pub list_streams : Bool → Text → List Stream → Result Error (List Stream)
unfolding keep sort_by text_leb
list_streams up schema_id rows = when_up up (
    ok (
      sort_by (λ (a : Stream) (b : Stream). text_leb a.name b.name)
        (keep (λ (s : Stream). schema_id == [] || s.schema_id == schema_id) rows)))

abbrev pub is_behind : Text → ℤ → Stream → Bool
is_behind id offset s = s.id == id && ltb_int s.offset offset

abbrev pub advanced : Text → ℤ → Stream → Stream
advanced id offset s = if is_behind id offset s then record s { offset = offset } else s

-- Where no row is affected, the row must exist.
unfoldable pub update_stream_offset : Call → Text → ℤ → List Stream → Result Error (List Stream)
unfolding any get_stream
update_stream_offset c id offset rows = when_up (c.up 0) (
    if any (is_behind id offset) rows
    then ok (map (advanced id offset) rows)
    else get_stream (c.up 1) id rows >>= λ s. ok rows)

unfoldable pub drop_stream : Bool → Text → Text → Bool → List Stream → Result Error (List Stream)
unfolding any keep to_upper
drop_stream up schema_id name if_exists rows = when_up up (
    if not (any (is_stream schema_id (to_upper name)) rows) && not if_exists
    then err not_found
    else ok (keep (λ s. not (is_stream schema_id (to_upper name) s)) rows))
