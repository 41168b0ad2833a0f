-- ===== src/Metadata/Stages.antt =====
-- Stages and file formats (pkg/metadata/repository.go).
use snowflake_emulator.Base.{
  Text, str, text_eq, text_leb, to_upper, Bool, not, ◌&&◌, ◌||◌, List, [], ◌∷◌, ◌++◌, ◌==◌,
  if◌then◌else◌, keep,
}
use snowflake_emulator.Base.Members.{any, find_first}
use snowflake_emulator.Base.Result.{Result, ok, err}
use snowflake_emulator.Base.Sort.{sort_by}
use snowflake_emulator.Metadata.Types.{
  Error, not_found, already_exists, empty_name, database_failed, Stage, FileFormat, Store, Call,
}
use snowflake_emulator.Metadata.Namespaces.{when_up, one}

unfoldable pub get_stage : Bool → Text → Store → Result Error Stage
unfolding find_first one
get_stage up id t = when_up up (one (find_first (λ (s : Stage). s.id == id) t.stages))

unfoldable pub get_stage_by_name : Bool → Text → Text → Store → Result Error Stage
unfolding find_first one to_upper
get_stage_by_name up schema_id name t =
    when_up up (
      one
        (find_first (λ (s : Stage). s.schema_id == schema_id && s.name == to_upper name) t.stages))

unfoldable pub create_stage :
    Call → Text → Text → Text → Text → Text → Text → Store → Store × Result Error Stage
unfolding any get_stage to_upper
create_stage c id schema_id name stage_type url comment t =
    let row : Stage = record {
      id = id;
      schema_id = schema_id;
      name = to_upper name;
      stage_type = if stage_type == [] then str "INTERNAL" else stage_type;
      url = url;
      comment = comment;
      created_at = c.now;
      owner = [];
    } in
    let t' : Store = record t { stages = t.stages ++ row ∷ [] } in
    if name == []
    then (t, err empty_name)
    else if not (c.up 0)
    then (t, err database_failed)
    else if any
        (λ (s : Stage). s.id == row.id || (s.schema_id == row.schema_id && s.name == row.name))
        t.stages
    then (t, err already_exists)
    else (t', get_stage (c.up 1) id t')

-- Without a schema, the stages of all schemas.
unfoldable pub list_stages : Bool → Text → Store → Result Error (List Stage)
unfolding keep sort_by text_leb
list_stages up schema_id t = when_up up (
    ok (
      sort_by (λ (a : Stage) (b : Stage). text_leb a.name b.name)
        (keep (λ (s : Stage). schema_id == [] || s.schema_id == schema_id) t.stages)))

unfoldable pub drop_stage : Bool → Text → Store → Result Error Store
unfolding any keep
drop_stage up id t = when_up up (
    if any (λ (s : Stage). s.id == id) t.stages
    then ok (record t { stages = keep (λ (s : Stage). not (s.id == id)) t.stages })
    else err not_found)

unfoldable pub get_file_format : Bool → Text → Store → Result Error FileFormat
unfolding find_first one
get_file_format up id t =
    when_up up (one (find_first (λ (f : FileFormat). f.id == id) t.file_formats))

unfoldable pub get_file_format_by_name : Bool → Text → Text → Store → Result Error FileFormat
unfolding find_first one to_upper
get_file_format_by_name up schema_id name t = when_up up (
    one (
      find_first (λ (f : FileFormat). f.schema_id == schema_id && f.name == to_upper name)
        t.file_formats))

unfoldable pub create_file_format :
    Call → Text → Text → Text → Text → Text → Text → Store → Store × Result Error FileFormat
unfolding any get_file_format to_upper
create_file_format c id schema_id name format_type options comment t =
    let row : FileFormat = record {
      id = id;
      schema_id = schema_id;
      name = to_upper name;
      format_type = format_type;
      options = options;
      comment = comment;
      created_at = c.now;
      owner = [];
    } in
    let t' : Store = record t { file_formats = t.file_formats ++ row ∷ [] } in
    if name == []
    then (t, err empty_name)
    else if not (c.up 0)
    then (t, err database_failed)
    else if any
        (λ (f : FileFormat). f.id == row.id || (f.schema_id == row.schema_id && f.name == row.name))
        t.file_formats
    then (t, err already_exists)
    else (t', get_file_format (c.up 1) id t')

unfoldable pub list_file_formats : Bool → Text → Store → Result Error (List FileFormat)
unfolding keep sort_by text_leb
list_file_formats up schema_id t = when_up up (
    ok (
      sort_by (λ (a : FileFormat) (b : FileFormat). text_leb a.name b.name)
        (keep (λ (f : FileFormat). f.schema_id == schema_id) t.file_formats)))

unfoldable pub drop_file_format : Bool → Text → Store → Result Error Store
unfolding any keep
drop_file_format up id t = when_up up (
    if any (λ (f : FileFormat). f.id == id) t.file_formats
    then ok (record t { file_formats = keep (λ (f : FileFormat). not (f.id == id)) t.file_formats })
    else err not_found)
