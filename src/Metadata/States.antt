-- ===== src/Metadata/States.antt =====
-- The states of tasks.
use snowflake_emulator.Base.{
  ◌≡◌, ◌⊎◌, inl, inr, refl, subst, Text, text_eq, text_beq_iff, Bool, false, not, ◌&&◌, ◌||◌, List,
  [], ◌∷◌, map, ◌==◌, Bool-cases, if◌then◌else◌, if_intro, keep, to_upper,
}
use snowflake_emulator.Base.Members.{Has, any, keep-Has, map-Has, Has-append_cases}
use snowflake_emulator.Base.Result.{Result, ok, err}
use snowflake_emulator.Metadata.Types.{Error, Call}
use snowflake_emulator.Metadata.Tasks.{
  Task, started, suspended, is_task, insert_task, read_task, new_task, create_task, with_state,
  set_task_state, executed, record_task_execution, drop_task,
}

pub data TaskCall : Type 0 where
  creates : Task → Bool → TaskCall
  sets_state : Text → Text → TaskCall
  records : Text → Text → TaskCall
  drops : Text → Text → Bool → TaskCall

abbrev kept_rows : List Task → Result Error (List Task) → List Task
kept_rows rows (ok all) = all
kept_rows rows (err e) = rows

unfoldable pub apply_task : Call → TaskCall → List Task → List Task
unfolding create_task set_task_state record_task_execution drop_task
apply_task c (creates asked replace) rows = (create_task c asked replace rows).0
apply_task c (sets_state id state) rows = kept_rows rows (set_task_state (c.up 0) id state rows)
apply_task c (records id problem) rows = kept_rows rows (record_task_execution c id problem rows)
apply_task c (drops schema_id name if_exists) rows =
    kept_rows rows (drop_task (c.up 0) schema_id name if_exists rows)

unfoldable pub run_tasks : List (Call × TaskCall) → List Task → List Task
unfolding apply_task
run_tasks [] rows = rows
run_tasks ((c, call) ∷ rest) rows = run_tasks rest (apply_task c call rows)

abbrev pub IsState : Text → Type 0
IsState state = (state ≡ started) ⊎ (state ≡ suspended)

abbrev pub HaveStates : List Task → Type 0
HaveStates rows = (k : Task) → Has k rows → IsState k.state

abbrev Stay : List Task → Result Error (List Task) → Type 0
Stay rows r = HaveStates (kept_rows rows r)

mapped-HaveStates :
    (f : Task → Task) (rows : List Task)
    → ((k : Task) → IsState k.state → IsState (f k).state)
    → HaveStates rows
    → HaveStates (map f rows)
mapped-HaveStates f rows same have k m =
    let (j, n, e) = map-Has f k rows m in
    subst (λ (x : Task). IsState x.state) e (same j (have j n))

inserted-HaveStates :
    (up replace : Bool) (new : Task) (rows : List Task)
    → IsState new.state
    → HaveStates rows
    → Stay rows (insert_task up replace new rows)
unfolding insert_task
inserted-HaveStates up replace new rows is_state have =
    if_intro (Stay rows) up
      (λ _.
        if_intro (Stay rows)
          (any (λ (k : Task). k.id == new.id || is_task new.schema_id new.name k)
            (if replace then keep (λ k. not (is_task new.schema_id new.name k)) rows else rows))
          (λ _. have)
          (λ _ k m. elim (Has-append_cases k _ (new ∷ []) m) [
            | inl old ↦ before k old
            | inr (inl same) ↦ subst (λ (x : Task). IsState x.state) same is_state
            | inr (inr nowhere) ↦ absurd nowhere
          ]))
      (λ _. have)
  where
    before :
        HaveStates
          (if replace then keep (λ k. not (is_task new.schema_id new.name k)) rows else rows)
    before = if_intro HaveStates replace (λ _ k m. have k (keep-Has _ k rows m).0) (λ _. have)

read-HaveStates :
    (up : Bool) (id : Text) (rows : List Task) (r : Result Error (List Task))
    → Stay rows r
    → HaveStates (read_task up id rows r).0
read-HaveStates up id rows (ok all) have = have
read-HaveStates up id rows (err e) have = have

valid-IsState :
    (state : Text) → (not (state == started) && not (state == suspended)) ≡ false → IsState state
valid-IsState state h = elim (Bool-cases (state == started)) [
  | inl e ↦ inl ((text_beq_iff state started).0 e)
  | inr other ↦ elim (Bool-cases (state == suspended)) [
    | inl e ↦ inr ((text_beq_iff state suspended).0 e)
    | inr neither ↦ absurd (cc (rw (other, neither) at h))
  ]
]

apply-HaveStates :
    (c : Call) (call : TaskCall) (rows : List Task)
    → HaveStates rows
    → HaveStates (apply_task c call rows)
unfolding apply_task create_task set_task_state record_task_execution drop_task
apply-HaveStates c (creates asked replace) rows have =
    if_intro (λ (p : List Task × Result Error Task). HaveStates p.0)
      ((new_task c.now asked).name == []
        || ((new_task c.now asked).warehouse == []
            || ((new_task c.now asked).schedule == [] || (new_task c.now asked).definition == [])))
      (λ _. have)
      (λ _.
        read-HaveStates (c.up 1) asked.id rows
          (insert_task (c.up 0) replace (new_task c.now asked) rows)
          (inserted-HaveStates (c.up 0) replace (new_task c.now asked) rows (inr refl) have))
apply-HaveStates c (sets_state id state) rows have =
    if_intro (Stay rows) (not (to_upper state == started) && not (to_upper state == suspended))
      (λ _. have)
      (λ valid.
        if_intro (Stay rows) (c.up 0)
          (λ _.
            if_intro (Stay rows) (any (λ (k : Task). k.id == id) rows)
              (λ _.
                mapped-HaveStates (with_state id (to_upper state)) rows
                  (λ k old.
                    if_intro (λ (x : Task). IsState x.state) (k.id == id)
                      (λ _. valid-IsState (to_upper state) valid) (λ _. old))
                  have)
              (λ _. have))
          (λ _. have))
apply-HaveStates c (records id problem) rows have =
    if_intro (Stay rows) (c.up 0)
      (λ _.
        mapped-HaveStates (executed c.now id problem) rows
          (λ k old. if_intro (λ (x : Task). IsState x.state) (k.id == id) (λ _. old) (λ _. old))
          have)
      (λ _. have)
apply-HaveStates c (drops schema_id name if_exists) rows have =
    if_intro (Stay rows) (c.up 0)
      (λ _.
        if_intro (Stay rows) (not (any (is_task schema_id (to_upper name)) rows) && not if_exists)
          (λ _. have)
          (λ _ k m. have k (keep-Has (λ j. not (is_task schema_id (to_upper name) j)) k rows m).0))
      (λ _. have)

-- Through any calls, every task is started or suspended.
pub run_tasks-HaveStates :
    (calls : List (Call × TaskCall)) (rows : List Task)
    → HaveStates rows
    → HaveStates (run_tasks calls rows)
unfolding run_tasks
run_tasks-HaveStates [] rows have = have
run_tasks-HaveStates ((c, call) ∷ rest) rows have =
    run_tasks-HaveStates rest (apply_task c call rows) (apply-HaveStates c call rows have)
