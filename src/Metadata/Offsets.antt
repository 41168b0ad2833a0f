-- ===== src/Metadata/Offsets.antt =====
-- Offsets of streams only grow.
use snowflake_emulator.Base.{
  ◌≡◌, inl, inr, subst, sym, Text, text_eq, Bool, true, not, ◌&&◌, ◌||◌, List, [], ◌∷◌, ◌++◌, map,
  ◌==◌, arith, if◌then◌else◌, if_intro, keep, to_upper, trim_space,
}
use snowflake_emulator.Base.Int.{ℤ, ltb_int, ◌≤ℤ◌, ≤ℤ-ltb_int}
use snowflake_emulator.Base.Members.{Has, any, keep-Has, map-Has, Has-append_cases}
use snowflake_emulator.Base.Result.{Result, ok, err, ◌>>=◌}
use snowflake_emulator.Metadata.Types.{Error, Call}
use snowflake_emulator.Metadata.Streams.{
  Stream, new_stream, get_stream, is_stream, clashes_stream, insert_stream, read_stream,
  create_stream, is_behind, advanced, update_stream_offset, drop_stream,
}

pub data StreamCall : Type 0 where
  creates : Stream → Bool → StreamCall
  advances : Text → ℤ → StreamCall
  drops : Text → Text → Bool → StreamCall

abbrev kept_rows : List Stream → Result Error (List Stream) → List Stream
kept_rows rows (ok all) = all
kept_rows rows (err e) = rows

unfoldable pub apply_stream : Call → StreamCall → List Stream → List Stream
unfolding create_stream update_stream_offset drop_stream
apply_stream c (creates asked replace) rows = (create_stream c asked replace rows).0
apply_stream c (advances id offset) rows = kept_rows rows (update_stream_offset c id offset rows)
apply_stream c (drops schema_id name if_exists) rows =
    kept_rows rows (drop_stream (c.up 0) schema_id name if_exists rows)

unfoldable pub run_streams : List (Call × StreamCall) → List Stream → List Stream
unfolding apply_stream
run_streams [] rows = rows
run_streams ((c, call) ∷ rest) rows = run_streams rest (apply_stream c call rows)

-- No stream with the id is before the offset.
abbrev pub IsAhead : Text → ℤ → List Stream → Type 0
IsAhead id offset rows = (s : Stream) → Has s rows → s.id ≡ id → offset ≤ℤ s.offset

-- Its own id is not given to a new stream.
abbrev Avoids : Text → StreamCall → Type 0
Avoids id (creates asked replace) = ¬ (asked.id ≡ id)
Avoids id (advances other offset) = Unit
Avoids id (drops schema_id name if_exists) = Unit

abbrev pub AvoidAll : Text → List (Call × StreamCall) → Type 0
AvoidAll id [] = Unit
AvoidAll id ((c, call) ∷ rest) = Avoids id call × AvoidAll id rest

right : (a b : Bool) → (a && b) ≡ true → b ≡ true
right a b h = ground arith

module _ (id : Text) (floor : ℤ) where
  kept-IsAhead :
      (p : Stream → Bool) (rows : List Stream)
      → IsAhead id floor rows
      → IsAhead id floor (keep p rows)
  kept-IsAhead p rows ahead s m = ahead s (keep-Has p s rows m).0

  advanced-IsAhead :
      (other : Text) (offset : ℤ) (rows : List Stream)
      → IsAhead id floor rows
      → IsAhead id floor (map (advanced other offset) rows)
  advanced-IsAhead other offset rows ahead s m e =
      let (r, n, f) = map-Has (advanced other offset) s rows m in
      subst (λ (x : Stream). x.id ≡ id → floor ≤ℤ x.offset) f (grown r n) e
    where
      grown :
          (r : Stream)
          → Has r rows
          → (advanced other offset r).id ≡ id
          → floor ≤ℤ (advanced other offset r).offset
      grown r n =
          if_intro (λ (x : Stream). x.id ≡ id → floor ≤ℤ x.offset) (is_behind other offset r)
            (λ behind same.
              ≤ℤ-ltb_int floor r.offset offset (ahead r n same)
                (right (r.id == other) (ltb_int r.offset offset) behind))
            (λ _. ahead r n)

  appended-IsAhead :
      (new : Stream) (rows : List Stream)
      → ¬ (new.id ≡ id)
      → IsAhead id floor rows
      → IsAhead id floor (rows ++ new ∷ [])
  appended-IsAhead new rows other ahead s m e = elim (Has-append_cases s rows (new ∷ []) m) [
    | inl old ↦ ahead s old e
    | inr (inl same) ↦ absurd (other (subst (λ (x : Stream). x.id ≡ id) (sym same) e))
    | inr (inr nowhere) ↦ absurd nowhere
  ]

  abbrev StaysAhead : List Stream → Result Error (List Stream) → Type 0
  StaysAhead rows r = IsAhead id floor (kept_rows rows r)

  inserted-IsAhead :
      (up replace : Bool) (new : Stream) (rows : List Stream)
      → ¬ (new.id ≡ id)
      → IsAhead id floor rows
      → StaysAhead rows (insert_stream up replace new rows)
  unfolding insert_stream
  inserted-IsAhead up replace new rows other ahead =
      if_intro (StaysAhead rows) up
        (λ _.
          if_intro (StaysAhead rows)
            (any (clashes_stream new)
              (if replace then keep (λ s. not (is_stream new.schema_id new.name s)) rows else rows))
            (λ _. ahead)
            (λ _. appended-IsAhead new _ other (
              if_intro (IsAhead id floor) replace
                (λ _. kept-IsAhead (λ s. not (is_stream new.schema_id new.name s)) rows ahead)
                (λ _. ahead))))
        (λ _. ahead)

  read-IsAhead :
      (up : Bool) (key : Text) (rows : List Stream) (r : Result Error (List Stream))
      → StaysAhead rows r
      → IsAhead id floor (read_stream up key rows r).0
  read-IsAhead up key rows (ok all) ahead = ahead
  read-IsAhead up key rows (err e) ahead = ahead

  found-IsAhead :
      (rows : List Stream) (r : Result Error Stream)
      → IsAhead id floor rows
      → StaysAhead rows (r >>= λ s. ok rows)
  found-IsAhead rows (ok s) ahead = ahead
  found-IsAhead rows (err e) ahead = ahead

  apply-IsAhead :
      (c : Call) (call : StreamCall) (rows : List Stream)
      → Avoids id call
      → IsAhead id floor rows
      → IsAhead id floor (apply_stream c call rows)
  unfolding apply_stream create_stream update_stream_offset drop_stream
  apply-IsAhead c (creates asked replace) rows other ahead =
      if_intro (λ (p : List Stream × Result Error Stream). IsAhead id floor p.0)
        (trim_space asked.name == [] || trim_space asked.source_table == []) (λ _. ahead)
        (λ _.
          read-IsAhead (c.up 1) asked.id rows
            (insert_stream (c.up 0) replace (new_stream c.now asked) rows)
            (inserted-IsAhead (c.up 0) replace (new_stream c.now asked) rows other ahead))
  apply-IsAhead c (advances key offset) rows _ ahead =
      if_intro (StaysAhead rows) (c.up 0)
        (λ _.
          if_intro (StaysAhead rows) (any (is_behind key offset) rows)
            (λ _. advanced-IsAhead key offset rows ahead)
            (λ _. found-IsAhead rows (get_stream (c.up 1) key rows) ahead))
        (λ _. ahead)
  apply-IsAhead c (drops schema_id name if_exists) rows _ ahead =
      if_intro (StaysAhead rows) (c.up 0)
        (λ _.
          if_intro (StaysAhead rows)
            (not (any (is_stream schema_id (to_upper name)) rows) && not if_exists) (λ _. ahead)
            (λ _. kept-IsAhead (λ s. not (is_stream schema_id (to_upper name) s)) rows ahead))
        (λ _. ahead)

-- The offset of a stream never goes back: after any calls, none of which gives the stream's id to a
-- new stream, a stream with the id is at or after every offset that it had reached.
pub run_streams-IsAhead :
    (id : Text) (reached : ℤ) (calls : List (Call × StreamCall)) (rows : List Stream)
    → AvoidAll id calls
    → IsAhead id reached rows
    → IsAhead id reached (run_streams calls rows)
unfolding run_streams
run_streams-IsAhead id reached [] rows _ ahead = ahead
run_streams-IsAhead id reached ((c, call) ∷ rest) rows (here, later) ahead =
    run_streams-IsAhead id reached rest (apply_stream c call rows) later
      (apply-IsAhead id reached c call rows here ahead)
