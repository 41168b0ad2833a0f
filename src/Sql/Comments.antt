-- ===== src/Sql/Comments.antt =====
-- What stands before the first keyword of a statement: white space and comments
-- (leadingSQL, trimLeadingComments and skipBlockComment of pkg/query/classifier.go).
pub mod Rounds
use snowflake_emulator.Base.{
  true, false, ℕ, zero, suc, ◌-◌, Text, str, Option, none, some, Bool, [], ◌∷◌, ◌&&◌, ◌==◌, nat_eq,
  if◌then◌else◌, length, trim_space, to_upper, has_prefix,
}

-- What the two bytes at the front of a text are to a block comment.
pub data Delimiter : Type 0 where
  opening closing neither : Delimiter

abbrev pub delimiter : ℕ → ℕ → Delimiter
delimiter c d =
    if c == 47 && d == 42 then opening else if c == 42 && d == 47 then closing else neither

-- The loop of skipBlockComment. It is called on a text that starts with an opening, so that `depth`
-- is not 0 at a closing.
unfoldable pub skip_from : ℕ → Text → Option Text
skip_from depth [] = none
skip_from depth (c ∷ []) = none
skip_from depth (c ∷ d ∷ s) = elim (delimiter c d) [
  | opening ↦ skip_from (suc depth) s
  | closing ↦ elim (depth == 1) [ true ↦ some s | false ↦ skip_from (depth - 1) s ]
  | neither ↦ skip_from depth (d ∷ s)
]

unfoldable pub skip_block_comment : Text → Option Text
unfolding skip_from
skip_block_comment s = skip_from 0 s

-- sql[strings.IndexByte(sql, '\n')+1:], or `none` where there is no line feed.
unfoldable pub after_line : Text → Option Text
after_line [] = none
after_line (c ∷ s) = let rest = after_line s in if c == 10 then some s else rest

-- How a round of the loop of trimLeadingComments ends.
pub data Round : Type 0 where
  returns again : Text → Round

abbrev pub go_on : Option Text → Round
go_on none = returns []
go_on (some s) = again s

-- A round behind its strings.TrimSpace.
unfoldable pub round_at : Text → Round
unfolding has_prefix after_line skip_block_comment
round_at s =
    if has_prefix s (str "--")
    then go_on (after_line s)
    else if has_prefix s (str "/*")
    then go_on (skip_block_comment s)
    else returns s

unfoldable pub round : Text → Round
unfolding round_at trim_space
round s = round_at (trim_space s)

-- The loop, for at most as many rounds as `fuel`.
unfoldable pub trim_rounds : ℕ → Text → Text
unfolding round
trim_rounds zero s = s
trim_rounds (suc fuel) s = elim (round s) [ returns t ↦ t | again t ↦ trim_rounds fuel t ]

-- Every round but the last takes a character away.
unfoldable pub trim_leading_comments : Text → Text
unfolding trim_rounds
trim_leading_comments s = trim_rounds (suc (length s)) s

unfoldable pub leading_sql : Text → Text
unfolding trim_leading_comments to_upper
leading_sql s = to_upper (trim_leading_comments s)
