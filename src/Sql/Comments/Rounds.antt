-- ===== src/Sql/Comments/Rounds.antt =====
-- The rounds of the loop over leading comments, and what the loop leaves.
use snowflake_emulator.Base.{
  sym, ◌∙◌, ℕ, zero, suc, ◌+◌, ◌≤◌, ◌<◌, ◌≡◌, refl, Text, str, Option, none, some, false, [], ◌∷◌,
  length, arith, ◌-◌, ◌==◌, nat_eq, if◌then◌else◌, if_intro, has_prefix, trim_left, trim_space,
}
use mathlib.Core.List.{reverse, reverse_aux}
use snowflake_emulator.Sql.Comments.{
  Delimiter, opening, closing, neither, delimiter, skip_from, skip_block_comment, after_line, Round,
  returns, again, go_on, round_at, round, trim_rounds, trim_leading_comments,
}

-- What an optional rest of a text is shorter than.
abbrev Below : ℕ → Option Text → Type 0
Below n none = Unit
Below n (some t) = length t < n

Below-le : (m n : ℕ) (o : Option Text) → m ≤ n → Below m o → Below n o
Below-le m n none le b = tt
Below-le m n (some t) le b = omega arith

abbrev skip_at : ℕ → ℕ → Text → Delimiter → Option Text
skip_at depth d s opening = skip_from (suc depth) s
skip_at depth d s closing = if depth == 1 then some s else skip_from (depth - 1) s
skip_at depth d s neither = skip_from depth (d ∷ s)

skip_at-Below :
    (depth d : ℕ) (s : Text) (e : Delimiter)
    → ((k : ℕ) → Below (length s) (skip_from k s))
    → Below (suc (length s)) (skip_from depth (d ∷ s))
    → Below (suc (suc (length s))) (skip_at depth d s e)
skip_at-Below depth d s opening shorter next =
    Below-le (length s) _ _ (omega arith) (shorter (suc depth))
skip_at-Below depth d s closing shorter next =
    if_intro (Below (suc (suc (length s)))) (depth == 1) (λ _. omega arith)
      (λ _. Below-le (length s) _ _ (omega arith) (shorter (depth - 1)))
skip_at-Below depth d s neither shorter next = Below-le (suc (length s)) _ _ (omega arith) next

skip_from-eq-skip_at :
    (depth c d : ℕ) (s : Text) → skip_from depth (c ∷ d ∷ s) ≡ skip_at depth d s (delimiter c d)
unfolding skip_from
skip_from-eq-skip_at depth c d s = ground arith

skip_from-Below : (depth : ℕ) (s : Text) → Below (length s) (skip_from depth s)
unfolding skip_from
skip_from-Below depth [] = tt
skip_from-Below depth (c ∷ []) = tt
skip_from-Below depth (c ∷ d ∷ s) = rw (skip_from-eq-skip_at depth c d s) (
    skip_at-Below depth d s (delimiter c d) (λ k. skip_from-Below k s)
      (skip_from-Below depth (d ∷ s)))

after_line-Below : (s : Text) → Below (length s) (after_line s)
unfolding after_line
after_line-Below [] = tt
after_line-Below (c ∷ s) =
    if_intro (Below (suc (length s))) (c == 10) (λ _. omega arith)
      (λ _. Below-le (length s) _ _ (omega arith) (after_line-Below s))

length-trim_left : (s : Text) → length (trim_left s) ≤ length s
unfolding trim_left
length-trim_left [] = omega arith
length-trim_left (c ∷ s) = ground (arith, length-trim_left s)

length-reverse_aux : (s t : Text) → length (reverse_aux s t) ≡ length s + length t
length-reverse_aux [] t = omega arith
length-reverse_aux (c ∷ s) t = omega (arith, length-reverse_aux s (c ∷ t))

length-reverse : (s : Text) → length (reverse s) ≡ length s
length-reverse s = omega (arith, length-reverse_aux s [])

length-trim_space : (s : Text) → length (trim_space s) ≤ length s
unfolding trim_space
length-trim_space s = omega (
  arith,
  length-reverse (trim_left (reverse (trim_left s))),
  length-trim_left (reverse (trim_left s)),
  length-reverse (trim_left s),
  length-trim_left s,
)

abbrev pub Continues : ℕ → Round → Type 0
Continues n (returns t) = Unit
Continues n (again t) = length t < n

go_on-Continues : (n : ℕ) (o : Option Text) → Below n o → Continues n (go_on o)
go_on-Continues n none b = tt
go_on-Continues n (some t) b = b

Continues-le : (m n : ℕ) (r : Round) → m ≤ n → Continues m r → Continues n r
Continues-le m n (returns t) le b = tt
Continues-le m n (again t) le b = omega arith

round_at-Continues : (s : Text) → Continues (length s) (round_at s)
unfolding round_at skip_block_comment
round_at-Continues s =
    if_intro (Continues (length s)) (has_prefix s (str "--"))
      (λ _. go_on-Continues _ _ (after_line-Below s))
      (λ _.
        if_intro (Continues (length s)) (has_prefix s (str "/*"))
          (λ _. go_on-Continues _ _ (skip_from-Below 0 s)) (λ _. tt))

round-Continues : (s : Text) → Continues (length s) (round s)
unfolding round
round-Continues s =
    Continues-le _ _ (round_at (trim_space s)) (length-trim_space s)
      (round_at-Continues (trim_space s))

-- What the loop makes of the end of a round.
abbrev pub resumed : (Text → Text) → Round → Text
resumed next (returns t) = t
resumed next (again t) = next t

trim_rounds-eq-resumed :
    (fuel : ℕ) (s : Text) → trim_rounds (suc fuel) s ≡ resumed (trim_rounds fuel) (round s)
unfolding trim_rounds
trim_rounds-eq-resumed fuel s = ground arith

enough_fuel : (m n : ℕ) (s : Text) → length s < m → length s < n → trim_rounds m s ≡ trim_rounds n s
enough_fuel zero n s a b = absurd (omega arith)
enough_fuel (suc m) zero s a b = absurd (omega arith)
enough_fuel (suc m) (suc n) s a b =
    trim_rounds-eq-resumed m s
    ∙ go (round s) (round-Continues s) (λ t c. enough_fuel m n t (omega arith) (omega arith))
    ∙ sym (trim_rounds-eq-resumed n s)
  where
    go :
        (r : Round)
        → Continues (length s) r
        → ((t : Text) → length t < length s → trim_rounds m t ≡ trim_rounds n t)
        → resumed (trim_rounds m) r ≡ resumed (trim_rounds n) r
    go (returns t) c same = refl
    go (again t) c same = same t c

-- The loop over leading comments ends for every text, also one whose comments nest or are never
-- closed: its result is what its first round returns, or else the result for the text that the round
-- leaves, which is shorter.
pub trim_leading_comments-eq-resumed :
    (s : Text)
    → (trim_leading_comments s ≡ resumed trim_leading_comments (round s))
      × Continues (length s) (round s)
unfolding trim_leading_comments
trim_leading_comments-eq-resumed s =
    (trim_rounds-eq-resumed (length s) s ∙ go (round s) (round-Continues s), round-Continues s)
  where
    go :
        (r : Round)
        → Continues (length s) r
        → resumed (trim_rounds (length s)) r ≡ resumed trim_leading_comments r
    go (returns t) c = refl
    go (again t) c = enough_fuel (length s) (suc (length t)) t c (omega arith)

abbrev pub IsBare : Text → Type 0
IsBare t = (has_prefix t (str "--") ≡ false) × (has_prefix t (str "/*") ≡ false)

abbrev Settled : Round → Type 0
Settled (returns t) = IsBare t
Settled (again t) = Unit

go_on-Settled : (o : Option Text) → Settled (go_on o)
unfolding has_prefix
go_on-Settled none = (refl, refl)
go_on-Settled (some t) = tt

round-Settled : (s : Text) → Settled (round s)
unfolding round round_at
round-Settled s =
    let t = trim_space s in
    if_intro Settled (has_prefix t (str "--")) (λ _. go_on-Settled (after_line t))
      (λ line.
        if_intro Settled (has_prefix t (str "/*")) (λ _. go_on-Settled (skip_block_comment t))
          (λ block. (line, block)))

trim_rounds-IsBare : (fuel : ℕ) (s : Text) → length s < fuel → IsBare (trim_rounds fuel s)
trim_rounds-IsBare zero s h = absurd (omega arith)
trim_rounds-IsBare (suc fuel) s h = rw (trim_rounds-eq-resumed fuel s) (
    go (round s) (round-Continues s) (round-Settled s)
      (λ t c. trim_rounds-IsBare fuel t (omega arith)))
  where
    go :
        (r : Round)
        → Continues (length s) r
        → Settled r
        → ((t : Text) → length t < length s → IsBare (trim_rounds fuel t))
        → IsBare (resumed (trim_rounds fuel) r)
    go (returns t) c settled rest = settled
    go (again t) c settled rest = rest t c

-- What is left of a statement starts with no comment.
pub trim_leading_comments-IsBare : (s : Text) → IsBare (trim_leading_comments s)
unfolding trim_leading_comments
trim_leading_comments-IsBare s = trim_rounds-IsBare (suc (length s)) s (omega arith)
