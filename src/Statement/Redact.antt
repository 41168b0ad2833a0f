-- ===== src/Statement/Redact.antt =====
-- RedactSensitiveSQL (pkg/query/identity_processor.go). The regular expression
-- (?is)(\bPASSWORD\s*=\s*)'(?:''|[^'])*' is a matcher by clauses, with the choices in the order in
-- which Go tries them; the replacement is ${1}'********'.
use snowflake_emulator.Base.{
  text_eq, refl, ◌≡◌, text_beq, ◌-◌, to_upper, drop, ℕ, zero, suc, ◌+◌, Text, str, Option, none,
  some, Bool, false, ◌&&◌, ◌||◌, [], ◌∷◌, ◌++◌, leb, ◌==◌, nat_eq, if◌then◌else◌, take,
}

abbrev quote : ℕ
quote = 39

abbrev is_word : ℕ → Bool
is_word c =
    (leb 48 c && leb c 57) || ((leb 65 c && leb c 90) || ((leb 97 c && leb c 122) || c == 95))

-- \s, which leaves out the vertical tab.
abbrev is_blank : ℕ → Bool
is_blank c = c == 32 || (c == 9 || (c == 10 || (c == 12 || c == 13)))

abbrev plus_or : ℕ → ℕ → Option ℕ → Option ℕ
plus_or k other none = some other
plus_or k other (some n) = some (k + n)

abbrev plus : ℕ → Option ℕ → Option ℕ
plus k none = none
plus k (some n) = some (k + n)

-- The length of (?:''|[^'])*' at the front of a text: a doubled quote is read as one character
-- unless no closing quote is left.
unfoldable pub quoted_length : Text → Option ℕ
quoted_length [] = none
quoted_length (c ∷ []) = if c == quote then some 1 else none
quoted_length (c ∷ d ∷ s) =
    let escaped = quoted_length s in
    let plain = quoted_length (d ∷ s) in
    if c == quote then (if d == quote then plus_or 2 1 escaped else some 1) else plus 1 plain

-- The length of \s* at the front of a text.
unfoldable pub blanks : Text → ℕ
blanks [] = 0
blanks (c ∷ s) = let rest = blanks s in if is_blank c then suc rest else 0

abbrev head_is : ℕ → Text → Bool
head_is c [] = false
head_is c (d ∷ s) = d == c

-- The length of PASSWORD\s*=\s* in front of a quote, in upper or lower case.
unfoldable pub prefix_length : Text → Option ℕ
unfolding blanks to_upper
prefix_length s =
    let before = 8 + blanks (drop 8 s) in
    let after = suc before + blanks (drop (suc before) s) in
    if to_upper (take 8 s) == str "PASSWORD"
      && (head_is 61 (drop before s) && head_is quote (drop after s))
    then some after
    else none

abbrev with_value : Text → Option ℕ → Option (ℕ × ℕ)
with_value s none = none
with_value s (some p) = elim (quoted_length (drop (suc p) s)) [
  | none ↦ none
  | some n ↦ some (p, suc p + n)
]

-- A match without its word boundary: the length of its first group, and its whole length.
unfoldable pub match_at : Text → Option (ℕ × ℕ)
unfolding prefix_length quoted_length
match_at s = with_value s (prefix_length s)

-- From left to right; `inside` says whether the character before is a word character, and `skip`
-- how many characters the last match still covers.
unfoldable pub redact_from : Bool → ℕ → Text → Text
redact_from inside skip [] = []
redact_from inside (suc n) (c ∷ s) = redact_from (is_word c) n s
redact_from inside zero (c ∷ s) = elim (if inside then none else match_at (c ∷ s)) [
  | none ↦ c ∷ redact_from (is_word c) 0 s
  | some (p, n) ↦ take p (c ∷ s) ++ (str "'********'" ++ redact_from (is_word c) (n - 1) s)
]

unfoldable pub redact_sensitive_sql : Text → Text
unfolding redact_from match_at
redact_sensitive_sql s = redact_from false 0 s

redacted_user :
    redact_sensitive_sql (str "CREATE USER a PASSWORD = 's''ecret' COMMENT='safe'")
    ≡ str "CREATE USER a PASSWORD = '********' COMMENT='safe'"
unfolding redact_sensitive_sql text_beq
redacted_user = refl

redacted_inside :
    redact_sensitive_sql (str "xpassword='a' password='b''")
    ≡ str "xpassword='a' password='********''"
unfolding redact_sensitive_sql text_beq
redacted_inside = refl
