-- ===== src/Statement/Merging.antt =====
-- What the listings show.
use mathlib.Core.List.{append_assoc, append-nil, [], map, Mem, mem-append_left, mem-map_of_mem}
use mathlib.Core.List.Perm
use snowflake_emulator.Base.{
  none, Option, All-keep, Option, All-both, length-append, take, ◌++◌, [], ◌∷◌, take-all,
  take-length_append, Bool-cases, nat_eq, leb, subst, sym, if◌then◌else◌, sym, Bool-cases, ℕ, keep,
  subst, if◌then◌else◌, leb, inr, All-mem, ◌⊎◌, inl, Option-cases, All-append, refl, ◌≡◌, Text,
  text_eq, text_beq_iff, some, true, false, not, List, ◌==◌, ◌&&◌, ltb, length, keep-All, mem-keep,
  All, All-map, All-take, contains, if_intro, arith,
}
use snowflake_emulator.Base.Dict.{get, values, mem-values}
use snowflake_emulator.Base.Int.{ℤ, pos, is_pos, to_ℕ}
use snowflake_emulator.Base.Sort.{
  All-sort_by, IsSortedBy, sort_by-perm, sort_by-IsSortedBy, IsSortedBy-take, IsSortedBy-keep,
}
use snowflake_emulator.Statement.Types.{Statement, StatementSummary, HistoryStore, StatementManager}
use snowflake_emulator.Statement.Manager.{summarize}
use snowflake_emulator.Statement.Listing.{
  or_nothing, filter_for_user, newer, limit_to, handles, recorded_statements, merged_statements,
  list_statements_with_context, list_statements_for_user,
}

newer_total : (a b : StatementSummary) → newer a b ≡ false → newer b a ≡ true
newer_total a b e = ground arith

newer_trans : (a b c : StatementSummary) → newer a b ≡ true → newer b c ≡ true → newer a c ≡ true
newer_trans a b c p q = ground arith

limit_to-IsSortedBy :
    (limit : ℤ) (xs : List StatementSummary)
    → IsSortedBy newer xs
    → IsSortedBy newer (limit_to limit xs)
limit_to-IsSortedBy limit xs s =
    if_intro (IsSortedBy newer) (is_pos limit && ltb (to_ℕ limit) (length xs))
      (λ _. IsSortedBy-take newer (to_ℕ limit) xs s) (λ _. s)

limit_to-All :
    (P : StatementSummary → Type 0) (limit : ℤ) (xs : List StatementSummary)
    → All P xs
    → All P (limit_to limit xs)
limit_to-All P limit xs a =
    if_intro (All P) (is_pos limit && ltb (to_ℕ limit) (length xs))
      (λ _. All-take P (to_ℕ limit) xs a) (λ _. a)

-- At a positive limit, the first ones.
abbrev cut : ℤ → List StatementSummary → List StatementSummary
cut limit xs = if is_pos limit then take (to_ℕ limit) xs else xs

cut-All :
    (P : StatementSummary → Type 0) (limit : ℤ) (xs : List StatementSummary)
    → All P xs
    → All P (cut limit xs)
cut-All P limit xs a = if_intro (All P) (is_pos limit) (λ _. All-take P (to_ℕ limit) xs a) (λ _. a)

cut-IsSortedBy :
    (limit : ℤ) (xs : List StatementSummary) → IsSortedBy newer xs → IsSortedBy newer (cut limit xs)
cut-IsSortedBy limit xs s =
    if_intro (IsSortedBy newer) (is_pos limit) (λ _. IsSortedBy-take newer (to_ℕ limit) xs s)
      (λ _. s)

-- The limit is not reached.
abbrev IsBelow : ℤ → List StatementSummary → Type 0
IsBelow limit xs = (is_pos limit && leb (to_ℕ limit) (length xs)) ≡ false

cut-all : (limit : ℤ) (xs : List StatementSummary) → IsBelow limit xs → cut limit xs ≡ xs
cut-all limit xs below = elim (Bool-cases (is_pos limit)) [
  | inl positive ↦ rw positive (take-all (to_ℕ limit) xs (ground arith))
  | inr unlimited ↦ rw unlimited refl
]

cut-append_full :
    (limit : ℤ) (xs ys : List StatementSummary)
    → (is_pos limit && length xs == to_ℕ limit) ≡ true
    → cut limit (xs ++ ys) ≡ xs
cut-append_full limit xs ys full = ground (arith, take-length_append xs ys)

IsBelow-append :
    (limit : ℤ) (xs : List StatementSummary) (s : StatementSummary)
    → IsBelow limit xs
    → (is_pos limit && length (xs ++ s ∷ []) == to_ℕ limit) ≡ false
    → IsBelow limit (xs ++ s ∷ [])
IsBelow-append limit xs s below more = ground (arith, length-append xs (s ∷ []))

filter_for_user-eq-cut :
    (user_id : Text) (limit : ℤ) (filtered all : List StatementSummary)
    → IsBelow limit filtered
    → filter_for_user user_id limit filtered all
      ≡ cut limit (filtered ++ keep (λ s. s.user_id == user_id) all)
unfolding filter_for_user keep
filter_for_user-eq-cut user_id limit filtered [] below =
    rw (append-nil filtered) (sym (cut-all limit filtered below))
filter_for_user-eq-cut user_id limit filtered (s ∷ all) below =
    let mine = keep (λ r. r.user_id == user_id) all in
    elim (Bool-cases (s.user_id == user_id)) [
      | inl same ↦ elim (Bool-cases (is_pos limit && length (filtered ++ s ∷ []) == to_ℕ limit)) [
        | inl full ↦
            rw (same, full)
              (subst (λ zs. filtered ++ s ∷ [] ≡ cut limit zs) (append_assoc filtered (s ∷ []) mine)
                (sym (cut-append_full limit (filtered ++ s ∷ []) mine full)))
        | inr more ↦
            rw (same, more)
              (subst (λ zs. filter_for_user user_id limit (filtered ++ s ∷ []) all ≡ cut limit zs)
                (append_assoc filtered (s ∷ []) mine)
                (filter_for_user-eq-cut user_id limit (filtered ++ s ∷ []) all
                  (IsBelow-append limit filtered s below more)))
      ]
      | inr other ↦ rw other (filter_for_user-eq-cut user_id limit filtered all below)
    ]

module _ {S : Type 0} (h : HistoryStore S) (m : StatementManager S) where
  list-sorted : (limit : ℤ) → IsSortedBy newer (list_statements_with_context h limit m)
  unfolding list_statements_with_context
  list-sorted limit =
      limit_to-IsSortedBy limit _
        (sort_by-IsSortedBy newer newer_total newer_trans (merged_statements h limit m))

  -- The loop that appends and breaks gives a user the same listing as cutting, at a positive limit,
  -- all that the full listing holds of this user: filtering goes before limiting.
  pub list_for_user-eq-take :
      (user_id : Text) (limit : ℤ)
      → let mine = keep (λ s. s.user_id == user_id) (list_statements_with_context h (pos 0) m) in
        list_statements_for_user h user_id limit m
        ≡ (if is_pos limit then take (to_ℕ limit) mine else mine)
  unfolding list_statements_for_user
  list_for_user-eq-take user_id limit =
      filter_for_user-eq-cut user_id limit [] (list_statements_with_context h (pos 0) m)
        (ground arith)

  -- A user's listing holds statements of this user only, each before all that are older, for every
  -- limit.
  pub list_for_user_private :
      (user_id : Text) (limit : ℤ)
      → let listed = list_statements_for_user h user_id limit m in
        All (λ s. s.user_id ≡ user_id) listed × IsSortedBy newer listed
  list_for_user_private user_id limit =
      let mine = keep (λ s. s.user_id == user_id) (list_statements_with_context h (pos 0) m) in
      subst
        (λ (listed : List StatementSummary).
          All (λ s. s.user_id ≡ user_id) listed × IsSortedBy newer listed)
        (sym (list_for_user-eq-take user_id limit))
        (
          cut-All (λ s. s.user_id ≡ user_id) limit mine
              (All-map (λ s. (text_beq_iff s.user_id user_id).0) _
                (keep-All (λ s. s.user_id == user_id) (list_statements_with_context h (pos 0) m))),
          cut-IsSortedBy limit mine (IsSortedBy-keep newer _ _ (list-sorted (pos 0))),
        )

  mem-list :
      (k : Text) (s : Statement)
      → get m.statements k ≡ some s
      → Mem (summarize s) (list_statements_with_context h (pos 0) m)
  unfolding list_statements_with_context merged_statements
  mem-list k s e =
      (Perm.mem_iff (sort_by-perm newer (merged_statements h (pos 0) m))).1
        (mem-append_left _ (mem-map_of_mem summarize (mem-values m.statements k s e)))

  -- Without a limit, every statement of a user that the manager still holds is in the user's
  -- listing, with its present status.
  pub mem-list_for_user :
      (k : Text) (s : Statement)
      → get m.statements k ≡ some s
      → Mem (summarize s) (list_statements_for_user h s.user_id (pos 0) m)
  unfolding summarize
  mem-list_for_user k s e =
      subst (Mem (summarize s)) (sym (list_for_user-eq-take s.user_id (pos 0)))
        (mem-keep _ _ _ ((text_beq_iff s.user_id s.user_id).1 refl) (mem-list k s e))

  -- A store that lists the row when it is asked for some number of rows.
  abbrev pub IsListedBy : Option S → StatementSummary → Type 0
  IsListedBy history r =
      (store : S) × (n : ℕ) × (records : List StatementSummary) × (history ≡ some store)
      × (h.list_statement_history n store ≡ some records)
      × Mem r records

  -- In memory, or recorded under a handle that memory does not hold.
  abbrev pub IsCurrent : StatementSummary → Type 0
  IsCurrent r =
      Mem r (map summarize (values m.statements))
      ⊎ ((contains (handles (values m.statements)) r.handle ≡ false) × IsListedBy m.history r)

  not_seen :
      (seen : List Text) (r : StatementSummary)
      → not (contains seen r.handle) ≡ true
      → contains seen r.handle ≡ false
  not_seen seen r e = ground arith

  or_nothing-IsListedBy :
      (store : S) (n : ℕ) (r : Option (List StatementSummary))
      → h.list_statement_history n store ≡ r
      → All (IsListedBy (some store)) (or_nothing h r)
  or_nothing-IsListedBy store n none listed = tt
  or_nothing-IsListedBy store n (some records) listed =
      All-map (λ r here. (store, n, records, refl, listed, here)) records (All-mem records)

  recorded-IsListedBy :
      (limit : ℤ) (seen : List Text)
      → All
          (λ r. (contains seen r.handle ≡ false) × IsListedBy m.history r)
          (recorded_statements h limit seen m)
  unfolding recorded_statements
  recorded-IsListedBy limit seen = elim (Option-cases m.history) [
    | inl e ↦ rw (e, recorded_statements) tt
    | inr (store, e) ↦
        rw (e, recorded_statements)
          (All-both (λ r. contains seen r.handle ≡ false) (IsListedBy (some store)) _
            (All-map (not_seen seen) _ (keep-All (λ r. not (contains seen r.handle)) _))
            (All-keep (IsListedBy (some store)) _ _ (or_nothing-IsListedBy store _ _ refl)))
  ]

  -- Memory wins over the store: every statement of a listing is one that the manager holds now, in
  -- its present state, or a row that the store of the manager lists, under a handle that the manager
  -- does not hold.
  pub list-IsCurrent : (limit : ℤ) → All IsCurrent (list_statements_with_context h limit m)
  unfolding list_statements_with_context merged_statements
  list-IsCurrent limit = limit_to-All IsCurrent limit _ (
      All-sort_by newer IsCurrent _ (
        All-append IsCurrent (map summarize (values m.statements)) _
          (All-map (λ r i. inl i) _ (All-mem (map summarize (values m.statements))))
          (All-map (λ r o. inr o) _ (recorded-IsListedBy limit (handles (values m.statements))))))
