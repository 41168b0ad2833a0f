-- ===== src/Statement/Cancellation.antt =====
-- Canceled statements, through any sequence of calls.
use snowflake_emulator.Base.{
  sym, ℕ, ◌≡◌, ◌≢◌, refl, inl, inr, Text, text_eq, text_beq_iff, Option, none, some, Bool, true,
  false, List, [], ◌∷◌, ◌==◌, if_intro, Option-cases, All, arith, subst,
}
use snowflake_emulator.Base.Dict.{Dict, get, put, get-put, get-remove, get-retain, if_kept}
use snowflake_emulator.Statement.Types.{
  canceled, is_canceled, Statement, HistoryStore, StatementManager,
}
use snowflake_emulator.Statement.Manager.{
  Error, generate_statement_handle, with_cancellation, is_cancelable, create_statement_for_user,
  commit, complete, update_status, set_result, set_exec_result, set_error, set_cancel_func,
  set_execution_metadata, cancel_statement, delete_statement, cleanup, is_fresh, prune_history,
}
use snowflake_emulator.Statement.Calls.{
  ManagerCall, creates, updates, returns, executes, fails, cancels, registers, describes, deletes,
  cleans, prunes, step, run,
}

-- The statement is gone, or canceled with the outcome that it had.
abbrev pub Frozen : Statement → Option Statement → Type 0
Frozen s none = Unit
Frozen s (some t) =
    (t.status ≡ canceled)
    × (t.completed_on ≡ s.completed_on)
    × (t.result ≡ s.result)
    × (t.rows_affected ≡ s.rows_affected)
    × (t.error ≡ s.error)

-- A call creates no second statement under the handle, as UUIDs do not repeat.
abbrev pub Avoids : Text → ManagerCall → Type 0
Avoids k (creates now uuid sql database schema warehouse user) = generate_statement_handle uuid ≢ k
Avoids k _ = Unit

module _ (s : Statement) (k : Text) where
  Frozen-put_live :
      (d : Dict Statement) (handle : Text) (t u : Statement)
      → get d handle ≡ some t
      → is_canceled t.status ≡ false
      → Frozen s (get d k)
      → Frozen s (get (put d handle u) k)
  Frozen-put_live d handle t u e live f =
      rw get-put (if_intro (Frozen s) (handle == k) (λ same. absurd (contradiction same)) (λ _. f))
    where
      there : (handle == k) ≡ true → Frozen s (some t)
      there same =
          subst (Frozen s) e
            (subst (λ j. Frozen s (get d j)) (sym ((text_beq_iff handle k).0 same)) f)

      contradiction : (handle == k) ≡ true → ⊥
      contradiction same = ground (arith, there same)

  Frozen-put_same :
      (d : Dict Statement) (handle : Text) (t u : Statement)
      → get d handle ≡ some t
      → (Frozen s (some t) → Frozen s (some u))
      → Frozen s (get d k)
      → Frozen s (get (put d handle u) k)
  Frozen-put_same d handle t u e keeps f =
      rw get-put (if_intro (Frozen s) (handle == k) (λ same. keeps (there same)) (λ _. f))
    where
      there : (handle == k) ≡ true → Frozen s (some t)
      there same =
          subst (Frozen s) e
            (subst (λ j. Frozen s (get d j)) (sym ((text_beq_iff handle k).0 same)) f)

  module _ {S : Type 0} (h : HistoryStore S) where
    abbrev Kept {ℓ} : {A : Type ℓ} → StatementManager S × A → Type 0
    Kept r = Frozen s (get r.0.statements k)

    commit-statements :
        (handle : Text) (t : Statement) (m : StatementManager S)
        → (commit h handle t m).statements ≡ put m.statements handle t
    unfolding commit
    commit-statements handle t m = ground arith

    complete-Frozen :
        (change : Statement → Statement) (handle : Text) (m : StatementManager S)
        → Frozen s (get m.statements k)
        → Frozen s (get (complete h change handle m).0.statements k)
    unfolding complete
    complete-Frozen change handle m f = elim (Option-cases (get m.statements handle)) [
      | inl e ↦ rw (e, complete) f
      | inr (t, e) ↦
          rw (e, complete)
            (if_intro (Kept {A = Bool}) (is_canceled t.status) (λ _. f)
              λ live.
                rw (commit-statements handle (change t) m)
                  (Frozen-put_live m.statements handle t (change t) e live f))
    ]

    cancelable_live : (t : Statement) → is_cancelable t.status ≡ true → is_canceled t.status ≡ false
    cancelable_live t e = ground arith

    cancel_statement-Frozen :
        (now : ℕ) (handle : Text) (m : StatementManager S)
        → Frozen s (get m.statements k)
        → Frozen s (get (cancel_statement h now handle m).0.statements k)
    unfolding cancel_statement
    cancel_statement-Frozen now handle m f = elim (Option-cases (get m.statements handle)) [
      | inl e ↦ rw (e, cancel_statement) f
      | inr (t, e) ↦
          rw (e, cancel_statement)
            (if_intro (Kept {A = Option Error}) (is_cancelable t.status)
              (λ able.
                rw (commit-statements handle (with_cancellation now t) _)
                  (Frozen-put_live m.statements handle t _ e (cancelable_live t able) f))
              (λ _. f))
    ]

    set_cancel_func-Frozen :
        (handle : Text) (context : ℕ) (m : StatementManager S)
        → Frozen s (get m.statements k)
        → Frozen s (get (set_cancel_func handle context m).0.statements k)
    unfolding set_cancel_func
    set_cancel_func-Frozen handle context m f = elim (Option-cases (get m.statements handle)) [
      | inl e ↦ rw (e, set_cancel_func) f
      | inr (t, e) ↦ rw (e, set_cancel_func) (Frozen-put_same m.statements handle t _ e (λ g. g) f)
    ]

    set_execution_metadata-Frozen :
        (handle username size : Text) (m : StatementManager S)
        → Frozen s (get m.statements k)
        → Frozen s (get (set_execution_metadata handle username size m).statements k)
    unfolding set_execution_metadata
    set_execution_metadata-Frozen handle username size m f =
        elim (Option-cases (get m.statements handle)) [
          | inl e ↦ rw (e, set_execution_metadata) f
          | inr (t, e) ↦
              rw (e, set_execution_metadata) (Frozen-put_same m.statements handle t _ e (λ g. g) f)
        ]

    Frozen-if_kept :
        (p : Text → Statement → Bool) (o : Option Statement) → Frozen s o → Frozen s (if_kept p k o)
    Frozen-if_kept p none f = f
    Frozen-if_kept p (some t) f = if_intro (Frozen s) (p k t) (λ _. f) (λ _. tt)

    prune_history-statements :
        (now : ℕ) (m : StatementManager S) → (prune_history h now m).statements ≡ m.statements
    unfolding prune_history
    prune_history-statements now m = ground arith

    -- No call brings a canceled statement back, or changes its outcome.
    step-Frozen :
        (c : ManagerCall) (m : StatementManager S)
        → Avoids k c
        → Frozen s (get m.statements k)
        → Frozen s (get (step h c m).statements k)
    unfolding step update_status set_result set_exec_result set_error create_statement_for_user
        delete_statement cleanup
    step-Frozen (creates now uuid sql database schema warehouse user) m fresh f = rw get-put (
        if_intro (Frozen s) (generate_statement_handle uuid == k)
          (λ same. absurd (fresh ((text_beq_iff _ k).0 same))) (λ _. f))
    step-Frozen (updates now handle status) m fresh f = complete-Frozen _ handle m f
    step-Frozen (returns now handle r) m fresh f = complete-Frozen _ handle m f
    step-Frozen (executes now handle n) m fresh f = complete-Frozen _ handle m f
    step-Frozen (fails now handle e) m fresh f = complete-Frozen _ handle m f
    step-Frozen (cancels now handle) m fresh f = cancel_statement-Frozen now handle m f
    step-Frozen (registers handle context) m fresh f = set_cancel_func-Frozen handle context m f
    step-Frozen (describes handle username size) m fresh f =
        set_execution_metadata-Frozen handle username size m f
    step-Frozen (deletes handle) m fresh f =
        rw get-remove (if_intro (Frozen s) (handle == k) (λ _. tt) (λ _. f))
    step-Frozen (cleans now) m fresh f =
        rw get-retain (Frozen-if_kept (is_fresh now m.ttl) (get m.statements k) f)
    step-Frozen (prunes now) m fresh f = rw (prune_history-statements now m) f

    run-Frozen :
        (cs : List ManagerCall) (m : StatementManager S)
        → All (Avoids k) cs
        → Frozen s (get m.statements k)
        → Frozen s (get (run h cs m).statements k)
    unfolding run
    run-Frozen [] m fresh f = f
    run-Frozen (c ∷ cs) m fresh f = run-Frozen cs (step h c m) fresh.1 (step-Frozen c m fresh.0 f)

-- In the memory of the manager, cancellation is final: once the statement under a handle is
-- canceled, no sequence of calls leaves it there with another status, outcome or completion time,
-- as long as none of the calls creates a statement that is given this handle. At most the statement
-- is dropped from memory.
pub canceled_final :
    {S : Type 0} (h : HistoryStore S) (k : Text) (s : Statement) (cs : List ManagerCall)
    (m : StatementManager S)
    → get m.statements k ≡ some s
    → s.status ≡ canceled
    → All (Avoids k) cs
    → Frozen s (get (run h cs m).statements k)
canceled_final h k s cs m e over fresh =
    run-Frozen s k h cs m fresh (rw e (over, refl, refl, refl, refl))
