-- ===== src/Statement/Invariant.antt =====
-- What holds of every statement between two calls.
use snowflake_emulator.Base.{
  ℕ, ◌≡◌, refl, inl, inr, Text, text_eq, Option, none, some, Bool, true, false, List, [], ◌∷◌,
  if_intro, Option-cases, arith,
}
use snowflake_emulator.Base.Dict.{
  get, put, ForAll, ForAll-empty, ForAll-put, ForAll-remove, ForAll-retain,
}
use snowflake_emulator.Statement.Types.{
  StatementStatus, is_canceled, is_completed, is_queued, is_running, Statement, HistoryStore,
  StatementManager,
}
use snowflake_emulator.Statement.Manager.{
  Error, new_statement, new_statement_manager, with_status, with_result, with_exec_result,
  with_error, with_cancellation, is_cancelable, create_statement_for_user, commit, complete,
  update_status, set_result, set_exec_result, set_error, set_cancel_func, set_execution_metadata,
  cancel_statement, delete_statement, cleanup, is_fresh, prune_history,
}
use snowflake_emulator.Statement.Calls.{
  ManagerCall, creates, updates, returns, executes, fails, cancels, registers, describes, deletes,
  cleans, prunes, step, run,
}

abbrev is_set : Option ℕ → Bool
is_set none = false
is_set (some t) = true

pub record IsConsistent (key : Text) (s : Statement) : Type 0 where
  pub keyed : s.handle ≡ key
  pub queued_stamped : is_queued s.status ≡ true → is_set s.queued_on ≡ true
  pub running_stamped : is_running s.status ≡ true → is_set s.started_on ≡ true
  pub completed_stamped : is_completed s.status ≡ true → is_set s.completed_on ≡ true

pub record Inv {S : Type 0} (m : StatementManager S) : Type 0 where
  pub at : ForAll IsConsistent m.statements

module _ {S : Type 0} (h : HistoryStore S) where
  abbrev KeepsInv {ℓ} : {A : Type ℓ} → StatementManager S × A → Type 0
  KeepsInv r = Inv r.0

  put-Inv :
      (m n : StatementManager S) (k : Text) (s : Statement)
      → Inv m
      → IsConsistent k s
      → n.statements ≡ put m.statements k s
      → Inv n
  put-Inv m n k s v c e = record { at = rw e (ForAll-put IsConsistent m.statements k s v.at c) }

  commit-Inv :
      (k : Text) (s : Statement) (m n : StatementManager S)
      → Inv m
      → n.statements ≡ m.statements
      → IsConsistent k s
      → Inv (commit h k s n)
  unfolding commit
  commit-Inv k s m n v e c = put-Inv m _ k s v c (ground arith)

  complete-Inv :
      (change : Statement → Statement) (k : Text) (m : StatementManager S)
      → ((s : Statement) → IsConsistent k s → IsConsistent k (change s))
      → Inv m
      → Inv (complete h change k m).0
  unfolding complete
  complete-Inv change k m keeps v = elim (Option-cases (get m.statements k)) [
    | inl e ↦ rw (e, complete) v
    | inr (s, e) ↦
        rw (e, complete)
          (if_intro (KeepsInv {A = Bool}) (is_canceled s.status) (λ _. v)
            (λ _. commit-Inv k (change s) m m v refl (keeps s (v.at k s e))))
  ]

  cancel_statement-Inv :
      (now : ℕ) (k : Text) (m : StatementManager S) → Inv m → Inv (cancel_statement h now k m).0
  unfolding cancel_statement with_cancellation
  cancel_statement-Inv now k m v = elim (Option-cases (get m.statements k)) [
    | inl e ↦ rw (e, cancel_statement) v
    | inr (s, e) ↦
        rw (e, cancel_statement)
          (if_intro (KeepsInv {A = Option Error}) (is_cancelable s.status)
            (λ _. commit-Inv k _ m _ v refl (stopped (v.at k s e))) (λ _. v))
  ]
    where
      stopped : {s : Statement} → IsConsistent k s → IsConsistent k (with_cancellation now s)
      stopped c = ground arith

  -- Fields that the invariant does not speak of.
  annotated :
      (k username size : Text) (context : Option ℕ) (s : Statement)
      → IsConsistent k s
      → IsConsistent k
          (record s { username = username; warehouse_size = size; cancel_func = context })
  annotated k username size context s c = ground arith

  set_cancel_func-Inv :
      (k : Text) (context : ℕ) (m : StatementManager S)
      → Inv m
      → Inv (set_cancel_func k context m).0
  unfolding set_cancel_func
  set_cancel_func-Inv k context m v = elim (Option-cases (get m.statements k)) [
    | inl e ↦ rw (e, set_cancel_func) v
    | inr (s, e) ↦
        rw (e, set_cancel_func)
          (put-Inv m _ k _ v (annotated k s.username s.warehouse_size (some context) s (v.at k s e))
            refl)
  ]

  set_execution_metadata-Inv :
      (k username size : Text) (m : StatementManager S)
      → Inv m
      → Inv (set_execution_metadata k username size m)
  unfolding set_execution_metadata
  set_execution_metadata-Inv k username size m v = elim (Option-cases (get m.statements k)) [
    | inl e ↦ rw (e, set_execution_metadata) v
    | inr (s, e) ↦
        rw (e, set_execution_metadata)
          (put-Inv m _ k _ v (annotated k username size s.cancel_func s (v.at k s e)) refl)
  ]

  prune_history-Inv : (now : ℕ) (m : StatementManager S) → Inv m → Inv (prune_history h now m)
  unfolding prune_history
  prune_history-Inv now m v = elim (Option-cases m.history) [
    | inl e ↦ rw (e, prune_history) v
    | inr (store, e) ↦ rw (e, prune_history) (record { at = v.at })
  ]

  with_status-IsConsistent :
      (status : StatementStatus) (now : ℕ) (k : Text) (s : Statement)
      → IsConsistent k s
      → IsConsistent k (with_status status now s)
  unfolding with_status
  with_status-IsConsistent status now k s c = ground arith

  new_statement-IsConsistent :
      (handle sql database schema warehouse user : Text) (now : ℕ)
      → IsConsistent handle (new_statement handle sql database schema warehouse user now)
  unfolding new_statement
  new_statement-IsConsistent handle sql database schema warehouse user now = record {
    keyed = refl;
    queued_stamped = λ e. cc;
    running_stamped = λ e. cc;
    completed_stamped = λ e. cc;
  }

  -- Every call keeps each statement under its handle, and keeps the time stamps that go with its
  -- status: a queued statement says since when it is queued, a running one when it started, and a
  -- completed one when it ended.
  pub step-Inv : (c : ManagerCall) (m : StatementManager S) → Inv m → Inv (step h c m)
  unfolding step update_status set_result set_exec_result set_error create_statement_for_user
      delete_statement cleanup with_result with_exec_result with_error
  step-Inv (creates now uuid sql database schema warehouse user) m v =
      put-Inv m _ _ _ v (new_statement-IsConsistent _ sql database schema warehouse user now) refl
  step-Inv (updates now handle status) m v =
      complete-Inv _ handle m (with_status-IsConsistent status now handle) v
  step-Inv (returns now handle r) m v = complete-Inv _ handle m (λ s c. ground arith) v
  step-Inv (executes now handle n) m v = complete-Inv _ handle m (λ s c. ground arith) v
  step-Inv (fails now handle e) m v = complete-Inv _ handle m (λ s c. ground arith) v
  step-Inv (cancels now handle) m v = cancel_statement-Inv now handle m v
  step-Inv (registers handle context) m v = set_cancel_func-Inv handle context m v
  step-Inv (describes handle username size) m v =
      set_execution_metadata-Inv handle username size m v
  step-Inv (deletes handle) m v = record {
    at = ForAll-remove IsConsistent m.statements handle v.at;
  }
  step-Inv (cleans now) m v = record {
    at = ForAll-retain IsConsistent (is_fresh now m.ttl) m.statements v.at;
  }
  step-Inv (prunes now) m v = prune_history-Inv now m v

  pub run-Inv : (cs : List ManagerCall) (m : StatementManager S) → Inv m → Inv (run h cs m)
  unfolding run
  run-Inv [] m v = v
  run-Inv (c ∷ cs) m v = run-Inv cs (step h c m) (step-Inv c m v)

  -- From an empty manager, every sequence of calls leads to a state in which each statement stands
  -- under its own handle, a queued one says since when it is queued, a running one when it started,
  -- and a completed one when it ended.
  pub statements-Inv :
      (ttl : ℕ) (cs : List ManagerCall) → Inv (run h cs (new_statement_manager ttl))
  unfolding new_statement_manager
  statements-Inv ttl cs = run-Inv cs _ (record { at = ForAll-empty IsConsistent })
