-- ===== src/Session/Manager/Stable.antt =====
-- What every call keeps, if the few writes of which the calls are made keep it.
use snowflake_emulator.Base.{
  subst, ℕ, ◌≡◌, refl, inl, inr, Text, text_eq, Option, none, some, Bool, true, false, [], ltb,
  ◌==◌, if_intro, Option-cases, arith,
}
use snowflake_emulator.Base.Dict.{Dict, get, put, remove, retain}
use snowflake_emulator.Base.Result.{Result, ok, err}
use snowflake_emulator.Session.Types.{Session, CreateInput, Error, Manager, Call}
use snowflake_emulator.Session.Store.{touch}
use snowflake_emulator.Session.Calls.{
  ManagerCall, creates, uses_warehouse, uses_role, uses_context, inspects, validates, closes,
  cleans, renews, accesses, step,
}
use snowflake_emulator.Session.Manager.{
  with_context, with_role, with_warehouse, write, on_store, new_session, add_session,
  settle_created, create_with_tokens, create_authenticated_session, save_changed, change_session,
  set_warehouse_context, set_active_role, update_session_context, inspect_at, inspect_session,
  finish_at, finish_touched, validate_inspected, validate_session, forget, report_deleted,
  close_session, cleanup_expired_sessions, install_replacement, renew_with, master_expiry, renew_at,
  renew_token, record_access, access_at, update_last_accessed,
}

pub record Stable (P : Manager → Type 0) (Fresh : Text → Type 0) : Type 0 where
  pub stored :
      (body : Dict Session → Dict Session × Bool) (m : Manager) → P m → P (on_store body m).0
  pub removed : (k : Text) (m : Manager) → P m → P (record m { sessions = remove m.sessions k })
  pub swept :
      (keep : Text → ℕ → Bool) (m : Manager)
      → P m
      → P (record m { sessions = retain keep m.sessions })
  pub revoked :
      (k : Text) (m : Manager) → P m → P (record m { master_tokens = remove m.master_tokens k })
  pub master_swept :
      (keep : Text → ℕ → Bool) (m : Manager)
      → P m
      → P (record m { master_tokens = retain keep m.master_tokens })
  pub written :
      (p : ℕ) (s : Session) (m : Manager)
      → P m
      → s.token ≡ (m.heap p).token
      → s.master_token ≡ (m.heap p).master_token
      → P (record m { heap = write m.heap p s })
  pub added : (s : Session) (m : Manager) → Fresh s.token → P m → P (add_session s m)
  pub replaced :
      (k old : Text) (p : ℕ) (s : Session) (m : Manager)
      → Fresh s.token
      → get m.master_tokens k ≡ some p
      → old ≡ (m.heap p).token
      → s.master_token ≡ (m.heap p).master_token
      → P m
      → P (record m { heap = write m.heap p s; sessions = put (remove m.sessions old) s.token p })

-- The random source gives no token twice.
abbrev pub FreshToken : (Text → Type 0) → Option Text → Type 0
FreshToken Fresh none = Unit
FreshToken Fresh (some token) = Fresh token

abbrev pub FreshCall : (Text → Type 0) → Call → Type 0
FreshCall Fresh c = FreshToken Fresh c.token

module _ {P : Manager → Type 0} {Fresh : Text → Type 0} (st : Stable P Fresh) where
  abbrev Keeps {ℓ} : {A : Type ℓ} → Manager × A → Type 0
  Keeps r = P r.0

  settle_created-keeps : (s : Session) (r : Manager × Bool) → P r.0 → P (settle_created s r).0
  unfolding settle_created
  settle_created-keeps s (m, true) v = v
  settle_created-keeps s (m, false) v = st.revoked s.master_token _ (st.removed s.token m v)

  create_with_tokens-keeps :
      (c : Call) (input : CreateInput) (token master : Option Text) (m : Manager)
      → FreshToken Fresh token
      → P m
      → P (create_with_tokens c input token master m).0
  unfolding create_with_tokens
  create_with_tokens-keeps c input none master m f v = v
  create_with_tokens-keeps c input (some token) none m f v = v
  create_with_tokens-keeps c input (some token) (some master) m f v =
      let s = new_session c token master input m.session_timeout m.next in
      settle_created-keeps s _ (st.stored _ _ (st.added s m (unfold new_session in f) v))

  create-keeps :
      (c : Call) (input : CreateInput) (m : Manager)
      → FreshCall Fresh c
      → P m
      → P (create_authenticated_session c input m).0
  unfolding create_authenticated_session
  create-keeps c input m f v =
      if_intro Keeps (input.username == []) (λ _. v)
        λ _.
          if_intro Keeps (input.database == []) (λ _. v)
            λ _.
              if_intro Keeps (input.schema == []) (λ _. v)
                λ _. create_with_tokens-keeps c input c.token c.master_token m f v

  on_store-heap :
      (body : Dict Session → Dict Session × Bool) (m : Manager) → (on_store body m).0.heap ≡ m.heap
  unfolding on_store
  on_store-heap body m = ground arith

  on_store-masters :
      (body : Dict Session → Dict Session × Bool) (m : Manager)
      → (on_store body m).0.master_tokens ≡ m.master_tokens
  unfolding on_store
  on_store-masters body m = ground arith

  save_changed-keeps :
      (c : Call) (p : ℕ) (s : Session) (m : Manager) (r : Manager × Bool)
      → P r.0
      → r.0.heap ≡ m.heap
      → s.token ≡ (m.heap p).token
      → s.master_token ≡ (m.heap p).master_token
      → P (save_changed c p s m r).0
  unfolding save_changed
  save_changed-keeps c p s m (n, false) v e t u = v
  save_changed-keeps c p s m (n, true) v e t u =
      subst (λ h. P (record n { heap = write h p s })) e (st.written p s n v (rw e t) (rw e u))

  change_session-keeps :
      (missing : Error) (change : Session → Session) (c : Call) (token : Text) (m : Manager)
      → ((s : Session) → (change s).token ≡ s.token)
      → ((s : Session) → (change s).master_token ≡ s.master_token)
      → P m
      → P (change_session missing change c token m).0
  unfolding change_session
  change_session-keeps missing change c token m t u v = elim (Option-cases (get m.sessions token)) [
    | inl e ↦ rw (e, change_session) v
    | inr (p, e) ↦
        rw (e, change_session)
          (save_changed-keeps c p (change (m.heap p)) m _ (st.stored _ m v) (on_store-heap _ m)
            (t (m.heap p)) (u (m.heap p)))
  ]

  inspect_at-keeps :
      (now : ℕ) (token : Text) (o : Option ℕ) (m : Manager) → P m → P (inspect_at now token o m).0
  unfolding inspect_at
  inspect_at-keeps now token none m v = v
  inspect_at-keeps now token (some p) m v =
      if_intro Keeps (ltb (m.heap p).expires_at now) (λ _. st.removed token m v) (λ _. v)

  inspect-keeps : (now : ℕ) (token : Text) (m : Manager) → P m → P (inspect_session now token m).0
  unfolding inspect_session
  inspect-keeps now token m v =
      if_intro Keeps (token == []) (λ _. v) (λ _. inspect_at-keeps now token _ m v)

  finish_at-keeps : (now : ℕ) (o : Option ℕ) (m : Manager) → P m → P (finish_at now o m).0
  unfolding finish_at
  finish_at-keeps now none m v = v
  finish_at-keeps now (some p) m v =
      if_intro Keeps (ltb (m.heap p).expires_at now) (λ _. v)
        λ _.
          if_intro Keeps (ltb (m.heap p).last_accessed_at now) (λ _. st.written p _ m v refl refl)
            (λ _. v)

  finish_touched-keeps :
      (now : ℕ) (token : Text) (r : Manager × Bool) → P r.0 → P (finish_touched now token r).0
  unfolding finish_touched
  finish_touched-keeps now token (m, false) v = v
  finish_touched-keeps now token (m, true) v = finish_at-keeps now _ m v

  validate_inspected-keeps :
      (c : Call) (token : Text) (r : Manager × Result Error Session)
      → P r.0
      → P (validate_inspected c token r).0
  unfolding validate_inspected
  validate_inspected-keeps c token (m, err e) v = v
  validate_inspected-keeps c token (m, ok s) v =
      finish_touched-keeps c.now token _ (st.stored (touch c.exec_ok token c.now) m v)

  validate-keeps : (c : Call) (token : Text) (m : Manager) → P m → P (validate_session c token m).0
  unfolding validate_session
  validate-keeps c token m v = validate_inspected-keeps c token _ (inspect-keeps c.now token m v)

  forget-keeps : (token : Text) (o : Option ℕ) (m : Manager) → P m → P (forget token o m)
  unfolding forget
  forget-keeps token none m v = v
  forget-keeps token (some p) m v = st.revoked _ _ (st.removed token m v)

  report_deleted-keeps : (r : Manager × Bool) → P r.0 → P (report_deleted r).0
  unfolding report_deleted
  report_deleted-keeps (m, true) v = v
  report_deleted-keeps (m, false) v = v

  pub close-keeps : (c : Call) (token : Text) (m : Manager) → P m → P (close_session c token m).0
  unfolding close_session
  close-keeps c token m v =
      report_deleted-keeps _ (st.stored _ _ (st.master_swept _ _ (forget-keeps token _ m v)))

  install-keeps :
      (k old : Text) (p : ℕ) (s : Session) (r : Manager × Bool)
      → Fresh s.token
      → get r.0.master_tokens k ≡ some p
      → old ≡ (r.0.heap p).token
      → s.master_token ≡ (r.0.heap p).master_token
      → P r.0
      → P (install_replacement p old s r).0
  unfolding install_replacement
  install-keeps k old p s (m, false) f e t u v = v
  install-keeps k old p s (m, true) f e t u v = st.replaced k old p s m f e t u v

  renew_with-keeps :
      (c : Call) (k : Text) (p : ℕ) (token : Option Text) (m : Manager)
      → FreshToken Fresh token
      → get m.master_tokens k ≡ some p
      → P m
      → P (renew_with c p token m).0
  unfolding renew_with
  renew_with-keeps c k p none m f e v = v
  renew_with-keeps c k p (some token) m f e v =
      install-keeps k (m.heap p).token p _ _ f (rw (on_store-masters _ m) e)
        (rw (on_store-heap _ m) refl) (rw (on_store-heap _ m) refl) (st.stored _ m v)

  renew_at-keeps :
      (c : Call) (k : Text) (o : Option ℕ) (m : Manager)
      → FreshCall Fresh c
      → get m.master_tokens k ≡ o
      → P m
      → P (renew_at c k o m).0
  unfolding renew_at
  renew_at-keeps c k none m f e v = v
  renew_at-keeps c k (some p) m f e v =
      if_intro Keeps (ltb (master_expiry (m.heap p)) c.now)
        (λ _. st.removed (m.heap p).token _ (st.revoked k m v))
        (λ _. renew_with-keeps c k p c.token m f e v)

  renew-keeps :
      (c : Call) (k : Text) (m : Manager) → FreshCall Fresh c → P m → P (renew_token c k m).0
  unfolding renew_token
  renew-keeps c k m f v = if_intro Keeps (k == []) (λ _. v) (λ _. renew_at-keeps c k _ m f refl v)

  record_access-keeps : (p now : ℕ) (r : Manager × Bool) → P r.0 → P (record_access p now r).0
  unfolding record_access
  record_access-keeps p now (m, false) v = v
  record_access-keeps p now (m, true) v = st.written p _ m v refl refl

  access_at-keeps :
      (c : Call) (token : Text) (o : Option ℕ) (m : Manager) → P m → P (access_at c token o m).0
  unfolding access_at
  access_at-keeps c token none m v = v
  access_at-keeps c token (some p) m v =
      if_intro Keeps (ltb (m.heap p).expires_at c.now) (λ _. st.removed token m v)
        (λ _. record_access-keeps p c.now _ (st.stored _ m v))

  access-keeps :
      (c : Call) (token : Text) (m : Manager) → P m → P (update_last_accessed c token m).0
  unfolding update_last_accessed
  access-keeps c token m v =
      if_intro Keeps (token == []) (λ _. v) (λ _. access_at-keeps c token _ m v)

  pub step-keeps : (c : Call × ManagerCall) (m : Manager) → FreshCall Fresh c.0 → P m → P (step c m)
  unfolding step set_warehouse_context set_active_role update_session_context
      cleanup_expired_sessions
  step-keeps (c, creates input) m f v = create-keeps c input m f v
  step-keeps (c, uses_warehouse token warehouse) m f v =
      change_session-keeps _ (with_warehouse warehouse) c token m (λ s. refl) (λ s. refl) v
  step-keeps (c, uses_role token role_id role) m f v =
      change_session-keeps _ (with_role role_id role) c token m (λ s. refl) (λ s. refl) v
  step-keeps (c, uses_context token database schema) m f v =
      change_session-keeps _ (with_context c.now database schema) c token m (λ s. refl) (λ s. refl)
        v
  step-keeps (c, inspects token) m f v = inspect-keeps c.now token m v
  step-keeps (c, validates token) m f v = validate-keeps c token m v
  step-keeps (c, closes token) m f v = close-keeps c token m v
  step-keeps (c, cleans) m f v = st.swept _ m v
  step-keeps (c, renews master) m f v = renew-keeps c master m f v
  step-keeps (c, accesses token) m f v = access-keeps c token m v
