-- ===== src/Session/Closing.antt =====
-- Tokens of closed sessions, through any sequence of calls.
use snowflake_emulator.Base.{
  ℕ, ◌≡◌, ◌≢◌, refl, sym, ◌∙◌, ap, inl, inr, Text, text_eq, text_beq_iff, Option, none, some, Bool,
  List, [], ◌∷◌, ◌==◌, if_intro, Option-cases, All,
}
use snowflake_emulator.Base.Dict.{
  Dict, get, put, remove, retain, get-put, get-remove, get-retain, ForAll, ForAll-put,
  ForAll-remove, ForAll-retain,
}
use snowflake_emulator.Session.Types.{Session, Heap, Manager, Call, new_manager}
use snowflake_emulator.Session.Calls.{ManagerCall, step, run}
use snowflake_emulator.Session.Manager.{write, on_store, add_session}
use snowflake_emulator.Session.Manager.Stable.{FreshToken, Stable, FreshCall, step-keeps}
use snowflake_emulator.Session.Index.{
  Inv, new_manager-Inv, on_store-Inv, add_session-Inv, write-Extends, ByToken-Extends,
  ByMaster-Extends, write_self, write_other, replaced-Inv, nat_cases,
}

pub Inv-Stable : Stable Inv (λ t. Unit)
Inv-Stable = record {
  stored = on_store-Inv;
  removed = λ k m v. record { tokens = ForAll-remove _ m.sessions k v.tokens; masters = v.masters };
  swept = λ f m v. record { tokens = ForAll-retain _ f m.sessions v.tokens; masters = v.masters };
  revoked =
      λ k m v. record { tokens = v.tokens; masters = ForAll-remove _ m.master_tokens k v.masters };
  master_swept =
      λ f m v. record { tokens = v.tokens; masters = ForAll-retain _ f m.master_tokens v.masters };
  written = λ p s m v t u.
      let x = write-Extends m.heap m.next p s t u in
      record {
        tokens = ByToken-Extends m.sessions x v.tokens;
        masters = ByMaster-Extends m.master_tokens x v.masters;
      };
  added = λ s m _ v. add_session-Inv s m v;
  replaced = λ k old p s m _ e t u v. replaced-Inv old p s m (v.masters k p e).1 t u v;
}

fresh_all : (c : Call) → FreshCall (λ t. Unit) c
fresh_all c = go c.token
  where
    go : (o : Option Text) → FreshToken (λ t. Unit) o
    go none = tt
    go (some t) = tt

pub run-Inv : (cs : List (Call × ManagerCall)) (m : Manager) → Inv m → Inv (run cs m)
unfolding run
run-Inv [] m v = v
run-Inv (c ∷ cs) m v = run-Inv cs (step c m) (step-keeps Inv-Stable c m (fresh_all c.0) v)

-- Whatever the calls, failing ones included, each entry of the two indexes points to an allocated
-- session that carries the very token, or master token, of the entry.
pub sessions-Inv :
    (timeout : ℕ) (store : Option (Dict Session)) (cs : List (Call × ManagerCall))
    → Inv (run cs (new_manager timeout store))
sessions-Inv timeout store cs = run-Inv cs _ (new_manager-Inv timeout store)

-- No index leads to a session with the token.
pub record IsClosed (t : Text) (m : Manager) : Type 0 where
  pub unindexed : get m.sessions t ≡ none
  pub unrenewable : ForAll (λ k p. (m.heap p).token ≢ t) m.master_tokens

module _ (t : Text) where
  abbrev pub Closed : Manager → Type 0
  Closed m = Inv m × IsClosed t m

  pub on_store-IsClosed :
      (body : Dict Session → Dict Session × Bool) (m : Manager)
      → IsClosed t m
      → IsClosed t (on_store body m).0
  unfolding on_store
  on_store-IsClosed body m v = elim (Option-cases m.store) [
    | inl e ↦ rw (e, on_store) v
    | inr (d, e) ↦
        rw (e, on_store) (record { unindexed = v.unindexed; unrenewable = v.unrenewable })
  ]

  absent-remove : (d : Dict ℕ) (k : Text) → get d t ≡ none → get (remove d k) t ≡ none
  absent-remove d k e = rw get-remove (if_intro (λ o. o ≡ none) (k == t) (λ _. refl) (λ _. e))

  absent-retain : (d : Dict ℕ) (f : Text → ℕ → Bool) → get d t ≡ none → get (retain f d) t ≡ none
  absent-retain d f e = rw (get-retain, e)

  absent-put : (d : Dict ℕ) (k : Text) (p : ℕ) → k ≢ t → get d t ≡ none → get (put d k p) t ≡ none
  absent-put d k p fresh e = rw get-put (
      if_intro (λ o. o ≡ none) (k == t) (λ same. absurd (fresh ((text_beq_iff k t).0 same)))
        (λ _. e))

  written-IsClosed :
      (p : ℕ) (s : Session) (m : Manager)
      → Closed m
      → s.token ≡ (m.heap p).token
      → s.master_token ≡ (m.heap p).master_token
      → IsClosed t (record m { heap = write m.heap p s })
  written-IsClosed p s m v e u = record {
    unindexed = v.1.unindexed;
    unrenewable = λ k q f r.
        v.1.unrenewable k q f
          (sym ((write-Extends m.heap m.next p s e u).same_token q (v.0.masters k q f).1) ∙ r);
  }

  -- After a write of a session with another token.
  written-ne :
      (h : Heap) (p q : ℕ) (s : Session) → s.token ≢ t → (h q).token ≢ t → (write h p s q).token ≢ t
  written-ne h p q s fresh old = elim (nat_cases q p) [
    | inl e ↦ λ r. fresh (
        ap (λ (i : Session). i.token) (sym (write_self h p s))
        ∙ ap (λ i. (write h p s i).token) (sym e)
        ∙ r)
    | inr differs ↦ λ r. old (ap (λ (i : Session). i.token) (sym (write_other h p q s differs)) ∙ r)
  ]

  added-IsClosed :
      (s : Session) (m : Manager) → s.token ≢ t → Closed m → IsClosed t (add_session s m)
  unfolding add_session
  added-IsClosed s m fresh v = record {
    unindexed = absent-put m.sessions s.token m.next fresh v.1.unindexed;
    unrenewable =
        ForAll-put _ m.master_tokens s.master_token m.next
          (λ k q f. written-ne m.heap m.next q s fresh (v.1.unrenewable k q f))
          (λ r. fresh (ap (λ (i : Session). i.token) (sym (write_self m.heap m.next s)) ∙ r));
  }

  replaced-IsClosed :
      (old : Text) (p : ℕ) (s : Session) (m : Manager)
      → s.token ≢ t
      → Closed m
      → IsClosed t
          (record m { heap = write m.heap p s; sessions = put (remove m.sessions old) s.token p })
  replaced-IsClosed old p s m fresh v = record {
    unindexed =
        absent-put (remove m.sessions old) s.token p fresh
          (absent-remove m.sessions old v.1.unindexed);
    unrenewable = λ k q f. written-ne m.heap p q s fresh (v.1.unrenewable k q f);
  }

  Closed-Stable : Stable Closed (λ u. u ≢ t)
  Closed-Stable = record {
    stored = λ body m v. (on_store-Inv body m v.0, on_store-IsClosed body m v.1);
    removed = λ k m v. (
      Inv-Stable.removed k m v.0,
      record {
        unindexed = absent-remove m.sessions k v.1.unindexed;
        unrenewable = v.1.unrenewable;
      },
    );
    swept = λ f m v. (
      Inv-Stable.swept f m v.0,
      record {
        unindexed = absent-retain m.sessions f v.1.unindexed;
        unrenewable = v.1.unrenewable;
      },
    );
    revoked = λ k m v. (
      Inv-Stable.revoked k m v.0,
      record {
        unindexed = v.1.unindexed;
        unrenewable = ForAll-remove _ m.master_tokens k v.1.unrenewable;
      },
    );
    master_swept = λ f m v. (
      Inv-Stable.master_swept f m v.0,
      record {
        unindexed = v.1.unindexed;
        unrenewable = ForAll-retain _ f m.master_tokens v.1.unrenewable;
      },
    );
    written = λ p s m v e u. (Inv-Stable.written p s m v.0 e u, written-IsClosed p s m v e u);
    added = λ s m fresh v. (Inv-Stable.added s m tt v.0, added-IsClosed s m fresh v);
    replaced = λ k old p s m fresh e a b v.
        (Inv-Stable.replaced k old p s m tt e a b v.0, replaced-IsClosed old p s m fresh v);
  }

  pub run-Closed :
      (cs : List (Call × ManagerCall)) (m : Manager)
      → All (λ c. FreshCall (λ u. u ≢ t) c.0) cs
      → Closed m
      → Closed (run cs m)
  unfolding run
  run-Closed [] m f v = v
  run-Closed (c ∷ cs) m f v = run-Closed cs (step c m) f.1 (step-keeps Closed-Stable c m f.0 v)
