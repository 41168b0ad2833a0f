-- ===== src/Session/Index.antt =====
-- The two indexes of the session manager and the sessions to which they point.
use snowflake_emulator.Base.{
  ◌⊎◌, ap, ℕ, suc, ◌≤◌, ◌<◌, ◌≡◌, ◌≢◌, refl, sym, ◌∙◌, inl, inr, Text, text_eq, text_beq_iff,
  nat_eq, nat_beq_iff, Option, some, Bool, true, false, ◌==◌, if◌then◌else◌, Option-cases,
  Bool-cases, arith,
}
use snowflake_emulator.Base.Dict.{
  Dict, get, put, remove, get-remove, ForAll, ForAll-empty, ForAll-put,
}
use snowflake_emulator.Session.Types.{Session, Heap, Manager, new_manager}
use snowflake_emulator.Session.Manager.{write, on_store, add_session}

-- An entry of the index by token, or by master token.
abbrev pub ByToken : Heap → ℕ → Text → ℕ → Type 0
ByToken h n token p = ((h p).token ≡ token) × (p < n)

abbrev pub ByMaster : Heap → ℕ → Text → ℕ → Type 0
ByMaster h n master p = ((h p).master_token ≡ master) × (p < n)

pub record Inv (m : Manager) : Type 0 where
  pub tokens : ForAll (ByToken m.heap m.next) m.sessions
  pub masters : ForAll (ByMaster m.heap m.next) m.master_tokens

pub new_manager-Inv :
    (timeout : ℕ) (store : Option (Dict Session)) → Inv (new_manager timeout store)
unfolding new_manager
new_manager-Inv timeout store = record { tokens = ForAll-empty _; masters = ForAll-empty _ }

-- Entries stay valid where the heap keeps the tokens of what is allocated.
pub record Extends (h : Heap) (n : ℕ) (h' : Heap) (n' : ℕ) : Type 0 where
  pub grows : n ≤ n'
  pub same_token : (p : ℕ) → p < n → (h' p).token ≡ (h p).token
  pub same_master : (p : ℕ) → p < n → (h' p).master_token ≡ (h p).master_token

pub ByToken-Extends :
    {h h' : Heap} {n n' : ℕ} (d : Dict ℕ)
    → Extends h n h' n'
    → ForAll (ByToken h n) d
    → ForAll (ByToken h' n') d
ByToken-Extends d x all k p e =
    let (same, small) = all k p e in (x.same_token p small ∙ same, omega (arith, x.grows))

pub ByMaster-Extends :
    {h h' : Heap} {n n' : ℕ} (d : Dict ℕ)
    → Extends h n h' n'
    → ForAll (ByMaster h n) d
    → ForAll (ByMaster h' n') d
ByMaster-Extends d x all k p e =
    let (same, small) = all k p e in (x.same_master p small ∙ same, omega (arith, x.grows))

-- A write that keeps both tokens, and a write to a new place.
pub write-Extends :
    (h : Heap) (n p : ℕ) (s : Session)
    → s.token ≡ (h p).token
    → s.master_token ≡ (h p).master_token
    → Extends h n (write h p s) n
write-Extends h n p s t u = record {
  grows = omega arith;
  same_token = λ q _. at_token q (q == p) ((nat_beq_iff q p).0);
  same_master = λ q _. at_master q (q == p) ((nat_beq_iff q p).0);
}
  where
    at_token : (q : ℕ) (b : Bool) → (b ≡ true → q ≡ p) → (if b then s else h q).token ≡ (h q).token
    at_token q true e = t ∙ sym (ap (λ r. (h r).token) (e refl))
    at_token q false e = refl

    at_master :
        (q : ℕ) (b : Bool)
        → (b ≡ true → q ≡ p)
        → (if b then s else h q).master_token ≡ (h q).master_token
    at_master q true e = u ∙ sym (ap (λ r. (h r).master_token) (e refl))
    at_master q false e = refl

pub alloc-Extends : (h : Heap) (n : ℕ) (s : Session) → Extends h n (write h n s) (suc n)
alloc-Extends h n s = record {
  grows = omega arith;
  same_token = λ q small. ground arith;
  same_master = λ q small. ground arith;
}

pub write_self : (h : Heap) (p : ℕ) (s : Session) → write h p s p ≡ s
write_self h p s = ground arith

pub on_store-Inv :
    (body : Dict Session → Dict Session × Bool) (m : Manager) → Inv m → Inv (on_store body m).0
unfolding on_store
on_store-Inv body m v = elim (Option-cases m.store) [
  | inl e ↦ rw (e, on_store) v
  | inr (t, e) ↦ rw (e, on_store) (record { tokens = v.tokens; masters = v.masters })
]

pub add_session-Inv : (s : Session) (m : Manager) → Inv m → Inv (add_session s m)
unfolding add_session
add_session-Inv s m v = record {
  tokens =
      ForAll-put _ m.sessions s.token m.next (ByToken-Extends m.sessions x v.tokens)
        (ap (λ (r : Session). r.token) (write_self m.heap m.next s), omega arith);
  masters =
      ForAll-put _ m.master_tokens s.master_token m.next
        (ByMaster-Extends m.master_tokens x v.masters)
        (ap (λ (r : Session). r.master_token) (write_self m.heap m.next s), omega arith);
}
  where
    x : Extends m.heap m.next (write m.heap m.next s) (suc m.next)
    x = alloc-Extends m.heap m.next s

pub write_other : (h : Heap) (p q : ℕ) (s : Session) → q ≢ p → write h p s q ≡ h q
write_other h p q s differs = ground arith

-- An index without the entry of a token has no entry for the session of that token.
removed-ne :
    (old k : Text) (p q : ℕ) (m : Manager)
    → old ≡ (m.heap p).token
    → Inv m
    → get (remove m.sessions old) k ≡ some q
    → (q ≢ p) × (get m.sessions k ≡ some q)
removed-ne old k p q m e v f = elim (Bool-cases (old == k)) [
  | inl same ↦ cc (rw (get-remove, same) at f)
  | inr other ↦
      let there : get m.sessions k ≡ some q = rw (get-remove, other) at f in
      (
        λ (r : q ≡ p).
            absurd
              (not_same other (e ∙ sym (ap (λ i. (m.heap i).token) r) ∙ (v.tokens k q there).0)),
        there,
      )
]
  where
    not_same : (old == k) ≡ false → old ≡ k → ⊥
    not_same other r = cc ((text_beq_iff old k).1 r)

pub nat_cases : (q p : ℕ) → (q ≡ p) ⊎ (q ≢ p)
nat_cases q p = elim (Bool-cases (q == p)) [
  | inl same ↦ inl ((nat_beq_iff q p).0 same)
  | inr other ↦ inr (λ (e : q ≡ p). cc ((nat_beq_iff q p).1 e))
]

-- Renewal: the session at p leaves its old token for a new one.
pub replaced-Inv :
    (old : Text) (p : ℕ) (s : Session) (m : Manager)
    → p < m.next
    → old ≡ (m.heap p).token
    → s.master_token ≡ (m.heap p).master_token
    → Inv m
    → Inv (record m { heap = write m.heap p s; sessions = put (remove m.sessions old) s.token p })
replaced-Inv old p s m small e u v = record {
  tokens =
      ForAll-put _ (remove m.sessions old) s.token p others
        (ap (λ (r : Session). r.token) (write_self m.heap p s), small);
  masters = λ k q f. by_master k q (v.masters k q f) (nat_cases q p);
}
  where
    others : ForAll (ByToken (write m.heap p s) m.next) (remove m.sessions old)
    others k q f =
        let (differs, there) = removed-ne old k p q m e v f in
        (
          ap (λ (r : Session). r.token) (write_other m.heap p q s differs) ∙ (v.tokens k q there).0,
          (v.tokens k q there).1,
        )

    by_master :
        (k : Text) (q : ℕ)
        → ByMaster m.heap m.next k q
        → (q ≡ p) ⊎ (q ≢ p)
        → ByMaster (write m.heap p s) m.next k q
    by_master k q (same, small') (inl r) = (
      ap (λ i. (write m.heap p s i).master_token) r
          ∙ ap (λ (i : Session). i.master_token) (write_self m.heap p s)
          ∙ u
          ∙ ap (λ i. (m.heap i).master_token) (sym r)
          ∙ same,
      small',
    )
    by_master k q (same, small') (inr differs) =
        (ap (λ (r : Session). r.master_token) (write_other m.heap p q s differs) ∙ same, small')
