-- ===== src/Session/Manager/Revocation.antt =====
-- What CloseSession does to a token and to the master tokens behind it.
use snowflake_emulator.Base.{
  ℕ, ◌≡◌, ◌≢◌, refl, ◌∙◌, ap, inl, inr, Text, text_eq, text_beq_iff, Option, none, some, Bool, true,
  false, not, List, [], ◌==◌, if◌then◌else◌, if_intro, Bool-cases, arith, All,
}
use snowflake_emulator.Base.Dict.{Dict, get, get-remove, get-retain, ForAll, if_kept}
use snowflake_emulator.Base.Result.{err}
use snowflake_emulator.Session.Store.{delete}
use snowflake_emulator.Session.Types.{
  Session, empty_token, invalid_token, Manager, Call, new_manager,
}
use snowflake_emulator.Session.Calls.{ManagerCall, run}
use snowflake_emulator.Session.Closing.{
  sessions-Inv, IsClosed, run-Closed, Inv-Stable, on_store-IsClosed,
}
use snowflake_emulator.Session.Manager.{
  forget, revoke, report_deleted, on_store, inspect_at, inspect_session, close_session,
}
use snowflake_emulator.Session.Manager.Stable.{FreshCall, close-keeps}

get-forget :
    (token : Text) (o : Option ℕ) (m : Manager)
    → get m.sessions token ≡ o
    → get (forget token o m).sessions token ≡ none
unfolding forget
get-forget token none m e = e
get-forget token (some p) m e = rw get-remove (
    if_intro (λ o. o ≡ none) (token == token) (λ _. refl)
      (λ differs. cc ((text_beq_iff token token).1 refl)))

spared :
    (token k : Text) (m : Manager) (p : ℕ) (o : Option ℕ)
    → if_kept (λ master q. not ((m.heap q).token == token)) k o ≡ some p
    → (m.heap p).token ≢ token
spared token k m p none e = cc
spared token k m p (some q) e = elim (Bool-cases ((m.heap q).token == token)) [
  | inl same ↦ cc (rw same at e)
  | inr other ↦ λ r. cc (
      (text_beq_iff (m.heap q).token token).1
        (ap (λ i. (m.heap i).token) (same_place (rw other at e)) ∙ r))
]
  where
    same_place : some q ≡ some p → q ≡ p
    same_place f = cc

revoke-unrenewable :
    (token : Text) (m : Manager)
    → ForAll (λ k p. (m.heap p).token ≢ token) (revoke token m).master_tokens
unfolding revoke
revoke-unrenewable token m k p e = spared token k m p (get m.master_tokens k) (rw get-retain at e)

report_deleted-IsClosed :
    (token : Text) (r : Manager × Bool) → IsClosed token r.0 → IsClosed token (report_deleted r).0
unfolding report_deleted
report_deleted-IsClosed token (m, true) v = v
report_deleted-IsClosed token (m, false) v = v

-- Whether or not the token was known, and even where the store fails.
close-IsClosed :
    (c : Call) (token : Text) (m : Manager) → IsClosed token (close_session c token m).0
unfolding close_session revoke
close-IsClosed c token m =
    let cleared = revoke token (forget token (get m.sessions token) m) in
    report_deleted-IsClosed token (on_store (delete c.exec_ok token) cleared) (
      on_store-IsClosed token (delete c.exec_ok token) cleared (record {
        unindexed = get-forget token _ m refl;
        unrenewable = revoke-unrenewable token (forget token (get m.sessions token) m);
      }))

inspect-closed :
    (now : ℕ) (t : Text) (m : Manager)
    → IsClosed t m
    → inspect_session now t m ≡ (m, err (if t == [] then empty_token else invalid_token))
unfolding inspect_session
inspect-closed now t m v = rw (v.unindexed, inspect_at) (ground arith)

-- Logout is final: from any reachable state, once CloseSession was called for a token, whatever its
-- own outcome, no sequence of later calls makes the token valid again, as long as the random source
-- does not produce it a second time: every inspection rejects it without changing anything, and no
-- master token leads to a session that carries it, so that none can renew it.
pub logout_final :
    (timeout : ℕ) (store : Option (Dict Session)) (before after : List (Call × ManagerCall))
    (c : Call) (t : Text) (now : ℕ)
    → All (λ d. FreshCall (λ u. u ≢ t) d.0) after
    → let m = run after (close_session c t (run before (new_manager timeout store))).0 in
      IsClosed t m
      × (inspect_session now t m ≡ (m, err (if t == [] then empty_token else invalid_token)))
logout_final timeout store before after c t now fresh =
    let start = run before (new_manager timeout store) in
    let closed = (close_session c t start).0 in
    let (sound, gone) = run-Closed t after closed fresh (
      close-keeps Inv-Stable c t start (sessions-Inv timeout store before),
      close-IsClosed c t start,
    ) in
    (gone, inspect-closed now t (run after closed) gone)
