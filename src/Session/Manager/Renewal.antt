-- ===== src/Session/Manager/Renewal.antt =====
-- What RenewToken does to a session and its tokens.
use snowflake_emulator.Base.{
  ℕ, ◌+◌, ◌≡◌, ◌≤◌, refl, Text, text_eq, nat_eq, none, some, Bool, true, false, [], ◌==◌, ltb,
  arith, text_beq_refl,
}
use snowflake_emulator.Base.Dict.{get, put, remove, get-put, get-put_self, get-remove}
use snowflake_emulator.Base.Result.{Result, ok}
use snowflake_emulator.Session.Types.{Session, Error, Manager, Call}
use snowflake_emulator.Session.Store.{replace_token}
use snowflake_emulator.Session.Index.{write_self}
use snowflake_emulator.Session.Manager.{
  on_store, install_replacement, renew_with, renew_at, renew_token, master_expiry, inspect_at,
  inspect_session,
}

-- The session after a renewal at an instant: its tokens and times are new, all else is kept.
abbrev pub renewed : ℕ → ℕ → Text → Session → Session
renewed now timeout token s = record s {
  token = token;
  last_accessed_at = now;
  expires_at = now + timeout;
}

-- The new token is the only one of the two that is accepted, and leads to the session.
abbrev pub IsMoved : ℕ → Text → Session → Manager × Result Error Session → Type 0
IsMoved now old s r =
    (r.1 ≡ ok s) × (get r.0.sessions old ≡ none) × (inspect_session now s.token r.0 ≡ (r.0, ok s))

inspect-found :
    (now : ℕ) (token : Text) (p : ℕ) (s : Session) (m : Manager)
    → (token == []) ≡ false
    → get m.sessions token ≡ some p
    → m.heap p ≡ s
    → now ≤ s.expires_at
    → inspect_session now token m ≡ (m, ok s)
unfolding inspect_session inspect_at
inspect-found now token p s m named there same valid =
    rw (named, there, same, fresh (s.expires_at) valid) refl
  where
    fresh : (e : ℕ) → now ≤ e → ltb e now ≡ false
    fresh e h = ground arith

install-IsMoved :
    (now p : ℕ) (old : Text) (s : Session) (r : Manager × Bool)
    → r.1 ≡ true
    → (s.token == []) ≡ false
    → (s.token == old) ≡ false
    → now ≤ s.expires_at
    → IsMoved now old s (install_replacement p old s r)
unfolding install_replacement
install-IsMoved now p old s (m, false) done named other valid = absurd cc
install-IsMoved now p old s (m, true) done named other valid = (
  refl,
  gone,
  inspect-found now s.token p s _ named (get-put_self (remove m.sessions old) s.token p)
      (write_self m.heap p s) valid,
)
  where
    gone : get (put (remove m.sessions old) s.token p) old ≡ none
    gone = rw get-put (rw other (rw get-remove (rw (text_beq_refl old) refl)))

-- RenewToken with the master token of a session, which has not expired and whose store takes the
-- replacement, succeeds: the session keeps its user, role and context and gets the new token and a
-- new expiry, until which an inspection accepts that token and returns the session, while the old
-- token is no longer known.
pub renew_token-IsMoved :
    (c : Call) (master token : Text) (p : ℕ) (m : Manager) (now : ℕ)
    → (master == []) ≡ false
    → get m.master_tokens master ≡ some p
    → ltb (master_expiry (m.heap p)) c.now ≡ false
    → c.token ≡ some token
    → (token == []) ≡ false
    → (token == (m.heap p).token) ≡ false
    → let s = renewed c.now m.session_timeout token (m.heap p) in
      (on_store (replace_token c.exec_ok (m.heap p).token s) m).1 ≡ true
      → now ≤ c.now + m.session_timeout
      → IsMoved now (m.heap p).token s (renew_token c master m)
unfolding renew_token renew_at renew_with
renew_token-IsMoved c master token p m now known there alive drawn named other stored valid =
    rw (known, there, alive, drawn)
      (install-IsMoved now p (m.heap p).token _ _ stored named other valid)
