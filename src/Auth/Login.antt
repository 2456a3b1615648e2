-- ===== src/Auth/Login.antt =====
-- A login of internal/auth/service.go, and the requests that its token is good for.
use digital_ocean_bot.Prelude.{
  ℕ, suc, String, ◌≡◌, refl, ap, inl, inr, true, false, none, some, List, [], ◌∷◌, ◌++◌, arith,
  eq_refl, str_eq, Bool-cases,
}
use digital_ocean_bot.Prelude.Int.{ℤ, ◌+ℤ◌, ◌≤ℤ◌, ltb_ℤ}
use digital_ocean_bot.Sql.{ok}
use digital_ocean_bot.Auth.{
  User, Session, World, Crypto, tick, find_name, find_user_id, find_hash, find_session,
  principal_of, admit, authenticate, login, open_session, effective_ttl,
}

find_hash-append :
    (h : String) (sessions : List Session) (s : Session)
    → find_hash h sessions ≡ none
    → s.token_hash ≡ h
    → find_hash h (sessions ++ s ∷ []) ≡ some s
unfolding find_hash
find_hash-append h [] s free own = rw (own, eq_refl h) refl
find_hash-append h (t ∷ ts) s free own = elim (Bool-cases (str_eq t.token_hash h)) [
  | inl clash ↦ absurd (ground arith)
  | inr other ↦ rw other (find_hash-append h ts s (rw other at free) own)
]

not_yet : (now at : ℤ) → now ≤ℤ at → ltb_ℤ at now ≡ false
not_yet now at h = ground arith

module _ (crypto : Crypto) (w : World) (username password token : String) (ttl now : ℤ) (u : User)
    (sound : (n : ℕ) → w.sql.fault n ≡ none) (known : find_name username w.users ≡ some u)
    (enabled : u.enabled ≡ true) (matches : crypto.matches u.password_hash password ≡ true)
    (drawn : crypto.new_token (suc w.sql.calls) ≡ ok token) (given : str_eq token "" ≡ false)
    (unique : find_user_id u.id w.users ≡ some u)
    (fresh : find_hash (crypto.hash token) w.sessions ≡ none)
    (early : now ≤ℤ w.sql.clock +ℤ effective_ttl ttl) where
  abbrev opened : Session
  opened = record {
    id = w.sql.new_id (suc w.sql.calls);
    user_id = u.id;
    token_hash = crypto.hash token;
    expires_at = w.sql.clock +ℤ effective_ttl ttl;
  }

  abbrev logged_in : World
  logged_in = record w {
    sql = record w.sql { calls = suc (suc w.sql.calls) };
    sessions = w.sessions ++ opened ∷ [];
  }

  -- The same world at the time of the request.
  abbrev pub later : World → World
  later v = record v { sql = record v.sql { clock = now } }

  login-opened : login crypto w username password ttl ≡ (logged_in, token, principal_of u "", none)
  unfolding login open_session
  login-opened =
      rw
        (
          sound w.sql.calls,
          login,
          known,
          enabled,
          matches,
          open_session,
          drawn,
          sound (suc w.sql.calls),
        )
        refl

  found-opened : find_session (later logged_in) (crypto.hash token) ≡ some (opened, u)
  unfolding find_session
  found-opened =
      rw (find_hash-append (crypto.hash token) w.sessions opened fresh refl, find_session, unique)
        refl

  admit-opened :
      admit crypto (tick (later logged_in)) (opened, u)
      ≡ (tick (tick (later logged_in)), principal_of u opened.id, none)
  unfolding admit
  admit-opened = rw (enabled, admit, not_yet now opened.expires_at early) refl

  authenticate-opened :
      authenticate crypto (later logged_in) token
      ≡ (tick (tick (later logged_in)), principal_of u opened.id, none)
  unfolding authenticate
  authenticate-opened =
      rw (given, authenticate, sound (suc (suc w.sql.calls)), found-opened) admit-opened

  -- If a login's user is found by the name and by the identifier, is enabled and matches the
  -- password, the token that is drawn is not empty and its hash is no session's yet, and no
  -- statement fails, then the login succeeds and its token is accepted until the lifetime is over,
  -- four hours if none is given, as the principal that the login returned with the new session.
  pub authenticate-login :
      let (w', t, p, err) = login crypto w username password ttl in
      (err ≡ none)
      × ((authenticate crypto (later w') t).2 ≡ none)
      × ((authenticate crypto (later w') t).1
          ≡ record p { session_id = w.sql.new_id (suc w.sql.calls) })
  authenticate-login =
      rw login-opened (refl, ap (λ r. r.2) authenticate-opened, ap (λ r. r.1) authenticate-opened)
