-- ===== src/Auth.antt =====
-- internal/auth and the middleware of internal/adminapi/auth.go: who may use the administration.
pub mod Access
pub mod Login
use digital_ocean_bot.Prelude.{
  ℕ, zero, suc, ◌+◌, ◌-◌, ◌*◌, ◌/◌, ◌%◌, ◌^◌, ◌≤◌, ◌<◌, min, max, String, ◌≡◌, refl, sym, ap, ◌∙◌,
  subst, ◌≢◌, ◌↔◌, ◌⊎◌, inl, inr, Bool, true, false, ◌&&◌, ◌||◌, not, Option, none, some, List, [],
  ◌∷◌, ◌++◌, map, arith, eq_iff, eq_refl, str_eq, dec_lt, ltb, leb, ◌==◌, if◌then◌else◌, Bool-cases,
  Option-cases, length, get_elem?, take, drop, length-append,
}
use digital_ocean_bot.Prelude.Int.{
  ℤ, pos, negsuc, pos_part, neg_part, ◌+ℤ◌, ◌-ℤ◌, ◌≤ℤ◌, ltb_ℤ, leb_ℤ, wrap64, int_laws,
}
use digital_ocean_bot.Errors.{Error, invalid_credentials, unauthorized}
use digital_ocean_bot.Sql.{Sql, Result, ok, fail, scan_row}

pub data Role : Type 0 where
  admin operator viewer : Role
  other_role : String → Role

pub record User : Type 0 where
  pub id : String
  pub username : String
  pub password_hash : String
  pub role : Role
  pub enabled : Bool

pub record Session : Type 0 where
  pub id : String
  pub user_id : String
  pub token_hash : String
  pub expires_at : ℤ

pub record Principal : Type 0 where
  pub user_id : String
  pub username : String
  pub role : Role
  pub session_id : String

-- Principal.CanWrite and Principal.CanAdmin, by the role
unfoldable pub can_write : Role → Bool
can_write admin = true
can_write operator = true
can_write _ = false

unfoldable pub can_admin : Role → Bool
can_admin admin = true
can_admin _ = false

-- admin_users and admin_sessions
pub record World : Type 0 where
  pub sql : Sql
  pub users : List User
  pub sessions : List Session

-- bcrypt, SHA-256 and the random token, by the number of the statements sent before.
pub record Crypto : Type 0 where
  pub matches : (password_hash password : String) → Bool
  pub hash : String → String
  pub new_token : ℕ → Result String

abbrev pub no_principal : Principal
no_principal = record { user_id = ""; username = ""; role = other_role ""; session_id = "" }

abbrev pub principal_of : User → String → Principal
principal_of u session_id = record {
  user_id = u.id;
  username = u.username;
  role = u.role;
  session_id = session_id;
}

abbrev pub tick : World → World
tick w = record w { sql = record w.sql { calls = suc w.sql.calls } }

abbrev pub fault : World → Option Error
fault w = w.sql.fault w.sql.calls

unfoldable pub find_name : String → List User → Option User
find_name name [] = none
find_name name (u ∷ us) =
    let rest = find_name name us in if str_eq u.username name then some u else rest

unfoldable pub find_user_id : String → List User → Option User
find_user_id id [] = none
find_user_id id (u ∷ us) = let rest = find_user_id id us in if str_eq u.id id then some u else rest

unfoldable pub find_hash : String → List Session → Option Session
find_hash h [] = none
find_hash h (s ∷ ss) = let rest = find_hash h ss in if str_eq s.token_hash h then some s else rest

-- admin_sessions s JOIN admin_users u ON u.id=s.user_id WHERE s.token_hash=$1
unfoldable pub find_session : World → String → Option (Session × User)
unfolding find_hash find_user_id
find_session w h = elim (find_hash h w.sessions) [
  | none ↦ none
  | some s ↦ elim (find_user_id s.user_id w.users) [ none ↦ none | some u ↦ some (s, u) ]
]

unfoldable pub delete_session : String → List Session → List Session
delete_session id [] = []
delete_session id (s ∷ ss) = (if str_eq s.id id then [] else s ∷ []) ++ delete_session id ss

-- `ttl <= 0` is four hours
abbrev pub effective_ttl : ℤ → ℤ
effective_ttl ttl = if leb_ℤ ttl (pos 0) then pos 14400000000000 else ttl

-- What the middleware makes of the answer of Authenticate.
abbrev pub let_in : Bool → World × Principal × Option Error → World × (Principal ⊎ ℕ)
let_in write (w, p, some e) = (w, inr 401)
let_in write (w, p, none) = if write && not (can_write p.role) then (w, inr 403) else (w, inl p)

module _ (crypto : Crypto) where
  -- A token for a user whose password matched.
  unfoldable pub open_session : World → User → ℤ → World × String × Principal × Option Error
  unfolding ◌+ℤ◌
  open_session w u ttl = elim (crypto.new_token w.sql.calls) [
    | fail e ↦ (w, "", no_principal, some e)
    | ok token ↦
        let session : Session = record {
          id = w.sql.new_id w.sql.calls;
          user_id = u.id;
          token_hash = crypto.hash token;
          expires_at = w.sql.clock +ℤ effective_ttl ttl;
        } in
        elim (fault w) [
          | some e ↦ (tick w, "", no_principal, some e)
          | none ↦ (
            record (tick w) { sessions = w.sessions ++ session ∷ [] },
            token,
            principal_of u "",
            none,
          )
        ]
  ]

  -- Service.Login
  unfoldable pub login : World → String → String → ℤ → World × String × Principal × Option Error
  unfolding open_session find_name
  login w username password ttl = elim (scan_row (fault w) (find_name username w.users)) [
    | fail e ↦ (tick w, "", no_principal, some invalid_credentials)
    | ok u ↦
        if not u.enabled || not (crypto.matches u.password_hash password)
        then (tick w, "", no_principal, some invalid_credentials)
        else open_session (tick w) u ttl
  ]

  -- The session is found: the second statement notes that it was seen, and may fail.
  unfoldable pub admit : World → Session × User → World × Principal × Option Error
  admit w (s, u) =
      if not u.enabled || ltb_ℤ s.expires_at w.sql.clock
      then (tick w, no_principal, some unauthorized)
      else (tick w, principal_of u s.id, none)

  -- Service.Authenticate
  unfoldable pub authenticate : World → String → World × Principal × Option Error
  unfolding find_session admit
  authenticate w token =
      if str_eq token ""
      then (w, no_principal, some unauthorized)
      else elim (scan_row (fault w) (find_session w (crypto.hash token))) [
        | fail e ↦ (tick w, no_principal, some unauthorized)
        | ok found ↦ admit (tick w) found
      ]

  -- Server.require: the principal that the handler is called with, or the status of the refusal.
  unfoldable pub require : World → String → Bool → World × (Principal ⊎ ℕ)
  unfolding authenticate can_write
  require w token write = let_in write (authenticate w token)

  -- Server.logout, for a principal
  unfoldable pub logout : World → Principal → World
  unfolding delete_session
  logout w p = elim (fault w) [
    | some e ↦ tick w
    | none ↦ record (tick w) { sessions = delete_session p.session_id w.sessions }
  ]
