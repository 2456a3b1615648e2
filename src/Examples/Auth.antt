-- ===== src/Examples/Auth.antt =====
-- An administration with one operator.
use digital_ocean_bot.Prelude.{◌≡◌, refl, true, none, [], ◌∷◌, arith, str_eq}
use digital_ocean_bot.Prelude.Int.{pos, ◌+ℤ◌}
use digital_ocean_bot.Sql.{Sql, ok}
use digital_ocean_bot.Auth.{
  World, User, Session, Crypto, operator, principal_of, login, authenticate, require, find_name,
  find_user_id, find_hash,
}
use digital_ocean_bot.Auth.Access.{Granted, require-Granted}
use digital_ocean_bot.Auth.Login.{authenticate-login}

abbrev user : User
user = record {
  id = "1";
  username = "op";
  password_hash = "secret";
  role = operator;
  enabled = true;
}

abbrev crypto : Crypto
crypto = record { matches = str_eq; hash = λ t. t; new_token = λ n. ok "token" }

abbrev sql : Sql
sql = record { calls = 0; fault = λ n. none; new_id = λ n. "s1"; clock = pos 100 }

abbrev session : Session
session = record { id = "s0"; user_id = "1"; token_hash = "old"; expires_at = pos 500 }

abbrev world : World
world = record { sql = sql; users = user ∷ []; sessions = session ∷ [] }

require-Granted_example : Granted crypto world "old" true (principal_of user "s0")
unfolding require
require-Granted_example = require-Granted crypto world "old" true (principal_of user "s0") refl

authenticate-login_example :
    let (w', t, p, err) = login crypto world "op" "secret" (pos 60) in
    (err ≡ none)
    × ((authenticate crypto (record w' { sql = record w'.sql { clock = pos 160 } }) t).2 ≡ none)
    × ((authenticate crypto (record w' { sql = record w'.sql { clock = pos 160 } }) t).1
        ≡ record p { session_id = "s1" })
unfolding find_name find_user_id find_hash ◌+ℤ◌
authenticate-login_example =
    authenticate-login crypto world "op" "secret" "token" (pos 60) (pos 160) user (λ n. refl) refl
      refl refl refl refl refl refl (omega arith)
