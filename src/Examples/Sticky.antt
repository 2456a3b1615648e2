-- ===== src/Examples/Sticky.antt =====
-- Two accounts behind one provider of addresses with sessions.
use digital_ocean_bot.Prelude.{
  ℕ, String, ◌≡◌, refl, true, false, ◌||◌, none, some, List, [], ◌∷◌, arith, str_eq, if◌then◌else◌,
}
use digital_ocean_bot.Prelude.Int.{pos}
use digital_ocean_bot.Sql.{Sql, ok}
use digital_ocean_bot.Text.{codes}
use digital_ocean_bot.Network.{proxy_required, healthy, socks5}
use digital_ocean_bot.App.Proxy.{suffix_session, SessionRequest, username}
use digital_ocean_bot.App.Proxy.Username.{ends_in_underscore, username-username}
use digital_ocean_bot.App.Repository.{
  ProxyRow, AccountRow, Identity, World, account, with_proxy, proxy_of_row, find_identity,
}
use digital_ocean_bot.App.Sticky.Observe.{observe_sticky_geo, Net}
use digital_ocean_bot.App.Sticky.Rows.{
  taken, update_identity, fresh_identity, clear_sticky, upsert_identity,
}
use digital_ocean_bot.App.Sticky.Config.{Sticky}
use digital_ocean_bot.App.Sticky.Rotate.{
  search_address, judge_candidate, country_refused, accept, recover_address, window_over,
}
use digital_ocean_bot.App.Sticky.Maintain.{maintain, clear_if_generic}
use digital_ocean_bot.App.Sticky.Steps.{store_address}
use digital_ocean_bot.Network.Route.{new_proxy_gateway}
use digital_ocean_bot.App.Sticky.Isolation.{IsIsolated, upsert-IsIsolated}
use digital_ocean_bot.App.Sticky.Isolation.Whole.{maintain-IsIsolated}
use digital_ocean_bot.App.Sticky.Accept.{Accepted, recover_address-Accepted}
use digital_ocean_bot.App.Sticky.Collided.{maintain-collision}

abbrev proxy : ProxyRow
proxy = record {
  id = "p";
  kind = socks5;
  host = "gw.example";
  port = pos 824;
  secret_ref = "";
  username = codes "user";
  status = healthy;
  exit_ip = "";
  country = "Venezuela";
  adapter = "suffix-session";
}

abbrev row_a : AccountRow
row_a = record {
  id = "a";
  provider = "digitalocean";
  secret_ref = "s";
  enabled = true;
  mode = proxy_required;
  proxy = some proxy;
}

-- Every user gets one address of Venezuela.
abbrev net : Net
net = record {
  host = λ s. s;
  subnet = λ s. "190.0.0.0/24";
  valid_ip = λ s. true;
  territory_locale = λ s. "es-VE";
  ask_geo = λ t user. ok (record {
    status = 200;
    body = some (record {
      ip = "190.0.0.7";
      country = "Venezuela";
      country_code = "VE";
      timezone_id = "America/Caracas";
      asn = pos 8048;
      org = "CANTV";
    });
  });
  ask_ip = λ t user. ok (record { status = 200; body = some "190.0.0.7" }) ∷ [];
  get_proxy_secret = λ t p ref. none;
}

abbrev sql : Sql
sql = record { calls = 0; fault = λ n. none; new_id = λ n. "5e551011"; clock = pos 1000 }

abbrev world : List Identity → World
world rows = record {
  sql = sql;
  accounts = λ id. if str_eq id "a" || str_eq id "b" then some (record row_a { id = id }) else none;
  identities = rows;
  status = λ id. record { status = "READY"; detail = none };
  audits = λ id. none;
}

abbrev first : List Identity
first = upsert_identity "a" (fresh_identity "a") clear_sticky []

none-IsIsolated : IsIsolated []
unfolding IsIsolated find_identity
none-IsIsolated a b i j found_i found_j apart = absurd (ground arith)

first-IsIsolated : IsIsolated first
first-IsIsolated =
    upsert-IsIsolated "a" (fresh_identity "a") clear_sticky [] refl refl (λ i. refl)
      (λ i. (refl, refl)) none-IsIsolated

maintain-IsIsolated_example : IsIsolated (maintain net (world first) "a").0.identities
maintain-IsIsolated_example = maintain-IsIsolated net (world first) "a" first-IsIsolated

abbrev sticky : Sticky
sticky = record {
  config = with_proxy row_a proxy (codes "user");
  session = codes "old";
  cc = "ve";
  country = "Venezuela";
  fallback = false;
  started = none;
}

recover_address-Accepted_example :
    Accepted net
      (world first)
      "a"
      sticky
      (recover_address net (world first) "a" (proxy_of_row proxy) sticky).0.identities
unfolding recover_address search_address new_proxy_gateway observe_sticky_geo judge_candidate
    country_refused window_over taken update_identity upsert_identity accept store_address
recover_address-Accepted_example =
    recover_address-Accepted net (world first) "a" (proxy_of_row proxy) sticky taken_over
  where
    taken_over : (recover_address net (world first) "a" (proxy_of_row proxy) sticky).1 ≡ none
    taken_over = refl

-- Two accounts on one address.
abbrev shared : String → Identity
shared id = record (fresh_identity id) {
  exit_ip = some "190.0.0.7";
  subnet_key = some "190.0.0.0/24";
}

abbrev collided : World
collided = world (shared "a" ∷ shared "b" ∷ [])

maintain-collision_example :
    (maintain net collided "a" ≡ ((account (clear_if_generic collided "a").0 "a").0, none))
    × ((maintain net collided "a").0.identities ≡ (clear_if_generic collided "a").0.identities)
unfolding clear_if_generic account
maintain-collision_example = maintain-collision net collided "a" refl refl

abbrev request : List ℕ → SessionRequest
request session = record {
  base_username = codes "user";
  country_code = codes "VE";
  session_id = session;
  target_country = true;
}

username-username_example :
    username suffix_session (record (request (codes "two")) {
      base_username = username suffix_session (request (codes "one"));
    })
    ≡ username suffix_session (request (codes "two"))
unfolding username ends_in_underscore
username-username_example =
    username-username suffix_session (request (codes "two")) (request (codes "one")) refl

decorated : username suffix_session (request (codes "one")) ≡ codes "user__cr.ve;sid.one"
unfolding username
decorated = refl
