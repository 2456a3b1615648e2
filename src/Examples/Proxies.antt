-- ===== src/Examples/Proxies.antt =====
-- Two requests to the administration of proxies.
use digital_ocean_bot.Prelude.{refl, not, none, some, [], ◌∷◌, str_eq}
use digital_ocean_bot.Prelude.Int.{pos}
use digital_ocean_bot.Sql.{ok}
use digital_ocean_bot.Auth.{admin}
use digital_ocean_bot.AdminApi.Proxies.{ProxyWrite, World, Env, create_proxy, assign_proxy}
use digital_ocean_bot.AdminApi.Proxies.Created.{Apart, Outcome, create_proxy-Outcome}
use digital_ocean_bot.AdminApi.Proxies.Assigned.{Routed, assign_proxy-Routed}
use digital_ocean_bot.Examples.Jobs.{flaky}

abbrev wanted : ProxyWrite
wanted = record {
  name = "exit";
  host = "192.0.2.1";
  port = pos 8080;
  username = "u";
  password = "secret";
  kind = "auto";
  adapter = "";
}

abbrev env : Env
env = record {
  detect = λ w x kind. ok "socks5";
  put_secret = λ w id password. (record w { secrets = id ∷ w.secrets }, none);
  delete_secret = λ w id. record w { secrets = [] };
}

abbrev env-Apart : Apart env
env-Apart = record { put = λ w id password. refl; delete = λ w id. refl }

-- Its second statement is lost.
abbrev world : World
world = record {
  sql = flaky;
  proxies = [];
  profiles = record { account_id = "a"; mode = "proxy_required"; proxy_id = some "p" } ∷ [];
  secrets = [];
}

create_proxy-Outcome_example : Outcome [] (create_proxy env world admin (some wanted))
create_proxy-Outcome_example = create_proxy-Outcome env env-Apart world admin (some wanted)

assign_proxy-Routed_example :
    Routed
      (λ s. not (str_eq s ""))
      world
      ""
      "direct"
      (assign_proxy (λ s. not (str_eq s "")) world admin "a" (some ("", "direct")))
assign_proxy-Routed_example =
    assign_proxy-Routed (λ s. not (str_eq s "")) world admin "a" "" "direct"
