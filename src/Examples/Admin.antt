-- ===== src/Examples/Admin.antt =====
-- An account that is created a second time while the store of secrets is broken.
use digital_ocean_bot.Prelude.{◌≡◌, refl, true, false, none, some, [], ◌∷◌}
use digital_ocean_bot.Prelude.Int.{pos}
use digital_ocean_bot.Errors.{other}
use digital_ocean_bot.Sql.{Sql}
use digital_ocean_bot.AdminApi.Accounts.{AccountWrite, normalize}
use digital_ocean_bot.AdminApi.Accounts.Bounds.{InBounds, normalize-InBounds}
use digital_ocean_bot.AdminApi.Accounts.Table.{Account, World, new_account, find_external}
use digital_ocean_bot.AdminApi.Accounts.Create.{Env, answer, store_account}
use digital_ocean_bot.AdminApi.Accounts.Lost.{has_account, store_account-lost}

abbrev request : AccountWrite
request = record {
  email = "";
  external_id = "42";
  images = "ubuntu" ∷ [];
  sizes = "s-1vcpu" ∷ [];
  region = "";
  regions = "ams3" ∷ "fra1" ∷ "lon1" ∷ "nyc1" ∷ "sfo3" ∷ "sgp1" ∷ [];
  network_mode = "";
  proxy_id = "";
  interval_seconds = pos 0;
  build_spacing_minutes = pos 0;
  build_spacing_max_minutes = pos 0;
  batch_size = pos 0;
  max_concurrent = pos 0;
  lifetime_seconds = pos 0;
  lifetime_min_seconds = pos 60;
  lifetime_max_seconds = pos 0;
  desired_server_count = pos 0;
  fallback_any_region = none;
  name = "main";
  token = "t";
  login_email = "";
  login_password = "";
}

normalize-InBounds_example : InBounds (normalize request)
normalize-InBounds_example = normalize-InBounds request

abbrev account : Account
account = new_account "1" request

abbrev sql : Sql
sql = record { calls = 0; fault = λ n. none; new_id = λ n. "2"; clock = pos 0 }

abbrev world : World
world = record { sql = sql; accounts = account ∷ []; network_profiles = ("1", "direct", "") ∷ [] }

abbrev broken : Env
broken = record {
  proxy_status = λ w id. none;
  put_secret = λ w id ref. (w, some (other "secret store"));
  collides = λ w id p. false;
  sync_automation = λ w id. (w, none);
}

store_account-lost_example :
    (has_account "1" world.accounts ≡ true)
    × (has_account "1" (store_account broken world request).0.accounts ≡ false)
    × ((store_account broken world request).1 ≡ answer 500 "secret_store_failed")
unfolding find_external
store_account-lost_example =
    store_account-lost broken world request account (other "secret store") refl (λ n. refl) refl
      (λ v. refl)
