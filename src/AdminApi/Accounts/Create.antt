-- ===== src/AdminApi/Accounts/Create.antt =====
-- createAccount of internal/adminapi/accounts_write.go.
use digital_ocean_bot.AdminApi.Accounts.{
  Result, AccountWrite, normalize, is_incomplete, half_login, mode_of,
}
use digital_ocean_bot.Prelude.{
  ℕ, String, Bool, true, ◌&&◌, ◌||◌, not, Option, none, some, str_eq, if◌then◌else◌,
}
use digital_ocean_bot.AdminApi.Accounts.Table.{
  World, exec, upsert, update_account, on_accounts, set_preferences, clean_up, set_profile,
}
use digital_ocean_bot.Errors.{Error}
use digital_ocean_bot.Sql.{ok, fail}

-- What lies outside this file: a proxy's status, the store of secrets, whether the chosen proxy
-- collides with another account's identity, and syncAccountAutomation.
pub record Env : Type 0 where
  pub proxy_status : World → String → Option String
  pub put_secret : World → String → String → World × Option Error
  pub collides : World → String → String → Bool
  pub sync_automation : World → String → World × Option Error

-- The status of the answer, and the text of its error.
pub record Answer : Type 0 where
  pub status : ℕ
  pub error : String

abbrev pub answer : ℕ → String → Answer
answer status error = record { status = status; error = error }

-- `if err != nil { ... }` after a call that changes the world
abbrev pub on_error :
    World × Option Error → (World → World × Answer) → (World → World × Answer) → World × Answer
on_error (w, some e) bad good = bad w
on_error (w, none) bad good = good w

-- The same after the INSERT.
abbrev pub on_insert : World × Result String → (World → String → World × Answer) → World × Answer
on_insert (w, fail e) good = (w, answer 409 "account_insert_failed")
on_insert (w, ok id) good = good w id

module _ (env : Env) where
  -- The route and the automation, once the token is stored.
  unfoldable pub add_route : World → AccountWrite → String → World × Answer
  unfolding set_profile clean_up
  add_route w x id =
      if str_eq x.network_mode "proxy_required" && env.collides w id x.proxy_id
      then (w, answer 409 "network_identity_collision")
      else on_error
          (exec w (λ v. record v {
            network_profiles =
                set_profile id x.network_mode
                  (if str_eq x.network_mode "proxy_required" then x.proxy_id else "")
                  v.network_profiles;
          }))
          (λ v. (clean_up v id, answer 500 "network_profile_failed"))
          (λ v.
            on_error (env.sync_automation v id) (λ u. (u, answer 500 "automation_sync_failed"))
              (λ u. (u, answer 201 "")))

  unfoldable pub add_token : World → AccountWrite → String → World × Answer
  unfolding add_route clean_up
  add_token w x id =
      on_error (env.put_secret w id "do-token")
        (λ v. (clean_up v id, answer 500 "secret_store_failed")) (λ v. add_route v x id)

  unfoldable pub add_login : World → AccountWrite → String → World × Answer
  unfolding add_token update_account
  add_login w x id =
      if str_eq x.login_email ""
      then add_token w x id
      else on_error
          (exec w (on_accounts (update_account id (λ a. record a { login_email = x.login_email }))))
          (λ v. (v, answer 500 "login_credentials_save_failed"))
          (λ v.
            on_error (env.put_secret v id "do-login-password")
              (λ u. (u, answer 500 "login_password_store_failed")) (λ u. add_token u x id))

  unfoldable pub store_account : World → AccountWrite → World × Answer
  unfolding upsert add_login clean_up update_account
  store_account w x = on_insert (upsert w x) (λ v id.
      on_error (exec v (on_accounts (update_account id (set_preferences x))))
        (λ u. (clean_up u id, answer 500 "account_preferences_failed")) (λ u. add_login u x id))

  -- `x.ProxyID == "" || ... != nil || status != "healthy"`
  unfoldable pub proxy_refused : World → AccountWrite → Bool
  proxy_refused w x =
      str_eq (mode_of x) "proxy_required"
      && (str_eq x.proxy_id "" || (elim (env.proxy_status w x.proxy_id) [
        | none ↦ true
        | some s ↦ not (str_eq s "healthy")
      ]))

  -- createAccount: the request's JSON, none if it does not decode, and whether the user is an admin
  unfoldable pub create_account : World → Bool → Option AccountWrite → World × Answer
  unfolding is_incomplete half_login normalize store_account proxy_refused
  create_account w admin none =
      if not admin then (w, answer 403 "forbidden") else (w, answer 400 "invalid_request")
  create_account w admin (some x) =
      if not admin
      then (w, answer 403 "forbidden")
      else if is_incomplete x
      then (w, answer 400 "invalid_request")
      else if half_login x
      then (w, answer 400 "login_credentials_must_be_provided_together")
      else if not (str_eq (mode_of x) "direct") && not (str_eq (mode_of x) "proxy_required")
      then (w, answer 400 "invalid_network_mode")
      else if proxy_refused w x
      then (w, answer 409 "proxy_not_healthy")
      else store_account w (normalize x)
