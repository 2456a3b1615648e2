-- ===== src/AdminApi/Accounts/Lost.antt =====
-- A creation that fails takes an account with it that was there before.
use digital_ocean_bot.Prelude.{
  ℕ, suc, String, ◌≡◌, refl, ap, ◌∙◌, subst, inl, inr, Bool, true, false, ◌||◌, none, some, List,
  [], ◌∷◌, arith, eq_refl, str_eq, Bool-cases,
}
use digital_ocean_bot.Errors.{Error}
use digital_ocean_bot.Sql.{ok}
use digital_ocean_bot.AdminApi.Accounts.{AccountWrite}
use digital_ocean_bot.AdminApi.Accounts.Table.{
  returning, Account, World, exec, upsert, update_account, delete_account, find_external,
  on_accounts, set_preferences, set_columns, clean_up,
}
use digital_ocean_bot.AdminApi.Accounts.Create.{
  on_error, Env, answer, store_account, add_login, add_token,
}

unfoldable pub has_account : String → List Account → Bool
has_account id [] = false
has_account id (a ∷ rows) = str_eq a.id id || has_account id rows

has_account-delete_account :
    (id : String) (rows : List Account) → has_account id (delete_account id rows) ≡ false
unfolding has_account delete_account
has_account-delete_account id [] = refl
has_account-delete_account id (a ∷ rows) = elim (Bool-cases (str_eq a.id id)) [
  | inl own ↦ rw own (has_account-delete_account id rows)
  | inr other ↦ rw (other, other) (has_account-delete_account id rows)
]

has_account-find_external :
    (x : String) (rows : List Account) (a : Account)
    → find_external x rows ≡ some a
    → has_account a.id rows ≡ true
unfolding has_account find_external
has_account-find_external x [] a h = absurd (ground arith)
has_account-find_external x (b ∷ rows) a h = elim (Bool-cases (str_eq b.external_id x)) [
  | inl hit ↦
      let here : some b ≡ some a = rw hit at h in
      let same : b ≡ a = cc in
      subst (λ k. (str_eq b.id k.id || has_account k.id rows) ≡ true) (same)
        (rw (eq_refl b.id) refl)
  | inr miss ↦ ground (arith, has_account-find_external x rows a (rw miss at h))
]

exec_sound :
    (w : World) (f : World → World)
    → w.sql.fault w.sql.calls ≡ none
    → exec w f ≡ (f (record w { sql = record w.sql { calls = suc w.sql.calls } }), none)
exec_sound w f sent = rw (sent, exec) refl

module _ (env : Env) (w : World) (x : AccountWrite) (a : Account) (e : Error)
    (found : find_external x.external_id w.accounts ≡ some a)
    (sound : (n : ℕ) → w.sql.fault n ≡ none) (no_login : str_eq x.login_email "" ≡ true)
    (broken : (v : World) → env.put_secret v a.id "do-token" ≡ (v, some e)) where
  -- The worlds after the INSERT and after the UPDATE of the preferences.
  abbrev inserted : World
  inserted = record w {
    sql = record w.sql { calls = suc w.sql.calls };
    accounts = update_account a.id (set_columns x) w.accounts;
  }

  abbrev preferred : World
  preferred = record inserted {
    sql = record w.sql { calls = suc (suc w.sql.calls) };
    accounts = update_account a.id (set_preferences x) inserted.accounts;
  }

  upsert-conflict : upsert w x ≡ (inserted, ok a.id)
  unfolding upsert
  upsert-conflict =
      rw (found, upsert)
        (ap (returning a.id)
          (exec_sound w (on_accounts (update_account a.id (set_columns x))) (sound w.sql.calls)))

  store_account-preferred : store_account env w x ≡ add_login env preferred x a.id
  unfolding store_account
  store_account-preferred =
      rw (upsert-conflict, store_account)
        (ap
          (λ r.
            on_error r (λ u. (clean_up u a.id, answer 500 "account_preferences_failed"))
              (λ u. add_login env u x a.id))
          (exec_sound inserted (on_accounts (update_account a.id (set_preferences x)))
            (sound (suc w.sql.calls))))

  add_login-broken :
      add_login env preferred x a.id ≡ (clean_up preferred a.id, answer 500 "secret_store_failed")
  unfolding add_login add_token
  add_login-broken = rw (no_login, add_login, add_token, broken preferred) refl

  clean_up-accounts : (clean_up preferred a.id).accounts ≡ delete_account a.id preferred.accounts
  unfolding clean_up
  clean_up-accounts = rw (sound (suc (suc w.sql.calls)), clean_up) refl

  -- If an account is created again under an external identifier that an account has, without login
  -- credentials, all statements succeed and the store of secrets refuses the token, then the
  -- clean-up removes the account that was there before, and the answer is secret_store_failed.
  pub store_account-lost :
      (has_account a.id w.accounts ≡ true)
      × (has_account a.id (store_account env w x).0.accounts ≡ false)
      × ((store_account env w x).1 ≡ answer 500 "secret_store_failed")
  store_account-lost =
      let whole = store_account-preferred ∙ add_login-broken in
      (
        has_account-find_external x.external_id w.accounts a found,
        ap (λ r. has_account a.id r.0.accounts) whole
            ∙ ap (has_account a.id) clean_up-accounts
            ∙ has_account-delete_account a.id preferred.accounts,
        ap (λ r. r.1) whole,
      )
