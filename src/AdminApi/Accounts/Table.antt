-- ===== src/AdminApi/Accounts/Table.antt =====
-- The statements of internal/adminapi/accounts_write.go.
use digital_ocean_bot.Prelude.{
  suc, String, Bool, Option, none, some, List, [], ◌∷◌, ◌++◌, str_eq, if◌then◌else◌,
}
use digital_ocean_bot.Prelude.Int.{ℤ}
use digital_ocean_bot.AdminApi.Accounts.{AccountWrite, fallback_of}
use digital_ocean_bot.Errors.{Error}
use digital_ocean_bot.Sql.{Sql, Result, ok, fail}

-- A row of accounts, by the columns that the handler writes.
pub record Account : Type 0 where
  pub id : String
  pub external_id : String
  pub name : String
  pub email : String
  pub preferred_region : String
  pub interval_seconds : ℤ
  pub batch_size : ℤ
  pub max_concurrent : ℤ
  pub lifetime_seconds : ℤ
  pub desired_server_count : ℤ
  pub fallback_any_region : Bool
  pub build_spacing_minutes : ℤ
  pub build_spacing_max_minutes : ℤ
  pub preferred_regions : List String
  pub preferred_sizes : List String
  pub preferred_images : List String
  pub lifetime_min_seconds : ℤ
  pub lifetime_max_seconds : ℤ
  pub login_email : String

pub record World : Type 0 where
  pub sql : Sql
  pub accounts : List Account
  -- network_profiles: the mode and the proxy of an account
  pub network_profiles : List (String × String × String)

abbrev pub exec : World → (World → World) → World × Option Error
exec w effect =
    let w1 = record w { sql = record w.sql { calls = suc w.sql.calls } } in
    elim (w.sql.fault w.sql.calls) [ some e ↦ (w1, some e) | none ↦ (effect w1, none) ]

-- What the INSERT gives a row, new or in conflict.
abbrev pub set_columns : AccountWrite → Account → Account
set_columns x a = record a {
  name = x.name;
  email = x.email;
  preferred_region = x.region;
  interval_seconds = x.interval_seconds;
  batch_size = x.batch_size;
  max_concurrent = x.max_concurrent;
  lifetime_seconds = x.lifetime_seconds;
  desired_server_count = x.desired_server_count;
  fallback_any_region = fallback_of x;
}

abbrev pub new_account : String → AccountWrite → Account
new_account id x = record {
  id = id;
  external_id = x.external_id;
  name = x.name;
  email = x.email;
  preferred_region = x.region;
  interval_seconds = x.interval_seconds;
  batch_size = x.batch_size;
  max_concurrent = x.max_concurrent;
  lifetime_seconds = x.lifetime_seconds;
  desired_server_count = x.desired_server_count;
  fallback_any_region = fallback_of x;
  build_spacing_minutes = x.build_spacing_minutes;
  build_spacing_max_minutes = x.build_spacing_max_minutes;
  preferred_regions = [];
  preferred_sizes = [];
  preferred_images = [];
  lifetime_min_seconds = x.lifetime_seconds;
  lifetime_max_seconds = x.lifetime_seconds;
  login_email = "";
}

unfoldable pub update_account : String → (Account → Account) → List Account → List Account
update_account id f [] = []
update_account id f (a ∷ rows) = (if str_eq a.id id then f a else a) ∷ update_account id f rows

-- DELETE FROM accounts WHERE id=$1
unfoldable pub delete_account : String → List Account → List Account
delete_account id [] = []
delete_account id (a ∷ rows) = (if str_eq a.id id then [] else a ∷ []) ++ delete_account id rows

-- The account in conflict on (provider,external_id).
unfoldable pub find_external : String → List Account → Option Account
find_external x [] = none
find_external x (a ∷ rows) =
    let rest = find_external x rows in if str_eq a.external_id x then some a else rest

abbrev pub on_accounts : (List Account → List Account) → World → World
on_accounts f w = record w { accounts = f w.accounts }

-- RETURNING id
abbrev pub returning : String → World × Option Error → World × Result String
returning id (w, some e) = (w, fail e)
returning id (w, none) = (w, ok id)

-- INSERT ... ON CONFLICT (provider,external_id) DO UPDATE ... RETURNING id
unfoldable pub upsert : World → AccountWrite → World × Result String
unfolding update_account find_external
upsert w x =
    let id = w.sql.new_id w.sql.calls in
    elim (find_external x.external_id w.accounts) [
      | some a ↦ returning a.id (exec w (on_accounts (update_account a.id (set_columns x))))
      | none ↦ returning id (exec w (on_accounts (λ rows. rows ++ new_account id x ∷ [])))
    ]

abbrev pub set_preferences : AccountWrite → Account → Account
set_preferences x a = record a {
  preferred_regions = x.regions;
  preferred_sizes = x.sizes;
  preferred_images = x.images;
  lifetime_min_seconds = x.lifetime_min_seconds;
  lifetime_max_seconds = x.lifetime_max_seconds;
  build_spacing_minutes = x.build_spacing_minutes;
  build_spacing_max_minutes = x.build_spacing_max_minutes;
}

-- The clean-up of a creation that fails; its own error is dropped.
unfoldable pub clean_up : World → String → World
unfolding delete_account
clean_up w id = (exec w (on_accounts (delete_account id))).0

-- INSERT INTO network_profiles ... ON CONFLICT (account_id) DO UPDATE
unfoldable pub set_profile :
    String → String → String → List (String × String × String) → List (String × String × String)
set_profile id mode proxy [] = (id, mode, proxy) ∷ []
set_profile id mode proxy ((a, m, p) ∷ rows) =
    let rest = set_profile id mode proxy rows in
    if str_eq a id then (id, mode, proxy) ∷ rows else (a, m, p) ∷ rest
