-- ===== src/AdminApi/Proxies.antt =====
-- internal/adminapi/proxies_write.go: a proxy is created, and assigned to an account.
pub mod Created
pub mod Assigned
use digital_ocean_bot.Prelude.{
  ℕ, zero, suc, ◌+◌, ◌-◌, ◌*◌, ◌/◌, ◌%◌, ◌^◌, ◌≤◌, ◌<◌, min, max, String, ◌≡◌, refl, sym, ap, ◌∙◌,
  subst, ◌≢◌, ◌↔◌, ◌⊎◌, inl, inr, Bool, true, false, ◌&&◌, ◌||◌, not, Option, none, some, List, [],
  ◌∷◌, ◌++◌, map, arith, eq_iff, eq_refl, str_eq, dec_lt, ltb, leb, ◌==◌, if◌then◌else◌, Bool-cases,
  Option-cases, length, get_elem?, take, drop, length-append,
}
use digital_ocean_bot.Prelude.Int.{
  ℤ, pos, negsuc, pos_part, neg_part, ◌+ℤ◌, ◌-ℤ◌, ◌≤ℤ◌, ltb_ℤ, leb_ℤ, wrap64, int_laws,
}
use digital_ocean_bot.Prelude.{
  ℕ, zero, suc, ◌+◌, ◌-◌, ◌*◌, ◌/◌, ◌%◌, ◌^◌, ◌≤◌, ◌<◌, min, max, String, ◌≡◌, refl, sym, ap, ◌∙◌,
  subst, ◌≢◌, ◌↔◌, ◌⊎◌, inl, inr, Bool, true, false, ◌&&◌, ◌||◌, not, Option, none, some, List, [],
  ◌∷◌, ◌++◌, map, arith, eq_iff, eq_refl, str_eq, dec_lt, ltb, leb, ◌==◌, if◌then◌else◌, Bool-cases,
  Option-cases, length, get_elem?, take, drop, length-append,
}
use digital_ocean_bot.Prelude.Int.{
  ℤ, pos, negsuc, pos_part, neg_part, ◌+ℤ◌, ◌-ℤ◌, ◌≤ℤ◌, ltb_ℤ, leb_ℤ, wrap64, int_laws,
}
use digital_ocean_bot.Errors.{Error, unique_violation}
use digital_ocean_bot.Sql.{Sql, statement, Result, ok, fail, scan_row}
use digital_ocean_bot.Text.{trim_space}
use digital_ocean_bot.Auth.{Role, admin}
use digital_ocean_bot.AdminApi.Accounts.Create.{Answer, answer}

pub record ProxyWrite : Type 0 where
  pub name : String
  pub host : String
  pub port : ℤ
  pub username : String
  pub password : String
  pub kind : String
  pub adapter : String

-- A row of proxies, without its counters and times.
pub record Proxy : Type 0 where
  pub id : String
  pub name : String
  pub kind : String
  pub host : String
  pub port : ℤ
  pub username : String
  pub secret_ref : String
  pub status : String
  pub adapter : String

-- A row of network_profiles; none for NULL.
pub record NetworkProfile : Type 0 where
  pub account_id : String
  pub mode : String
  pub proxy_id : Option String

pub record World : Type 0 where
  pub sql : Sql
  pub proxies : List Proxy
  pub profiles : List NetworkProfile
  -- the proxies of which the store of secrets has a password
  pub secrets : List String

-- The detection over the wanted types, none for all of them, and the store of secrets.
pub record Env : Type 0 where
  pub detect : World → ProxyWrite → Option String → Result String
  pub put_secret : World → String → String → World × Option Error
  pub delete_secret : World → String → World

unfoldable pub valid_proxy_write : ProxyWrite → Bool
valid_proxy_write x =
    not (str_eq (trim_space x.name) "")
    && not (str_eq (trim_space x.host) "")
    && ltb_ℤ (pos 0) x.port
    && leb_ℤ x.port (pos 65535)
    && (str_eq x.adapter "" || str_eq x.adapter "generic" || str_eq x.adapter "suffix-session")

unfoldable pub resolve_proxy_type : Env → World → ProxyWrite → Result String
resolve_proxy_type env w x =
    if str_eq x.kind "" || str_eq x.kind "auto"
    then env.detect w x none
    else env.detect w x (some x.kind)

unfoldable pub has_proxy : String → List Proxy → Bool
has_proxy id [] = false
has_proxy id (x ∷ xs) = str_eq x.id id || has_proxy id xs

unfoldable pub find_proxy : String → List Proxy → Option Proxy
find_proxy id [] = none
find_proxy id (x ∷ xs) = let rest = find_proxy id xs in if str_eq x.id id then some x else rest

unfoldable pub change_proxy : String → (Proxy → Proxy) → List Proxy → List Proxy
change_proxy id f [] = []
change_proxy id f (x ∷ xs) = (if str_eq x.id id then f x else x) ∷ change_proxy id f xs

unfoldable pub remove_proxy : String → List Proxy → List Proxy
remove_proxy id [] = []
remove_proxy id (x ∷ xs) =
    let rest = remove_proxy id xs in if str_eq x.id id then rest else x ∷ rest

-- One statement that changes the proxies, unless it is lost.
abbrev pub applied : World → (List Proxy → List Proxy) → Option Error → World × Option Error
applied w effect (some e) = (w, some e)
applied w effect none = (record w { proxies = effect w.proxies }, none)

abbrev pub on_proxies : World → (List Proxy → List Proxy) → World × Option Error
on_proxies w effect = let (s, lost) = statement w.sql in applied (record w { sql = s }) effect lost

abbrev pub new_proxy : String → ProxyWrite → String → Proxy
new_proxy id x kind = record {
  id = id;
  name = x.name;
  kind = kind;
  host = x.host;
  port = x.port;
  username = x.username;
  secret_ref = "";
  status = "unknown";
  adapter = if str_eq x.adapter "" then "generic" else x.adapter;
}

-- The row of the INSERT, unless it is lost or the identifier is taken.
abbrev pub inserted : World → Proxy → Option Error → World × Result String
inserted w x (some e) = (w, fail e)
inserted w x none =
    if has_proxy x.id w.proxies
    then (w, fail unique_violation)
    else (record w { proxies = w.proxies ++ x ∷ [] }, ok x.id)

-- `INSERT INTO proxies ... RETURNING id::text`
abbrev pub insert_proxy : World → ProxyWrite → String → World × Result String
insert_proxy w x kind =
    let (s, lost) = statement w.sql in
    inserted (record w { sql = s }) (new_proxy (w.sql.new_id w.sql.calls) x kind) lost

-- The handler's cleanup, whose error is dropped.
unfoldable pub clean_up : World → String → World
clean_up w id = (on_proxies w (remove_proxy id)).0

module _ (env : Env) where
  -- The last statement: the proxy counts as healthy, as it was just detected.
  unfoldable pub mark_healthy : World → String → World × Answer
  mark_healthy w id =
      let (w1, err) = on_proxies w (change_proxy id (λ x. record x { status = "healthy" })) in
      elim err [
        | some e ↦ (clean_up (env.delete_secret w1 id) id, answer 500 "internal_error")
        | none ↦ (w1, answer 201 "")
      ]

  unfoldable pub refer_secret : World → String → World × Answer
  refer_secret w id =
      let (w1, err) =
        on_proxies w (change_proxy id (λ x. record x { secret_ref = "proxy-password" })) in
      elim err [
        | some e ↦ (clean_up (env.delete_secret w1 id) id, answer 500 "internal_error")
        | none ↦ mark_healthy w1 id
      ]

  unfoldable pub store_password : World → ProxyWrite → String → World × Answer
  store_password w x id =
      let (w1, err) = env.put_secret w id x.password in
      elim err [
        | some e ↦ (clean_up w1 id, answer 500 "internal_error")
        | none ↦ refer_secret w1 id
      ]

  unfoldable pub insert_and_store : World → ProxyWrite → String → World × Answer
  insert_and_store w x kind =
      let (w1, inserted) = insert_proxy w x kind in
      elim inserted [
        | fail e ↦ (w1, answer 409 "internal_error")
        | ok id ↦ if str_eq x.password "" then mark_healthy w1 id else store_password w1 x id
      ]

  -- createProxy; `x` is none if the body does not decode
  unfoldable pub create_proxy : World → Role → Option ProxyWrite → World × Answer
  create_proxy w admin none = (w, answer 400 "invalid_request")
  create_proxy w admin (some x) =
      if not (valid_proxy_write x)
      then (w, answer 400 "invalid_request")
      else elim (resolve_proxy_type env w x) [
        | fail e ↦ (w, answer 422 "proxy_detection_failed")
        | ok kind ↦ insert_and_store w x kind
      ]
  create_proxy w _ x = (w, answer 403 "forbidden")

unfoldable pub set_route : String → String → String → List NetworkProfile → List NetworkProfile
set_route account mode proxy [] = []
set_route account mode proxy (n ∷ ns) =
    (if str_eq n.account_id account
      then record n { mode = mode; proxy_id = if str_eq mode "direct" then none else some proxy }
      else n)
    ∷ set_route account mode proxy ns

unfoldable pub profiles_of : String → List NetworkProfile → ℕ
profiles_of account [] = 0
profiles_of account (n ∷ ns) =
    (if str_eq n.account_id account then 1 else 0) + profiles_of account ns

-- The database's cast of a text to a uuid, which the parameters of the UPDATE need.
module _ (is_uuid : String → Bool) where
  unfoldable pub route_account : World → String → String → String → World × Answer
  route_account w account mode proxy =
      let (s, lost) = statement w.sql in
      let w1 = record w { sql = s } in
      elim lost [
        | some e ↦ (w1, answer 409 "internal_error")
        | none ↦
            if not (is_uuid account && is_uuid proxy) then (w1, answer 409 "internal_error") else (
              record w1 { profiles = set_route account mode proxy w.profiles },
              if profiles_of account w.profiles == 0
                  then answer 404 "account_not_found"
                  else answer 204 "",
            )
      ]

  -- The proxy's status is read first.
  unfoldable pub route_by_proxy : World → String → String → World × Answer
  route_by_proxy w account proxy =
      let (s, lost) = statement w.sql in
      let w1 = record w { sql = s } in
      elim (scan_row lost (find_proxy proxy w.proxies)) [
        | fail e ↦ (w1, answer 400 "proxy_not_found")
        | ok p ↦
            if str_eq p.status "healthy"
            then route_account w1 account "proxy_required" proxy
            else (w1, answer 409 "proxy_not_healthy")
      ]

  -- assignProxy; the body's proxy and mode are none if it does not decode
  unfoldable pub assign_proxy : World → Role → String → Option (String × String) → World × Answer
  assign_proxy w admin account none = (w, answer 400 "invalid_request")
  assign_proxy w admin account (some (proxy, mode)) =
      if str_eq mode "direct"
      then route_account w account mode proxy
      else if not (str_eq mode "proxy_required")
      then (w, answer 400 "invalid_mode")
      else if str_eq proxy ""
      then (w, answer 400 "proxy_not_found")
      else route_by_proxy w account proxy
  assign_proxy w _ account x = (w, answer 403 "forbidden")
