-- ===== src/App/Repository.antt =====
-- internal/app/repository.go: an account's configuration, read from the tables that it joins.
use digital_ocean_bot.Prelude.{
  ℕ, suc, String, Bool, true, false, ◌&&◌, ◌||◌, not, Option, none, some, List, [], ◌∷◌, str_eq,
  if◌then◌else◌,
}
use digital_ocean_bot.Prelude.Int.{ℤ}
use digital_ocean_bot.Errors.{Error, account_disabled, network_identity_collision}
use digital_ocean_bot.Sql.{Sql, Result, ok, fail, scan_row}
use digital_ocean_bot.Text.{codes}
use digital_ocean_bot.Network
use digital_ocean_bot.Network.{RouteMode, other_mode, ProxyStatus, ProxyType, Profile}
use digital_ocean_bot.Network.Route.{is_proxy_required}
use digital_ocean_bot.App.Proxy.{capabilities, adapter_by_name, is_empty, session_username}

-- A row of proxies.
pub record ProxyRow : Type 0 where
  pub id : String
  pub kind : ProxyType
  pub host : String
  pub port : ℤ
  pub secret_ref : String
  pub username : List ℕ
  pub status : ProxyStatus
  pub exit_ip : String
  pub country : String
  pub adapter : String

-- A row of accounts, joined with its row of network_profiles and the proxy that this one names.
pub record AccountRow : Type 0 where
  pub id : String
  pub provider : String
  pub secret_ref : String
  pub enabled : Bool
  pub mode : RouteMode
  pub proxy : Option ProxyRow

-- A row of account_network_identities, without the times that no code reads to decide. An address
-- is kept by the text that host() gives for it.
pub record Identity : Type 0 where
  pub account_id : String
  pub exit_ip : Option String
  pub subnet_key : Option String
  pub country : Option String
  pub timezone : String
  pub locale : String
  pub asn : Option String
  pub sticky_session : Option (List ℕ)
  pub preferred_country : Option String
  pub preferred_country_code : Option String
  pub fallback_active : Bool
  pub rotation_started_at : Option ℤ
  pub last_health_ok : Option Bool

-- accounts.runtime_status and runtime_status_detail
pub record RuntimeStatus : Type 0 where
  pub status : String
  pub detail : Option String

pub record World : Type 0 where
  pub sql : Sql
  pub accounts : String → Option AccountRow
  pub identities : List Identity
  pub status : String → RuntimeStatus
  -- browser_audit_queue: the reason of the request, and the time before which it does not run
  pub audits : String → Option (String × ℤ)

abbrev pub tick : World → World
tick w = record w { sql = record w.sql { calls = suc w.sql.calls } }

-- The fault of the statement that is sent next.
abbrev pub fault : World → Option Error
fault w = w.sql.fault w.sql.calls

-- QueryRowContext(...).Scan(...), on what the tables hold.
abbrev pub query {ℓ} : {A : Type ℓ} → World → Option A → World × Result A
query w row = (tick w, scan_row (fault w) row)

abbrev pub run_unless : World → World → Option Error → World × Option Error
run_unless w w' (some e) = (w, some e)
run_unless w w' none = (w', none)

-- ExecContext: the statement's effect, unless it fails.
abbrev pub exec : World → (World → World) → World × Option Error
exec w effect = run_unless (tick w) (effect (tick w)) (fault w)

unfoldable pub find_identity : String → List Identity → Option Identity
find_identity id [] = none
find_identity id (i ∷ is) =
    let rest = find_identity id is in if str_eq i.account_id id then some i else rest

-- Two values of a column are equal; NULL is equal to nothing.
abbrev pub same_column : Option String → Option String → Bool
same_column (some a) (some b) = str_eq a b
same_column _ _ = false

abbrev pub text_of : Option String → String
text_of none = ""
text_of (some s) = s

-- `COALESCE(sticky_session,'')`
abbrev pub session_of : Option (List ℕ) → List ℕ
session_of none = []
session_of (some s) = s

abbrev pub is_none {ℓ} : {A : Type ℓ} → Option A → Bool
is_none none = true
is_none (some a) = false

-- Whether the network profile of an account is on a proxy.
abbrev pub proxied : (String → Option AccountRow) → String → Bool
proxied rows id = elim (rows id) [ none ↦ false | some a ↦ is_proxy_required a.mode ]

-- The condition of the query on `me` and one other row.
unfoldable pub clashes : (String → Option AccountRow) → Identity → Identity → Bool
clashes rows me other_i =
    not (str_eq other_i.account_id me.account_id)
    && proxied rows other_i.account_id
    && not (is_none me.exit_ip)
    && (same_column other_i.exit_ip me.exit_ip
        || not (str_eq (text_of me.subnet_key) "") && same_column other_i.subnet_key me.subnet_key)

unfoldable pub any_clash : (String → Option AccountRow) → Identity → List Identity → Bool
unfolding clashes
any_clash rows me [] = false
any_clash rows me (i ∷ is) = clashes rows me i || any_clash rows me is

unfoldable pub collision_query : World → String → Bool
unfolding any_clash find_identity
collision_query w id = elim (find_identity id w.identities) [
  | none ↦ false
  | some me ↦ any_clash w.accounts me w.identities
]

pub record AccountConfig : Type 0 where
  pub id : String
  pub provider : String
  pub secret_ref : String
  pub enabled : Bool
  pub network : Profile
  pub proxy : Option Network.Proxy
  pub proxy_secret_ref : String
  pub proxy_username : List ℕ
  pub proxy_adapter : String

-- network.Profile{}
abbrev pub no_profile : Profile
no_profile = record { id = ""; account_id = ""; mode = other_mode ""; proxy_id = none }

-- AccountConfig{ID: id}
abbrev pub empty_config : String → AccountConfig
empty_config id = record {
  id = id;
  provider = "";
  secret_ref = "";
  enabled = false;
  network = no_profile;
  proxy = none;
  proxy_secret_ref = "";
  proxy_username = [];
  proxy_adapter = "";
}

abbrev pub proxy_of_row : ProxyRow → Network.Proxy
proxy_of_row p = record {
  id = p.id;
  name = "";
  kind = p.kind;
  host = p.host;
  port = p.port;
  username = "";
  secret_ref = "";
  status = p.status;
  exit_ip = p.exit_ip;
  failure_count = 0;
}

-- The configuration before the proxy's part, for a row that is enabled.
abbrev pub base_config : AccountRow → AccountConfig
base_config a = record {
  id = a.id;
  provider = a.provider;
  secret_ref = a.secret_ref;
  enabled = a.enabled;
  network = record {
    id = "";
    account_id = a.id;
    mode = a.mode;
    proxy_id = elim a.proxy [ none ↦ none | some p ↦ some p.id ];
  };
  proxy = none;
  proxy_secret_ref = "";
  proxy_username = [];
  proxy_adapter = elim a.proxy [ none ↦ "generic" | some p ↦ p.adapter ];
}

-- With the proxy, whose user name is `user`.
abbrev pub with_proxy : AccountRow → ProxyRow → List ℕ → AccountConfig
with_proxy a p user = record {
  id = a.id;
  provider = a.provider;
  secret_ref = a.secret_ref;
  enabled = a.enabled;
  network = record { id = ""; account_id = a.id; mode = a.mode; proxy_id = some p.id };
  proxy = some (proxy_of_row p);
  proxy_secret_ref = p.secret_ref;
  proxy_username = user;
  proxy_adapter = p.adapter;
}

-- The user name by the identity's row: as the proxy has it where there is no session, or the
-- adapter knows none.
unfoldable pub account_username : ProxyRow → Result Identity → List ℕ
unfolding capabilities
account_username p (fail e) = p.username
account_username p (ok i) =
    let cc = codes (text_of i.preferred_country_code) in
    if not (is_empty (session_of i.sticky_session))
      && (capabilities (adapter_by_name p.adapter)).sticky_session
    then session_username p.adapter p.username cc (session_of i.sticky_session)
        (not i.fallback_active && not (is_empty cc))
    else p.username

-- Past the query for a collision.
unfoldable pub unique_account :
    World → String → AccountRow → ProxyRow → World × AccountConfig × Option Error
unfolding account_username
unique_account w id a p =
    let (w1, row) = query w (find_identity id w.identities) in
    (w1, with_proxy a p (account_username p row), none)

-- On a proxied route.
unfoldable pub proxied_account :
    World → String → AccountRow → ProxyRow → World × AccountConfig × Option Error
unfolding unique_account collision_query
proxied_account w id a p =
    let (w1, collision) = query w (some (collision_query w id)) in
    elim collision [
      | fail e ↦ (w1, base_config a, some e)
      | ok true ↦ (w1, base_config a, some network_identity_collision)
      | ok false ↦ unique_account w1 id a p
    ]

unfoldable pub enabled_account : World → String → AccountRow → World × AccountConfig × Option Error
unfolding proxied_account
enabled_account w id a = elim a.proxy [
  | none ↦ (w, base_config a, none)
  | some p ↦
      if is_proxy_required a.mode
      then proxied_account w id a p
      else (w, with_proxy a p p.username, none)
]

-- Repository.Account
unfoldable pub account : World → String → World × AccountConfig × Option Error
unfolding enabled_account
account w id =
    let (w1, row) = query w (w.accounts id) in
    elim row [
      | fail e ↦ (w1, empty_config "", some e)
      | ok a ↦
          if not a.enabled
          then (w1, record (base_config a) { network = no_profile }, some account_disabled)
          else enabled_account w1 id a
    ]
