-- ===== src/App/Sticky/Config.antt =====
-- stickyConfig of internal/app/sticky_proxy.go.
use digital_ocean_bot.Prelude.{
  ℕ, String, Bool, true, false, ◌||◌, not, Option, none, some, List, [], if◌then◌else◌,
}
use digital_ocean_bot.Prelude.Int.{ℤ}
use digital_ocean_bot.Errors.{Error, network_identity_collision}
use digital_ocean_bot.Sql.{Result, ok, fail}
use digital_ocean_bot.Text.{codes, lower_code, to_lower}
use digital_ocean_bot.Network.Route.{is_proxy_required}
use digital_ocean_bot.App.Proxy.{capabilities, adapter_by_name, is_empty, same_codes}
use digital_ocean_bot.App.Repository.{
  AccountConfig, ProxyRow, Identity, World, query, exec, account, empty_config, text_of, session_of,
  find_identity,
}
use digital_ocean_bot.App.Sticky.Rows.{
  upsert_identity, on_identities, clear_sticky, fresh_identity, or_else, new_session,
}

-- The values that stickyConfig returns beside its error.
pub record Sticky : Type 0 where
  pub config : AccountConfig
  pub session : List ℕ
  pub cc : String
  pub country : String
  pub fallback : Bool
  pub started : Option ℤ

abbrev pub blank : AccountConfig → Sticky
blank cfg = record {
  config = cfg;
  session = [];
  cc = "";
  country = "";
  fallback = false;
  started = none;
}

-- The first query's columns; a failed one leaves the variables as they are declared.
abbrev pub scan_sticky : AccountConfig → Result Identity → Sticky
scan_sticky cfg (fail e) = blank cfg
scan_sticky cfg (ok i) = record {
  config = cfg;
  session = session_of i.sticky_session;
  cc = text_of i.preferred_country_code;
  country = elim i.preferred_country [ some c ↦ c | none ↦ text_of i.country ];
  fallback = i.fallback_active;
  started = i.rotation_started_at;
}

abbrev pub is_failed {ℓ} : {A : Type ℓ} → Result A → Bool
is_failed (fail e) = true
is_failed (ok a) = false

-- The row that the upsert would insert.
abbrev pub excluded : World → String → ProxyRow → Identity
excluded w id p = record (fresh_identity id) {
  sticky_session = some (new_session w);
  preferred_country = some p.country;
  preferred_country_code =
      some (if same_codes (to_lower p.country) (codes "venezuela") then "ve" else "");
}

-- What the upsert does to a row that is there.
abbrev pub merge : Identity → Identity → Identity
merge new i = record i {
  sticky_session = elim i.sticky_session [ some s ↦ some s | none ↦ new.sticky_session ];
  preferred_country = or_else i.preferred_country (text_of new.preferred_country);
  preferred_country_code = or_else i.preferred_country_code (text_of new.preferred_country_code);
}

-- The proxy of the account's network profile.
abbrev pub proxy_of : World → String → Option ProxyRow
proxy_of w id = elim (w.accounts id) [ none ↦ none | some a ↦ a.proxy ]

-- RETURNING, once the upsert has run
abbrev pub returned : Sticky → Option Identity → Sticky
returned s none = s
returned s (some i) = record s {
  session = session_of i.sticky_session;
  cc = text_of i.preferred_country_code;
  country = text_of i.preferred_country;
  fallback = i.fallback_active;
  started = i.rotation_started_at;
}

-- The second query: it makes the row or its session, and a failure leaves the variables.
unfoldable pub ensure_session : World → String → Sticky → World × Sticky × Option Error
unfolding same_codes lower_code
ensure_session w id s =
    let (w1, proxy) = query w (proxy_of w id) in
    elim proxy [
      | fail e ↦ (w1, s, some e)
      | ok p ↦
          let new = excluded w id p in
          let w2 = on_identities (upsert_identity id new (merge new)) w1 in
          (w2, returned s (find_identity id w2.identities), none)
    ]

-- An adapter that knows no sessions: the row is made if it is not there, and holds none.
unfoldable pub without_session : World → String → Sticky → World × Sticky × Option Error
without_session w id s =
    let (w1, err) = exec w (on_identities (upsert_identity id (fresh_identity id) clear_sticky)) in
    (w1, record s { session = []; fallback = false; started = none }, err)

-- A proxied account: by what its adapter can do.
unfoldable pub proxied_config : World → String → AccountConfig → World × Sticky × Option Error
proxied_config w id cfg =
    let (w1, row) = query w (find_identity id w.identities) in
    let s = scan_sticky cfg row in
    if not (capabilities (adapter_by_name cfg.proxy_adapter)).sticky_session
    then without_session w1 id s
    else if is_failed row || is_empty s.session
    then ensure_session w1 id s
    else (w1, s, none)

-- A collision is dropped, and leaves a configuration with nothing but the identifier.
abbrev pub forgive : String → AccountConfig × Option Error → AccountConfig × Option Error
forgive id (cfg, some network_identity_collision) = (empty_config id, none)
forgive id (cfg, err) = (cfg, err)

abbrev pub config_of : World → String → AccountConfig → Option Error → World × Sticky × Option Error
config_of w id cfg (some e) = (w, blank cfg, some e)
config_of w id cfg none =
    if not (is_proxy_required cfg.network.mode)
    then (w, blank cfg, none)
    else proxied_config w id cfg

unfoldable pub sticky_config : World → String → World × Sticky × Option Error
sticky_config w id =
    let (w1, found, err) = account w id in
    let (cfg, err') = forgive id (found, err) in config_of w1 id cfg err'
