-- ===== src/App/Sticky/Steps.antt =====
-- MaintainStickyIdentity of internal/app/sticky_proxy.go: what it does for an adapter without
-- sessions, and while a fallback serves.
use digital_ocean_bot.Prelude.{
  ℕ, String, Bool, true, false, ◌||◌, not, Option, none, some, List, str_eq, if◌then◌else◌,
}
use digital_ocean_bot.Prelude.Int.{pos, ◌+ℤ◌}
use digital_ocean_bot.Errors.{Error, isolation_wait}
use digital_ocean_bot.Sql.{Result, ok, fail}
use digital_ocean_bot.Text.{codes}
use digital_ocean_bot.Network
use digital_ocean_bot.Network.{proxy_required}
use digital_ocean_bot.Network.Route.{new_proxy_gateway}
use digital_ocean_bot.App.Proxy.{capabilities, adapter_by_name, session_username}
use digital_ocean_bot.App.Repository.{
  AccountConfig, ProxyRow, Identity, World, RuntimeStatus, query, exec, is_none, text_of,
  find_identity, proxy_of_row,
}
use digital_ocean_bot.App.Sticky.Observe.{
  Net, StickyGeo, observe_sticky_geo, equal_fold, locale_for_country,
}
use digital_ocean_bot.App.Sticky.Rows.{
  update_identity, on_identities, clear_sticky, new_session, taken, with_address,
}
use digital_ocean_bot.App.Sticky.Config.{Sticky}

-- A statement whose error is dropped.
abbrev pub exec_ : World → (World → World) → World
exec_ w f = (exec w f).0

abbrev pub on_row : String → (Identity → Identity) → World → World
on_row id f = on_identities (update_identity id f)

abbrev pub set_status : String → RuntimeStatus → World → World
set_status id s w = record w { status = λ (a : String). if str_eq a id then s else w.status a }

abbrev pub value_or {ℓ} : {A : Type ℓ} → A → Result A → A
value_or a (fail e) = a
value_or a (ok b) = b

-- The upsert of queueBrowserAudit.
abbrev pub request_audit : String → String → World → World
request_audit id reason w = record w {
  audits = λ (a : String).
      if str_eq a id then some (reason, w.sql.clock +ℤ pos 5000000000) else w.audits a;
}

unfoldable pub queue_browser_audit : World → String → String → World
queue_browser_audit w id reason = exec_ w (request_audit id reason)

abbrev pub ready : Option String → RuntimeStatus
ready detail = record { status = "READY"; detail = detail }

-- What follows the write of a new address: an audit if the place changed, and the status.
unfoldable pub announce : World → String → Bool → Option String → World
unfolding queue_browser_audit
announce w id changed detail =
    let w1 = if changed then queue_browser_audit w id "geo_changed" else w in
    exec_ w1 (set_status id (ready detail))

-- `country`, `timezone` and `locale` of the row before it is written, as a query reads them
abbrev pub prior : Result Identity → String × String × String
prior (fail e) = ("", "", "")
prior (ok i) = (text_of i.country, i.timezone, i.locale)

-- stickyConfig's collision-free recovery of the proxy.
abbrev pub recovered : String → AccountConfig → ProxyRow → AccountConfig
recovered id cfg p = record cfg {
  network = record { id = ""; account_id = id; mode = proxy_required; proxy_id = some p.id };
  proxy = some (record (proxy_of_row p) { exit_ip = "" });
  proxy_username = p.username;
  proxy_adapter = p.adapter;
  proxy_secret_ref = p.secret_ref;
}

-- `WHERE account_id=$1 AND (sticky_session IS NOT NULL OR fallback_active=true OR ...)`
abbrev pub clear_generic : Identity → Identity
clear_generic i =
    if not (is_none i.sticky_session) || i.fallback_active || not (is_none i.rotation_started_at)
    then record i { sticky_session = none; fallback_active = false; rotation_started_at = none }
    else i

abbrev pub is_generic_row : Option ProxyRow → Option Bool
is_generic_row none = none
is_generic_row (some p) = some (str_eq p.adapter "generic")

-- The user name that asks for the preferred country.
abbrev pub preferred_user : Sticky → List ℕ → List ℕ
preferred_user s session =
    session_username s.config.proxy_adapter s.config.proxy_username (codes s.cc) session
      (capabilities (adapter_by_name s.config.proxy_adapter)).country_targeting

module _ (net : Net) where
  -- The update by which an observed address is taken, and the audit that a change asks for.
  unfoldable pub store_address : World → String → StickyGeo → List ℕ → Bool → World × Option Error
  store_address w id geo session fallback =
      exec w (on_row id (with_address net geo (some session) fallback))

  -- An adapter without sessions: its address is observed, and the row follows it.
  unfoldable pub observe_generic :
      World → String → Network.Proxy → AccountConfig → World × Option Error
  observe_generic w id p cfg = elim (new_proxy_gateway id p) [
    | some e ↦ (w, some e)
    | none ↦ elim (observe_sticky_geo net w.sql.calls cfg.proxy_username) [
      | fail e ↦ (
        exec_ w (on_row id (λ i. record (clear_sticky i) { last_health_ok = some false })),
        some e,
      )
      | ok geo ↦
          let (w1, collision) = query w (some (taken net id geo.ip w.identities)) in
          elim collision [
            | fail e ↦ (w1, some e)
            | ok true ↦ (w1, some isolation_wait)
            | ok false ↦
                exec w1 (
                  on_row id
                    (λ i. record (with_address net geo none false i) { asn = some geo.asn }))
          ]
    ]
  ]

  -- A unique address of the preferred country replaces a fallback that serves well.
  unfoldable pub return_preferred : World → String → StickyGeo → List ℕ → World × Option Error
  return_preferred w id geo session =
      let (w1, row) = query w (find_identity id w.identities) in
      let was_ip : String = elim row [ fail e ↦ "" | ok i ↦ text_of i.exit_ip ] in
      let (was_country, was_timezone, was_locale) = prior row in
      let (w2, err) = store_address w1 id geo session false in
      elim err [
        | some e ↦ (w2, some e)
        | none ↦
            let changed =
              not (str_eq was_ip geo.ip)
              || not (str_eq was_country geo.country)
              || not (str_eq was_timezone geo.timezone)
              || not (str_eq was_locale (locale_for_country net geo.country_code)) in
            (announce w2 id changed none, none)
      ]

  -- The fallback serves well: the preferred country is tried, and every failure leaves it at that.
  unfoldable pub probe_preferred : World → String → Network.Proxy → Sticky → World × Option Error
  probe_preferred w id p s =
      if str_eq s.cc ""
      then (w, none)
      else let (w1, session) = query w (some (new_session w)) in
        elim session [
          | fail e ↦ (w1, none)
          | ok session' ↦ elim (new_proxy_gateway id p) [
            | some e ↦ (w1, none)
            | none ↦ elim (observe_sticky_geo net w1.sql.calls (preferred_user s session')) [
              | fail e ↦ (w1, none)
              | ok geo ↦
                  if not (equal_fold geo.country_code (codes s.cc))
                  then (w1, none)
                  else let (w2, collision) = query w1 (some (taken net id geo.ip w1.identities)) in
                    elim collision [
                      | fail e ↦ (w2, none)
                      | ok true ↦ (w2, none)
                      | ok false ↦ return_preferred w2 id geo session'
                    ]
            ]
          ]
        ]
