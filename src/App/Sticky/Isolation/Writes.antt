-- ===== src/App/Sticky/Isolation/Writes.antt =====
-- Every path of MaintainStickyIdentity keeps the accounts' addresses apart.
use digital_ocean_bot.App.Sticky.Observe.{equal_fold, observe_sticky_geo, Net, StickyGeo}
use digital_ocean_bot.App.Sticky.Rows.{new_session, clear_sticky, taken, with_address}
use digital_ocean_bot.App.Sticky.Steps.{
  preferred_user, on_row, store_address, queue_browser_audit, announce, ready, request_audit,
  observe_generic, probe_preferred, return_preferred, set_status,
}
use digital_ocean_bot.App.Sticky.Isolation.{
  exec-identities, IsIsolated, Keeps, update-IsIsolated, take-IsIsolated, exec-IsIsolated,
}
use digital_ocean_bot.App.Repository.{fault, Identity, World, AccountConfig, exec, tick}
use digital_ocean_bot.Prelude.{
  ℕ, suc, String, ◌≡◌, refl, sym, ◌∙◌, subst, inl, inr, Bool, true, false, Option, none, some, List,
  str_eq, Bool-cases, Option-cases,
}
use digital_ocean_bot.Text.{codes}
use digital_ocean_bot.Sql.{Result-cases}
use digital_ocean_bot.Network.Route.{new_proxy_gateway}
use digital_ocean_bot.Network
use digital_ocean_bot.App.Sticky.Config.{Sticky}

-- A write to one row that leaves its address.
pub exec-on_row-IsIsolated :
    (w : World) (id : String) (f : Identity → Identity)
    → Keeps f
    → ((i : Identity) → ((f i).exit_ip ≡ i.exit_ip) × ((f i).subnet_key ≡ i.subnet_key))
    → IsIsolated w.identities
    → IsIsolated (exec w (on_row id f)).0.identities
exec-on_row-IsIsolated w id f keeps same h =
    exec-IsIsolated w (on_row id f) h (update-IsIsolated id f w.identities keeps same h)

pub announce_identities :
    (w : World) (id : String) (changed : Bool) (detail : Option String)
    → (announce w id changed detail).identities ≡ w.identities
unfolding announce queue_browser_audit
announce_identities w id true detail =
    exec-identities (exec w (request_audit id "geo_changed")).0 (set_status id (ready detail))
      (λ v. refl)
    ∙ exec-identities w (request_audit id "geo_changed") (λ v. refl)
announce_identities w id false detail = exec-identities w (set_status id (ready detail)) (λ v. refl)

-- The addresses stay apart in what follows the write of a new one.
pub announce-IsIsolated :
    (w : World) (id : String) (changed : Bool) (detail : Option String)
    → IsIsolated w.identities
    → IsIsolated (announce w id changed detail).identities
announce-IsIsolated w id changed detail h =
    subst IsIsolated (sym (announce_identities w id changed detail)) h

module _ (net : Net) where
  pub store_address-IsIsolated :
      (w : World) (id : String) (geo : StickyGeo) (session : List ℕ) (fallback : Bool)
      → taken net id geo.ip w.identities ≡ false
      → IsIsolated w.identities
      → IsIsolated (store_address net w id geo session fallback).0.identities
  unfolding store_address with_address
  store_address-IsIsolated w id geo session fallback free h =
      let f : Identity → Identity = with_address net geo (some session) fallback in
      exec-IsIsolated w (on_row id f) h
        (take-IsIsolated net id geo.ip f w.identities (λ i. refl) (λ i. (refl, refl)) free h)

  pub observe_generic-IsIsolated :
      (w : World) (id : String) (p : Network.Proxy) (cfg : AccountConfig)
      → IsIsolated w.identities
      → IsIsolated (observe_generic net w id p cfg).0.identities
  unfolding observe_generic with_address
  observe_generic-IsIsolated w id p cfg h = elim (Option-cases (new_proxy_gateway id p)) [
    | inr (e, bad) ↦ rw (bad, observe_generic) h
    | inl good ↦ elim (Result-cases (observe_sticky_geo net w.sql.calls cfg.proxy_username)) [
      | inr (e, lost) ↦
          rw (good, observe_generic, lost)
            (exec-on_row-IsIsolated w id
              (λ i. record (clear_sticky i) { last_health_ok = some false }) (λ i. refl)
              (λ i. (refl, refl)) h)
      | inl (geo, seen) ↦ elim (Option-cases (fault w)) [
        | inr (e, lost) ↦ rw (good, observe_generic, seen, lost) h
        | inl sent ↦ elim (Bool-cases (taken net id geo.ip w.identities)) [
          | inl used ↦ rw (good, observe_generic, seen, sent, used) h
          | inr free ↦
              let f : Identity → Identity =
                λ i. record (with_address net geo none false i) { asn = some geo.asn } in
              rw (good, observe_generic, seen, sent, free)
                (exec-IsIsolated (tick w) (on_row id f) h (
                  take-IsIsolated net id geo.ip f w.identities (λ i. refl) (λ i. (refl, refl)) free
                    h))
        ]
      ]
    ]
  ]

  pub return_preferred-IsIsolated :
      (w : World) (id : String) (geo : StickyGeo) (session : List ℕ)
      → taken net id geo.ip w.identities ≡ false
      → IsIsolated w.identities
      → IsIsolated (return_preferred net w id geo session).0.identities
  unfolding return_preferred
  return_preferred-IsIsolated w id geo session free h =
      let stored = store_address-IsIsolated (tick w) id geo session false free h in
      elim (Option-cases (store_address net (tick w) id geo session false).1) [
        | inr (e, bad) ↦ rw (bad, return_preferred) stored
        | inl good ↦
            rw (good, return_preferred)
              (announce-IsIsolated (store_address net (tick w) id geo session false).0 id _ none
                stored)
      ]

  pub probe_preferred-IsIsolated :
      (w : World) (id : String) (p : Network.Proxy) (s : Sticky)
      → IsIsolated w.identities
      → IsIsolated (probe_preferred net w id p s).0.identities
  unfolding probe_preferred
  probe_preferred-IsIsolated w id p s h = elim (Bool-cases (str_eq s.cc "")) [
    | inl nowhere ↦ rw (nowhere, probe_preferred) h
    | inr wanted ↦ elim (Option-cases (fault w)) [
      | inr (e, lost) ↦ rw (wanted, probe_preferred, lost) h
      | inl sent ↦ elim (Option-cases (new_proxy_gateway id p)) [
        | inr (e, bad) ↦ rw (wanted, probe_preferred, sent, bad) h
        | inl good ↦
            elim (Result-cases
              (observe_sticky_geo net (suc w.sql.calls) (preferred_user s (new_session w)))) [
                | inr (e, lost) ↦ rw (wanted, probe_preferred, sent, good, lost) h
                | inl (geo, seen) ↦ elim (Bool-cases (equal_fold geo.country_code (codes s.cc))) [
                  | inr elsewhere ↦ rw (wanted, probe_preferred, sent, good, seen, elsewhere) h
                  | inl there ↦ elim (Option-cases (fault (tick w))) [
                    | inr (e, lost) ↦ rw (wanted, probe_preferred, sent, good, seen, there, lost) h
                    | inl sent' ↦ elim (Bool-cases (taken net id geo.ip w.identities)) [
                      | inl used ↦
                          rw (wanted, probe_preferred, sent, good, seen, there, sent', used) h
                      | inr free ↦
                          rw (wanted, probe_preferred, sent, good, seen, there, sent', free)
                            (return_preferred-IsIsolated (tick (tick w)) id geo (new_session w) free
                              h)
                    ]
                  ]
                ]
              ]
      ]
    ]
  ]
