-- ===== src/App/Sticky/Isolation/Rotation.antt =====
-- The addresses stay apart when a lost one is replaced.
use digital_ocean_bot.Prelude.{
  ℕ, suc, String, ◌≡◌, refl, sym, subst, inl, inr, Bool, false, List, Bool-cases, Option-cases,
  if_cases,
}
use digital_ocean_bot.App.Sticky.Rotate.{
  mark_rotation, accept, waiting, judge_candidate, search_address, recover_address, window_over,
  start_rotation, country_refused, search_user,
}
use digital_ocean_bot.Sql.{Result-cases}
use digital_ocean_bot.Network
use digital_ocean_bot.Network.Route.{new_proxy_gateway}
use digital_ocean_bot.App.Repository.{World, fault, tick, is_none}
use digital_ocean_bot.App.Sticky.Observe.{Net, StickyGeo, observe_sticky_geo}
use digital_ocean_bot.App.Sticky.Rows.{taken, new_session}
use digital_ocean_bot.App.Sticky.Config.{Sticky}
use digital_ocean_bot.App.Sticky.Steps.{exec_, store_address}
use digital_ocean_bot.App.Sticky.Isolation.{IsIsolated, exec-identities}
use digital_ocean_bot.App.Sticky.Isolation.Writes.{
  exec-on_row-IsIsolated, store_address-IsIsolated, announce-IsIsolated,
}

waiting-IsIsolated :
    (w : World) (id why : String)
    → IsIsolated w.identities
    → IsIsolated (exec_ w (waiting id why)).identities
waiting-IsIsolated w id why h =
    subst IsIsolated (sym (exec-identities w (waiting id why) (λ v. refl))) h

module _ (net : Net) where
  accept-IsIsolated :
      (w : World) (id : String) (s : Sticky) (geo : StickyGeo) (session : List ℕ) (b : Bool)
      → taken net id geo.ip w.identities ≡ false
      → IsIsolated w.identities
      → IsIsolated (accept net w id s geo session b).0.identities
  unfolding accept
  accept-IsIsolated w id s geo session b free h =
      let stored = store_address-IsIsolated net (tick w) id geo session b free h in
      elim (Option-cases (store_address net (tick w) id geo session b).1) [
        | inr (e, bad) ↦ rw (bad, accept) stored
        | inl good ↦
            rw (good, accept)
              (announce-IsIsolated (store_address net (tick w) id geo session b).0 id _ _ stored)
      ]

  judge_candidate-IsIsolated :
      (w : World) (id : String) (s : Sticky) (geo : StickyGeo) (session : List ℕ) (b : Bool)
      → IsIsolated w.identities
      → IsIsolated (judge_candidate net w id s geo session b).0.identities
  unfolding judge_candidate
  judge_candidate-IsIsolated w id s geo session b h = elim (Bool-cases (country_refused s geo b)) [
    | inl refused ↦ rw (refused, judge_candidate) (waiting-IsIsolated w id _ h)
    | inr fine ↦ elim (Option-cases (fault w)) [
      | inr (e, lost) ↦ rw (fine, judge_candidate, lost) h
      | inl sent ↦ elim (Bool-cases (taken net id geo.ip w.identities)) [
        | inl used ↦ rw (fine, judge_candidate, sent, used) (waiting-IsIsolated (tick w) id _ h)
        | inr free ↦
            rw (fine, judge_candidate, sent, free)
              (accept-IsIsolated (tick w) id s geo session b free h)
      ]
    ]
  ]

  pub search_address-IsIsolated :
      (w : World) (id : String) (p : Network.Proxy) (s : Sticky) (b : Bool)
      → IsIsolated w.identities
      → IsIsolated (search_address net w id p s b).0.identities
  unfolding search_address
  search_address-IsIsolated w id p s b h = elim (Option-cases (fault w)) [
    | inr (e, lost) ↦ rw (lost, search_address) h
    | inl sent ↦ elim (Option-cases (new_proxy_gateway id p)) [
      | inr (e, bad) ↦ rw (sent, search_address, bad) h
      | inl good ↦
          elim (Result-cases
            (observe_sticky_geo net (suc w.sql.calls) (search_user s (new_session w) b))) [
              | inr (e, lost) ↦ rw (sent, search_address, good, lost) h
              | inl (geo, seen) ↦
                  rw (sent, search_address, good, seen)
                    (judge_candidate-IsIsolated (tick w) id s geo (new_session w) b h)
            ]
    ]
  ]

  pub recover_address-IsIsolated :
      (w : World) (id : String) (p : Network.Proxy) (s : Sticky)
      → IsIsolated w.identities
      → IsIsolated (recover_address net w id p s).0.identities
  unfolding recover_address mark_rotation
  recover_address-IsIsolated w id p s h =
      search_address-IsIsolated (mark_rotation w id s) id p s (window_over w s) (
        if_cases (λ (v : World). IsIsolated v.identities) (is_none s.started) _ _
          (exec-on_row-IsIsolated w id (start_rotation w.sql.clock) (λ i. refl) (λ i. (refl, refl))
            h)
          h)
