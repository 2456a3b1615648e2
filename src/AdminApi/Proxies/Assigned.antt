-- ===== src/AdminApi/Proxies/Assigned.antt =====
-- When assignProxy changes the route of an account.
use digital_ocean_bot.Prelude.{
  if_cases, suc, String, ◌≡◌, refl, ap, ◌∙◌, ◌⊎◌, inl, inr, Bool, true, false, ◌&&◌, not, some,
  List, [], ◌∷◌, arith, eq_iff, str_eq, ◌==◌, Bool-cases, Option-cases,
}
use digital_ocean_bot.Sql.{scan_row, Result-cases, scan_row-ok}
use digital_ocean_bot.Auth.{Role}
use digital_ocean_bot.AdminApi.Accounts.Create.{Answer}
use digital_ocean_bot.AdminApi.Proxies.{
  Proxy, NetworkProfile, World, find_proxy, set_route, profiles_of, route_account, route_by_proxy,
  assign_proxy,
}

-- What lets an account be routed: the direct mode, or a healthy proxy.
abbrev pub MayRoute : List Proxy → String → String → Type 0
MayRoute proxies proxy mode =
    (mode ≡ "direct") ⊎ ((x : Proxy) × (find_proxy proxy proxies ≡ some x) × (x.status ≡ "healthy"))

abbrev pub Routed : (String → Bool) → World → String → String → World × Answer → Type 0
Routed is_uuid w proxy mode (v, a) =
    ((a.status ≡ 204) × (is_uuid proxy ≡ true) × MayRoute w.proxies proxy mode)
    ⊎ (((a.status == 204) ≡ false) × (v.profiles ≡ w.profiles))

set_route-same :
    (account mode proxy : String) (ns : List NetworkProfile)
    → profiles_of account ns ≡ 0
    → set_route account mode proxy ns ≡ ns
unfolding set_route profiles_of
set_route-same account mode proxy [] e = refl
set_route-same account mode proxy (n ∷ ns) e = elim (Bool-cases (str_eq n.account_id account)) [
  | inl own ↦ absurd (ground (arith, own))
  | inr other ↦ rw other (ap (λ t. n ∷ t) (set_route-same account mode proxy ns (ground arith)))
]

module _ (is_uuid : String → Bool) (w : World) (account proxy : String) where
  -- `v` is the world after the statements that read; `m` is the mode that is written.
  route_account-Routed :
      (mode m : String) (v : World)
      → v.profiles ≡ w.profiles
      → MayRoute w.proxies proxy mode
      → Routed is_uuid w proxy mode (route_account is_uuid v account m proxy)
  unfolding route_account
  route_account-Routed mode m v same may = elim (Option-cases (v.sql.fault v.sql.calls)) [
    | inr (e, lost) ↦ rw (lost, route_account) (inr (refl, same))
    | inl fine ↦
        rw (fine, route_account)
          (elim (Bool-cases (not (is_uuid account && is_uuid proxy))) [
            | inl garbled ↦ rw garbled (inr (refl, same))
            | inr good ↦ rw good (elim (Bool-cases (profiles_of account v.profiles == 0)) [
              | inr some_ ↦ rw some_ (inl (refl, ground (arith, good), may))
              | inl none_ ↦ rw none_ (
                  inr (
                    refl,
                    set_route-same account m proxy v.profiles (ground (arith, none_)) ∙ same,
                  ))
            ])
          ])
  ]

  route_by_proxy-Routed :
      (mode : String) → Routed is_uuid w proxy mode (route_by_proxy is_uuid w account proxy)
  unfolding route_by_proxy
  route_by_proxy-Routed mode =
      let v = record w { sql = record w.sql { calls = suc w.sql.calls } } in
      let row = scan_row (w.sql.fault w.sql.calls) (find_proxy proxy w.proxies) in
      elim (Result-cases row) [
        | inr (e, lost) ↦ rw (lost, route_by_proxy) (inr (refl, refl))
        | inl (x, got) ↦
            rw (got, route_by_proxy)
              (elim (Bool-cases (str_eq x.status "healthy")) [
                | inr bad ↦ rw bad (inr (refl, refl))
                | inl good ↦ rw good (
                    route_account-Routed mode "proxy_required" v refl (
                      inr (
                        x,
                        scan_row-ok (w.sql.fault w.sql.calls) _ x got,
                        (eq_iff x.status "healthy").0 good,
                      )))
              ])
      ]

-- assignProxy answers 204 only if the proxy's identifier is a uuid, also where the route is to be
-- direct, and the mode is direct or the proxy is there and healthy; with every other answer the
-- accounts' routes are as they were, whichever statements fail.
pub assign_proxy-Routed :
    (is_uuid : String → Bool) (w : World) (role : Role) (account proxy mode : String)
    → Routed is_uuid w proxy mode (assign_proxy is_uuid w role account (some (proxy, mode)))
unfolding assign_proxy
assign_proxy-Routed is_uuid w Role.admin account proxy mode =
    elim (Bool-cases (str_eq mode "direct")) [
      | inl direct ↦
          rw (direct, assign_proxy)
            (route_account-Routed is_uuid w account proxy mode mode w refl
              (inl ((eq_iff mode "direct").0 direct)))
      | inr other ↦
          rw (other, assign_proxy)
            (if_cases (λ r. Routed is_uuid w proxy mode r) (not (str_eq mode "proxy_required")) _ _
              (inr (refl, refl))
              (if_cases (λ r. Routed is_uuid w proxy mode r) (str_eq proxy "") _ _
                (inr (refl, refl)) (route_by_proxy-Routed is_uuid w account proxy mode)))
    ]
assign_proxy-Routed is_uuid w Role.operator account proxy mode = inr (refl, refl)
assign_proxy-Routed is_uuid w Role.viewer account proxy mode = inr (refl, refl)
assign_proxy-Routed is_uuid w (Role.other_role r) account proxy mode = inr (refl, refl)
