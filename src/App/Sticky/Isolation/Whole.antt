-- ===== src/App/Sticky/Isolation/Whole.antt =====
-- The addresses stay apart over a whole call of MaintainStickyIdentity.
use digital_ocean_bot.App.Repository.{
  Identity, World, AccountConfig, AccountRow, ProxyRow, find_identity, exec, fault, tick, account,
  enabled_account, proxied_account, collision_query, is_none,
}
use digital_ocean_bot.Prelude.{
  String, ◌≡◌, refl, sym, subst, inl, inr, false, ◌||◌, not, Option, none, some, Bool-cases,
  Option-cases, if_cases,
}
use digital_ocean_bot.Errors.{Error}
use digital_ocean_bot.Sql.{Result-cases, scan_row}
use digital_ocean_bot.Network
use digital_ocean_bot.Network.Route.{new_proxy_gateway, is_proxy_required, is_healthy}
use digital_ocean_bot.App.Proxy.{capabilities, adapter_by_name, is_empty}
use digital_ocean_bot.App.Sticky.Observe.{Net}
use digital_ocean_bot.App.Sticky.Rows.{upsert_identity, fresh_identity, clear_sticky, on_identities}
use digital_ocean_bot.App.Sticky.Config.{
  Sticky, proxy_of, sticky_config, config_of, proxied_config, without_session, ensure_session,
  excluded, merge, scan_sticky, is_failed, forgive,
}
use digital_ocean_bot.App.Sticky.Steps.{on_row, clear_generic, is_generic_row, value_or}
use digital_ocean_bot.App.Sticky.Maintain.{
  on_found, through_proxy, keep_address, healthy_again, seen_healthy, secret_error, maintain,
  maintain_session, maintain_proxy, with_config, clear_if_generic,
}
use digital_ocean_bot.App.Sticky.Isolation.{IsIsolated, upsert-IsIsolated, exec-IsIsolated}
use digital_ocean_bot.App.Sticky.Isolation.Writes.{
  exec-on_row-IsIsolated, observe_generic-IsIsolated, probe_preferred-IsIsolated,
}
use digital_ocean_bot.App.Sticky.Isolation.Rotation.{recover_address-IsIsolated}

-- Reading a configuration writes nothing.
proxied_account-identities :
    (w : World) (id : String) (a : AccountRow) (p : ProxyRow)
    → (proxied_account w id a p).0.identities ≡ w.identities
unfolding proxied_account
proxied_account-identities w id a p = elim (Option-cases (fault w)) [
  | inr (e, lost) ↦ rw (lost, proxied_account) refl
  | inl sent ↦ elim (Bool-cases (collision_query w id)) [
    | inl hit ↦ rw (sent, proxied_account, hit) refl
    | inr miss ↦ rw (sent, proxied_account, miss) refl
  ]
]

enabled_account-identities :
    (w : World) (id : String) (a : AccountRow)
    → (enabled_account w id a).0.identities ≡ w.identities
unfolding enabled_account
enabled_account-identities w id a = elim (Option-cases a.proxy) [
  | inl bare ↦ rw (bare, enabled_account) refl
  | inr (p, e) ↦ elim (Bool-cases (is_proxy_required a.mode)) [
    | inl on ↦ rw (e, enabled_account, on) (proxied_account-identities w id a p)
    | inr off ↦ rw (e, enabled_account, off) refl
  ]
]

pub account-identities : (w : World) (id : String) → (account w id).0.identities ≡ w.identities
unfolding account
account-identities w id = elim (Result-cases (scan_row (fault w) (w.accounts id))) [
  | inr (e, bad) ↦ rw (bad, account) refl
  | inl (a, row) ↦
      rw (row, account)
        (if_cases (λ (r : World × AccountConfig × Option Error). r.0.identities ≡ w.identities)
          (not a.enabled) _ _ refl (enabled_account-identities (tick w) id a))
]

ensure_session-IsIsolated :
    (w : World) (id : String) (s : Sticky)
    → IsIsolated w.identities
    → IsIsolated (ensure_session w id s).0.identities
unfolding ensure_session
ensure_session-IsIsolated w id s h = elim (Result-cases (scan_row (fault w) (proxy_of w id))) [
  | inr (e, bad) ↦ rw (bad, ensure_session) h
  | inl (p, row) ↦
      let new = excluded w id p in
      rw (row, ensure_session)
        (upsert-IsIsolated id new (merge new) w.identities refl refl (λ i. refl) (λ i. (refl, refl))
          h)
]

proxied_config-IsIsolated :
    (w : World) (id : String) (cfg : AccountConfig)
    → IsIsolated w.identities
    → IsIsolated (proxied_config w id cfg).0.identities
unfolding proxied_config without_session
proxied_config-IsIsolated w id cfg h =
    let row = scan_row (fault w) (find_identity id w.identities) in
    let s = scan_sticky cfg row in
    elim (Bool-cases (capabilities (adapter_by_name cfg.proxy_adapter)).sticky_session) [
      | inr plain ↦
          rw (plain, proxied_config, without_session)
            (exec-IsIsolated (tick w)
              (on_identities (upsert_identity id (fresh_identity id) clear_sticky)) h
              (upsert-IsIsolated id (fresh_identity id) clear_sticky w.identities refl refl
                (λ i. refl) (λ i. (refl, refl)) h))
      | inl able ↦ elim (Bool-cases (is_failed row || is_empty s.session)) [
        | inl lacking ↦
            rw (able, proxied_config, lacking) (ensure_session-IsIsolated (tick w) id s h)
        | inr held ↦ rw (able, proxied_config, held) h
      ]
    ]

config_of-IsIsolated :
    (w : World) (id : String) (cfg : AccountConfig) (err : Option Error)
    → IsIsolated w.identities
    → IsIsolated (config_of w id cfg err).0.identities
config_of-IsIsolated w id cfg (some e) h = h
config_of-IsIsolated w id cfg none h = elim (Bool-cases (is_proxy_required cfg.network.mode)) [
  | inl on ↦ rw on (proxied_config-IsIsolated w id cfg h)
  | inr off ↦ rw off h
]

sticky_config-IsIsolated :
    (w : World) (id : String)
    → IsIsolated w.identities
    → IsIsolated (sticky_config w id).0.identities
unfolding sticky_config
sticky_config-IsIsolated w id h =
    let found = account w id in
    let used = forgive id (found.1, found.2) in
    config_of-IsIsolated found.0 id used.0 used.1
      (subst IsIsolated (sym (account-identities w id)) h)

clear_generic_id : (i : Identity) → (clear_generic i).account_id ≡ i.account_id
clear_generic_id i =
    if_cases (λ (k : Identity). k.account_id ≡ i.account_id)
      (not (is_none i.sticky_session) || i.fallback_active || not (is_none i.rotation_started_at)) _
      _ refl refl

clear_generic_address :
    (i : Identity)
    → ((clear_generic i).exit_ip ≡ i.exit_ip) × ((clear_generic i).subnet_key ≡ i.subnet_key)
clear_generic_address i =
    if_cases (λ (k : Identity). (k.exit_ip ≡ i.exit_ip) × (k.subnet_key ≡ i.subnet_key))
      (not (is_none i.sticky_session) || i.fallback_active || not (is_none i.rotation_started_at)) _
      _ (refl, refl) (refl, refl)

clear_if_generic-IsIsolated :
    (w : World) (id : String)
    → IsIsolated w.identities
    → IsIsolated (clear_if_generic w id).0.identities
unfolding clear_if_generic
clear_if_generic-IsIsolated w id h =
    elim (Bool-cases (value_or false (scan_row (fault w) (is_generic_row (proxy_of w id))))) [
      | inl yes' ↦
          rw (yes', clear_if_generic)
            (exec-on_row-IsIsolated (tick w) id clear_generic (λ i. clear_generic_id i)
              (λ i. clear_generic_address i) h)
      | inr no' ↦ rw (no', clear_if_generic) h
    ]

-- The addresses are apart in the world that a call leaves.
abbrev Safe : World × Option Error → Type 0
Safe r = IsIsolated r.0.identities

module _ (net : Net) where
  keep_address-IsIsolated :
      (w : World) (id : String) (p : Network.Proxy) (s : Sticky)
      → IsIsolated w.identities
      → Safe (keep_address net w id p s)
  unfolding keep_address
  keep_address-IsIsolated w id p s h =
      if_cases Safe (not s.fallback) _ _
        (exec-on_row-IsIsolated w id healthy_again (λ i. refl) (λ i. (refl, refl)) h)
        (probe_preferred-IsIsolated net (exec w (on_row id seen_healthy)).0 id p s
          (exec-on_row-IsIsolated w id seen_healthy (λ i. refl) (λ i. (refl, refl)) h))

  maintain_session-IsIsolated :
      (w : World) (id : String) (p : Network.Proxy) (s : Sticky)
      → IsIsolated w.identities
      → Safe (maintain_session net w id p s)
  unfolding maintain_session
  maintain_session-IsIsolated w id p s h = elim (Option-cases (new_proxy_gateway id p)) [
    | inr (e, bad) ↦ rw (bad, maintain_session) h
    | inl good ↦
        rw (good, maintain_session)
          (if_cases Safe _ _ _ (keep_address-IsIsolated (tick w) id p s h)
            (recover_address-IsIsolated net (tick w) id p s h))
  ]

  maintain_proxy-IsIsolated :
      (w : World) (id : String) (p : Network.Proxy) (s : Sticky)
      → IsIsolated w.identities
      → Safe (maintain_proxy net w id p s)
  unfolding maintain_proxy
  maintain_proxy-IsIsolated w id p s h = elim (Option-cases (secret_error net w p s)) [
    | inr (e, bad) ↦ rw (bad, maintain_proxy) (if_cases Safe (not (is_healthy p.status)) _ _ h h)
    | inl good ↦
        rw (good, maintain_proxy)
          (if_cases Safe (not (is_healthy p.status)) _ _ h (
            if_cases Safe _ _ _ (observe_generic-IsIsolated net w id p s.config h)
              (maintain_session-IsIsolated w id p s h)))
  ]

  through_proxy-IsIsolated :
      (w : World) (id : String) (s : Sticky) (proxy : Option Network.Proxy)
      → IsIsolated w.identities
      → Safe (through_proxy net w id s proxy)
  unfolding through_proxy
  through_proxy-IsIsolated w id s (some p) h = maintain_proxy-IsIsolated w id p s h
  through_proxy-IsIsolated w id s none h =
      elim (Result-cases (scan_row (fault w) (proxy_of w id))) [
        | inr (e, bad) ↦ rw (bad, through_proxy) h
        | inl (r, row) ↦ rw (row, through_proxy) (maintain_proxy-IsIsolated (tick w) id _ _ h)
      ]

  with_config-IsIsolated :
      (w : World) (id : String) (s : Sticky)
      → IsIsolated w.identities
      → Safe (with_config net w id s)
  unfolding with_config
  with_config-IsIsolated w id s h =
      if_cases Safe (not (is_proxy_required s.config.network.mode)) _ _ h
        (through_proxy-IsIsolated w id s s.config.proxy h)

  on_found-IsIsolated :
      (id : String) (found : World × Sticky × Option Error)
      → IsIsolated found.0.identities
      → Safe (on_found net id found)
  unfolding on_found
  on_found-IsIsolated id (w, s, some e) h = h
  on_found-IsIsolated id (w, s, none) h = with_config-IsIsolated w id s h

  -- If no two accounts share an exit address or a subnet, then none do after a call of
  -- MaintainStickyIdentity, on every path of it and whichever statements fail, whatever the
  -- addresses' services answer.
  pub maintain-IsIsolated :
      (w : World) (id : String)
      → IsIsolated w.identities
      → IsIsolated (maintain net w id).0.identities
  unfolding maintain
  maintain-IsIsolated w id h =
      let first = clear_if_generic-IsIsolated w id h in
      let w1 = (clear_if_generic w id).0 in
      elim (Option-cases (clear_if_generic w id).1) [
        | inr (e, bad) ↦ rw (bad, maintain) first
        | inl good ↦
            rw (good, maintain)
              (on_found-IsIsolated id (sticky_config w1 id) (sticky_config-IsIsolated w1 id first))
      ]
