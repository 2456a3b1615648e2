-- ===== src/App/Sticky/Maintain.antt =====
-- MaintainStickyIdentity of internal/app/sticky_proxy.go, from its start.
use digital_ocean_bot.Prelude.{
  String, Bool, true, false, ◌&&◌, not, Option, none, some, str_eq, if◌then◌else◌,
}
use digital_ocean_bot.Errors.{Error, network_not_ready}
use digital_ocean_bot.Sql.{Result, ok, fail}
use digital_ocean_bot.Text.{codes}
use digital_ocean_bot.Network
use digital_ocean_bot.Network.{proxy_required}
use digital_ocean_bot.Network.Route.{is_proxy_required, is_healthy, new_proxy_gateway}
use digital_ocean_bot.App.Proxy.{capabilities, adapter_by_name, session_username}
use digital_ocean_bot.App.Repository.{
  Identity, World, query, exec, text_of, find_identity, proxy_of_row,
}
use digital_ocean_bot.App.Sticky.Observe.{Net, fast_gateway_exit_ip}
use digital_ocean_bot.App.Sticky.Config.{Sticky, proxy_of, sticky_config}
use digital_ocean_bot.App.Sticky.Steps.{
  exec_, on_row, value_or, recovered, clear_generic, is_generic_row, observe_generic,
  probe_preferred,
}
use digital_ocean_bot.App.Sticky.Rotate.{recover_address}

-- `err == nil && oldIP != "" && ip == oldIP`
abbrev pub still_there : Result String → String → Bool
still_there (fail e) old_ip = false
still_there (ok ip) old_ip = not (str_eq old_ip "") && str_eq ip old_ip

abbrev pub address_of : Result Identity → String
address_of (fail e) = ""
address_of (ok i) = text_of i.exit_ip

-- Whatever an account on the generic adapter had of a session is cleared first.
unfoldable pub clear_if_generic : World → String → World × Option Error
clear_if_generic w id =
    let (w1, generic) = query w (is_generic_row (proxy_of w id)) in
    if value_or false generic then exec w1 (on_row id clear_generic) else (w1, none)

abbrev pub healthy_again : Identity → Identity
healthy_again i = record i {
  last_health_ok = some true;
  rotation_started_at = none;
  fallback_active = false;
}

abbrev pub seen_healthy : Identity → Identity
seen_healthy i = record i { last_health_ok = some true }

module _ (net : Net) where
  -- The session still has its address.
  unfoldable pub keep_address : World → String → Network.Proxy → Sticky → World × Option Error
  keep_address w id p s =
      if not s.fallback
      then (exec_ w (on_row id healthy_again), none)
      else probe_preferred net (exec_ w (on_row id seen_healthy)) id p s

  unfoldable pub maintain_session : World → String → Network.Proxy → Sticky → World × Option Error
  maintain_session w id p s = elim (new_proxy_gateway id p) [
    | some e ↦ (w, some e)
    | none ↦
        let ip = fast_gateway_exit_ip net w.sql.calls (
          session_username s.config.proxy_adapter s.config.proxy_username (codes s.cc) s.session (
            (capabilities (adapter_by_name s.config.proxy_adapter)).country_targeting
            && not s.fallback
            && not (str_eq s.cc ""))) in
        let (w1, row) = query w (find_identity id w.identities) in
        if still_there ip (address_of row)
        then keep_address w1 id p s
        else recover_address net w1 id p s
  ]

  unfoldable pub secret_error : World → Network.Proxy → Sticky → Option Error
  secret_error w p s =
      if str_eq s.config.proxy_secret_ref ""
      then none
      else net.get_proxy_secret w.sql.calls p.id s.config.proxy_secret_ref

  -- The proxy's status, its secret, and then by what the adapter can do.
  unfoldable pub maintain_proxy : World → String → Network.Proxy → Sticky → World × Option Error
  maintain_proxy w id p s =
      if not (is_healthy p.status) then (w, some network_not_ready) else elim (secret_error w p s) [
        | some e ↦ (w, some e)
        | none ↦
            if not (capabilities (adapter_by_name s.config.proxy_adapter)).sticky_session
            then observe_generic net w id p s.config
            else maintain_session w id p s
      ]

  -- A configuration without its proxy: the proxy is read from its own table.
  unfoldable pub through_proxy :
      World → String → Sticky → Option Network.Proxy → World × Option Error
  through_proxy w id s (some p) = maintain_proxy w id p s
  through_proxy w id s none =
      let (w1, row) = query w (proxy_of w id) in
      elim row [
        | fail e ↦ (w1, some e)
        | ok r ↦
            maintain_proxy w1 id (record (proxy_of_row r) { exit_ip = "" })
              (record s { config = recovered id s.config r })
      ]

  unfoldable pub with_config : World → String → Sticky → World × Option Error
  unfolding through_proxy
  with_config w id s =
      if not (is_proxy_required s.config.network.mode)
      then (w, none)
      else through_proxy w id s s.config.proxy

  -- Once the configuration is read.
  unfoldable pub on_found : String → World × Sticky × Option Error → World × Option Error
  on_found id (w, s, some e) = (w, some e)
  on_found id (w, s, none) = with_config w id s

  -- MaintainStickyIdentity
  unfoldable pub maintain : World → String → World × Option Error
  maintain w id =
      let (w1, err) = clear_if_generic w id in
      elim err [ some e ↦ (w1, some e) | none ↦ on_found id (sticky_config w1 id) ]
