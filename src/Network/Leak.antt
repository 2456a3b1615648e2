-- ===== src/Network/Leak.antt =====
-- internal/network/leakcheck.go, CheckProxy of health.go, scheduler.go and egress_guard.go.
pub mod Egress
use digital_ocean_bot.Prelude.{
  ℕ, String, Bool, false, ◌&&◌, not, Option, none, some, str_eq, ◌==◌, if◌then◌else◌,
}
use digital_ocean_bot.Prelude.Int.{ℤ, pos, ltb_ℤ, leb_ℤ}
use digital_ocean_bot.Errors.{
  Error, unexpected_exit_ip, server_ip_leak, forbidden_outbound_header, egress_changed, other,
}
use digital_ocean_bot.Text.{trim_space}
use digital_ocean_bot.Network.{ProxyStatus, down, healthy, Proxy}
use digital_ocean_bot.Network.Headers.{Header, has_forbidden_outbound_header}
use digital_ocean_bot.Network.Health.{HealthPolicy, HealthResult, HealthState, apply}
use digital_ocean_bot.Network.Route.{new_proxy_gateway}

pub record LeakObservation : Type 0 where
  pub observed_ip : String
  pub expected_exit_ip : String
  pub server_public_ip : String
  pub headers : Header

-- An address as net.ParseIP returns it: none for a text that is no address, and one number for all
-- spellings of an address, so that IP.Equal is equality.
abbrev pub ParseIp : Type 0
ParseIp = String → Option ℕ

abbrev pub same_ip : ℕ → Option ℕ → Bool
same_ip a none = false
same_ip a (some b) = a == b

unfoldable pub validate_leak_observation : ParseIp → LeakObservation → Option Error
validate_leak_observation parse_ip o = elim (parse_ip o.observed_ip) [
  | none ↦ some unexpected_exit_ip
  | some observed ↦
      if not (str_eq o.expected_exit_ip "") && not (same_ip observed (parse_ip o.expected_exit_ip))
      then some unexpected_exit_ip
      else if same_ip observed (parse_ip o.server_public_ip)
      then some server_ip_leak
      else if has_forbidden_outbound_header o.headers
      then some forbidden_outbound_header
      else none
]

-- What the endpoint answers: its status, the JSON's address (none if it does not decode) and the
-- headers, at the time at which the answer came.
pub record Response : Type 0 where
  pub status_code : ℤ
  pub ip : Option String
  pub headers : Header

abbrev pub down_result : ℤ → ℤ → String → String → HealthResult
down_result started latency exit_ip error = record {
  status = down;
  exit_ip = exit_ip;
  latency = latency;
  checked_at = started;
  error = error;
}

abbrev pub is_ok_status : ℤ → Bool
is_ok_status s = leb_ℤ (pos 200) s && ltb_ℤ s (pos 300)

-- CheckProxy, for a gateway with a client: `answer` is what client.Do returns after `latency`.
unfoldable pub check_proxy :
    ParseIp
    → (Error → String)
    → (started latency : ℤ) → Response × Option Error
    → String
    → String
    → HealthResult
unfolding validate_leak_observation
check_proxy parse_ip text started latency (resp, some e) expected server =
    down_result started latency "" (text e)
check_proxy parse_ip text started latency (resp, none) expected server =
    if not (is_ok_status resp.status_code)
    then down_result started latency "" "proxy health endpoint failed"
    else elim resp.ip [
      | none ↦ down_result started latency "" "invalid proxy health payload"
      | some raw ↦
          let ip = trim_space raw in
          if str_eq ip ""
          then down_result started latency "" "invalid proxy health payload"
          else elim (validate_leak_observation parse_ip (record {
            observed_ip = ip;
            expected_exit_ip = expected;
            server_public_ip = server;
            headers = resp.headers;
          })) [
            | some e ↦ down_result started latency ip (text e)
            | none ↦ record (down_result started latency ip "") { status = healthy }
          ]
    ]

pub record HealthTarget : Type 0 where
  pub proxy : Proxy
  pub expected_exit_ip : String
  pub server_public_ip : String
  pub state : HealthState

-- HealthScheduler.Check on the world `W` of its store, with the answer that the probe got.
unfoldable pub check {ℓ} :
    {W : Type ℓ}
    → ParseIp
    → (Error → String)
    → (started latency : ℤ) → Response × Option Error
    → Option (W → String → HealthState → W × Option Error)
    → HealthPolicy
    → W
    → String
    → HealthTarget
    → W × HealthState × Option Error
unfolding check_proxy apply new_proxy_gateway
check parse_ip text started latency answer store policy w account_id target =
    elim (new_proxy_gateway account_id target.proxy) [
      | some e ↦ (w, target.state, some e)
      | none ↦
          let result =
            check_proxy parse_ip text started latency answer target.expected_exit_ip
              target.server_public_ip in
          let state = apply target.state result policy in
          elim store [
            | none ↦ (w, state, none)
            | some save ↦ let (w', err) = save w target.proxy.id state in (w', state, err)
          ]
    ]

-- EgressGuard.Observe with a client: the baseline before, and what the endpoint returned. The
-- result is the baseline after, the address and the error.
unfoldable pub observe : String → String × Option Error → String × String × Option Error
observe baseline (body, some e) = (baseline, "", some e)
observe baseline (body, none) =
    let ip = trim_space body in
    if str_eq baseline ""
    then (ip, ip, none)
    else if str_eq ip baseline
    then (baseline, ip, none)
    else (baseline, ip, some egress_changed)
