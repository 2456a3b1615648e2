-- ===== src/Examples/Network.antt =====
-- Routes, health, headers and leaks on concrete values.
use digital_ocean_bot.Prelude.{
  ◌<◌, String, ◌≡◌, refl, ◌≢◌, ◌↔◌, ◌⊎◌, true, false, Option, none, some, List, [], ◌∷◌, str_eq,
  if◌then◌else◌,
}
use digital_ocean_bot.Prelude.Int.{pos, ◌≤ℤ◌}
use digital_ocean_bot.Errors.{Error}
use digital_ocean_bot.Text.{codes}
use digital_ocean_bot.Network.{direct, proxy_required, healthy, unknown, down, Proxy}
use digital_ocean_bot.Network.Route.{AccountGate, allow_mutation, allow_mutation_iff}
use digital_ocean_bot.Network.Health.{HealthPolicy, HealthResult, HealthState, at_least_2}
use digital_ocean_bot.Network.Health.Hysteresis.{
  observe as observe_health, trailing, observe-status,
}
use digital_ocean_bot.Network.Headers.{
  Header, canonical, recase, all_tokens, has_forbidden_outbound_header, privacy_headers,
}
use digital_ocean_bot.Network.Headers.Privacy.{
  AllCanonical, has_forbidden_outbound_header-privacy_headers,
}
use digital_ocean_bot.Network.Leak.{LeakObservation, ParseIp}

abbrev state : HealthState
state = record {
  status = unknown;
  consecutive_failures = 0;
  consecutive_successes = 0;
  last_latency = pos 0;
  last_exit_ip = "";
  last_checked_at = pos 0;
  last_success_at = pos 0;
}

abbrev gate : AccountGate
gate = record {
  profile = record { id = "n"; account_id = "a"; mode = direct; proxy_id = none };
  proxy = none;
  health = state;
}

allow_mutation_iff_example : (allow_mutation gate ≡ none) ↔ (
    (direct ≡ direct)
    ⊎ (direct ≡ proxy_required)
      × (◌≢◌ {A = Option String} none none)
      × ((p : Proxy) × (◌≡◌ {A = Option Proxy} none (some p)) × (p.status ≡ healthy))
      × (unknown ≡ healthy))
allow_mutation_iff_example = allow_mutation_iff gate

abbrev policy : HealthPolicy
policy = record {
  failure_threshold = pos 3;
  recovery_threshold = pos 0;
  max_healthy_latency = pos 0;
}

abbrev good : HealthResult
good = record {
  status = healthy;
  exit_ip = "1.2.3.4";
  latency = pos 5;
  checked_at = pos 9;
  error = "";
}

observe-status_example :
    let ups = trailing policy true 0 (good ∷ good ∷ []) in
    let downs = trailing policy false 0 (good ∷ good ∷ []) in
    let status = (observe_health policy state (good ∷ good ∷ [])).status in
    ((status ≡ healthy) ↔ (0 < ups) × (at_least_2 (pos 0) ≤ℤ pos ups))
    × ((status ≡ down) ↔ (0 < downs) × (at_least_2 (pos 3) ≤ℤ pos downs))
observe-status_example = observe-status policy state good (good ∷ [])

abbrev headers : Header
headers = (codes "Accept", "*/*" ∷ []) ∷ (codes "X-Real-Ip", "10.0.0.1" ∷ []) ∷ []

headers-AllCanonical : AllCanonical headers
unfolding AllCanonical canonical recase all_tokens
headers-AllCanonical = (refl, (refl, tt))

has_forbidden_outbound_header-privacy_headers_example :
    has_forbidden_outbound_header (privacy_headers headers) ≡ false
has_forbidden_outbound_header-privacy_headers_example =
    has_forbidden_outbound_header-privacy_headers headers headers-AllCanonical

abbrev answers : List (String × Option Error)
answers = ("1.2.3.4", none) ∷ ("5.6.7.8", none) ∷ []

abbrev parse : ParseIp
parse s = if str_eq s "1.2.3.4" then some 1 else if str_eq s "9.9.9.9" then some 2 else none

abbrev observation : LeakObservation
observation = record {
  observed_ip = "1.2.3.4";
  expected_exit_ip = "";
  server_public_ip = "9.9.9.9";
  headers = [];
}
