-- ===== src/Network/Health.antt =====
-- internal/network/health_state.go: hysteresis on the results of the health checks.
pub mod Hysteresis
use digital_ocean_bot.Prelude.{ℕ, suc, String, Bool, true, false, ◌&&◌, ◌||◌, if◌then◌else◌}
use digital_ocean_bot.Prelude.Int.{ℤ, pos, ltb_ℤ, leb_ℤ}
use digital_ocean_bot.Network.{ProxyStatus, unknown, healthy, degraded, down}

pub record HealthPolicy : Type 0 where
  pub failure_threshold : ℤ
  pub recovery_threshold : ℤ
  pub max_healthy_latency : ℤ

pub record HealthResult : Type 0 where
  pub status : ProxyStatus
  pub exit_ip : String
  pub latency : ℤ
  pub checked_at : ℤ
  pub error : String

pub record HealthState : Type 0 where
  pub status : ProxyStatus
  pub consecutive_failures : ℕ
  pub consecutive_successes : ℕ
  pub last_latency : ℤ
  pub last_exit_ip : String
  pub last_checked_at : ℤ
  pub last_success_at : ℤ

abbrev pub at_least_2 : ℤ → ℤ
at_least_2 n = if ltb_ℤ n (pos 1) then pos 2 else n

abbrev pub status_healthy : ProxyStatus → Bool
status_healthy healthy = true
status_healthy _ = false

-- The check succeeded, and within the policy's latency if it sets one.
abbrev pub is_good : HealthResult → HealthPolicy → Bool
is_good r p =
    status_healthy r.status
    && (leb_ℤ p.max_healthy_latency (pos 0) || leb_ℤ r.latency p.max_healthy_latency)

unfoldable pub apply : HealthState → HealthResult → HealthPolicy → HealthState
apply s r p =
    let seen = record s {
      last_checked_at = r.checked_at;
      last_latency = r.latency;
      last_exit_ip = r.exit_ip;
    } in
    let successes = suc s.consecutive_successes in
    let failures = suc s.consecutive_failures in
    if is_good r p
    then record seen {
      consecutive_failures = 0;
      consecutive_successes = successes;
      last_success_at = r.checked_at;
      status =
          if leb_ℤ (at_least_2 p.recovery_threshold) (pos successes) then healthy else degraded;
    }
    else record seen {
      consecutive_successes = 0;
      consecutive_failures = failures;
      status = if leb_ℤ (at_least_2 p.failure_threshold) (pos failures) then down else degraded;
    }
