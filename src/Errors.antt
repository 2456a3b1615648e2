-- ===== src/Errors.antt =====
-- The error values of the packages under internal/ as one type. A sentinel that `fmt.Errorf` wraps
-- with `%w` is the sentinel: every test in the code is `errors.Is` or `errors.As`.
use digital_ocean_bot.Prelude.{String, Option, none, some, Bool, true, false}
use digital_ocean_bot.Prelude.Int.{ℤ}

-- providers/digitalocean.HTTPError
pub record HttpError : Type 0 where
  pub status : ℤ
  pub retry_after : ℤ
  pub path : String
  pub code : String
  pub message : String

pub data Error : Type 0 where
  -- the standard library
  canceled deadline_exceeded no_rows unique_violation : Error
  -- internal/resilience, internal/jobs, internal/droplets
  circuit_open operation_conflict operation_not_found operation_tenant_mismatch : Error
  mutation_blocked outcome_still_unknown lifecycle_provider_id : Error
  -- internal/providers/digitalocean
  http_error : HttpError → Error
  provider_request missing_context : Error
  -- internal/workflow and internal/provisioning
  runtime_config resource_not_ready invalid_plan retry_deferred retry_limit_reached : Error
  -- internal/network
  account_network_not_ready proxy_required proxy_unavailable unexpected_exit_ip : Error
  server_ip_leak forbidden_outbound_header account_context_mismatch : Error
  proxy_config_invalid unsupported_proxy_type egress_changed health_store : Error
  -- internal/app
  network_not_ready account_disabled network_identity_collision isolation_wait profile_disabled :
      Error
  -- internal/accounts, internal/resources, internal/trafficguard
  tenant_mismatch cell_not_found no_sample : Error
  -- internal/auth
  invalid_credentials unauthorized : Error
  -- any other value, with its text
  other : String → Error

abbrev pub is_error : Option Error → Bool
is_error none = false
is_error (some e) = true
