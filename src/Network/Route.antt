-- ===== src/Network/Route.antt =====
-- internal/network/guard.go, gate.go, isolation.go and the checks of proxy_gateway.go: which route
-- an account may use.
use digital_ocean_bot.Prelude.{
  String, ◌≡◌, refl, ◌≢◌, ◌↔◌, ◌⊎◌, inl, inr, Bool, true, false, ◌&&◌, ◌||◌, not, Option, none,
  some, arith, str_eq, if◌then◌else◌, Option-cases,
}
use digital_ocean_bot.Prelude.Int.{pos, ltb_ℤ}
use digital_ocean_bot.Errors.{
  Error, proxy_required as required_error, proxy_unavailable, account_network_not_ready,
  account_context_mismatch, proxy_config_invalid, unsupported_proxy_type,
}
use digital_ocean_bot.Network.{
  RouteMode, direct, proxy_required, other_mode, ProxyStatus, healthy, ProxyType, other_type, Proxy,
  Profile,
}
use digital_ocean_bot.Network.Health.{HealthState}

abbrev pub is_healthy : ProxyStatus → Bool
is_healthy healthy = true
is_healthy _ = false

-- `profile.ProxyID == nil || proxy == nil`, then the proxy's status.
abbrev pub check_proxy_row : Option String → Option Proxy → Option Error
check_proxy_row none proxy = some proxy_unavailable
check_proxy_row (some id) none = some proxy_unavailable
check_proxy_row (some id) (some p) = if is_healthy p.status then none else some proxy_unavailable

route_by : RouteMode → Profile → Option Proxy → Option Error
route_by direct profile proxy = none
route_by proxy_required profile proxy = check_proxy_row profile.proxy_id proxy
route_by (other_mode m) profile proxy = some required_error

unfoldable pub validate_route : Profile → Option Proxy → Option Error
unfolding route_by
validate_route profile proxy = route_by profile.mode profile proxy

pub record AccountGate : Type 0 where
  pub profile : Profile
  pub proxy : Option Proxy
  pub health : HealthState

abbrev pub is_proxy_required : RouteMode → Bool
is_proxy_required proxy_required = true
is_proxy_required _ = false

unfoldable pub allow_mutation : AccountGate → Option Error
unfolding validate_route
allow_mutation g = elim (validate_route g.profile g.proxy) [
  | some e ↦ some account_network_not_ready
  | none ↦
      if is_proxy_required g.profile.mode && not (is_healthy g.health.status)
      then some account_network_not_ready
      else none
]

mode-cases :
    (m : RouteMode) → (m ≡ direct) ⊎ (m ≡ proxy_required) ⊎ ((t : String) × (m ≡ other_mode t))
mode-cases direct = inl refl
mode-cases proxy_required = inr (inl refl)
mode-cases (other_mode t) = inr (inr (t, refl))

-- A mutation passes the account's gate exactly on a direct route, or on a proxied one whose
-- profile names a proxy, whose proxy is healthy and whose monitored health is good.
pub allow_mutation_iff :
    (g : AccountGate)
    → (allow_mutation g ≡ none) ↔ (
        (g.profile.mode ≡ direct)
        ⊎ (g.profile.mode ≡ proxy_required)
          × (g.profile.proxy_id ≢ none)
          × ((p : Proxy) × (g.proxy ≡ some p) × (p.status ≡ healthy))
          × (g.health.status ≡ healthy))
unfolding allow_mutation
allow_mutation_iff g = (passes, λ h. granted h)
  where
    passes :
        allow_mutation g ≡ none
        → (g.profile.mode ≡ direct)
          ⊎ (g.profile.mode ≡ proxy_required)
            × (g.profile.proxy_id ≢ none)
            × ((p : Proxy) × (g.proxy ≡ some p) × (p.status ≡ healthy))
            × (g.health.status ≡ healthy)
    passes e = elim (mode-cases g.profile.mode) [
      | inl d ↦ inl d
      | inr (inr (t, o)) ↦ absurd (ground arith)
      | inr (inl q) ↦ elim (Option-cases g.proxy) [
        | inl no_proxy ↦ absurd (ground arith)
        | inr (p, e') ↦ inr (q, ground arith, (p, e', ground arith), ground arith)
      ]
    ]

    granted :
        (g.profile.mode ≡ direct)
          ⊎ (g.profile.mode ≡ proxy_required)
            × (g.profile.proxy_id ≢ none)
            × ((p : Proxy) × (g.proxy ≡ some p) × (p.status ≡ healthy))
            × (g.health.status ≡ healthy)
        → allow_mutation g ≡ none
    granted (inl d) = ground arith
    granted (inr (q, named, (p, e, ok), fine)) = ground arith

-- proxy_gateway.go: whether a gateway is built, and over which scheme.
abbrev pub gateway_scheme : ProxyType → Option Error
gateway_scheme (other_type t) = some unsupported_proxy_type
gateway_scheme _ = none

unfoldable pub new_proxy_gateway : String → Proxy → Option Error
new_proxy_gateway account_id p =
    if str_eq account_id "" || str_eq p.host "" || ltb_ℤ p.port (pos 1) || not (is_healthy p.status)
    then some proxy_config_invalid
    else gateway_scheme p.kind

-- isolation.go: AccountContext.Validate, on a context that may be nil.
pub record AccountContext : Type 0 where
  pub account_id : String
  pub profile : Profile

unfoldable pub validate_context : Option AccountContext → String → Option Error
validate_context none account_id = some account_context_mismatch
validate_context (some c) account_id =
    if str_eq c.account_id "" || not (str_eq c.account_id account_id)
    then some account_context_mismatch
    else if not (str_eq c.profile.account_id account_id)
    then some account_context_mismatch
    else none
