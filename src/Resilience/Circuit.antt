-- ===== src/Resilience/Circuit.antt =====
-- internal/resilience/circuit.go. The mutex makes each method one step; `time.Time` is a number of
-- nanoseconds, and its zero value is 0.
pub mod Laws
use digital_ocean_bot.Prelude.{ℕ, suc, Option, none, some, Bool, true, false, ◌||◌, if◌then◌else◌}
use digital_ocean_bot.Prelude.Int.{ℤ, pos, ◌-ℤ◌, ltb_ℤ, leb_ℤ}
use digital_ocean_bot.Errors.{Error, circuit_open}
use digital_ocean_bot.Resilience.Policy.{Policy}

-- `unset` is the empty text of a Circuit that was never used.
pub data CircuitState : Type 0 where
  unset closed open_ half_open : CircuitState

pub record Circuit : Type 0 where
  pub state : CircuitState
  pub failures : ℕ
  pub opened_at : ℤ
  pub policy : Policy

allow_in : CircuitState → ℤ → Circuit → Circuit × Option Error
allow_in unset now c = (record c { state = closed }, none)
allow_in open_ now c =
    if leb_ℤ c.policy.open_duration (now -ℤ c.opened_at)
    then (record c { state = half_open }, none)
    else (c, some circuit_open)
allow_in _ now c = (c, none)

unfoldable pub allow : Circuit → ℤ → Circuit × Option Error
unfolding allow_in
allow c now = allow_in c.state now c

unfoldable pub success : Circuit → Circuit
success c = record c { state = closed; failures = 0; opened_at = pos 0 }

abbrev pub is_half_open : CircuitState → Bool
is_half_open half_open = true
is_half_open _ = false

abbrev pub threshold : Circuit → ℤ
threshold c = let t = c.policy.failure_threshold in if ltb_ℤ t (pos 1) then pos 5 else t

unfoldable pub failure : Circuit → ℤ → Circuit
failure c now =
    let n = suc c.failures in
    if leb_ℤ (threshold c) (pos n) || is_half_open c.state
    then record c { failures = n; state = open_; opened_at = now }
    else record c { failures = n }
