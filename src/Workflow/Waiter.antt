-- ===== src/Workflow/Waiter.antt =====
-- internal/workflow/digitalocean_waiter.go, and waitDelay of runtime.go.
pub mod Ends
use digital_ocean_bot.Prelude.{
  ℕ, zero, suc, ◌-◌, ◌*◌, ◌<◌, String, ◌&&◌, not, Option, none, some, str_eq, ltb, if◌then◌else◌,
}
use digital_ocean_bot.Prelude.Int.{ℤ, pos, pos_part, ltb_ℤ}
use digital_ocean_bot.Errors.{Error, resource_not_ready, other}
use digital_ocean_bot.Text.Decimal.{atoi}
use digital_ocean_bot.DigitalOcean.{Droplet}
use digital_ocean_bot.Workflow.Runtime.{ResourceInfo}

abbrev pub second : ℕ
second = 1000000000

-- `for i := 1; i < attempt && d < 15*time.Second; i++ { d *= 2 }`, for the `n` rounds that i allows.
unfoldable pub double_until : ℕ → ℕ → ℕ
double_until zero d = d
double_until (suc n) d = if ltb d (15 * second) then double_until n (2 * d) else d

unfoldable pub wait_delay : ℤ → ℕ
unfolding double_until
wait_delay attempt =
    let n = if ltb_ℤ attempt (pos 1) then 1 else pos_part attempt in
    let d = double_until (n - 1) (2 * second) in if ltb (15 * second) d then 15 * second else d

-- What the select after an attempt wakes up for.
pub data Wake : Type 0 where
  context_done : Error → Wake
  deadline elapsed : Wake

-- The provider's answer to each attempt, and what ends the pause after it.
pub record Provider : Type 0 where
  pub get_droplet : ℤ → ℕ → Droplet × Option Error
  pub wake : ℕ → Wake

abbrev pub no_info : ResourceInfo
no_info = record { provider_id = ""; host = "" }

-- The host of a droplet that is active and has an address.
abbrev pub active_host : Droplet × Option Error → Option String
active_host (x, some e) = none
active_host (x, none) =
    if str_eq x.status "active" && not (str_eq x.public_ipv4 "") then some x.public_ipv4 else none

-- The loop from attempt `n` on; none is out of fuel.
unfoldable pub wait_loop : ℕ → Provider → String → ℤ → ℕ → Option (ResourceInfo × Option Error)
wait_loop zero p provider_id id n = none
wait_loop (suc fuel) p provider_id id n =
    let later = wait_loop fuel p provider_id id (suc n) in
    elim (active_host (p.get_droplet id n)) [
      | some host ↦ some (record { provider_id = provider_id; host = host }, none)
      | none ↦ elim (p.wake n) [
        | context_done e ↦ some (no_info, some e)
        | deadline ↦ some (no_info, some resource_not_ready)
        | elapsed ↦ later
      ]
    ]

unfoldable pub wait : ℕ → Provider → String → Option (ResourceInfo × Option Error)
unfolding wait_loop
wait fuel p provider_id = elim (atoi provider_id) [
  | none ↦ some (no_info, some (other "invalid syntax"))
  | some id ↦ wait_loop fuel p provider_id id 1
]
