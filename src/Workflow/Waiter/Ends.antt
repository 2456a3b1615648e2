-- ===== src/Workflow/Waiter/Ends.antt =====
-- How long the waiter pauses, and when it ends.
use digital_ocean_bot.Prelude.{
  ℕ, zero, suc, ◌*◌, ◌^◌, ◌≤◌, min, String, ◌≡◌, ap, ◌∙◌, ◌≢◌, ◌⊎◌, inl, inr, Option, none, some,
  arith, ltb, Bool-cases,
}
use digital_ocean_bot.Prelude.Int.{ℤ, pos}
use native.Mathlib.Nat.{pow-suc}
use digital_ocean_bot.Resilience.Delay.{pow-pos, le-mul}
use digital_ocean_bot.Errors.{Error, resource_not_ready}
use digital_ocean_bot.Workflow.Runtime.{ResourceInfo}
use digital_ocean_bot.Workflow.Waiter.{
  second, double_until, wait_delay, context_done, deadline, elapsed, Provider, no_info, active_host,
}

double_pow : (q d : ℕ) → q * (2 * d) ≡ q * 2 * d
double_pow q d = grind arith

double_until-min :
    (n d : ℕ) → 1 ≤ d → min (double_until n d) (15 * second) ≡ min (2 ^ n * d) (15 * second)
unfolding double_until
double_until-min zero d h = omega arith
double_until-min (suc n) d h = elim (Bool-cases (ltb d (15 * second))) [
  | inl less ↦
      rw (less, double_until)
        (double_until-min n (2 * d) (omega arith)
          ∙ ap (λ x. min x (15 * second)) (rw (pow-suc 2 n) (double_pow (2 ^ n) d)))
  | inr more ↦
      let big : 15 * second ≤ d = ground (arith, more) in
      rw (more, double_until) (omega (arith, le-mul d (2 ^ suc n) (pow-pos (suc n))))
]

-- The pause after attempt n + 1 is 2 · 2^n seconds, capped at 15 seconds.
pub wait_delay-min : (n : ℕ) → wait_delay (pos (suc n)) ≡ min (2 ^ n * (2 * second)) (15 * second)
unfolding wait_delay
wait_delay-min n = let e = double_until-min n (2 * second) (omega arith) in ground (arith, e)

-- An attempt ends the loop if its droplet is active or the pause after it does not just elapse.
abbrev pub EndsAt : Provider → ℤ → ℕ → Type 0
EndsAt p id n = (active_host (p.get_droplet id n) ≢ none) ⊎ (p.wake n ≢ elapsed)

-- What a wait that was ended by its attempt `n` returns.
abbrev pub ended : Provider → String → ℤ → ℕ → ResourceInfo × Option Error
ended p provider_id id n = elim (active_host (p.get_droplet id n)) [
  | some host ↦ (record { provider_id = provider_id; host = host }, none)
  | none ↦ elim (p.wake n) [
    | context_done e ↦ (no_info, some e)
    | deadline ↦ (no_info, some resource_not_ready)
    | elapsed ↦ (no_info, none)
  ]
]

-- The `k` attempts from `n` on neither find the droplet active nor are the last.
unfoldable pub Pending : Provider → ℤ → ℕ → ℕ → Type 0
Pending p id n zero = Unit {0}
Pending p id n (suc k) =
    (active_host (p.get_droplet id n) ≡ none) × (p.wake n ≡ elapsed) × Pending p id (suc n) k
