-- ===== src/Resilience/Policy.antt =====
-- internal/resilience/policy.go. A time.Duration is its int64 number of nanoseconds.
use digital_ocean_bot.Prelude.{ℕ, zero, suc, ◌*◌, true, false, if◌then◌else◌}
use digital_ocean_bot.Prelude.Int.{ℤ, pos, pos_part, ◌+ℤ◌, ◌-ℤ◌, ltb_ℤ, leb_ℤ, wrap64}

pub record Policy : Type 0 where
  pub base_delay : ℤ
  pub max_delay : ℤ
  pub max_attempts : ℤ
  pub failure_threshold : ℤ
  pub open_duration : ℤ

abbrev pub second : ℕ
second = 1000000000

abbrev pub default_policy : Policy
default_policy = record {
  base_delay = pos second;
  max_delay = pos (30 * second);
  max_attempts = pos 5;
  failure_threshold = pos 5;
  open_duration = pos (60 * second);
}

pub data ErrorClass : Type 0 where
  retryable rate_limited permanent unknown : ErrorClass

-- One round of the loop: `d *= 2`, which wraps, and the cap.
unfoldable pub double_capped : ℤ → ℤ → ℤ
unfolding ◌+ℤ◌ wrap64
double_capped limit d = let twice = wrap64 (d +ℤ d) in if ltb_ℤ limit twice then limit else twice

-- `for i := 1; i < attempt && d < max; i++`, over the rounds that are left.
unfoldable pub grow : ℕ → ℤ → ℤ → ℤ
grow zero limit d = d
grow (suc rounds) limit d = elim (ltb_ℤ d limit) [
  | true ↦ grow rounds limit (double_capped limit d)
  | false ↦ d
]

abbrev pub positive_or : ℤ → ℤ → ℤ
positive_or d default = if leb_ℤ d (pos 0) then default else d

unfoldable pub delay : Policy → ℤ → ℤ
delay p attempt =
    let tries = if ltb_ℤ attempt (pos 1) then pos 1 else attempt in
    grow (pos_part (tries -ℤ pos 1)) (positive_or p.max_delay (pos (30 * second)))
      (positive_or p.base_delay (pos second))
