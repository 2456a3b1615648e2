-- ===== src/Resilience/Delay.antt =====
-- The back-off of internal/resilience/policy.go against its closed form.
use native.Mathlib.Nat.{pow-suc, min-eq_left}
use native.Mathlib.Decide.{dec_le, dec_lt}
use digital_ocean_bot.Prelude.{
  ℕ, zero, suc, ◌+◌, ◌*◌, ◌^◌, ◌≤◌, ◌<◌, ◌≡◌, refl, ◌∙◌, ap, min, arith,
}
use digital_ocean_bot.Prelude.Int.{pos, ◌-ℤ◌}
use digital_ocean_bot.Resilience.Policy.{Policy, double_capped, grow, delay}

double_capped_lem : (b m : ℕ) → b < 2 ^ 62 → double_capped (pos m) (pos b) ≡ pos (min (b + b) m)
unfolding double_capped
double_capped_lem b m h = ground arith

pub pow-pos : (k : ℕ) → 1 ≤ 2 ^ k
pow-pos zero = omega arith
pow-pos (suc k) = omega (arith, pow-pos k, pow-suc 2 k)

pub le-mul : (m p : ℕ) → 1 ≤ p → m ≤ m * p
le-mul m p h = grind arith

mul_mono : (p m x : ℕ) → m ≤ x → m * p ≤ x * p
mul_mono p m x h = grind arith

min_grow : (x m p : ℕ) → 1 ≤ p → min (min x m * p) m ≡ min (x * p) m
min_grow x m p h = elim (dec_le x m) [
  | yes le ↦ rw (min-eq_left le)
  | no gt ↦
      let full : min x m ≡ m = omega arith in
      rw full (omega (arith, le-mul m p h, mul_mono p m x (omega arith)))
]

min_step : (b m p : ℕ) → 1 ≤ p → min (min (b + b) m * p) m ≡ min (b * (2 * p)) m
min_step b m p h = min_grow (b + b) m p h ∙ ap (λ t. min t m) (omega arith)

-- The loop, once the two delays are in range: it doubles up to the limit.
grow_lem : (k b m : ℕ) → b ≤ m → m < 2 ^ 62 → grow k (pos m) (pos b) ≡ pos (min (b * 2 ^ k) m)
unfolding grow
grow_lem zero b m h lim = ap pos (omega arith)
grow_lem (suc k) b m h lim = elim (dec_lt b m) [
  | yes more ↦ ground (
    arith,
    double_capped_lem b m (omega arith),
    grow_lem k (min (b + b) m) m (omega arith) lim,
    min_step b m (2 ^ k) (pow-pos k),
    pow-suc 2 k,
  )
  | no full ↦ ground (arith, le-mul b (2 ^ suc k) (pow-pos (suc k)))
]

-- A first delay that is at or above the limit is waited as it is.
grow_above : (k b m : ℕ) → m ≤ b → grow k (pos m) (pos b) ≡ pos b
unfolding grow
grow_above zero b m h = refl
grow_above (suc k) b m h = ground arith

-- With 0 < base ≤ max < 2^62 nanoseconds the delay of attempt n + 1 is base · 2^n capped at max,
-- so that no doubling wraps.
pub delay-min :
    (p : Policy) (n b m : ℕ)
    → p.base_delay ≡ pos b
    → p.max_delay ≡ pos m
    → 1 ≤ b
    → b ≤ m
    → m < 2 ^ 62
    → delay p (pos (suc n)) ≡ pos (min (b * 2 ^ n) m)
unfolding delay ◌-ℤ◌
delay-min p n b m eb em one le lim = ground (arith, grow_lem n b m le lim)
