-- ===== src/Network/Health/Hysteresis.antt =====
-- What every history of checks under one policy keeps.
use digital_ocean_bot.Prelude.{
  ℕ, suc, ◌<◌, ◌≡◌, refl, subst, ◌↔◌, inl, inr, Bool, true, false, not, List, [], ◌∷◌, arith,
  if◌then◌else◌, Bool-cases,
}
use digital_ocean_bot.Prelude.Int.{pos, ◌≤ℤ◌}
use digital_ocean_bot.Network.{healthy, down}
use digital_ocean_bot.Network.Health.{
  HealthPolicy, HealthResult, HealthState, at_least_2, is_good, apply,
}

pub observe : HealthPolicy → HealthState → List HealthResult → HealthState
observe p s [] = s
observe p s (r ∷ rs) = observe p (apply s r p) rs

-- How many results at the end of a history are good, and how many are bad; `before` is what the
-- results ahead of it come to.
pub trailing : HealthPolicy → (wanted : Bool) → ℕ → List HealthResult → ℕ
trailing p wanted before [] = before
trailing p wanted before (r ∷ rs) =
    trailing p wanted (if same wanted (is_good r p) then suc before else 0) rs
  where
    same : Bool → Bool → Bool
    same true b = b
    same false b = not b

-- The verdict as it stands in a state.
pub record Verdict (p : HealthPolicy) (s : HealthState) : Type 0 where
  pub is_up :
      (s.status ≡ healthy)
      ↔ (0 < s.consecutive_successes)
        × (at_least_2 p.recovery_threshold ≤ℤ pos s.consecutive_successes)
  pub is_down :
      (s.status ≡ down)
      ↔ (0 < s.consecutive_failures)
        × (at_least_2 p.failure_threshold ≤ℤ pos s.consecutive_failures)

apply-Verdict : (p : HealthPolicy) (s : HealthState) (r : HealthResult) → Verdict p (apply s r p)
unfolding apply
apply-Verdict p s r = record {
  is_up = (λ e. ground arith, λ h. ground arith);
  is_down = (λ e. ground arith, λ h. ground arith);
}

observe-Verdict :
    (p : HealthPolicy) (s : HealthState) (rs : List HealthResult)
    → Verdict p s
    → Verdict p (observe p s rs)
unfolding observe
observe-Verdict p s [] v = v
observe-Verdict p s (r ∷ rs) v = observe-Verdict p (apply s r p) rs (apply-Verdict p s r)

observe-trailing :
    (p : HealthPolicy) (s : HealthState) (rs : List HealthResult)
    → ((observe p s rs).consecutive_successes ≡ trailing p true s.consecutive_successes rs)
      × ((observe p s rs).consecutive_failures ≡ trailing p false s.consecutive_failures rs)
unfolding observe trailing apply
observe-trailing p s [] = (refl, refl)
observe-trailing p s (r ∷ rs) =
    let ih = observe-trailing p (apply s r p) rs in
    elim (Bool-cases (is_good r p)) [
      | inl good ↦ (ground (arith, ih), ground (arith, ih))
      | inr bad ↦ (ground (arith, ih), ground (arith, ih))
    ]

observed-Verdict :
    (p : HealthPolicy) (s : HealthState) (r : HealthResult) (rs : List HealthResult)
    → Verdict p (observe p s (r ∷ rs))
unfolding observe
observed-Verdict p s r rs = observe-Verdict p (apply s r p) rs (apply-Verdict p s r)

-- After a history of at least one check under one policy, the proxy counts as healthy exactly when
-- the good results at its end reach the recovery threshold, and as down exactly when the bad
-- results at its end reach the failure threshold.
pub observe-status :
    (p : HealthPolicy) (s : HealthState) (r : HealthResult) (rs : List HealthResult)
    → let ups = trailing p true s.consecutive_successes (r ∷ rs) in
      let downs = trailing p false s.consecutive_failures (r ∷ rs) in
      let status = (observe p s (r ∷ rs)).status in
      ((status ≡ healthy) ↔ (0 < ups) × (at_least_2 p.recovery_threshold ≤ℤ pos ups))
      × ((status ≡ down) ↔ (0 < downs) × (at_least_2 p.failure_threshold ≤ℤ pos downs))
observe-status p s r rs =
    let t = observe-trailing p s (r ∷ rs) in
    let v = observed-Verdict p s r rs in
    let status = (observe p s (r ∷ rs)).status in
    (
      subst (λ n. (status ≡ healthy) ↔ (0 < n) × (at_least_2 p.recovery_threshold ≤ℤ pos n)) t.0
          v.is_up,
      subst (λ n. (status ≡ down) ↔ (0 < n) × (at_least_2 p.failure_threshold ≤ℤ pos n)) t.1
          v.is_down,
    )
