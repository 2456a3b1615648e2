-- ===== src/Resilience/Circuit/Laws.antt =====
-- The breaker as a state machine: what every history of calls keeps.
use digital_ocean_bot.Prelude.{
  suc, ◌+◌, ◌≡◌, refl, ◌∙◌, ◌⊎◌, true, some, List, [], ◌∷◌, ◌++◌, map, arith, length,
}
use digital_ocean_bot.Prelude.Int.{ℤ, pos, ◌-ℤ◌, ◌≤ℤ◌, ltb_ℤ}
use digital_ocean_bot.Errors.{circuit_open}
use digital_ocean_bot.Resilience.Circuit.{
  Circuit, CircuitState, unset, closed, open_, half_open, allow, success, failure, threshold,
}

-- A method call, with the time that it reads.
pub data Call : Type 0 where
  allows fails : ℤ → Call
  succeeds : Call

pub step : Circuit → Call → Circuit
step c (allows now) = (allow c now).0
step c (fails now) = failure c now
step c succeeds = success c

pub run : Circuit → List Call → Circuit
run c [] = c
run c (e ∷ es) = run (step c e) es

-- Whether the breaker has tripped since its last success.
abbrev pub Tripped : CircuitState → Type 0
Tripped s = (s ≡ open_) ⊎ (s ≡ half_open)

pub record Inv (c : Circuit) : Type 0 where
  pub below : (c.state ≡ closed) ⊎ (c.state ≡ unset) → pos (suc c.failures) ≤ℤ threshold c
  pub reached : Tripped c.state → threshold c ≤ℤ pos c.failures

step-Inv : (c : Circuit) (e : Call) → Inv c → Inv (step c e)
unfolding step allow success failure
step-Inv c (allows now) v = ground arith
step-Inv c (fails now) v = ground arith
step-Inv c succeeds v = ground arith

-- Every history of calls on a breaker keeps this: in the states closed and unset the failures
-- since the last success are below the threshold, in the states open and half-open they have
-- reached it.
pub run-Inv : (c : Circuit) (es : List Call) → Inv c → Inv (run c es)
unfolding run
run-Inv c [] v = v
run-Inv c (e ∷ es) v = run-Inv (step c e) es (step-Inv c e v)

failures-run :
    (c : Circuit) (ts : List ℤ) → (run c (map fails ts)).failures ≡ c.failures + length ts
unfolding run step failure
failures-run c [] = omega arith
failures-run c (t ∷ ts) = ground (arith, failures-run (failure c t) ts)

policy-step : (c : Circuit) (e : Call) → (step c e).policy ≡ c.policy
unfolding step allow success failure
policy-step c e = ground arith

policy-run : (c : Circuit) (es : List Call) → (run c es).policy ≡ c.policy
unfolding run
policy-run c [] = refl
policy-run c (e ∷ es) = policy-run (step c e) es ∙ policy-step c e

run-append : (c : Circuit) (xs ys : List Call) → run c (xs ++ ys) ≡ run (run c xs) ys
unfolding run
run-append c [] ys = refl
run-append c (x ∷ xs) ys = run-append (step c x) xs ys

-- After failures in a row, as many as the threshold or more, a breaker refuses a call, and stays
-- as it is, at every time before its open duration since the last failure has passed.
pub allow-run_fails :
    (c : Circuit) (ts : List ℤ) (t now : ℤ)
    → threshold c ≤ℤ pos (suc (length ts))
    → ltb_ℤ (now -ℤ t) c.policy.open_duration ≡ true
    → let c' = run c (map fails ts ++ fails t ∷ []) in allow c' now ≡ (c', some circuit_open)
unfolding run step failure allow
allow-run_fails c ts t now reached early =
    rw (run-append c (map fails ts) (fails t ∷ []))
      (ground (arith, failures-run c ts, policy-run c (map fails ts)))
