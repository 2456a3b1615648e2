-- ===== src/Examples/Resilience.antt =====
-- Delays, a breaker and a retrier on concrete policies.
use digital_ocean_bot.Prelude.{
  ℕ, suc, ◌+◌, ◌*◌, ◌≤◌, ◌≡◌, refl, none, some, [], ◌∷◌, arith, ltb, if◌then◌else◌,
}
use digital_ocean_bot.Prelude.Int.{pos}
use digital_ocean_bot.Errors.{other, HttpError}
use digital_ocean_bot.Resilience.Policy.{delay, default_policy, second}
use digital_ocean_bot.Resilience.Delay.{delay-min}
use digital_ocean_bot.Resilience.Circuit.{Circuit, closed}
use digital_ocean_bot.Resilience.Circuit.Laws.{fails, allows, succeeds, run, Inv, run-Inv}
use digital_ocean_bot.Resilience.Retry.{Env, do_}
use digital_ocean_bot.Resilience.Retry.Laws.{calls-do}

delay-min_example : delay default_policy (pos 4) ≡ pos (8 * second)
delay-min_example =
    delay-min default_policy 3 second (30 * second) refl refl (omega arith) (omega arith)
      (omega arith)

tested : Circuit
tested = record {
  state = closed;
  failures = 0;
  opened_at = pos 0;
  policy = record default_policy { failure_threshold = pos 2; open_duration = pos 60 };
}

run-Inv_example : Inv (run tested (fails (pos 1) ∷ allows (pos 2) ∷ succeeds ∷ []))
unfolding tested
run-Inv_example = run-Inv tested (fails (pos 1) ∷ allows (pos 2) ∷ succeeds ∷ []) (ground arith)

-- A function that fails twice, on a world that counts its calls.
counted : Env ℕ
counted = record {
  call = λ n. (suc n, if ltb n 2 then some (other "busy") else none);
  now = λ n. pos n;
  classify = none;
  pause = λ d n. (n, none);
}

calls-do_example : (do_ counted default_policy 0 none).0 ≤ 0 + 5
unfolding counted
calls-do_example = calls-do counted (λ n. n) (λ n. refl) (λ d n. refl) default_policy 0 none

full_region : HttpError
full_region = record {
  status = pos 422;
  retry_after = pos 0;
  path = "/v2/droplets";
  code = "unprocessable_entity";
  message = "Size is not available in this region.";
}
