-- ===== src/Examples/TrafficGuard.antt =====
-- A detector over whole numbers, and a guard whose world is the list of disabled clients.
use digital_ocean_bot.Prelude.{
  ℕ, ◌+◌, ◌-◌, ◌*◌, max, String, ◌≡◌, refl, sym, ap, Option, none, some, List, [], ◌∷◌, ltb, leb,
}
use digital_ocean_bot.Prelude.Int.{pos, pos_part}
use digital_ocean_bot.Errors.{Error}
use digital_ocean_bot.TrafficGuard.{Float, disable, Sample, Baseline, Policy}
use digital_ocean_bot.TrafficGuard.Engine.{Env, check}
use digital_ocean_bot.TrafficGuard.Disable.{Stops, check-Stops}

-- Whole numbers, with seconds for nanoseconds.
abbrev whole : Float
whole = record {
  Number = ℕ;
  zero = 0;
  one = 1;
  two_tenths = 1;
  four = 4;
  add = λ a b. a + b;
  sub = λ a b. a - b;
  mul = λ a b. a * b;
  div = λ a b. a;
  max = λ a b. max a b;
  sqrt = λ a. a;
  lt = ltb;
  le = leb;
  of_int = pos_part;
  seconds = pos_part;
}

abbrev sample : ℕ → ℕ → Sample
sample bytes at = record { client_id = "c"; up_bytes = pos bytes; down_bytes = pos 0; at = pos at }

abbrev baseline : Baseline whole
baseline = record {
  client_id = "c";
  ewma_bytes_per_sec = 10;
  variance = 0;
  samples = pos 9;
  consecutive_anomalies = 2;
  updated_at = pos 0;
}

abbrev policy : Policy whole
policy = record {
  min_samples = pos 5;
  alpha = 1;
  sigma_multiplier = 4;
  min_bytes_per_sec = 100;
  hard_bytes_per_sec = 0;
  confirmations = pos 3;
  action = disable;
}

abbrev env : Env whole (List String)
env = record {
  traffic = λ w e. (w, pos 500, pos 0, none);
  last_sample = λ w id. (w, sample 0 0, none);
  save_sample = λ w s. (w, none);
  load_baseline = λ w id. (w, baseline, none);
  save_baseline = λ w b. (w, none);
  save_decision = λ w id d. (w, none);
  disabler = some (λ w id. (id ∷ w, none));
  now = λ w. pos 1;
}

-- The disabler adds the client to the world's list.
disables :
    (stop : List String → String → List String × Option Error)
    → env.disabler ≡ some stop
    → (w : List String) (id : String) → (stop w id).0 ≡ id ∷ w
disables stop e w id = ap (stopped w id) (sym e)
  where
    stopped :
        List String
        → String
        → Option (List String → String → List String × Option Error)
        → List String
    stopped w id none = []
    stopped w id (some f) = (f w id).0

check-Stops_example :
    Stops whole env
      (λ w. w)
      (λ w e. refl)
      (λ w id. refl)
      (λ w s. refl)
      (λ w id. refl)
      (λ w b. refl)
      (λ w id d. refl)
      disables
      []
      "c"
      (check whole env policy [] "c" "c@x")
check-Stops_example =
    check-Stops whole env (λ w. w) (λ w e. refl) (λ w id. refl) (λ w s. refl) (λ w id. refl)
      (λ w b. refl) (λ w id d. refl) disables policy [] "c" "c@x"
