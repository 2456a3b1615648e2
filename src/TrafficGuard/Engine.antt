-- ===== src/TrafficGuard/Engine.antt =====
-- internal/trafficguard/engine.go over its interfaces.
use digital_ocean_bot.Prelude.{String, Bool, true, false, ◌&&◌, Option, none, some, if◌then◌else◌}
use digital_ocean_bot.Prelude.Int.{ℤ}
use digital_ocean_bot.Errors.{Error, no_sample}
use digital_ocean_bot.TrafficGuard.{Float, Action, disable, Sample, Baseline, Policy, Decision}
use digital_ocean_bot.TrafficGuard.Detector.{analyze, no_decision}

-- Store, TrafficSource and Disabler over the world `W`, and the clock.
pub record Env (F : Float) (W : Type 0) : Type 0 where
  pub traffic : W → String → W × ℤ × ℤ × Option Error
  pub last_sample : W → String → W × Sample × Option Error
  pub save_sample : W → Sample → W × Option Error
  pub load_baseline : W → String → W × Baseline F × Option Error
  pub save_baseline : W → Baseline F → W × Option Error
  pub save_decision : W → String → Decision F → W × Option Error
  pub disabler : Option (W → String → W × Option Error)
  pub now : W → ℤ

abbrev pub is_disable : Action → Bool
is_disable disable = true
is_disable _ = false

module _ (F : Float) {W : Type 0} (env : Env F W) where
  abbrev pub Result : Type 0
  Result = W × Decision F × Option Error

  -- `if decision.Confirmed && decision.Action == ActionDisable && e.Disabler != nil { … }`
  unfoldable pub enforce : W → String → Decision F → Result
  enforce w id d = elim env.disabler [
    | none ↦ (w, d, none)
    | some stop ↦
        let (w', err) = stop w id in
        if d.confirmed && is_disable d.action then (w', d, err) else (w, d, none)
  ]

  -- The three saves.
  unfoldable pub record_all : W → String → Sample → Baseline F → Decision F → Result
  unfolding enforce
  record_all w id current b d =
      let (w1, err1) = env.save_sample w current in
      elim err1 [
        | some e ↦ (w1, d, some e)
        | none ↦
            let (w2, err2) = env.save_baseline w1 b in
            elim err2 [
              | some e ↦ (w2, d, some e)
              | none ↦
                  let (w3, err3) = env.save_decision w2 id d in
                  elim err3 [ some e ↦ (w3, d, some e) | none ↦ enforce w3 id d ]
            ]
      ]

  -- What follows the load of the last sample.
  unfoldable pub compare : Policy F → W → String → Sample → Sample → Result
  unfolding record_all
  compare policy w id previous current =
      let (w1, b, err) = env.load_baseline w id in
      elim err [
        | some e ↦ (w1, no_decision F "", some e)
        | none ↦
            let (b', d) = analyze F previous current (record b { client_id = id }) policy in
            record_all w1 id current b' d
      ]

  -- The first sample of a client is saved, and judged against nothing.
  unfoldable pub no_previous : W → Sample → Error → Result
  no_previous w current no_sample =
      let (w', err) = env.save_sample w current in (w', no_decision F "", err)
  no_previous w current e = (w, no_decision F "", some e)

  unfoldable pub check : Policy F → W → String → String → Result
  unfolding compare no_previous
  check policy w client_id email =
      let (w1, up, down, err) = env.traffic w email in
      elim err [
        | some e ↦ (w1, no_decision F "", some e)
        | none ↦
            let current : Sample = record {
              client_id = client_id;
              up_bytes = up;
              down_bytes = down;
              at = env.now w1;
            } in
            let (w2, previous, err2) = env.last_sample w1 client_id in
            elim err2 [
              | some e ↦ no_previous w2 current e
              | none ↦ compare policy w2 client_id previous current
            ]
      ]
