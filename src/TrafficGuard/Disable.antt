-- ===== src/TrafficGuard/Disable.antt =====
-- When the guard disables a client.
use digital_ocean_bot.Prelude.{
  String, ◌≡◌, refl, ap, ◌∙◌, ◌⊎◌, inl, inr, true, ◌&&◌, Option, some, List, ◌∷◌, arith, Bool-cases,
  Option-cases,
}
use digital_ocean_bot.Errors.{Error, no_sample}
use digital_ocean_bot.TrafficGuard.{Float, Sample, Baseline, Policy, Decision}
use digital_ocean_bot.TrafficGuard.Detector.{analyze}
use digital_ocean_bot.TrafficGuard.Engine.{
  Env, Result, is_disable, enforce, record_all, compare, no_previous, check,
}

module _ (F : Float) {W : Type 0} (env : Env F W) (stops : W → List String)
    (reads : (w : W) (email : String) → stops (env.traffic w email).0 ≡ stops w)
    (lasts : (w : W) (id : String) → stops (env.last_sample w id).0 ≡ stops w)
    (samples : (w : W) (s : Sample) → stops (env.save_sample w s).0 ≡ stops w)
    (loads : (w : W) (id : String) → stops (env.load_baseline w id).0 ≡ stops w)
    (baselines : (w : W) (b : Baseline F) → stops (env.save_baseline w b).0 ≡ stops w)
    (decisions : (w : W) (id : String) (d : Decision F)
      → stops (env.save_decision w id d).0 ≡ stops w)
    (disables : (stop : W → String → W × Option Error)
      → env.disabler ≡ some stop
      → (w : W) (id : String) → stops (stop w id).0 ≡ id ∷ stops w) where
  -- No client is disabled, or this one is by the decision that is returned.
  abbrev pub Stops : W → String → Result F env → Type 0
  Stops w id r =
      (stops r.0 ≡ stops w)
      ⊎ (stops r.0 ≡ id ∷ stops w) × (r.1.confirmed ≡ true) × (is_disable r.1.action ≡ true)

  -- A step that disables nobody comes first.
  after :
      (w w1 : W) (id : String) (r : Result F env)
      → stops w1 ≡ stops w
      → Stops w1 id r
      → Stops w id r
  after w w1 id r same (inl quiet) = inl (quiet ∙ same)
  after w w1 id r same (inr (one, c, a)) = inr (one ∙ ap (λ l. id ∷ l) same, c, a)

  enforce-Stops : (w : W) (id : String) (d : Decision F) → Stops w id (enforce F env w id d)
  unfolding enforce
  enforce-Stops w id d = elim (Option-cases env.disabler) [
    | inl nobody ↦ rw (nobody, enforce) (inl refl)
    | inr (stop, set) ↦ elim (Bool-cases (d.confirmed && is_disable d.action)) [
      | inl both ↦
          rw (set, enforce, both)
            (inr (disables stop set w id, ground (arith, both), ground (arith, both)))
      | inr no_action ↦ rw (set, enforce, no_action) (inl refl)
    ]
  ]

  record_all-Stops :
      (w : W) (id : String) (s : Sample) (b : Baseline F) (d : Decision F)
      → Stops w id (record_all F env w id s b d)
  unfolding record_all
  record_all-Stops w id s b d =
      let r1 = env.save_sample w s in
      let r2 = env.save_baseline r1.0 b in
      let r3 = env.save_decision r2.0 id d in
      elim (Option-cases r1.1) [
        | inr (e, lost) ↦ rw (lost, record_all) (inl (samples w s))
        | inl saved1 ↦ elim (Option-cases r2.1) [
          | inr (e, lost) ↦ rw (saved1, record_all, lost) (inl (baselines r1.0 b ∙ samples w s))
          | inl saved2 ↦ elim (Option-cases r3.1) [
            | inr (e, lost) ↦
                rw (saved1, record_all, saved2, lost)
                  (inl (decisions r2.0 id d ∙ baselines r1.0 b ∙ samples w s))
            | inl saved3 ↦
                rw (saved1, record_all, saved2, saved3)
                  (after w r3.0 id (enforce F env r3.0 id d)
                    (decisions r2.0 id d ∙ baselines r1.0 b ∙ samples w s)
                    (enforce-Stops r3.0 id d))
          ]
        ]
      ]

  compare-Stops :
      (p : Policy F) (w : W) (id : String) (previous current : Sample)
      → Stops w id (compare F env p w id previous current)
  unfolding compare
  compare-Stops p w id previous current =
      let r = env.load_baseline w id in
      elim (Option-cases r.2) [
        | inr (e, lost) ↦ rw (lost, compare) (inl (loads w id))
        | inl loaded ↦
            let q = analyze F previous current (record r.1 { client_id = id }) p in
            rw (loaded, compare)
              (after w r.0 id (record_all F env r.0 id current q.0 q.1) (loads w id)
                (record_all-Stops r.0 id current q.0 q.1))
      ]

  no_previous-Stops :
      (w : W) (id : String) (s : Sample) (e : Error) → Stops w id (no_previous F env w s e)
  unfolding no_previous
  no_previous-Stops w id s no_sample = inl (samples w s)
  no_previous-Stops w id s _ = inl refl

  -- One check of the traffic guard disables no client, or the checked one, once, by a confirmed
  -- decision whose action is to disable; this holds for every store, source and disabler in which
  -- only the disabler adds to the list of disabled clients.
  pub check-Stops :
      (p : Policy F) (w : W) (id email : String) → Stops w id (check F env p w id email)
  unfolding check
  check-Stops p w id email =
      let r = env.traffic w email in
      let current : Sample = record {
        client_id = id;
        up_bytes = r.1;
        down_bytes = r.2;
        at = env.now r.0;
      } in
      let l = env.last_sample r.0 id in
      let same = lasts r.0 id ∙ reads w email in
      elim (Option-cases r.3) [
        | inr (e, lost) ↦ rw (lost, check) (inl (reads w email))
        | inl got ↦ elim (Option-cases l.2) [
          | inl there ↦
              rw (got, check, there)
                (after w l.0 id (compare F env p l.0 id l.1 current) same
                  (compare-Stops p l.0 id l.1 current))
          | inr (e, lost) ↦
              rw (got, check, lost)
                (after w l.0 id (no_previous F env l.0 current e) same
                  (no_previous-Stops l.0 id current e))
        ]
      ]
