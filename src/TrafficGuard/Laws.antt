-- ===== src/TrafficGuard/Laws.antt =====
-- What the detector learns from, and when it acts.
use digital_ocean_bot.TrafficGuard.Detector.{
  threshold_of, total, sub_time, is_suspicious, reason, with_defaults, update_baseline, judge,
  analyze,
}
use digital_ocean_bot.Prelude.{
  ℕ, suc, ◌≡◌, refl, sym, ap, ◌∙◌, ◌≢◌, inl, inr, true, false, List, [], ◌∷◌, arith, str_eq,
  if◌then◌else◌, Bool-cases,
}
use digital_ocean_bot.Prelude.Int.{ℤ, pos, ◌-ℤ◌, ◌≤ℤ◌, ltb_ℤ, leb_ℤ, wrap64}
use digital_ocean_bot.TrafficGuard.{Float, Sample, Baseline, Policy, Decision}

module _ (F : Float) where
  -- A baseline but for its count of anomalies.
  pub record SameLearning (b b' : Baseline F) : Type 0 where
    pub client : b'.client_id ≡ b.client_id
    pub ewma : b'.ewma_bytes_per_sec ≡ b.ewma_bytes_per_sec
    pub variance : b'.variance ≡ b.variance
    pub samples : b'.samples ≡ b.samples
    pub updated : b'.updated_at ≡ b.updated_at

  -- How a decision moves the count of anomalies in a row.
  pub counted : Decision F → ℕ → ℕ
  counted d n = if d.suspicious then suc n else if str_eq d.reason "normal" then 0 else n

  judge_suspicious :
      (rate : F.Number) (at : ℤ) (b : Baseline F) (p : Policy F)
      → (judge F rate at b p).1.suspicious ≡ true
      → SameLearning b (judge F rate at b p).0
  unfolding judge update_baseline
  judge_suspicious rate at b p e = record {
    client = ground arith;
    ewma = ground arith;
    variance = ground arith;
    samples = ground arith;
    updated = ground arith;
  }

  judge-counted :
      (rate : F.Number) (at : ℤ) (b : Baseline F) (p : Policy F)
      → pos 1 ≤ℤ p.confirmations
      → (judge F rate at b p).0.consecutive_anomalies
        ≡ counted (judge F rate at b p).1 b.consecutive_anomalies
  unfolding judge update_baseline counted reason
  judge-counted rate at b p h = elim (Bool-cases (is_suspicious F rate (threshold_of F b p) p)) [
    | inl odd ↦ ground arith
    | inr normal ↦
        let unconfirmed : leb_ℤ p.confirmations (pos 0) ≡ false = ground (arith, h) in
        rw (normal, judge, update_baseline, counted, unconfirmed, normal, reason) refl
  ]

  judge_normal :
      (rate : F.Number) (at : ℤ) (b : Baseline F) (p : Policy F)
      → pos 1 ≤ℤ p.confirmations
      → (judge F rate at b p).1.suspicious ≡ false
      → str_eq (judge F rate at b p).1.reason "normal" ≡ true
  unfolding judge reason
  judge_normal rate at b p h normal =
      let unconfirmed : leb_ℤ p.confirmations (pos 0) ≡ false = ground (arith, h) in
      rw (normal, judge, unconfirmed, normal, reason) refl

  some_confirmations : (p : Policy F) → pos 1 ≤ℤ (with_defaults F p).confirmations
  unfolding with_defaults
  some_confirmations p = ground arith

  analyze-counted :
      (previous current : Sample) (b : Baseline F) (p : Policy F)
      → (analyze F previous current b p).0.consecutive_anomalies
        ≡ counted (analyze F previous current b p).1 b.consecutive_anomalies
  unfolding analyze counted
  analyze-counted previous current b p =
      let q = with_defaults F p in
      let dt = F.seconds (sub_time current.at previous.at) in
      let delta = wrap64 (total current -ℤ total previous) in
      elim (Bool-cases (F.le dt F.zero)) [
        | inl bad ↦ rw (bad, analyze) refl
        | inr later ↦ elim (Bool-cases (ltb_ℤ delta (pos 0))) [
          | inl reset ↦ rw (later, analyze, reset) refl
          | inr more ↦
              rw (later, analyze, more)
                (judge-counted (F.div (F.of_int delta) dt) current.at b q (some_confirmations p))
        ]
      ]

  same : (b : Baseline F) → SameLearning b b
  same b = record { client = refl; ewma = refl; variance = refl; samples = refl; updated = refl }

  -- Every sample whose reason is not "normal" (an anomaly, a bad interval, a counter that was
  -- reset) leaves the learnt part of the baseline as it was, whatever the arithmetic of the
  -- numbers.
  pub analyze-SameLearning :
      (previous current : Sample) (b : Baseline F) (p : Policy F)
      → str_eq (analyze F previous current b p).1.reason "normal" ≡ false
      → SameLearning b (analyze F previous current b p).0
  unfolding analyze
  analyze-SameLearning previous current b p e =
      let q = with_defaults F p in
      let dt = F.seconds (sub_time current.at previous.at) in
      let delta = wrap64 (total current -ℤ total previous) in
      let rate = F.div (F.of_int delta) dt in
      elim (Bool-cases (F.le dt F.zero)) [
        | inl bad ↦ rw (bad, analyze) (same b)
        | inr later ↦ elim (Bool-cases (ltb_ℤ delta (pos 0))) [
          | inl reset ↦ rw (later, analyze, reset) (same b)
          | inr more ↦
              rw (later, analyze, more)
                (elim (Bool-cases (judge F rate current.at b q).1.suspicious) [
                  | inl odd ↦ judge_suspicious rate current.at b q odd
                  | inr normal ↦
                      let n = judge_normal rate current.at b q (some_confirmations p) normal in
                      let e' = rw (later, analyze, more) at e in absurd (ne (sym n ∙ e'))
                ])
        ]
      ]
    where
      ne : true ≢ false
      ne e = ground arith

  -- Every sample is judged against the one before it.
  pub observe : Sample → Baseline F → Policy F → List Sample → Baseline F × List (Decision F)
  observe previous b p [] = (b, [])
  observe previous b p (s ∷ ss) =
      let (b1, d) = analyze F previous s b p in let (b2, ds) = observe s b1 p ss in (b2, d ∷ ds)

  -- The decisions at the end that are suspicious, added to what was counted before.
  pub tally : ℕ → List (Decision F) → ℕ
  tally n [] = n
  tally n (d ∷ ds) = tally (counted d n) ds

  -- Over every history of samples the count of anomalies in the baseline is the number of
  -- suspicious decisions since the last normal one, where a decision on a bad interval or a reset
  -- counter counts for neither.
  pub observe-tally :
      (previous : Sample) (b : Baseline F) (p : Policy F) (samples : List Sample)
      → (observe previous b p samples).0.consecutive_anomalies
        ≡ tally b.consecutive_anomalies (observe previous b p samples).1
  unfolding observe tally
  observe-tally previous b p [] = refl
  observe-tally previous b p (s ∷ ss) =
      observe-tally s (analyze F previous s b p).0 p ss
      ∙ ap (λ n. tally n (observe s (analyze F previous s b p).0 p ss).1)
          (analyze-counted previous s b p)
