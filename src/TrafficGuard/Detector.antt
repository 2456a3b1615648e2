-- ===== src/TrafficGuard/Detector.antt =====
-- internal/trafficguard/detector.go.
use digital_ocean_bot.Prelude.{
  suc, ◌-◌, ◌^◌, String, Bool, true, false, ◌&&◌, ◌||◌, not, if◌then◌else◌,
}
use digital_ocean_bot.Prelude.Int.{ℤ, pos, negsuc, ◌+ℤ◌, ◌-ℤ◌, ltb_ℤ, leb_ℤ, wrap64}
use digital_ocean_bot.TrafficGuard.{Float, other_action, Sample, Baseline, Policy, Decision}

-- Sample.Total, on int64
unfoldable pub total : Sample → ℤ
unfolding wrap64 ◌+ℤ◌
total s = wrap64 (s.up_bytes +ℤ s.down_bytes)

-- Time.Sub, which saturates.
unfoldable pub sub_time : ℤ → ℤ → ℤ
unfolding ◌-ℤ◌
sub_time a b =
    let d = a -ℤ b in
    if leb_ℤ (pos (2 ^ 63)) d
    then pos (2 ^ 63 - 1)
    else if ltb_ℤ d (negsuc (2 ^ 63 - 1))
    then negsuc (2 ^ 63 - 1)
    else d

unfoldable pub reason : Bool → Bool → String
reason s true = "confirmed_anomaly"
reason true false = "candidate_anomaly"
reason false false = "normal"

module _ (F : Float) where
  -- The defaults of a policy.
  unfoldable pub with_defaults : Policy F → Policy F
  with_defaults p = record p {
    alpha = if F.le p.alpha F.zero || F.lt F.one p.alpha then F.two_tenths else p.alpha;
    min_samples = if ltb_ℤ p.min_samples (pos 1) then pos 5 else p.min_samples;
    sigma_multiplier = if F.le p.sigma_multiplier F.zero then F.four else p.sigma_multiplier;
    confirmations = if ltb_ℤ p.confirmations (pos 1) then pos 3 else p.confirmations;
  }

  unfoldable pub update_baseline : Baseline F → F.Number → F.Number → ℤ → Bool → Baseline F
  unfolding ◌+ℤ◌
  update_baseline b rate alpha at learn =
      if not learn
      then b
      else let diff = F.sub rate b.ewma_bytes_per_sec in
        let first = leb_ℤ b.samples (pos 0) && leb_ℤ (pos 0) b.samples in
        record b {
          ewma_bytes_per_sec =
              if first then rate else F.add b.ewma_bytes_per_sec (F.mul alpha diff);
          variance =
              if first
              then F.zero
              else F.mul (F.sub F.one alpha) (F.add b.variance (F.mul (F.mul alpha diff) diff));
          samples = b.samples +ℤ pos 1;
          updated_at = at;
        }

  -- Decision{Reason: …}
  abbrev pub no_decision : String → Decision F
  no_decision why = record {
    suspicious = false;
    confirmed = false;
    rate_bytes_per_sec = F.zero;
    threshold = F.zero;
    reason = why;
    action = other_action;
  }

  -- The rate from which on a sample is suspicious.
  unfoldable pub threshold_of : Baseline F → Policy F → F.Number
  threshold_of b p =
      let dynamic =
        F.add b.ewma_bytes_per_sec (F.mul p.sigma_multiplier (F.sqrt (F.max b.variance F.zero))) in
      if leb_ℤ p.min_samples b.samples && F.lt p.min_bytes_per_sec dynamic
      then dynamic
      else p.min_bytes_per_sec

  unfoldable pub is_suspicious : F.Number → F.Number → Policy F → Bool
  is_suspicious rate threshold p =
      (F.le threshold rate && F.lt F.zero threshold)
      || (F.lt F.zero p.hard_bytes_per_sec && F.le p.hard_bytes_per_sec rate)

  -- Analyze once the interval and the counters are known to be good.
  unfoldable pub judge : F.Number → ℤ → Baseline F → Policy F → Baseline F × Decision F
  unfolding update_baseline reason
  judge rate at b p =
      let threshold = threshold_of b p in
      let suspicious = is_suspicious rate threshold p in
      let anomalies = if suspicious then suc b.consecutive_anomalies else 0 in
      let confirmed = leb_ℤ p.confirmations (pos anomalies) in
      (
        update_baseline (record b { consecutive_anomalies = anomalies }) rate p.alpha at
            (not suspicious),
        record {
          suspicious = suspicious;
          confirmed = confirmed;
          rate_bytes_per_sec = rate;
          threshold = threshold;
          reason = reason suspicious confirmed;
          action = p.action;
        },
      )

  unfoldable pub analyze : Sample → Sample → Baseline F → Policy F → Baseline F × Decision F
  unfolding with_defaults judge total sub_time wrap64 ◌-ℤ◌
  analyze previous current b policy =
      let p = with_defaults policy in
      let dt = F.seconds (sub_time current.at previous.at) in
      let delta = wrap64 (total current -ℤ total previous) in
      if F.le dt F.zero
      then (b, no_decision "invalid_interval")
      else if ltb_ℤ delta (pos 0)
      then (b, no_decision "counter_reset")
      else judge (F.div (F.of_int delta) dt) current.at b p
