-- ===== src/TrafficGuard.antt =====
-- internal/trafficguard: which client's traffic is an anomaly.
pub mod Detector
pub mod Engine
pub mod Laws
pub mod Disable
use digital_ocean_bot.Prelude.{ℕ, String, Bool}
use digital_ocean_bot.Prelude.Int.{ℤ}

-- A float64 and the operations that the detector uses; nothing is assumed of them.
pub record Float : Type 1 where
  pub Number : Type 0
  pub zero : Number
  pub one : Number
  pub two_tenths : Number
  pub four : Number
  pub add : Number → Number → Number
  pub sub : Number → Number → Number
  pub mul : Number → Number → Number
  pub div : Number → Number → Number
  pub max : Number → Number → Number
  pub sqrt : Number → Number
  pub lt : Number → Number → Bool
  pub le : Number → Number → Bool
  -- float64(n) of an int64
  pub of_int : ℤ → Number
  -- Duration.Seconds
  pub seconds : ℤ → Number

-- Every other text counts as `other_action`.
pub data Action : Type 0 where
  log alert disable other_action : Action

pub record Sample : Type 0 where
  pub client_id : String
  pub up_bytes : ℤ
  pub down_bytes : ℤ
  pub at : ℤ

module _ (F : Float) where
  pub record Baseline : Type 0 where
    pub client_id : String
    pub ewma_bytes_per_sec : F.Number
    pub variance : F.Number
    pub samples : ℤ
    pub consecutive_anomalies : ℕ
    pub updated_at : ℤ

  pub record Policy : Type 0 where
    pub min_samples : ℤ
    pub alpha : F.Number
    pub sigma_multiplier : F.Number
    pub min_bytes_per_sec : F.Number
    pub hard_bytes_per_sec : F.Number
    pub confirmations : ℤ
    pub action : Action

  pub record Decision : Type 0 where
    pub suspicious : Bool
    pub confirmed : Bool
    pub rate_bytes_per_sec : F.Number
    pub threshold : F.Number
    pub reason : String
    pub action : Action
