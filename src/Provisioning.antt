-- ===== src/Provisioning.antt =====
-- internal/provisioning: the run that turns a fresh droplet into a panel host.
pub mod Engine
pub mod Store
pub mod Progress
pub mod Budget
use digital_ocean_bot.Prelude.{ℕ, String, Option, Bool}
use digital_ocean_bot.Prelude.Int.{ℤ}
use digital_ocean_bot.Errors.{Error}

pub data State : Type 0 where
  pending waiting_ssh bootstrapping installing_panel importing_database : State
  verifying completed failed : State

pub record Target : Type 0 where
  pub account_id : String
  pub droplet_id : String
  pub host : String
  pub port : ℤ
  pub user : String
  pub key_secret_ref : String

pub record Run : Type 0 where
  pub id : String
  pub account_id : String
  pub droplet_id : String
  pub state : State
  pub current_step : String
  pub attempt : ℕ
  pub last_error : String
  pub next_retry_at : Option ℤ
  pub created_at : ℤ
  pub updated_at : ℤ

pub record Plan : Type 0 where
  pub bootstrap : String
  pub install_panel : String
  pub verify : String

-- The engine's Store, SecretReader and CommandRunner over the world `W` that their calls change. A
-- secret is its text; the clock is read from the world.
pub record Env (W : Type 0) : Type 0 where
  pub reserve : W → Run → W × Run × Bool × Option Error
  pub update : W → Run → W × Option Error
  pub get_secret : W → String → String → W × String × Option Error
  pub wait : W → Target → String → W × Option Error
  pub run_command : W → Target → String → String → W × Option Error
  pub now : W → ℤ
  -- err.Error()
  pub error_text : Error → String
