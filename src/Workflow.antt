-- ===== src/Workflow.antt =====
-- internal/workflow: a deployment's data, the engine that drives it and its production steps.
pub mod Engine
pub mod Order
pub mod Run
pub mod Runtime
pub mod Waiter
pub mod Table
use digital_ocean_bot.Prelude.{ℕ, String, Option, Bool}
use digital_ocean_bot.Prelude.Int.{ℤ}
use digital_ocean_bot.Errors.{Error}

pub data State : Type 0 where
  planned creating waiting_resource provisioning importing_database configuring_panel : State
  registering_clients registering_traffic ready failed : State

pub record Deployment : Type 0 where
  pub id : String
  pub account_id : String
  pub profile_id : String
  pub droplet_id : String
  pub provider_id : String
  pub state : State
  pub current_step : String
  pub attempt : ℕ
  pub last_error : String
  pub created_at : ℤ
  pub updated_at : ℤ

pub record Request : Type 0 where
  pub deployment_id : String
  pub account_id : String
  pub profile_id : String
  pub client_count : ℤ
  pub inbound_id : ℤ
  pub email_prefix : String

-- The Store interface over the world `W` that its calls change.
pub record Store (W : Type 0) : Type 0 where
  pub reserve : W → Request → W × Deployment × Bool × Option Error
  pub update : W → Deployment → W × Option Error
  pub event : W → String → String → State → String → W × Option Error

-- The Steps interface.
pub record Steps (W : Type 0) : Type 0 where
  pub create : W → Deployment → W × Deployment × Option Error
  pub wait_resource : W → Deployment → W × Deployment × Option Error
  pub provision : W → Deployment → W × Deployment × Option Error
  pub import_database : W → Deployment → W × Deployment × Option Error
  pub configure_panel : W → Deployment → W × Deployment × Option Error
  pub register_clients : W → Deployment → Request → W × Deployment × Option Error
  pub register_traffic : W → Deployment → W × Deployment × Option Error
