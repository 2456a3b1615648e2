-- ===== src/Scheduler.antt =====
-- internal/scheduler: when an account's next droplet is built.
pub mod Planner
pub mod Store
pub mod Engine
pub mod Guards
use digital_ocean_bot.Prelude.{String, Option, Bool}
use digital_ocean_bot.Prelude.Int.{ℤ}

-- A row of the table schedules, its lease with it.
pub record Schedule : Type 0 where
  pub id : String
  pub account_id : String
  pub profile_id : String
  pub enabled : Bool
  pub interval : ℤ
  pub batch_size : ℤ
  pub max_concurrent : ℤ
  pub next_run_at : ℤ
  pub last_run_at : Option ℤ
  pub lease_until : Option ℤ
