-- ===== src/Droplets.antt =====
-- internal/droplets: the executor of provider mutations, the reconciler and the lifecycle.
pub mod Refusal
pub mod Executor
pub mod Reconcile
pub mod Requests
pub mod Once
pub mod Ledger
pub mod Adoption
pub mod Lifecycle
use digital_ocean_bot.Prelude.{ℕ, String, List, Option, Bool}
use digital_ocean_bot.Prelude.Int.{ℤ}
use digital_ocean_bot.Errors.{Error}
use digital_ocean_bot.Jobs.Store.{JobsDb}
use digital_ocean_bot.DigitalOcean.{Droplet, Resource, CreateDropletRequest}

-- droplets.Profile
pub record Profile : Type 0 where
  pub name : String
  pub region : String
  pub regions : List String
  pub size : String
  pub image : String
  pub lifetime : ℤ
  pub provision : String
  pub identity_tag : String
  pub ssh_key_id : ℤ

-- What the executor's calls change: the ledger, the requests that reached the provider, newest
-- first, and how often the egress was checked and the provider's droplets were listed.
pub record World : Type 0 where
  pub jobs : JobsDb
  pub created : List CreateDropletRequest
  pub deleted : List ℤ
  pub checks : ℕ
  pub listings : ℕ

-- The LookupProvider interface; an answer depends on how many listings came before it.
pub record LookupProvider : Type 0 where
  pub list_droplets : ℕ → List Resource × Option Error
  pub list_droplet_models : ℕ → List Droplet × Option Error

-- The Executor's fields other than the store. A provider's answer may depend on every request
-- before it. `gate` is the verdict of AllowMutation, where a gate is set.
pub record Env : Type 0 where
  pub gate : Option (Option Error)
  pub egress_check : Option (ℕ → Option Error)
  pub create_droplet : List CreateDropletRequest → CreateDropletRequest → Droplet × Option Error
  pub delete_droplet : List ℤ → ℤ → Option Error
  pub lookup : Option LookupProvider
