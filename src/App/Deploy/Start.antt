-- ===== src/App/Deploy/Start.antt =====
-- StartDeployment of internal/app/deploy.go over an interface of what it calls, and what it refuses
-- before anything is reserved.
use digital_ocean_bot.Prelude.{String, Bool, ◌||◌, not, Option, none, some, str_eq, if◌then◌else◌}
use digital_ocean_bot.Errors.{Error, profile_disabled}
use digital_ocean_bot.Sql.{Result, ok, fail}
use digital_ocean_bot.Workflow.{Deployment, Request}
use digital_ocean_bot.Workflow.Table.{
  ProfileSnapshot, PersistentProfile, blank_deployment, zero_snapshot,
}
use digital_ocean_bot.App.Deploy.{Preferences, Catalog, Draws, effective}

-- A call that only reads gives its answer; one that writes gives the world after it as well.
pub record Env (W : Type 0) : Type 0 where
  pub maintain : W → String → W × Option Error
  pub profile : W → String → Result PersistentProfile
  pub reserve : W → Request → W × Deployment × Bool × Option Error
  -- the account's row, its regions shuffled
  pub preferences : W → String → Result Preferences
  pub catalog : W → String → Option Catalog
  pub draws : W → Draws
  pub attach : W → String → ProfileSnapshot → W × Option Error
  pub snapshot : W → String → Result ProfileSnapshot
  pub ssh_identity : W → String → Deployment → ProfileSnapshot → W × Option Error
  pub config : W → String → Option Error
  pub workflow : W → String → Option Error
  pub run : W → Request → W × Deployment × Option Error

abbrev pub config_or_zero : PersistentProfile → ProfileSnapshot
config_or_zero p = elim p.config [ none ↦ zero_snapshot | some c ↦ c ]

abbrev pub request_of : String → String → String → PersistentProfile → Request
request_of deployment_id account_id profile_id p = record {
  deployment_id = deployment_id;
  account_id = account_id;
  profile_id = profile_id;
  client_count = (config_or_zero p).client_count;
  inbound_id = (config_or_zero p).inbound_id;
  email_prefix = (config_or_zero p).email_prefix;
}

module _ {W : Type 0} (env : Env W) (account_id profile_id : String) where
  -- The identity is there: the run itself.
  unfoldable pub start_run : W → PersistentProfile → Deployment → W × Deployment × Option Error
  start_run w p d = elim (env.config w d.id) [
    | some e ↦ (w, d, some e)
    | none ↦ elim (env.workflow w account_id) [
      | some e ↦ (w, d, some e)
      | none ↦ env.run w (request_of d.id account_id profile_id p)
    ]
  ]

  -- The snapshot is attached: the SSH identity.
  unfoldable pub start_identity : W → PersistentProfile → Deployment → W × Deployment × Option Error
  start_identity w p d = elim (env.snapshot w d.id) [
    | fail e ↦ (w, d, some e)
    | ok snap ↦
        let (w1, err) = env.ssh_identity w account_id d snap in
        elim err [ some e ↦ (w1, d, some e) | none ↦ start_run w1 p d ]
  ]

  -- The deployment is reserved: what it will be is drawn and attached.
  unfoldable pub start_reserved : W → PersistentProfile → Deployment → W × Deployment × Option Error
  start_reserved w p d = elim (env.preferences w account_id) [
    | fail e ↦ (w, d, some e)
    | ok prefs ↦
        let drawn = effective prefs (env.catalog w account_id) (env.draws w) (config_or_zero p) in
        let (w1, err) = env.attach w d.id drawn in
        elim err [ some e ↦ (w1, d, some e) | none ↦ start_identity w1 p d ]
  ]

  -- The profile is the account's own, and enabled.
  unfoldable pub start_enabled : W → PersistentProfile → W × Deployment × Option Error
  start_enabled w p =
      let (w1, d, created, err) = env.reserve w (request_of "" account_id profile_id p) in
      elim err [ some e ↦ (w1, d, some e) | none ↦ start_reserved w1 p d ]

  unfoldable pub start_deployment : W → W × Deployment × Option Error
  start_deployment w =
      let (w1, err) = env.maintain w account_id in
      elim err [
        | some e ↦ (w1, blank_deployment, some e)
        | none ↦ elim (env.profile w1 profile_id) [
          | fail e ↦ (w1, blank_deployment, some e)
          | ok p ↦
              if not (str_eq p.account_id account_id) || not p.enabled
              then (w1, blank_deployment, some profile_disabled)
              else start_enabled w1 p
        ]
      ]
