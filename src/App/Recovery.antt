-- ===== src/App/Recovery.antt =====
-- internal/app/recovery.go over an interface of its queries, and RecoveryItem of internal/worker.
pub mod Frozen
pub mod Evidence
use digital_ocean_bot.Prelude.{
  String, Bool, true, false, ◌&&◌, ◌||◌, not, Option, none, some, List, [], ◌∷◌, str_eq, leb, ◌==◌,
  if◌then◌else◌,
}
use digital_ocean_bot.Prelude.Int.{ℤ, pos, ◌-ℤ◌, leb_ℤ}
use digital_ocean_bot.Errors.{Error, no_rows, other}
use digital_ocean_bot.Text.{concat}
use digital_ocean_bot.Text.Decimal.{itoa, atoi}
use digital_ocean_bot.Jobs.{OperationState, succeeded, unknown, failed as op_failed}
use digital_ocean_bot.Provisioning
use digital_ocean_bot.Provisioning.Engine.{is_before}
use digital_ocean_bot.Workflow.{Deployment, Request, State, failed}

pub record RecoveryItem : Type 0 where
  pub id : String
  pub account_id : String
  pub kind : String
  pub state : String
  pub updated_at : ℤ

-- The newest provider snapshot: its droplets' identifiers, none if the JSON does not decode.
pub record Snapshot : Type 0 where
  pub droplets : Option (List ℤ)
  pub created_at : ℤ

-- What the handler calls, over the world `W`: a query is its answer, or none if it fails.
pub record Env (W : Type 0) : Type 0 where
  pub now : W → ℤ
  pub runtime : W → String → Option Error
  -- operations.resource_id
  pub resource_id : W → String → String → String × Option Error
  pub snapshot : W → String → Option Snapshot
  pub droplet_exists : W → ℤ → W × Bool × Option Error
  pub set_state : W → String → String → OperationState → W × Option Error
  pub confirm_deleted : W → String → String → W × Option Error
  -- workflow.SQLStore.Get
  pub get : W → String → String → Deployment × Option Error
  pub provision_run : W → String → String → Option Provisioning.Run
  -- the newest operation whose key begins with deploy:<id>:create:, with its resource
  pub create_operation : W → String → String → Option (OperationState × String)
  -- `UPDATE deployments SET state='FAILED',current_step='done',last_error=$3`
  pub freeze : W → String → String → String → W
  pub event : W → String → String → State → String → W
  -- DeploymentConfigFromSnapshot and Workflow
  pub config : W → String → Option Error
  pub workflow : W → String → Option Error
  pub run : W → Deployment → W × Option Error

-- `time.Since(at) <= 2*time.Minute`
unfoldable pub is_fresh : ℤ → ℤ → Bool
unfolding ◌-ℤ◌
is_fresh now at = leb_ℤ (now -ℤ at) (pos 120000000000)

unfoldable pub listed : String → List ℤ → Bool
listed id [] = false
listed id (d ∷ ds) = str_eq (itoa d) id || listed id ds

-- What the newest snapshot says of a droplet, if it is fresh and decodes.
unfoldable pub local_evidence : ℤ → Option Snapshot → String → Option Bool
unfolding is_fresh listed
local_evidence now none id = none
local_evidence now (some s) id =
    if is_fresh now s.created_at
    then elim s.droplets [ none ↦ none | some ds ↦ some (listed id ds) ]
    else none

-- `ps == "FAILED"`
abbrev pub is_failed_run : Provisioning.State → Bool
is_failed_run Provisioning.failed = true
is_failed_run _ = false

abbrev pub is_op_failed : OperationState → Bool
is_op_failed op_failed = true
is_op_failed _ = false

abbrev pub is_op_unknown : OperationState → Bool
is_op_unknown unknown = true
is_op_unknown _ = false

module _ {W : Type 0} (env : Env W) where
  -- Whether the droplet exists: by the snapshot, or else by the provider.
  unfoldable pub find_out : W → String → String → W × Bool × Option Error
  unfolding local_evidence
  find_out w account_id provider_id =
      elim (local_evidence (env.now w) (env.snapshot w account_id) provider_id) [
        | some exists ↦ (w, exists, none)
        | none ↦ elim (atoi provider_id) [
          | none ↦ (w, false, some (other "invalid syntax"))
          | some id ↦ env.droplet_exists w id
        ]
      ]

  -- The state that an operation gets by what was found out.
  unfoldable pub verdict : String → Bool → OperationState
  verdict kind exists =
      if str_eq kind "CREATE_DROPLET" && exists || str_eq kind "DELETE_DROPLET" && not exists
      then succeeded
      else unknown

  -- Once the outcome is found out.
  unfoldable pub settle : W → RecoveryItem → String → Bool → W × Option Error
  settle w item provider_id exists =
      let (w1, err) = env.set_state w item.id item.account_id (verdict item.kind exists) in
      elim err [
        | some e ↦ (w1, some e)
        | none ↦
            if str_eq item.kind "DELETE_DROPLET" && not exists
            then env.confirm_deleted w1 item.account_id provider_id
            else (w1, none)
      ]

  unfoldable pub recover_operation : W → RecoveryItem → W × Option Error
  unfolding find_out settle verdict
  recover_operation w item = elim (env.runtime w item.account_id) [
    | some e ↦ (w, some e)
    | none ↦
        if not (str_eq item.kind "CREATE_DROPLET") && not (str_eq item.kind "DELETE_DROPLET")
        then (w, none)
        else let (provider_id, err) = env.resource_id w item.id item.account_id in
          elim err [
            | some e ↦ (w, some e)
            | none ↦
                if str_eq provider_id ""
                then (w, none)
                else let (w1, exists, err1) = find_out w item.account_id provider_id in
                  elim err1 [ some e ↦ (w1, some e) | none ↦ settle w1 item provider_id exists ]
          ]
  ]

  -- A deployment that is given up: the row and the event.
  abbrev pub give_up : W → RecoveryItem → Deployment → String → String → String → W
  give_up w item d step error mark =
      env.event (env.freeze w d.id item.account_id error) d.id step failed mark

  -- none goes on with the workflow; some w ends the recovery with that world.
  unfoldable pub provision_gate : W → RecoveryItem → Deployment → Option W
  provision_gate w item d =
      if str_eq d.current_step "provision" && not (str_eq d.droplet_id "")
      then elim (env.provision_run w item.account_id d.droplet_id) [
        | none ↦ none
        | some run ↦
            if is_failed_run run.state || leb 8 run.attempt
            then some (
                give_up w item d "provision" (concat ("provision failed: " ∷ run.last_error ∷ []))
                  "PROVISION_TERMINAL_FREEZE_V1")
            else if is_before (env.now w) run.next_retry_at
            then some w
            else none
      ]
      else none

  unfoldable pub create_gate : W → RecoveryItem → Deployment → Option W
  create_gate w item d =
      if str_eq d.current_step "create"
      then elim (env.create_operation w item.account_id d.id) [
        | none ↦ none
        | some (state, resource_id) ↦
            if is_op_failed state && str_eq resource_id ""
            then some (
                give_up w item d "create" "create operation failed; no provider resource created"
                  "CREATE_TERMINAL_FREEZE_V2")
            else if is_op_unknown state && str_eq resource_id ""
            then some w
            else none
      ]
      else none

  -- The rest, for a deployment that neither gate holds.
  unfoldable pub resume : W → RecoveryItem → Deployment → W × Option Error
  resume w item d = elim (env.config w d.id) [
    | some e ↦ (w, some e)
    | none ↦ elim (env.workflow w item.account_id) [ some e ↦ (w, some e) | none ↦ env.run w d ]
  ]

  unfoldable pub recover_deployment : W → RecoveryItem → W × Option Error
  unfolding provision_gate create_gate resume
  recover_deployment w item =
      let (d, err) = env.get w item.id item.account_id in
      elim err [
        | some no_rows ↦ (w, none)
        | some e ↦ (w, some e)
        | none ↦ elim (provision_gate w item d) [
          | some w' ↦ (w', none)
          | none ↦ elim (create_gate w item d) [ some w' ↦ (w', none) | none ↦ resume w item d ]
        ]
      ]
