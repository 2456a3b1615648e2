-- ===== src/Examples/App.antt =====
-- A recovery whose world is the list of what was written to the ledger.
use digital_ocean_bot.Jobs.{OperationState}
use digital_ocean_bot.Prelude.{String, ◌≡◌, refl, inr, true, none, some, List, [], ◌∷◌}
use digital_ocean_bot.Prelude.Int.{pos}
use digital_ocean_bot.Errors.{other}
use digital_ocean_bot.Text.{concat}
use digital_ocean_bot.Provisioning
use digital_ocean_bot.Provisioning.Engine.{zero_run, step_failed}
use digital_ocean_bot.Workflow.{Deployment, State, provisioning}
use digital_ocean_bot.App.Recovery.{RecoveryItem, Env, recover_deployment, recover_operation}
use digital_ocean_bot.App.Recovery.Frozen.{recover_deployment-step_failed}
use digital_ocean_bot.App.Recovery.Evidence.{Settled, recover_operation-Settled}
use digital_ocean_bot.Examples.Steps.{deployment}
use digital_ocean_bot.Examples.Provisioning.{env as host}

abbrev World : Type 0
World = List (String × OperationState)

-- The first attempt to reach the host, which timed out.
abbrev first_attempt : Provisioning.Run
first_attempt = record zero_run { id = "1"; current_step = "ssh"; attempt = 1 }

abbrev timed_out : Provisioning.Run
timed_out = (step_failed host [] first_attempt (other "ssh timeout")).1

abbrev halted : Deployment
halted = record deployment { state = provisioning; current_step = "provision"; droplet_id = "d" }

abbrev env : Env World
env = record {
  now = λ w. pos 0;
  runtime = λ w a. none;
  resource_id = λ w id a. ("42", none);
  snapshot = λ w a. none;
  droplet_exists = λ w id. (w, true, none);
  set_state = λ w id a s. ((id, s) ∷ w, none);
  confirm_deleted = λ w a p. (w, none);
  get = λ w id a. (halted, none);
  provision_run = λ w a d. some timed_out;
  create_operation = λ w a d. none;
  freeze = λ w id a m. w;
  event = λ w id step s m. w;
  config = λ w id. none;
  workflow = λ w a. none;
  run = λ w d. (w, none);
}

abbrev item : RecoveryItem
item = record {
  id = "1";
  account_id = "a";
  kind = "CREATE_DROPLET";
  state = "unknown";
  updated_at = pos 0;
}

recover_deployment-step_failed_example : recover_deployment env [] item ≡ (
  env.event
      (env.freeze [] halted.id "a" (concat ("provision failed: " ∷ timed_out.last_error ∷ [])))
      halted.id
      "provision"
      State.failed
      "PROVISION_TERMINAL_FREEZE_V1",
  none,
)
recover_deployment-step_failed_example =
    recover_deployment-step_failed env host [] item [] first_attempt (other "ssh timeout") refl refl
      refl refl refl

recover_operation-Settled_example :
    Settled env
      (λ w. w)
      (λ w id. refl)
      (λ w id a s. inr refl)
      (λ w a p. refl)
      []
      item
      (recover_operation env [] item).0
recover_operation-Settled_example =
    recover_operation-Settled env (λ w. w) (λ w id. refl) (λ w id a s. inr refl) (λ w a p. refl) []
      item
