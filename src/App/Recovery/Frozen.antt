-- ===== src/App/Recovery/Frozen.antt =====
-- What recovery makes of a provisioning command that failed.
use digital_ocean_bot.Workflow.{failed}
use digital_ocean_bot.Prelude.{◌≡◌, refl, true, false, none, some, [], ◌∷◌, str_eq}
use digital_ocean_bot.Errors.{Error}
use digital_ocean_bot.Text.{concat}
use digital_ocean_bot.Provisioning
use digital_ocean_bot.Provisioning.Engine.{is_interruption, step_failed}
use digital_ocean_bot.App.Recovery.{RecoveryItem, Env, provision_gate, recover_deployment}

module _ {W V : Type 0} (env : Env W) (provisioning : Provisioning.Env V) where
  -- If the provisioning run of a deployment at its provision step is as a failed command left it,
  -- for an error that is no interruption, then recovery writes the deployment as failed with the
  -- run's last error, notes the event and does nothing else: it does not run the workflow, however
  -- few attempts were made and whatever time for the next one was noted.
  pub recover_deployment-step_failed :
      (w : W) (item : RecoveryItem) (v : V) (run : Provisioning.Run) (e : Error)
      → is_interruption e ≡ false
      → let d = (env.get w item.id item.account_id).0 in
        let left = (step_failed provisioning v run e).1 in
        (env.get w item.id item.account_id).1 ≡ none
        → str_eq d.current_step "provision" ≡ true
        → str_eq d.droplet_id "" ≡ false
        → env.provision_run w item.account_id d.droplet_id ≡ some left
        → recover_deployment env w item ≡ (
          env.event
              (env.freeze w d.id item.account_id
                (concat ("provision failed: " ∷ left.last_error ∷ [])))
              d.id
              "provision"
              failed
              "PROVISION_TERMINAL_FREEZE_V1",
          none,
        )
  unfolding recover_deployment provision_gate step_failed
  recover_deployment-step_failed w item v run e real found step droplet row =
      rw (found, recover_deployment, provision_gate, step, droplet, row, step_failed, real) refl
