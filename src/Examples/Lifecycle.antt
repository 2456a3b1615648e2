-- ===== src/Examples/Lifecycle.antt =====
-- A droplet that expires, whose world is the list of what was done.
use digital_ocean_bot.Prelude.{
  arith, String, ◌≡◌, refl, ◌≢◌, inr, Bool, false, Option, none, some, List, [], ◌∷◌,
}
use digital_ocean_bot.Prelude.Int.{pos, ◌+ℤ◌}
use digital_ocean_bot.Sql.{ok}
use digital_ocean_bot.Errors.{Error}
use digital_ocean_bot.Droplets.Lifecycle.{LifecycleItem, expiring}
use digital_ocean_bot.Examples.Steps.{deployment}
use digital_ocean_bot.App.Lifecycle.{Env, process_lifecycle}
use digital_ocean_bot.App.Lifecycle.Replaced.{
  no_place, with_process, with_start, process_lifecycle-unready, process_lifecycle-full,
}

abbrev pub item : LifecycleItem
item = record {
  id = "1";
  account_id = "a";
  provider_id = "42";
  profile_id = "p";
  replacement_deployment_id = "next";
  state = expiring;
  expires_at = none;
}

abbrev env : Env (List String)
env = record {
  now = λ w. pos 1000;
  capacity = λ w a.
      some (record { limit = pos 3; in_use = pos 2; pending = pos 1; snapshot_at = pos 900 });
  block = λ w a why. "block" ∷ w;
  unblock = λ w a. w;
  start = λ w a p. ("start" ∷ w, deployment, none);
  link = λ w i d. ("link" ∷ w, none);
  deployment_state = λ w d. ok "PROVISIONING";
  runtime = λ w a. ok false;
  process = λ w egress i. ("delete" ∷ w, none);
}

-- An engine that would be noticed.
abbrev loud : List String → Bool → LifecycleItem → List String × Option Error
loud w egress i = ("loud" ∷ w, none)

process_lifecycle-unready_example :
    process_lifecycle (with_process env loud) [] item ≡ process_lifecycle env [] item
process_lifecycle-unready_example = process_lifecycle-unready env [] item loud refl (inr not_ready)
  where
    not_ready : env.deployment_state [] "next" ≢ ok "READY"
    not_ready e = cc

process_lifecycle-full_example :
    let stays = record item { replacement_deployment_id = "" } in
    process_lifecycle (with_start env (λ w a p. ("loud" ∷ w, deployment, none))) [] stays
    ≡ process_lifecycle env [] stays
unfolding ◌+ℤ◌
process_lifecycle-full_example =
    process_lifecycle-full env [] (record item { replacement_deployment_id = "" })
      (λ w a p. ("loud" ∷ w, deployment, none))
      (no_place (record { limit = pos 3; in_use = pos 2; pending = pos 1; snapshot_at = pos 900 })
        (omega arith))
