-- ===== src/Examples/Scheduler.antt =====
-- A plan, and an engine whose world is the list of the deployments started.
use digital_ocean_bot.Prelude.{
  arith, false, String, ◌≡◌, refl, ◌⊎◌, true, none, some, List, [], ◌∷◌,
}
use digital_ocean_bot.Prelude.Int.{pos, ◌+ℤ◌}
use digital_ocean_bot.Scheduler.{Schedule}
use digital_ocean_bot.Scheduler.Planner.{Capacity, Policy}
use digital_ocean_bot.Scheduler.Engine.{Env, run_one}
use digital_ocean_bot.Scheduler.Store.{
  SchedulesDb, claim_due, select_rows, insert_by_next_run, lease_rows,
}
use digital_ocean_bot.Scheduler.Store.Leases.{has_row, claim_due-claim_due}
use digital_ocean_bot.Examples.Jobs.{working}
use digital_ocean_bot.Scheduler.Guards.{MayBuild, run_one-OneStart}

abbrev capacity : Capacity
capacity = record {
  limit = pos 10;
  active = pos 3;
  creating = pos 1;
  provisioning = pos 0;
  reserved_replacement = pos 1;
}

abbrev policy : Policy
policy = record { max_servers = pos 5; lifetime = pos 0 }

abbrev World : Type 0
World = List (String × String)

abbrev schedule : Schedule
schedule = record {
  id = "s";
  account_id = "a";
  profile_id = "p";
  enabled = true;
  interval = pos 60;
  batch_size = pos 1;
  max_concurrent = pos 1;
  next_run_at = pos 0;
  last_run_at = none;
  lease_until = none;
}

abbrev env : Env World
env = record {
  claim_due = λ w t n l. (w, schedule ∷ [], none);
  complete = λ w x t. w;
  prepare = λ w a. w;
  account = λ w a. some (true, "READY");
  counts = λ w a p. some (record {
    limit = pos 10;
    provider_droplets = pos 2;
    pending_creates = pos 0;
    concurrent = pos 0;
    desired = pos 3;
    managed = pos 2;
    spacing_min = pos 5;
    spacing_max = pos 5;
    next_build = none;
    snapshot_at = pos 1000;
  });
  pre_create = λ w a p. some (pos 0);
  start = λ w a p. ((a, p) ∷ w, none);
  set_next_build = λ w a t. w;
  intn = λ w n. pos 0;
}

run_one-OneStart_example :
    (run_one env [] (pos 1001) schedule ≡ [])
    ⊎ (run_one env [] (pos 1001) schedule ≡ ("a", "p") ∷ []) × MayBuild env [] (pos 1001) schedule
run_one-OneStart_example =
    run_one-OneStart env (λ w. w) (λ w a. refl) (λ w x t. refl) (λ w a t. refl) (λ w t n l. refl)
      (λ w a p. refl) [] (pos 1001) schedule

abbrev table : SchedulesDb
table = record { sql = working; rows = schedule ∷ [] }

claim_due-claim_due_example :
    has_row "s" (claim_due (claim_due table (pos 5) (pos 1) (pos 0)).0 (pos 6) (pos 1) (pos 0)).1
    ≡ false
unfolding claim_due select_rows insert_by_next_run lease_rows ◌+ℤ◌ has_row
claim_due-claim_due_example =
    claim_due-claim_due table (pos 5) (pos 1) (pos 0) "s" refl refl (pos 6) (pos 1) (pos 0)
      (omega arith)
