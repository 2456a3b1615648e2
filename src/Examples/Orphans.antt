-- ===== src/Examples/Orphans.antt =====
-- An orphan that was deleted once, as the lifecycle left it.
use digital_ocean_bot.Prelude.{String, ◌≡◌, refl, Option, some, [], ◌∷◌}
use digital_ocean_bot.Prelude.Int.{pos}
use digital_ocean_bot.Jobs.{Operation, succeeded}
use digital_ocean_bot.Jobs.Store.{find_operation}
use digital_ocean_bot.Droplets.Lifecycle.{State-discrete, event, deleted, retiring, LifecycleItem}
use digital_ocean_bot.App.Orphans.{
  World, reconcile_owned_orphans, latest, reconcile_all, reconcile_one, scan_tags, find_deployment,
  find_droplet, reconcile_tagged, restore_failed, restore, restore_rows, is_restorable,
  rows_restored, note_restored,
}
use digital_ocean_bot.Text.{strip_prefix}
use digital_ocean_bot.Text.Decimal.{itoa}
use digital_ocean_bot.App.Orphans.Owned.{Step}
use digital_ocean_bot.App.Orphans.Whole.{IsOrphan, reconcile_owned_orphans-Owned}
use digital_ocean_bot.App.Orphans.Undeleted.{engine, reconcile, run, run-undeleted}
use digital_ocean_bot.Examples.Droplets.{empty, old_droplet, quick, lost}

abbrev gone : LifecycleItem
gone = record old_droplet { state = deleted }

abbrev delete_done : Operation
delete_done = record lost { idempotency_key = "lifecycle-delete:d1"; state = succeeded }

abbrev orphaned : World
orphaned = record {
  fleet = record {
    world = record empty { jobs = record empty.jobs { operations = delete_done ∷ [] } };
    droplets = gone ∷ [];
    events = [];
  };
  snapshots =
      record {
        account_id = "a";
        created_at = pos 0;
        droplets = some (
            record { id = pos 42; tags = "managed-by-digital-ocean-bot" ∷ "dob-deployment-1" ∷ [] }
            ∷ []);
      }
      ∷ [];
  deployments =
      record { id = "1"; account_id = "a"; droplet_id = some "d1"; state = "FAILED" } ∷ [];
}

abbrev cast : String → Option String
cast s = some s

-- The row is restored.
orphan_restored :
    (reconcile_owned_orphans cast orphaned (pos 5) "a").fleet.droplets
    ≡ record gone { state = retiring } ∷ []
unfolding reconcile_owned_orphans latest reconcile_all reconcile_one scan_tags strip_prefix
    find_deployment find_droplet reconcile_tagged restore_failed restore restore_rows is_restorable
    rows_restored note_restored itoa State-discrete event
orphan_restored = refl

reconcile_owned_orphans-Owned_example :
    Step
      (IsOrphan cast orphaned (pos 5) "a")
      orphaned
      (reconcile_owned_orphans cast orphaned (pos 5) "a")
reconcile_owned_orphans-Owned_example = reconcile_owned_orphans-Owned cast orphaned (pos 5) "a"

run-undeleted_example :
    (run cast "a" gone orphaned
      (reconcile (pos 5) ∷ engine quick retiring ∷ [])).fleet.world.deleted
    ≡ []
unfolding find_operation
run-undeleted_example =
    run-undeleted cast "a" gone delete_done (reconcile (pos 5) ∷ engine quick retiring ∷ [])
      orphaned refl
