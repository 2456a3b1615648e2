-- ===== src/Examples/Worker.antt =====
-- A round of the worker in which every handler fails, and a recovery store with three rows.
use digital_ocean_bot.Prelude.{String, ◌≡◌, refl, true, none, some, List, [], ◌∷◌, ◌++◌}
use digital_ocean_bot.Prelude.Int.{pos}
use digital_ocean_bot.Errors.{deadline_exceeded}
use digital_ocean_bot.Sql.{ok}
use digital_ocean_bot.Jobs.{running, unknown}
use digital_ocean_bot.Worker.{RecoveryItem, Env, once}
use digital_ocean_bot.Worker.Store.{RecoveryDb, operations, is_stuck, stuck_items, insert_by_update}
use digital_ocean_bot.Worker.Round.{Visit, operation, lifecycle, deployment, Logged, once-visits}
use digital_ocean_bot.Examples.Lifecycle.{item}
use digital_ocean_bot.Examples.Jobs.{working, wanted}

abbrev seen : String → RecoveryItem
seen id = record { id = id; account_id = "a"; kind = ""; state = ""; updated_at = pos 0 }

abbrev failing : Env (List Visit)
failing = record {
  operations = λ w n. (w, ok (seen "o1" ∷ seen "o2" ∷ []));
  deployments = λ w n. (w, ok (seen "d" ∷ []));
  has_lifecycle = true;
  due = λ w n. (w, ok (item ∷ []));
  recover_operation = λ w x. (w ++ operation x ∷ [], some deadline_exceeded);
  recover_deployment = λ w x. (w ++ deployment x ∷ [], some deadline_exceeded);
  process_lifecycle = λ w x. (w ++ lifecycle x ∷ [], some deadline_exceeded);
}

abbrev failing-Logged : Logged failing (λ w. w)
failing-Logged = record {
  operations = λ w n. refl;
  deployments = λ w n. refl;
  due = λ w n. refl;
  recover_operation = λ w x. refl;
  recover_deployment = λ w x. refl;
  process_lifecycle = λ w x. refl;
}

once-visits_example :
    ((once failing [] (pos 100) (pos 100)).0
      ≡ operation (seen "o1") ∷ operation (seen "o2") ∷ lifecycle item ∷ deployment (seen "d") ∷ [])
    × ((once failing [] (pos 100) (pos 100)).1 ≡ none)
once-visits_example =
    once-visits failing (λ w. w) failing-Logged [] (pos 100) (pos 100) (seen "o1" ∷ seen "o2" ∷ [])
      (seen "d" ∷ []) refl refl

-- An operation that ran 20 seconds ago is stuck, one without an outcome is not yet.
abbrev rows : RecoveryDb
rows = record {
  sql = record working { clock = pos 40000000000 };
  operations =
      record wanted { id = "1"; state = running; updated_at = pos 20000000000 }
      ∷ record wanted { id = "2"; state = unknown; updated_at = pos 20000000000 }
      ∷ record wanted { id = "3"; state = unknown; updated_at = pos 10000000000 }
      ∷ [];
  deployments = [];
  operation_text = λ s. "";
  deployment_text = λ s. "";
}

oldest_first :
    (operations rows (pos 0)).1
    ≡ ok (
        record (seen "3") { kind = "CREATE_DROPLET"; updated_at = pos 10000000000 }
        ∷ record (seen "1") { kind = "CREATE_DROPLET"; updated_at = pos 20000000000 }
        ∷ [])
unfolding operations is_stuck stuck_items insert_by_update
oldest_first = refl
