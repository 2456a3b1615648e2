-- ===== src/Examples/Table.antt =====
-- A table of one deployment, and the regions of an account that may go anywhere.
use digital_ocean_bot.Prelude.{◌≡◌, refl, true, none, some, List, [], ◌∷◌}
use digital_ocean_bot.Prelude.Int.{pos}
use digital_ocean_bot.Sql.{Sql}
use digital_ocean_bot.Workflow.{Deployment, Request, ready}
use digital_ocean_bot.Workflow.Table.{Row, Db, zero_snapshot, find_row, get, update, new_row}
use digital_ocean_bot.Workflow.Table.Spec.{Op, view, run, replay}
use digital_ocean_bot.Workflow.Table.Refines.{run_refines}
use digital_ocean_bot.Workflow.Table.Reading.{get-update}
use digital_ocean_bot.App.Deploy.{Preferences, Catalog, Draws, effective}

abbrev sql : Sql
sql = record { calls = 0; fault = λ n. none; new_id = λ n. "d2"; clock = pos 9 }

abbrev request : Request
request = record {
  deployment_id = "";
  account_id = "a";
  profile_id = "p";
  client_count = pos 3;
  inbound_id = pos 1;
  email_prefix = "u";
}

abbrev row : Row
row = new_row "d1" (pos 5) request

abbrev db : Db
db = record { sql = sql; deployments = row ∷ []; events = []; profiles = [] }

abbrev done : Deployment
done = record row.deployment { state = ready; current_step = "done" }

abbrev history : List Op
history = Op.reserve request ∷ Op.update done ∷ Op.attach "d1" zero_snapshot ∷ Op.get "d2" "a" ∷ []

run_refines_example : view (run history db) ≡ replay history (view db)
run_refines_example = run_refines history db

get-update_example :
    ((update db done).1 ≡ none)
    × ((get (update db done).0 "d1" "a").1
        ≡ record done { profile_id = "p"; created_at = pos 5; updated_at = pos 9 })
    × ((get (update db done).0 "d1" "a").2 ≡ none)
unfolding find_row
get-update_example = get-update db done row refl refl refl refl

abbrev preferences : Preferences
preferences = record {
  regions = "fra1" ∷ "nyc1" ∷ [];
  sizes = "s-1vcpu" ∷ [];
  images = [];
  lifetime_min = pos 0;
  lifetime_max = pos 0;
  fallback_any_region = true;
}

abbrev catalog : Catalog
catalog = record {
  regions =
      record { slug = "ams3"; available = true } ∷ record { slug = "nyc1"; available = true } ∷ [];
  sizes = record { slug = "s-1vcpu"; available = true; regions = "nyc1" ∷ "ams3" ∷ [] } ∷ [];
}

abbrev draws : Draws
draws = record { size_index = λ n. 0; image_index = λ n. 0; seconds = λ n. pos 0 }

goes_on : (effective preferences (some catalog) draws zero_snapshot).regions ≡ "nyc1" ∷ "ams3" ∷ []
unfolding effective
goes_on = refl
