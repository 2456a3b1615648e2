-- ===== src/Examples/Steps.antt =====
-- The pauses of the waiter, and the steps of a runtime.
use digital_ocean_bot.Prelude.{◌≡◌, refl, none, some, [], ◌∷◌, ltb, if◌then◌else◌}
use digital_ocean_bot.Prelude.Int.{pos}
use digital_ocean_bot.Errors.{outcome_still_unknown}
use digital_ocean_bot.DigitalOcean.{Droplet}
use digital_ocean_bot.Jobs.{Operation, failed}
use digital_ocean_bot.Droplets
use digital_ocean_bot.Droplets.{World}
use digital_ocean_bot.Droplets.Executor
use digital_ocean_bot.Droplets.Executor.{build_create_operation}
use digital_ocean_bot.Examples.Jobs.{working}
use digital_ocean_bot.Examples.Droplets.{web, quick, empty}
use digital_ocean_bot.Jobs.Store.{reserve, get, find_operation}
use digital_ocean_bot.Workflow.{Deployment, creating}
use digital_ocean_bot.Workflow.Runtime.{Runtime, create, region_operation}
use digital_ocean_bot.Workflow.Runtime.Regions.{create-failed_region}
use digital_ocean_bot.Workflow.Waiter.{Provider, elapsed}

abbrev droplet : Droplet
droplet = record {
  id = pos 7;
  name = "d";
  status = "active";
  region_slug = "fra1";
  created_at = "";
  networks = [];
  tags = [];
  public_ipv4 = "1.2.3.4";
}

-- The droplet becomes active at the third attempt.
abbrev provider : Provider
provider = record {
  get_droplet = λ id n. (if ltb n 3 then record droplet { status = "new" } else droplet, none);
  wake = λ n. elapsed;
}

abbrev pub deployment : Deployment
deployment = record {
  id = "1";
  account_id = "a";
  profile_id = "p";
  droplet_id = "";
  provider_id = "";
  state = creating;
  current_step = "create";
  attempt = 1;
  last_error = "";
  created_at = pos 0;
  updated_at = pos 0;
}

abbrev two_regions : Droplets.Profile
two_regions = record web { regions = "ams3" ∷ "fra1" ∷ [] }

abbrev runtime : Runtime World
runtime = record {
  db = none;
  droplets = some (Executor.create quick);
  waiter = none;
  provisioner = none;
  database = none;
  panel = none;
  clients = none;
  traffic = none;
  profile = two_regions;
  provision_plan = record { bootstrap = "b"; install_panel = "i"; verify = "v" };
  target = record {
    account_id = "a";
    droplet_id = "";
    host = "";
    port = pos 22;
    user = "root";
    key_secret_ref = "k";
  };
}

-- The ledger's row of a first region that was refused.
abbrev refused : Operation
refused = record (region_operation runtime deployment "ams3") { id = "r"; state = failed }

abbrev after_refusal : World
after_refusal = record empty { jobs = record { sql = working; operations = refused ∷ [] } }

create-failed_region_example :
    ((create runtime after_refusal deployment).2 ≡ some outcome_still_unknown)
    × ((create runtime after_refusal deployment).1 ≡ deployment)
    × ((create runtime after_refusal deployment).0 ≡ record after_refusal {
      jobs = (reserve after_refusal.jobs (region_operation runtime deployment "ams3")).0;
    })
unfolding reserve get find_operation build_create_operation
create-failed_region_example =
    create-failed_region runtime quick after_refusal deployment "ams3" ("fra1" ∷ []) refl refl refl
      refl refl refl refl

-- Droplets that are made at once.
abbrev prompt : Runtime World
prompt = record runtime { droplets = some (λ w op p. (w, record op { resource_id = "5" }, none)) }
