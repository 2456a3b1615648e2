-- ===== src/Examples/Droplets.antt =====
-- The executor and the lifecycle on a small fleet.
use digital_ocean_bot.Droplets.Refusal.{IsRefusal}
use digital_ocean_bot.Jobs.{failed, Operation, unknown, verifying}
use digital_ocean_bot.Prelude.{◌≤◌, ◌≡◌, refl, ◌≢◌, none, some, List, [], ◌∷◌}
use digital_ocean_bot.Prelude.Int.{pos}
use digital_ocean_bot.Errors.{deadline_exceeded, outcome_still_unknown}
use digital_ocean_bot.Jobs.Store.{find_operation, rows_affected}
use digital_ocean_bot.Text.Decimal.{itoa, atoi}
use digital_ocean_bot.DigitalOcean.{Droplet}
use digital_ocean_bot.Droplets.{World, Env, Profile, LookupProvider}
use digital_ocean_bot.Droplets.Reconcile.{adopt_unknown_create, build_delete_operation, save}
use digital_ocean_bot.Droplets.Executor.{create, create_request}
use digital_ocean_bot.Droplets.Once.{Call, creates, deletes, sent, sent-le}
use digital_ocean_bot.Droplets.Ledger.{state_of, create-stored}
use digital_ocean_bot.Droplets.Adoption.{candidates, adopt_unique}
use digital_ocean_bot.Droplets.Lifecycle.{retiring, LifecycleItem, Fleet, process}
use digital_ocean_bot.Droplets.Lifecycle.Path.{RowsStep, process-RowsStep}
use digital_ocean_bot.Droplets.Lifecycle.Stuck.{retries, failed_delete-stuck}
use digital_ocean_bot.Examples.Jobs.{working, wanted}

abbrev pub web : Profile
web = record {
  name = "web";
  region = "ams3";
  regions = [];
  size = "s-1vcpu-1gb";
  image = "ubuntu";
  lifetime = pos 3600000000000;
  provision = "";
  identity_tag = "dob-deployment-1";
  ssh_key_id = pos 0;
}

abbrev web_droplet : Droplet
web_droplet = record {
  id = pos 42;
  name = "web";
  status = "active";
  region_slug = "ams3";
  created_at = "";
  networks = [];
  tags = "managed-by-digital-ocean-bot" ∷ "dob-deployment-1" ∷ [];
  public_ipv4 = "";
}

abbrev provider : LookupProvider
provider = record {
  list_droplets = λ n. ([], none);
  list_droplet_models = λ n. (web_droplet ∷ [], none);
}

-- The provider answers after the deadline, to every request.
abbrev pub slow : Env
slow = record {
  gate = some none;
  egress_check = none;
  create_droplet = λ before r. (web_droplet, some deadline_exceeded);
  delete_droplet = λ before id. some deadline_exceeded;
  lookup = some provider;
}

abbrev pub quick : Env
quick = record slow {
  create_droplet = λ before r. (web_droplet, none);
  delete_droplet = λ before id. none;
}

abbrev pub empty : World
empty = record {
  jobs = record { sql = working; operations = [] };
  created = [];
  deleted = [];
  checks = 0;
  listings = 0;
}

abbrev history : List (Env × Call)
history =
    (slow, creates wanted web) ∷ (quick, creates wanted web) ∷ (quick, deletes wanted (pos 42)) ∷ []

sent-le_example : sent "a" "create:a:web" empty history ≤ 1
sent-le_example = sent-le "a" "create:a:web" empty history

create-stored_example :
    let r = create slow empty wanted web in
    (r.2 ≡ some deadline_exceeded)
    × (r.0.created ≡ create_request web ∷ [])
    × (IsRefusal deadline_exceeded → state_of "a" "create:a:web" r.0.jobs ≡ some failed)
    × ((IsRefusal deadline_exceeded → ⊥) → state_of "a" "create:a:web" r.0.jobs ≡ some unknown)
unfolding find_operation rows_affected
create-stored_example =
    create-stored empty wanted (λ n. refl) refl refl refl refl slow refl refl web deadline_exceeded
      refl

abbrev pub lost : Operation
lost = record wanted { id = "0"; state = unknown }

adopt_unique_example :
    let r = adopt_unknown_create provider empty lost "dob-deployment-1" "web" "ams3" in
    ((x : Droplet)
      → candidates provider empty "dob-deployment-1" "web" "ams3" ≡ x ∷ []
      → (r.1.resource_id ≡ itoa x.id)
        × (r.1.state ≡ verifying)
        × (r.0.jobs ≡ (save empty r.1).0.jobs))
    × (((x : Droplet) → candidates provider empty "dob-deployment-1" "web" "ams3" ≢ x ∷ [])
        → (r.2 ≡ some outcome_still_unknown) × (r.1 ≡ lost) × (r.0.jobs ≡ empty.jobs))
adopt_unique_example =
    adopt_unique provider empty lost "dob-deployment-1" "web" "ams3" refl refl refl

abbrev pub old_droplet : LifecycleItem
old_droplet = record {
  id = "d1";
  account_id = "a";
  provider_id = "42";
  profile_id = "p";
  replacement_deployment_id = "";
  state = retiring;
  expires_at = some (pos 90);
}

abbrev pub fleet : Fleet
fleet = record { world = empty; droplets = old_droplet ∷ []; events = [] }

process-RowsStep_example : RowsStep fleet.droplets (process quick fleet old_droplet).0.droplets
process-RowsStep_example = process-RowsStep quick fleet old_droplet

failed_delete-stuck_example :
    let g = retries (quick ∷ quick ∷ []) (process slow fleet old_droplet).0 old_droplet in
    (g.world.deleted ≡ pos 42 ∷ []) × (g.droplets ≡ old_droplet ∷ [])
unfolding atoi find_operation rows_affected build_delete_operation
failed_delete-stuck_example =
    failed_delete-stuck slow fleet old_droplet (pos 42) deadline_exceeded (quick ∷ quick ∷ []) refl
      refl (λ n. refl) refl refl refl refl refl refl
