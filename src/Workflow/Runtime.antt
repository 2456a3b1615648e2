-- ===== src/Workflow/Runtime.antt =====
-- internal/workflow/runtime.go: the production steps. A step takes the runtime by value, so that
-- what Create and WaitResource write into it is lost when they return.
pub mod Regions
use digital_ocean_bot.Prelude.{
  String, Bool, true, false, ◌&&◌, ◌||◌, not, Option, none, some, List, [], ◌∷◌, map, str_eq,
  if◌then◌else◌,
}
use digital_ocean_bot.Prelude.Int.{ℤ}
use digital_ocean_bot.Errors.{Error, runtime_config, outcome_still_unknown, no_rows}
use digital_ocean_bot.Text.{concat}
use digital_ocean_bot.Resilience.Policy.{ErrorClass, permanent}
use digital_ocean_bot.Jobs.{Operation, zero_operation}
use digital_ocean_bot.DigitalOcean.Errors.{classify_error, is_capacity_error}
use digital_ocean_bot.Droplets.{Profile}
use digital_ocean_bot.Droplets.Executor.{build_create_operation}
use digital_ocean_bot.Provisioning.{Target, Plan}
use digital_ocean_bot.Workflow.{Deployment, Request, Steps}

pub record ResourceInfo : Type 0 where
  pub provider_id : String
  pub host : String

-- sanaei.ClientRecord
pub record ClientRecord : Type 0 where
  pub id : String
  pub account_id : String
  pub droplet_id : String
  pub inbound_id : ℤ
  pub email : String

-- The statements of WaitResource: the newest live row of the droplet, and a new row for it.
pub record DropletsDb (W : Type 0) : Type 0 where
  pub find : W → String → String → W × String × Option Error
  pub insert : W → Deployment → Profile → W × String × Option Error

-- RuntimeSteps over the world `W`: a field that may be nil is an Option, and the database template
-- and its paths are part of `database`, which they are handed to unread.
pub record Runtime (W : Type 0) : Type 0 where
  pub db : Option (DropletsDb W)
  pub droplets : Option (W → Operation → Profile → W × Operation × Option Error)
  pub waiter : Option (W → String → W × ResourceInfo × Option Error)
  pub provisioner : Option (W → Target → Plan → W × Option Error)
  pub database : Option (W → Target → W × Option Error)
  pub panel : Option (W → Deployment → W × Option Error)
  -- CreateMany(account, droplet, inbound, count, prefix)
  pub clients : Option (W → String → String → ℤ → ℤ → String → W × List ClientRecord × Option Error)
  pub traffic : Option (W → List ClientRecord → W × Option Error)
  pub profile : Profile
  pub provision_plan : Plan
  pub target : Target

-- The world with the process's clientCache, a map from a deployment to its clients.
pub record Process (W : Type 0) : Type 0 where
  pub world : W
  pub registered_clients : List (String × List ClientRecord)

-- clientCache.Store puts an entry ahead of the older ones.
abbrev pub store {ℓ} : {A : Type ℓ} → List (String × A) → String → A → List (String × A)
store m k v = (k, v) ∷ m

-- A missing key is the nil slice.
unfoldable pub load {ℓ} : {A : Type ℓ} → List (String × List A) → String → List A
load [] k = []
load ((k', v) ∷ m) k = if str_eq k' k then v else load m k

-- `class != resilience.Permanent || !digitalocean.IsCapacityError(err)` is false
abbrev pub is_permanent : ErrorClass → Bool
is_permanent permanent = true
is_permanent _ = false

abbrev pub may_try_next : Error → Bool
may_try_next e = is_permanent (classify_error e) && is_capacity_error e

abbrev pub is_empty {ℓ} : {A : Type ℓ} → List A → Bool
is_empty [] = true
is_empty (x ∷ xs) = false

abbrev pub create_key : Deployment → String
create_key d = concat ("deploy:" ∷ d.id ∷ ":create" ∷ [])

abbrev pub regions_of : Profile → List String
regions_of p = if is_empty p.regions then p.region ∷ [] else p.regions

module _ {W : Type 0} (r : Runtime W) where
  abbrev pub tagged : Deployment → Profile
  tagged d = record r.profile { identity_tag = concat ("dob-deployment-" ∷ d.id ∷ []) }

  abbrev pub region_operation : Deployment → String → Operation
  region_operation d region = record (build_create_operation d.account_id (tagged d)) {
    idempotency_key = concat (create_key d ∷ ":region:" ∷ region ∷ []);
  }

  abbrev pub Result : Type 0
  Result = W × Deployment × Option Error

  -- The loop over the regions.
  unfoldable pub try_regions :
      (W → Operation → Profile → W × Operation × Option Error)
      → W
      → Deployment
      → List String
      → Result
  unfolding build_create_operation
  try_regions create w d [] = (w, record d { provider_id = zero_operation.resource_id }, none)
  try_regions create w d (region ∷ rest) =
      let (w1, result, err) =
        create w (region_operation d region) (record (tagged d) { region = region }) in
      let later = try_regions create w1 d rest in
      elim err [
        | none ↦
            if str_eq result.resource_id ""
            then (w1, d, some outcome_still_unknown)
            else (w1, record d { provider_id = result.resource_id }, none)
        | some e ↦ if not (may_try_next e) || is_empty rest then (w1, d, some e) else later
      ]

  unfoldable pub create : W → Deployment → Result
  unfolding try_regions
  create w d = elim r.droplets [
    | none ↦ (w, d, some runtime_config)
    | some make ↦ try_regions make w d (regions_of r.profile)
  ]

  -- The droplet's row is looked up, and added if there is none.
  unfoldable pub link_droplet : DropletsDb W → W → Deployment → Result
  link_droplet db w d =
      let (w1, id, err) = db.find w d.account_id d.provider_id in
      elim err [
        | none ↦ (w1, record d { droplet_id = id }, none)
        | some no_rows ↦
            (let (w2, id2, err2) = db.insert w1 d r.profile in
              (w2, elim err2 [ none ↦ record d { droplet_id = id2 } | some e ↦ d ], err2))
        | some e ↦ (w1, d, some e)
      ]

  unfoldable pub wait_resource : W → Deployment → Result
  unfolding link_droplet
  wait_resource w d = elim r.waiter [
    | none ↦ (w, d, some runtime_config)
    | some wait ↦
        if str_eq d.provider_id ""
        then (w, d, some runtime_config)
        else let (w1, info, err) = wait w d.provider_id in
          elim err [
            | some e ↦ (w1, d, some e)
            | none ↦
                let d' = record d { provider_id = info.provider_id } in
                elim r.db [
                  | none ↦ (w1, d', none)
                  | some db ↦
                      if str_eq d.droplet_id "" then link_droplet db w1 d' else (w1, d', none)
                ]
          ]
  ]

  abbrev pub target_of : Deployment → Target
  target_of d = record r.target { account_id = d.account_id; droplet_id = d.droplet_id }

  -- The target with its host, asked of the provider when the runtime has none.
  unfoldable pub host_target : W → Deployment → W × Target × Option Error
  host_target w d =
      let t = target_of d in
      elim r.waiter [
        | none ↦ (w, t, if str_eq t.host "" then some runtime_config else none)
        | some wait ↦
            if str_eq t.host "" && not (str_eq d.provider_id "")
            then (let (w1, info, err) = wait w d.provider_id in
                elim err [
                  | some e ↦ (w1, t, some e)
                  | none ↦ (
                    w1,
                    record t { host = info.host },
                    if str_eq info.host "" then some runtime_config else none,
                  )
                ])
            else (w, t, if str_eq t.host "" then some runtime_config else none)
      ]

  unfoldable pub provision : W → Deployment → Result
  unfolding host_target
  provision w d = elim r.provisioner [
    | none ↦ (w, d, some runtime_config)
    | some execute ↦
        let (w1, t, err) = host_target w d in
        elim err [
          | some e ↦ (w1, d, some e)
          | none ↦ let (w2, err2) = execute w1 t r.provision_plan in (w2, d, err2)
        ]
  ]

  unfoldable pub import_database : W → Deployment → Result
  unfolding host_target
  import_database w d = elim r.database [
    | none ↦ (w, d, some runtime_config)
    | some import ↦
        let (w1, t, err) = host_target w d in
        elim err [ some e ↦ (w1, d, some e) | none ↦ let (w2, err2) = import w1 t in (w2, d, err2) ]
  ]

  unfoldable pub configure_panel : W → Deployment → Result
  configure_panel w d = elim r.panel [
    | none ↦ (w, d, none)
    | some configure ↦ let (w1, err) = configure w d in (w1, d, err)
  ]

  unfoldable pub register_clients :
      Process W → Deployment → Request → Process W × Deployment × Option Error
  register_clients p d req = elim r.clients [
    | none ↦ (p, d, some runtime_config)
    | some create_many ↦
        let (w, records, err) =
          create_many p.world d.account_id d.droplet_id req.inbound_id req.client_count
            req.email_prefix in
        elim err [
          | some e ↦ (record p { world = w }, d, some e)
          | none ↦ (
            record { world = w; registered_clients = store p.registered_clients d.id records },
            d,
            none,
          )
        ]
  ]

  unfoldable pub register_traffic : Process W → Deployment → Process W × Deployment × Option Error
  unfolding load
  register_traffic p d = elim r.traffic [
    | none ↦ (p, d, none)
    | some register ↦
        let (w, err) = register p.world (load p.registered_clients d.id) in
        (record p { world = w }, d, err)
  ]

  -- The world of a process after a step that leaves its cache alone.
  abbrev pub on_world :
      (W → Deployment → Result) → Process W → Deployment → Process W × Deployment × Option Error
  on_world step p d = let (w, d', err) = step p.world d in (record p { world = w }, d', err)

  -- The runtime as the engine's Steps.
  unfoldable pub steps : Steps (Process W)
  unfolding create wait_resource provision import_database configure_panel register_clients
      register_traffic
  steps = record {
    create = on_world create;
    wait_resource = on_world wait_resource;
    provision = on_world provision;
    import_database = on_world import_database;
    configure_panel = on_world configure_panel;
    register_clients = register_clients;
    register_traffic = register_traffic;
  }
