-- ===== src/Workflow/Runtime/Regions.antt =====
-- How Create goes through the regions of a profile.
use digital_ocean_bot.Prelude.{
  String, ◌≡◌, refl, ap, ◌∙◌, inl, inr, false, ◌||◌, not, Option, none, some, List, [], ◌∷◌, arith,
  str_eq, Bool-cases, Option-cases,
}
use digital_ocean_bot.Errors.{Error, outcome_still_unknown}
use digital_ocean_bot.Jobs.{Operation, failed}
use digital_ocean_bot.Jobs.Store.{reserve}
use digital_ocean_bot.Droplets.{World, Env, Profile}
use digital_ocean_bot.Droplets.Executor
use digital_ocean_bot.Droplets.Executor.{again_create}
use digital_ocean_bot.Workflow.{Deployment}
use digital_ocean_bot.Workflow.Runtime.{
  Runtime, may_try_next, is_empty, regions_of, tagged, region_operation, try_regions, create,
}

some_region : (p : Profile) → is_empty (regions_of p) ≡ false
some_region p = elim (Bool-cases (is_empty p.regions)) [
  | inl none_given ↦ rw none_given refl
  | inr given ↦ rw (given, given) refl
]

module _ {W : Type 0} (r : Runtime W) where
  try_regions_ok :
      (make : W → Operation → Profile → W × Operation × Option Error) (w : W) (d : Deployment)
      (regions : List String)
      → is_empty regions ≡ false
      → (try_regions r make w d regions).2 ≡ none
      → str_eq (try_regions r make w d regions).1.provider_id "" ≡ false
  unfolding try_regions
  try_regions_ok make w d [] some_region e = ground arith
  try_regions_ok make w d (region ∷ rest) some_region e =
      let q = make w (region_operation r d region) (record (tagged r d) { region = region }) in
      elim (Option-cases q.2) [
        | inl fine ↦ ground arith
        | inr (x, lost) ↦ elim (Bool-cases (not (may_try_next x) || is_empty rest)) [
          | inl last ↦ ground arith
          | inr more ↦
              let ih = try_regions_ok make q.0 d rest (ground arith) in
              rw (lost, try_regions, more) (ih (rw (lost, try_regions, more) at e))
        ]
      ]

  -- A Create step that reports no error leaves a provider identifier that is not empty in the
  -- deployment.
  pub create_ok :
      (w : W) (d : Deployment)
      → (create r w d).2 ≡ none
      → str_eq (create r w d).1.provider_id "" ≡ false
  unfolding create
  create_ok w d e = elim (Option-cases r.droplets) [
    | inl missing ↦ ground arith
    | inr (make, set) ↦
        rw (set, create)
          (try_regions_ok make w d (regions_of r.profile) (some_region r.profile)
            (rw (set, create) at e))
  ]

module _ (r : Runtime World) (env : Env) where
  -- An executor whose key names a failed row returns the row, and no error.
  create_taken :
      (w : World) (op : Operation) (p : Profile)
      → env.gate ≡ some none
      → (reserve w.jobs op).2 ≡ false
      → (reserve w.jobs op).3 ≡ none
      → (reserve w.jobs op).1.state ≡ failed
      → Executor.create env w op p
        ≡ (record w { jobs = (reserve w.jobs op).0 }, (reserve w.jobs op).1, none)
  unfolding Executor.create again_create
  create_taken w op p open_ taken fine state =
      rw (open_, Executor.create, fine, taken, again_create, state) refl

  -- If the ledger holds a failed row without a resource under the key of a deployment's first
  -- region, then the Create step of the workflow, with the executor behind an open gate and a
  -- reservation without a statement error, reports an unknown outcome, leaves the deployment as it
  -- is and changes nothing of the executor's world but what the reservation does to the ledger, so
  -- that it sends no request to the provider, lists no droplets and checks no egress, whatever
  -- regions come after the first.
  pub create-failed_region :
      (w : World) (d : Deployment) (region : String) (rest : List String)
      → r.droplets ≡ some (Executor.create env)
      → r.profile.regions ≡ region ∷ rest
      → env.gate ≡ some none
      → let row = reserve w.jobs (region_operation r d region) in
        row.2 ≡ false
        → row.3 ≡ none
        → row.1.state ≡ failed
        → row.1.resource_id ≡ ""
        → ((create r w d).2 ≡ some outcome_still_unknown)
          × ((create r w d).1 ≡ d)
          × ((create r w d).0 ≡ record w { jobs = row.0 })
  unfolding create try_regions
  create-failed_region w d region rest uses first open_ taken fine state nothing =
      let op = region_operation r d region in
      let back =
        create_taken w op (record (tagged r d) { region = region }) open_ taken fine state in
      let p = record (tagged r d) { region = region } in
      let no_error : (Executor.create env w op p).2 ≡ none = ap (λ q. q.2) back in
      let no_droplet : (Executor.create env w op p).1.resource_id ≡ "" =
        ap (λ q. q.1.resource_id) back ∙ nothing in
      rw (uses, create, first, try_regions, no_error, no_droplet) (refl, refl, ap (λ q. q.0) back)
