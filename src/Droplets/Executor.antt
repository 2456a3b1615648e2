-- ===== src/Droplets/Executor.antt =====
-- internal/droplets/executor.go and factory.go.
use digital_ocean_bot.Prelude.{
  suc, String, ◌&&◌, Option, none, some, [], ◌∷◌, str_eq, if◌then◌else◌,
}
use digital_ocean_bot.Prelude.Int.{ℤ, pos, ltb_ℤ}
use digital_ocean_bot.Errors.{Error, mutation_blocked}
use digital_ocean_bot.Resilience.Policy.{permanent}
use digital_ocean_bot.DigitalOcean.{CreateDropletRequest}
use digital_ocean_bot.DigitalOcean.Errors.{classify_error}
use digital_ocean_bot.Jobs.{
  Operation, OperationState, planned, running, verifying, failed, unknown, zero_operation,
}
use digital_ocean_bot.Jobs.Store.{reserve}
use digital_ocean_bot.Droplets.{World, Env, Profile}
use digital_ocean_bot.Droplets.Reconcile.{is_unknown, save, adopt_unknown_create}
use digital_ocean_bot.Text.{concat}
use digital_ocean_bot.Text.Decimal.{itoa}

abbrev pub Result : Type 0
Result = World × Operation × Option Error

-- `if e.EgressCheck != nil { e.EgressCheck(ctx) }`
abbrev pub check_egress : Env → World → World × Option Error
check_egress env w = elim env.egress_check [
  | none ↦ (w, none)
  | some check ↦ (record w { checks = suc w.checks }, check w.checks)
]

-- `reserved.State = s; _ = e.Operations.Update(ctx, reserved); return reserved, err`
abbrev pub give_up : World → Operation → OperationState → Error → Result
give_up w op s e =
    let op' = record op { state = s } in let (w', ignored) = save w op' in (w', op', some e)

-- The egress check after the provider's answer, and the last update.
unfoldable pub finish : Env → World → Operation → Result
finish env w op =
    let (w1, leak) = check_egress env w in
    elim leak [
      | some e ↦ give_up w1 op unknown e
      | none ↦
          let op' = record op { state = verifying } in let (w2, err) = save w1 op' in (w2, op', err)
    ]

abbrev pub create_request : Profile → CreateDropletRequest
create_request p = record {
  name = p.name;
  region = p.region;
  size = p.size;
  image = p.image;
  ssh_keys = if ltb_ℤ (pos 0) p.ssh_key_id then p.ssh_key_id ∷ [] else [];
  tags = "managed-by-digital-ocean-bot" ∷ p.identity_tag ∷ [];
}

-- A permanent class, or an error that is ErrMutationBlocked, means that nothing was created.
abbrev pub failed_state : Error → OperationState
failed_state mutation_blocked = failed
failed_state e = elim (classify_error e) [ permanent ↦ failed | _ ↦ unknown ]

unfoldable pub call_create : Env → World → Operation → Profile → Result
unfolding finish
call_create env w op profile =
    let request = create_request profile in
    let (d, err) = env.create_droplet w.created request in
    let w' = record w { created = request ∷ w.created } in
    elim err [
      | some e ↦ give_up w' op (failed_state e) e
      | none ↦ finish env w' (record op { resource_id = itoa d.id })
    ]

unfoldable pub call_delete : Env → World → Operation → ℤ → Result
unfolding finish
call_delete env w op provider_id =
    let err = env.delete_droplet w.deleted provider_id in
    let w' = record w { deleted = provider_id ∷ w.deleted } in
    elim err [
      | some e ↦ give_up w' op unknown e
      | none ↦ finish env w' (record op { resource_id = itoa provider_id })
    ]

-- What a caller that has just reserved the key does around its provider call.
unfoldable pub run_fresh : Env → World → Operation → (World → Operation → Result) → Result
run_fresh env w op call =
    let (w1, leak) = check_egress env w in
    elim leak [
      | some e ↦ give_up w1 op unknown e
      | none ↦
          let op' = record op { state = running; attempt = suc op.attempt } in
          let (w2, err) = save w1 op' in
          elim err [ some e ↦ (w2, op', some e) | none ↦ call w2 op' ]
    ]

-- What a later caller of the same key does: only an unknown outcome without a resource is looked up.
unfoldable pub again_create : Env → World → Operation → Profile → Result
again_create env w op profile =
    if is_unknown op.state && str_eq op.resource_id ""
    then elim env.lookup [
      | none ↦ (w, op, none)
      | some provider ↦
          adopt_unknown_create provider w op profile.identity_tag profile.name profile.region
    ]
    else (w, op, none)

unfoldable pub create : Env → World → Operation → Profile → Result
unfolding run_fresh call_create again_create
create env w op profile = elim env.gate [
  | none ↦ (w, op, some mutation_blocked)
  | some (some e) ↦ (w, op, some mutation_blocked)
  | some none ↦
      let (jobs, reserved, fresh, err) = reserve w.jobs op in
      let w' = record w { jobs = jobs } in
      elim err [
        | some e ↦ (w', op, some e)
        | none ↦
            if fresh
            then run_fresh env w' reserved (λ w op. call_create env w op profile)
            else again_create env w' reserved profile
      ]
]

unfoldable pub delete : Env → World → Operation → ℤ → Result
unfolding run_fresh call_delete
delete env w op provider_id = elim env.gate [
  | none ↦ (w, op, some mutation_blocked)
  | some (some e) ↦ (w, op, some mutation_blocked)
  | some none ↦
      let (jobs, reserved, fresh, err) = reserve w.jobs op in
      let w' = record w { jobs = jobs } in
      elim err [
        | some e ↦ (w', op, some e)
        | none ↦
            if fresh
            then run_fresh env w' reserved (λ w op. call_delete env w op provider_id)
            else (w', reserved, none)
      ]
]

-- droplets.BuildCreateOperation
unfoldable pub build_create_operation : String → Profile → Operation
build_create_operation account_id profile = record zero_operation {
  account_id = account_id;
  kind = "CREATE_DROPLET";
  idempotency_key = concat ("create:" ∷ account_id ∷ ":" ∷ profile.name ∷ []);
  state = planned;
}
