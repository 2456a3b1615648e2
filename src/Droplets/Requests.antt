-- ===== src/Droplets/Requests.antt =====
-- What one call of the executor sends, and that it keeps the keys of the ledger.
use digital_ocean_bot.Prelude.{
  suc, ◌≤◌, String, ◌≡◌, refl, ◌⊎◌, inl, inr, true, false, Option, none, some, ◌∷◌, arith,
  Bool-cases, Option-cases, length,
}
use digital_ocean_bot.Prelude.Int.{ℤ}
use digital_ocean_bot.Jobs.{Operation, running, verifying, unknown}
use digital_ocean_bot.Jobs.Store.{has_key, reserve}
use digital_ocean_bot.Jobs.Idempotency.{holds_key, update_holds, reserve_holds, reserve_fresh_holds}
use digital_ocean_bot.Text.Decimal.{itoa}
use digital_ocean_bot.Droplets.{World, Env, Profile, LookupProvider}
use digital_ocean_bot.Droplets.Reconcile.{save, find_match, is_match, adopt_unknown_create}
use digital_ocean_bot.Droplets.Executor.{
  check_egress, finish, create_request, failed_state, call_create, call_delete, run_fresh,
  again_create, create, delete,
}

found_cases {ℓ} :
    {A : Type ℓ} (r : Option (Option A))
    → (r ≡ none) ⊎ (r ≡ some none) ⊎ ((x : A) × (r ≡ some (some x)))
found_cases none = inl refl
found_cases (some none) = inr (inl refl)
found_cases (some (some x)) = inr (inr (x, refl))

module _ (a k : String) where
  -- A call keeps the key in the ledger, and sends nothing.
  abbrev pub Quiet : World → World → Type 0
  Quiet w w' =
      (w'.created ≡ w.created) × (holds_key a k w.jobs ≡ true → holds_key a k w'.jobs ≡ true)

  finish-Quiet : (env : Env) (w : World) (op : Operation) → Quiet w (finish env w op).0
  unfolding finish
  finish-Quiet env w op = (
    ground arith,
    λ h. ground (
      arith,
      update_holds a k w.jobs (record op { state = unknown }),
      update_holds a k w.jobs (record op { state = verifying }),
    ),
  )

  adopt-Quiet :
      (p : LookupProvider) (w : World) (op : Operation) (tag name region : String)
      → Quiet w (adopt_unknown_create p w op tag name region).0
  unfolding adopt_unknown_create
  adopt-Quiet p w op tag name region = (
    ground arith,
    λ h. elim (Option-cases (p.list_droplet_models w.listings).1) [
      | inr (e, lost) ↦ ground arith
      | inl listed ↦
          elim (found_cases
            (find_match (is_match tag name region) none (p.list_droplet_models w.listings).0)) [
              | inl two ↦ ground arith
              | inr (inl nobody) ↦ ground arith
              | inr (inr (x, one)) ↦ ground (
                arith,
                update_holds a k w.jobs (record op { resource_id = itoa x.id; state = verifying }),
              )
            ]
    ],
  )

  again_create-Quiet :
      (env : Env) (w : World) (op : Operation) (profile : Profile)
      → Quiet w (again_create env w op profile).0
  unfolding again_create
  again_create-Quiet env w op profile = elim (Option-cases env.lookup) [
    | inl e ↦ (ground arith, λ h. ground arith)
    | inr (p, e) ↦
        let q = adopt-Quiet p w op profile.identity_tag profile.name profile.region in
        (ground arith, λ h. ground (arith, q.1 h))
  ]

  -- A call sends at most one create request, and keeps the key.
  abbrev pub Single : World → World → Type 0
  Single w w' =
      (length w'.created ≤ suc (length w.created))
      × (holds_key a k w.jobs ≡ true → holds_key a k w'.jobs ≡ true)

  call_create-Single :
      (env : Env) (w : World) (op : Operation) (profile : Profile)
      → Single w (call_create env w op profile).0
  unfolding call_create
  call_create-Single env w op profile =
      let sent = record w { created = create_request profile ∷ w.created } in
      let answer = env.create_droplet w.created (create_request profile) in
      let done = record op { resource_id = itoa answer.0.id } in
      let q = finish-Quiet env sent done in
      elim (Option-cases answer.1) [
        | inl fine ↦ (ground (arith, q.0), λ h. ground (arith, q.1 h))
        | inr (e, lost) ↦ (
          ground arith,
          λ h. ground (arith, update_holds a k w.jobs (record op { state = failed_state e })),
        )
      ]

  run_fresh-Single :
      (env : Env) (w : World) (op : Operation) (profile : Profile)
      → Single w (run_fresh env w op (λ w op. call_create env w op profile)).0
  unfolding run_fresh
  run_fresh-Single env w op profile =
      let started = record op { state = running; attempt = suc op.attempt } in
      let checked = (check_egress env w).0 in
      let saved = (save checked started).0 in
      let q = call_create-Single env saved started profile in
      (
        ground (arith, q.0),
        λ h. ground (
          arith,
          update_holds a k w.jobs (record op { state = unknown }),
          update_holds a k w.jobs started,
          q.1 (ground (arith, update_holds a k w.jobs started h)),
        ),
      )

  call_delete-Quiet :
      (env : Env) (w : World) (op : Operation) (id : ℤ) → Quiet w (call_delete env w op id).0
  unfolding call_delete
  call_delete-Quiet env w op id =
      let sent = record w { deleted = id ∷ w.deleted } in
      let q = finish-Quiet env sent (record op { resource_id = itoa id }) in
      elim (Option-cases (env.delete_droplet w.deleted id)) [
        | inl fine ↦ (ground (arith, q.0), λ h. ground (arith, q.1 h))
        | inr (e, lost) ↦ (
          ground arith,
          λ h. ground (arith, update_holds a k w.jobs (record op { state = unknown })),
        )
      ]

  run_fresh-Quiet :
      (env : Env) (w : World) (op : Operation) (id : ℤ)
      → Quiet w (run_fresh env w op (λ w op. call_delete env w op id)).0
  unfolding run_fresh
  run_fresh-Quiet env w op id =
      let started = record op { state = running; attempt = suc op.attempt } in
      let checked = (check_egress env w).0 in
      let saved = (save checked started).0 in
      let q = call_delete-Quiet env saved started id in
      (
        ground (arith, q.0),
        λ h. ground (
          arith,
          update_holds a k w.jobs (record op { state = unknown }),
          update_holds a k w.jobs started,
          q.1 (ground (arith, update_holds a k w.jobs started h)),
        ),
      )

  pub delete-Quiet :
      (env : Env) (w : World) (op : Operation) (id : ℤ) → Quiet w (delete env w op id).0
  unfolding delete
  delete-Quiet env w op id =
      let reserved = record w { jobs = (reserve w.jobs op).0 } in
      let q = run_fresh-Quiet env reserved (reserve w.jobs op).1 id in
      (
        ground (arith, q.0),
        λ h. ground (arith, reserve_holds a k w.jobs op h, q.1 (reserve_holds a k w.jobs op h)),
      )

  pub create-Single :
      (env : Env) (w : World) (op : Operation) (profile : Profile)
      → Single w (create env w op profile).0
  unfolding create
  create-Single env w op profile =
      let reserved = record w { jobs = (reserve w.jobs op).0 } in
      let q = run_fresh-Single env reserved (reserve w.jobs op).1 profile in
      let r = again_create-Quiet env reserved (reserve w.jobs op).1 profile in
      (
        ground (arith, q.0, r.0),
        λ h. ground (
          arith,
          reserve_holds a k w.jobs op h,
          q.1 (reserve_holds a k w.jobs op h),
          r.1 (reserve_holds a k w.jobs op h),
        ),
      )

  -- A key that the ledger holds is not sent again; one that is sent is held from then on.
  pub create-taken :
      (env : Env) (w : World) (op : Operation) (profile : Profile)
      → has_key a k op ≡ true
      → holds_key a k w.jobs ≡ true
      → (create env w op profile).0.created ≡ w.created
  unfolding create
  create-taken env w op profile hit held =
      let reserved = record w { jobs = (reserve w.jobs op).0 } in
      let r = again_create-Quiet env reserved (reserve w.jobs op).1 profile in
      ground (arith, r.0, not_fresh)
    where
      not_fresh : (reserve w.jobs op).2 ≡ false
      not_fresh = elim (Bool-cases (reserve w.jobs op).2) [
        | inl fresh ↦ absurd (ground (arith, (reserve_fresh_holds a k w.jobs op hit fresh).0))
        | inr old ↦ old
      ]

  pub create-marks :
      (env : Env) (w : World) (op : Operation) (profile : Profile)
      → has_key a k op ≡ true
      → ((create env w op profile).0.created ≡ w.created)
        ⊎ (holds_key a k (create env w op profile).0.jobs ≡ true)
  unfolding create
  create-marks env w op profile hit =
      let reserved = record w { jobs = (reserve w.jobs op).0 } in
      let q = run_fresh-Single env reserved (reserve w.jobs op).1 profile in
      let r = again_create-Quiet env reserved (reserve w.jobs op).1 profile in
      elim (Bool-cases (reserve w.jobs op).2) [
        | inl fresh ↦
            let held = (reserve_fresh_holds a k w.jobs op hit fresh).1 in
            elim (found_cases env.gate) [
              | inl e ↦ inl (ground arith)
              | inr (inr (x, e)) ↦ inl (ground arith)
              | inr (inl e) ↦ inr (ground (arith, held, q.1 held))
            ]
        | inr old ↦ inl (ground (arith, r.0))
      ]
