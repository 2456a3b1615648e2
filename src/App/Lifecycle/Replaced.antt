-- ===== src/App/Lifecycle/Replaced.antt =====
-- An expiring droplet is not retired before its replacement serves, and a replacement is not started
-- without room for it.
use digital_ocean_bot.Prelude.{
  String, ◌≡◌, refl, ap, ◌∙◌, ◌≢◌, ◌⊎◌, inl, inr, Bool, true, ◌||◌, Option, none, eq_iff, str_eq,
  if◌then◌else◌, Bool-cases, Option-cases, subst, some, false, arith,
}
use digital_ocean_bot.Errors.{Error}
use digital_ocean_bot.Sql.{ok, Result-cases}
use digital_ocean_bot.Droplets.Lifecycle.{LifecycleItem}
use digital_ocean_bot.Workflow.{Deployment}
use digital_ocean_bot.Prelude.Int.{ℤ, pos, ◌≤ℤ◌, ◌+ℤ◌, ◌-ℤ◌}
use digital_ocean_bot.App.Lifecycle.{
  Capacity, Env, process_lifecycle, process_expiring, replace, await_replacement, retire,
  start_replacement, capacity_of, is_stale, is_full, is_expiring,
}

-- Why no replacement may be started: the query failed, or the account has no snapshot or one older
-- than two minutes, or its limit is not positive or reached by the droplets and the pending
-- creations.
pub data NoRoom (now : ℤ) : Option Capacity → Type 0 where
  unread : NoRoom now none
  no_snapshot : (c : Capacity) → c.snapshot_at ≡ pos 0 → NoRoom now (some c)
  outdated : (c : Capacity) → pos 120000000001 ≤ℤ now -ℤ c.snapshot_at → NoRoom now (some c)
  no_limit : (c : Capacity) → c.limit ≤ℤ pos 0 → NoRoom now (some c)
  no_place : (c : Capacity) → c.limit ≤ℤ c.in_use +ℤ c.pending → NoRoom now (some c)

or_true : (b : Bool) → (b || true) ≡ true
or_true true = refl
or_true false = refl

no_room :
    (now : ℤ) (c : Capacity)
    → NoRoom now (some c)
    → (is_stale now c.snapshot_at || is_full c) ≡ true
unfolding is_stale is_full
no_room now _ (no_snapshot c e) = ground (arith, e)
no_room now _ (outdated c e) = ground arith
no_room now _ (no_limit c e) = ground arith
no_room now _ (no_place c e) = ground arith

module _ {W : Type 0} (env : Env W) where
  -- The same surroundings with another lifecycle engine, or another way to start a deployment.
  abbrev pub with_process : (W → Bool → LifecycleItem → W × Option Error) → Env W
  with_process process = record env { process = process }

  abbrev pub with_start : (W → String → String → W × Deployment × Option Error) → Env W
  with_start start = record env { start = start }

  replace-with_process :
      (w : W) (item : LifecycleItem) (process : W → Bool → LifecycleItem → W × Option Error)
      → replace (with_process process) w item ≡ replace env w item
  unfolding replace start_replacement capacity_of
  replace-with_process w item process = refl

  -- The state is not the one that is waited for.
  await_replacement-with_process :
      (w : W) (item : LifecycleItem) (process : W → Bool → LifecycleItem → W × Option Error)
      → env.deployment_state w item.replacement_deployment_id ≢ ok "READY"
      → await_replacement (with_process process) w item ≡ await_replacement env w item
  unfolding await_replacement
  await_replacement-with_process w item process unready =
      elim (Result-cases (env.deployment_state w item.replacement_deployment_id)) [
        | inr (e, lost) ↦ rw (lost, await_replacement) refl
        | inl (state, found) ↦ elim (Bool-cases (str_eq state "READY")) [
          | inl ready ↦ absurd (unready (found ∙ ap ok ((eq_iff state "READY").0 ready)))
          | inr early ↦ rw (found, await_replacement, early) refl
        ]
      ]

  -- While an expiring droplet has no replacement, or the state of the replacement's deployment is
  -- not READY or cannot be read, ProcessLifecycle does the same whatever the lifecycle engine does
  -- that retires droplets: the engine is not called.
  pub process_lifecycle-unready :
      (w : W) (item : LifecycleItem) (process : W → Bool → LifecycleItem → W × Option Error)
      → is_expiring item.state ≡ true
      → (str_eq item.replacement_deployment_id "" ≡ true)
        ⊎ (env.deployment_state w item.replacement_deployment_id ≢ ok "READY")
      → process_lifecycle (with_process process) w item ≡ process_lifecycle env w item
  unfolding process_lifecycle process_expiring
  process_lifecycle-unready w item process old unready =
      rw (old, process_lifecycle)
        (λ i. if str_eq item.profile_id "" then (w, none) else elsewhere unready i)
    where
      elsewhere :
          (str_eq item.replacement_deployment_id "" ≡ true)
            ⊎ (env.deployment_state w item.replacement_deployment_id ≢ ok "READY")
          → (if str_eq item.replacement_deployment_id ""
              then replace (with_process process) w item
              else await_replacement (with_process process) w item)
            ≡ (if str_eq item.replacement_deployment_id ""
                then replace env w item
                else await_replacement env w item)
      elsewhere (inl no_replacement) = rw no_replacement (replace-with_process w item process)
      elsewhere (inr early) = λ i.
          if str_eq item.replacement_deployment_id ""
          then replace-with_process w item process i
          else await_replacement-with_process w item process early i

  replace-with_start :
      (w : W) (item : LifecycleItem) (start : W → String → String → W × Deployment × Option Error)
      → let c = capacity_of env w item.account_id in
        (is_stale (env.now w) c.snapshot_at || is_full c) ≡ true
        → replace (with_start start) w item ≡ replace env w item
  unfolding replace capacity_of
  replace-with_start w item start full =
      let c = capacity_of env w item.account_id in
      elim (Bool-cases (is_stale (env.now w) c.snapshot_at)) [
        | inl stale ↦ rw (stale, replace) refl
        | inr fresh ↦
            let no_room : is_full c ≡ true = rw fresh at full in rw (fresh, replace, no_room) refl
      ]

  NoRoom-full :
      (w : W) (account : String)
      → NoRoom (env.now w) (env.capacity w account)
      → let c = capacity_of env w account in
        (is_stale (env.now w) c.snapshot_at || is_full c) ≡ true
  unfolding capacity_of is_stale is_full
  NoRoom-full w account h = elim (Option-cases (env.capacity w account)) [
    | inl lost ↦ rw (lost, capacity_of, is_full) (or_true _)
    | inr (c, got) ↦
        rw (got, capacity_of) (no_room (env.now w) c (subst (λ o. NoRoom (env.now w) o) got h))
  ]

  -- While the query for the account's capacity fails, its snapshot is missing or older than two
  -- minutes, its limit is not positive, or its droplets and pending creations reach the limit,
  -- ProcessLifecycle does the same whatever starting a deployment does: none is started.
  pub process_lifecycle-full :
      (w : W) (item : LifecycleItem) (start : W → String → String → W × Deployment × Option Error)
      → NoRoom (env.now w) (env.capacity w item.account_id)
      → process_lifecycle (with_start start) w item ≡ process_lifecycle env w item
  unfolding process_lifecycle process_expiring await_replacement retire
  process_lifecycle-full w item start blocked =
      let full = NoRoom-full w item.account_id blocked in
      λ i.
        if is_expiring item.state
        then (if str_eq item.profile_id ""
            then (w, none)
            else if str_eq item.replacement_deployment_id ""
            then replace-with_start w item start full i
            else await_replacement env w item)
        else retire env w item
