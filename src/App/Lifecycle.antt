-- ===== src/App/Lifecycle.antt =====
-- internal/app/lifecycle.go: when an expiring droplet is replaced, and when it is retired.
pub mod Replaced
use digital_ocean_bot.Prelude.{
  zero, String, Bool, true, false, ◌&&◌, ◌||◌, not, Option, none, some, [], ◌∷◌, str_eq,
  if◌then◌else◌,
}
use digital_ocean_bot.Prelude.Int.{ℤ, pos, negsuc, ◌+ℤ◌, ◌-ℤ◌, ltb_ℤ, leb_ℤ}
use digital_ocean_bot.Errors.{Error}
use digital_ocean_bot.Sql.{Result, ok, fail}
use digital_ocean_bot.Text.{concat}
use digital_ocean_bot.Text.Decimal.{itoa}
use digital_ocean_bot.Droplets.Lifecycle.{LifecycleItem, State, expiring}
use digital_ocean_bot.Workflow.{Deployment}

-- The four columns of the first query.
pub record Capacity : Type 0 where
  pub limit : ℤ
  pub in_use : ℤ
  pub pending : ℤ
  pub snapshot_at : ℤ

-- What the query leaves if it fails: the zero time is the year 1.
abbrev pub zero_capacity : Capacity
zero_capacity = record {
  limit = pos 0;
  in_use = pos 0;
  pending = pos 0;
  snapshot_at = negsuc 62135596799999999999;
}

-- What the procedure calls. `process` is the lifecycle engine, and `egress` whether the executor in
-- it checks the egress.
pub record Env (W : Type 0) : Type 0 where
  pub now : W → ℤ
  pub capacity : W → String → Option Capacity
  -- runtime_status='ROTATION_BLOCKED_CAPACITY' with the detail
  pub block : W → String → String → W
  -- back to READY, if it was blocked
  pub unblock : W → String → W
  pub start : W → String → String → W × Deployment × Option Error
  pub link : W → String → String → W × Option Error
  pub deployment_state : W → String → Result String
  -- whether the account's runtime has a gateway of an adapter without sessions
  pub runtime : W → String → Result Bool
  pub process : W → (egress : Bool) → LifecycleItem → W × Option Error

abbrev pub is_expiring : State → Bool
is_expiring expiring = true
is_expiring _ = false

-- `snapshotAt.Equal(time.Unix(0, 0)) || time.Since(snapshotAt) > 2*time.Minute`
unfoldable pub is_stale : ℤ → ℤ → Bool
unfolding ◌-ℤ◌
is_stale now at = (leb_ℤ at (pos 0) && leb_ℤ (pos 0) at) || ltb_ℤ (pos 120000000000) (now -ℤ at)

unfoldable pub is_full : Capacity → Bool
unfolding ◌+ℤ◌
is_full c = leb_ℤ c.limit (pos 0) || leb_ℤ c.limit (c.in_use +ℤ c.pending)

module _ {W : Type 0} (env : Env W) where
  unfoldable pub capacity_of : W → String → Capacity
  capacity_of w account = elim (env.capacity w account) [ none ↦ zero_capacity | some c ↦ c ]

  -- There is room: the replacement is started, and noted on the droplet.
  unfoldable pub start_replacement : W → LifecycleItem → W × Option Error
  start_replacement w item =
      let (w1, d, err) =
        env.start (env.unblock w item.account_id) item.account_id item.profile_id in
      elim err [ some e ↦ (w1, some e) | none ↦ env.link w1 item.id d.id ]

  -- An expiring droplet that has no replacement.
  unfoldable pub replace : W → LifecycleItem → W × Option Error
  replace w item =
      let c = capacity_of w item.account_id in
      if is_stale (env.now w) c.snapshot_at
      then (env.block w item.account_id "provider snapshot stale; refresh required", none)
      else if is_full c
      then (
        env.block w item.account_id (
            concat (
              "droplet limit "
              ∷ itoa c.limit
              ∷ ", in use "
              ∷ itoa c.in_use
              ∷ ", pending "
              ∷ itoa c.pending
              ∷ [])),
        none,
      )
      else start_replacement w item

  -- The lifecycle engine, with the account's runtime.
  unfoldable pub retire : W → LifecycleItem → W × Option Error
  retire w item = elim (env.runtime w item.account_id) [
    | fail e ↦ (w, some e)
    | ok egress ↦ env.process w egress item
  ]

  -- An expiring droplet whose replacement is under way.
  unfoldable pub await_replacement : W → LifecycleItem → W × Option Error
  await_replacement w item = elim (env.deployment_state w item.replacement_deployment_id) [
    | fail e ↦ (w, some e)
    | ok state ↦ if not (str_eq state "READY") then (w, none) else retire w item
  ]

  unfoldable pub process_expiring : W → LifecycleItem → W × Option Error
  process_expiring w item =
      if str_eq item.profile_id ""
      then (w, none)
      else if str_eq item.replacement_deployment_id ""
      then replace w item
      else await_replacement w item

  -- ProcessLifecycle
  unfoldable pub process_lifecycle : W → LifecycleItem → W × Option Error
  process_lifecycle w item =
      if is_expiring item.state then process_expiring w item else retire w item
