-- ===== src/Worker.antt =====
-- internal/worker: one round of the worker, and the rows that its recovery store selects.
pub mod Store
pub mod Round
use digital_ocean_bot.Prelude.{
  ℕ, zero, suc, ◌+◌, ◌-◌, ◌*◌, ◌/◌, ◌%◌, ◌^◌, ◌≤◌, ◌<◌, min, max, String, ◌≡◌, refl, sym, ap, ◌∙◌,
  subst, ◌≢◌, ◌↔◌, ◌⊎◌, inl, inr, Bool, true, false, ◌&&◌, ◌||◌, not, Option, none, some, List, [],
  ◌∷◌, ◌++◌, map, arith, eq_iff, eq_refl, str_eq, dec_lt, ltb, leb, ◌==◌, if◌then◌else◌, Bool-cases,
  Option-cases, length, get_elem?, take, drop, length-append,
}
use digital_ocean_bot.Prelude.Int.{
  ℤ, pos, negsuc, pos_part, neg_part, ◌+ℤ◌, ◌-ℤ◌, ◌≤ℤ◌, ltb_ℤ, leb_ℤ, wrap64, int_laws,
}
use digital_ocean_bot.Errors.{Error}
use digital_ocean_bot.Sql.{Result, ok, fail}
use digital_ocean_bot.Droplets.Lifecycle.{LifecycleItem}

pub record RecoveryItem : Type 0 where
  pub id : String
  pub account_id : String
  pub kind : String
  pub state : String
  pub updated_at : ℤ

-- The recovery store, the lifecycle store's Due at the worker's clock, and the two handlers. `has`
-- says whether the worker has a lifecycle.
pub record Env (W : Type 0) : Type 0 where
  pub operations : W → ℤ → W × Result (List RecoveryItem)
  pub deployments : W → ℤ → W × Result (List RecoveryItem)
  pub has_lifecycle : Bool
  pub due : W → ℤ → W × Result (List LifecycleItem)
  pub recover_operation : W → RecoveryItem → W × Option Error
  pub recover_deployment : W → RecoveryItem → W × Option Error
  pub process_lifecycle : W → LifecycleItem → W × Option Error

-- `for _, x := range xs { if err := handle(x); err != nil { continue } }`
unfoldable pub each {ℓ} : {W : Type 0} {A : Type ℓ} → (W → A → W × Option Error) → W → List A → W
each handle w [] = w
each handle w (x ∷ xs) = each handle (handle w x).0 xs

module _ {W : Type 0} (env : Env W) where
  -- LifecycleWorker.Once, with its own batch
  unfoldable pub lifecycle_once : W → ℤ → W × Option Error
  lifecycle_once w batch =
      let (w1, items) = env.due w batch in
      elim items [ fail e ↦ (w1, some e) | ok xs ↦ (each env.process_lifecycle w1 xs, none) ]

  unfoldable pub deployments_once : W → ℤ → W × Option Error
  deployments_once w batch =
      let (w1, items) = env.deployments w batch in
      elim items [ fail e ↦ (w1, some e) | ok xs ↦ (each env.recover_deployment w1 xs, none) ]

  -- The error of the lifecycle's round is dropped.
  unfoldable pub lifecycle_part : W → ℤ → W
  lifecycle_part w batch = if env.has_lifecycle then (lifecycle_once w batch).0 else w

  -- Worker.Once
  unfoldable pub once : W → ℤ → ℤ → W × Option Error
  once w batch lifecycle_batch =
      let (w1, ops) = env.operations w batch in
      elim ops [
        | fail e ↦ (w1, some e)
        | ok xs ↦
            deployments_once (lifecycle_part (each env.recover_operation w1 xs) lifecycle_batch)
              batch
      ]
