-- ===== src/Droplets/Lifecycle/Stuck.antt =====
-- What becomes of a droplet whose delete failed once.
use digital_ocean_bot.Prelude.{
  ℕ, ◌≡◌, refl, sym, ◌∙◌, inl, inr, false, none, some, List, [], ◌∷◌, arith, eq_iff, str_eq,
  Bool-cases, Option-cases,
}
use digital_ocean_bot.Prelude.Int.{ℤ}
use text.Mathlib.TextLemmas.{cons-ne-nil, cons-append}
use digital_ocean_bot.Errors.{Error}
use digital_ocean_bot.Text.Decimal.{atoi}
use digital_ocean_bot.Jobs.{Operation, unknown}
use digital_ocean_bot.Jobs.Store.{JobsDb, find_operation, reserve, get, rows_affected}
use digital_ocean_bot.Jobs.Idempotency.{reserve_taken, new_row}
use digital_ocean_bot.Droplets.{World, Env}
use digital_ocean_bot.Droplets.Executor.{delete}
use digital_ocean_bot.Droplets.Ledger.{state_of, delete-stored}
use digital_ocean_bot.Droplets.Lifecycle.{
  retiring, LifecycleItem, Fleet, is_settled, delete_key, delete_operation, retire, process,
}

taken_row :
    (db : JobsDb) (o old : Operation)
    → find_operation o.account_id o.idempotency_key db.operations ≡ some old
    → (reserve db o).3 ≡ none
    → (reserve db o).1 ≡ old
unfolding reserve get
taken_row db o old e fine = ground arith

pub delete_taken :
    (env : Env) (w : World) (op old : Operation) (id : ℤ)
    → find_operation op.account_id op.idempotency_key w.jobs.operations ≡ some old
    → let r = delete env w op id in
      (r.0.deleted ≡ w.deleted)
      × (r.0.jobs.operations ≡ w.jobs.operations)
      × (r.2 ≡ none → r.1 ≡ old)
unfolding delete
delete_taken env w op old id e =
    let t = reserve_taken w.jobs op (old, e) in
    (ground (arith, t), ground (arith, t), λ fine. ground (arith, t, taken_row w.jobs op old e))

-- Nothing that can be seen of the fleet changes.
abbrev pub Same : Fleet → Fleet → Type 0
Same f g =
    (g.droplets ≡ f.droplets)
    × (g.world.deleted ≡ f.world.deleted)
    × (g.world.jobs.operations ≡ f.world.jobs.operations)

-- The ledger has the row's delete operation, and it is not settled.
abbrev pub IsPending : LifecycleItem → Fleet → Type 0
IsPending item f =
    (o : Operation) × (find_operation item.account_id (delete_key item) f.world.jobs.operations
      ≡ some o)
    × (is_settled o.state ≡ false)

process-Same :
    (env : Env) (f : Fleet) (item : LifecycleItem)
    → item.state ≡ retiring
    → IsPending item f
    → Same f (process env f item).0
unfolding process retire
process-Same env f item s (o, e, pending) = elim (Option-cases (atoi item.provider_id)) [
  | inl no_number ↦ ground arith
  | inr (id, number) ↦ ground (arith, delete_taken env f.world (delete_operation item id) o id e)
]

-- The engine's later calls for one item, each with its own gate, provider and egress.
pub retries : List Env → Fleet → LifecycleItem → Fleet
retries [] f item = f
retries (env ∷ envs) f item = retries envs (process env f item).0 item

retries-Same :
    (envs : List Env) (f : Fleet) (item : LifecycleItem)
    → item.state ≡ retiring
    → IsPending item f
    → Same f (retries envs f item)
unfolding retries
retries-Same [] f item s p = (refl, refl, refl)
retries-Same (env ∷ envs) f item s (o, e, pending) =
    let once = process-Same env f item s (o, e, pending) in
    let g = (process env f item).0 in
    let rest = retries-Same envs g item s (o, rw once.2 e, pending) in
    (rest.0 ∙ once.0, rest.1 ∙ once.1, rest.2 ∙ once.2)

state_of-Pending :
    (item : LifecycleItem) (f : Fleet)
    → state_of item.account_id (delete_key item) f.world.jobs ≡ some unknown
    → IsPending item f
state_of-Pending item f h =
    elim (Option-cases (find_operation item.account_id (delete_key item) f.world.jobs.operations)) [
      | inl e ↦ absurd (ground arith)
      | inr (o, e) ↦ (o, e, ground arith)
    ]

-- If the first delete of a retiring droplet fails at the provider, with any error (a timeout or a
-- rate limit included), while all statements work, the gate is open and no egress check is set,
-- then no later call of the engine for the item asks the provider to delete it again, and its row
-- stays as it is.
pub failed_delete-stuck :
    (env : Env) (f : Fleet) (item : LifecycleItem) (id : ℤ) (x : Error) (envs : List Env)
    → item.state ≡ retiring
    → atoi item.provider_id ≡ some id
    → ((n : ℕ) → f.world.jobs.sql.fault n ≡ none)
    → str_eq item.account_id "" ≡ false
    → find_operation item.account_id (delete_key item) f.world.jobs.operations ≡ none
    → rows_affected (new_row f.world.jobs (delete_operation item id)) f.world.jobs.operations ≡ 0
    → env.gate ≡ some none
    → env.egress_check ≡ none
    → env.delete_droplet f.world.deleted id ≡ some x
    → let g = retries envs (process env f item).0 item in
      (g.world.deleted ≡ id ∷ f.world.deleted) × (g.droplets ≡ f.droplets)
unfolding process retire
failed_delete-stuck env f item id x envs s number working named absent unused gate direct refused =
    let once =
      delete-stored f.world (delete_operation item id) working named (keyed item) absent unused env
        gate direct id x refused in
    let g = (process env f item).0 in
    let first : (g.droplets ≡ f.droplets)
        × (g.world ≡ (delete env f.world (delete_operation item id) id).0) =
      ground (arith, once) in
    let rest = retries-Same envs g item s (state_of-Pending item g (ground (arith, once, first))) in
    (rest.1 ∙ ground (arith, first, once), rest.0 ∙ first.0)
  where
    keyed : (item : LifecycleItem) → str_eq (delete_key item) "" ≡ false
    keyed item = elim (Bool-cases (str_eq (delete_key item) "")) [
      | inl empty ↦ absurd (
          cons-ne-nil _ _ (
            sym (cons-append _ "ifecycle-delete:" item.id) ∙ (eq_iff (delete_key item) "").0 empty))
      | inr named ↦ named
    ]
