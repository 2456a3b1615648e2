-- ===== src/Droplets/Ledger.antt =====
-- What the ledger holds after a provider call that failed.
use digital_ocean_bot.Droplets.Refusal.{IsRefusal, failed_state-failed, failed_state-unknown}
use digital_ocean_bot.Jobs.{failed}
use digital_ocean_bot.Prelude.{
  ◌∙◌, ℕ, suc, ◌+◌, String, ◌≡◌, refl, sym, ap, true, false, Option, none, some, List, [], ◌∷◌,
  ◌++◌, arith, eq_iff, eq_refl, str_eq, if◌then◌else◌,
}
use digital_ocean_bot.Prelude.Int.{ℤ}
use mathlib.Core.Option
use digital_ocean_bot.Errors.{Error}
use digital_ocean_bot.Jobs.{Operation, OperationState, running, unknown}
use digital_ocean_bot.Jobs.Store.{
  JobsDb, find_operation, reserve, update, is_row, overwrite, rows_affected,
}
use digital_ocean_bot.Jobs.Idempotency.{new_row, find-append_new, find-update_rows}
use digital_ocean_bot.Droplets.{World, Env, Profile}
use digital_ocean_bot.Droplets.Executor.{
  create_request, failed_state, call_create, call_delete, run_fresh, create, delete,
}

-- The state of the row under the key, if there is one.
abbrev pub state_of : String → String → JobsDb → Option OperationState
state_of a k db = Option.map (λ o. o.state) (find_operation a k db.operations)

-- What `reserve` hands to the caller that reserved.
abbrev pub reserved_as : JobsDb → Operation → Operation
reserved_as db o = (reserve db o).1

update_row :
    (a k : String) (db : JobsDb) (o row : Operation)
    → find_operation a k db.operations ≡ some row
    → row.id ≡ o.id
    → row.account_id ≡ o.account_id
    → db.sql.fault db.sql.calls ≡ none
    → find_operation a k (update db o).0.operations ≡ some (overwrite db.sql.clock o row)
unfolding update
update_row a k db o row e i j fine = ground (
  arith,
  find-update_rows a k db.sql.clock o db.operations,
  eq_iff row.id o.id,
  eq_iff row.account_id o.account_id,
)

update_sql :
    (db : JobsDb) (o : Operation) → (update db o).0.sql ≡ record db.sql { calls = suc db.sql.calls }
unfolding update
update_sql db o = ground arith

rows_affected-append :
    (o : Operation) (xs ys : List Operation)
    → rows_affected o (xs ++ ys) ≡ rows_affected o xs + rows_affected o ys
unfolding rows_affected
rows_affected-append o [] ys = omega arith
rows_affected-append o (x ∷ xs) ys = ground (arith, rows_affected-append o xs ys)

rows_affected-same :
    (o p : Operation) (xs : List Operation)
    → o.id ≡ p.id
    → o.account_id ≡ p.account_id
    → rows_affected o xs ≡ rows_affected p xs
unfolding rows_affected
rows_affected-same o p [] i j = refl
rows_affected-same o p (x ∷ xs) i j =
    rw (i, j) (ap (λ n. (if is_row p x then 1 else 0) + n) (rows_affected-same o p xs i j))

module _ (w : World) (op : Operation) (working : (n : ℕ) → w.jobs.sql.fault n ≡ none)
    (named : str_eq op.account_id "" ≡ false) (keyed : str_eq op.idempotency_key "" ≡ false)
    (absent : find_operation op.account_id op.idempotency_key w.jobs.operations ≡ none)
    (unused : rows_affected (new_row w.jobs op) w.jobs.operations ≡ 0) where
  abbrev started : Operation
  started = let r = reserved_as w.jobs op in record r { state = running; attempt = suc r.attempt }

  reserve_absent :
      ((reserve w.jobs op).2 ≡ true)
      × ((reserve w.jobs op).3 ≡ none)
      × ((reserve w.jobs op).0.operations ≡ w.jobs.operations ++ new_row w.jobs op ∷ [])
      × ((reserve w.jobs op).1.id ≡ (new_row w.jobs op).id)
      × ((reserve w.jobs op).1.account_id ≡ op.account_id)
      × ((reserve w.jobs op).0.sql ≡ record w.jobs.sql { calls = suc w.jobs.sql.calls })
  unfolding reserve
  reserve_absent = ground (arith, working w.jobs.sql.calls)

  reserved_row :
      find_operation op.account_id op.idempotency_key (reserve w.jobs op).0.operations
      ≡ some (new_row w.jobs op)
  reserved_row = rw (reserve_absent.2) (
      find-append_new op.account_id op.idempotency_key w.jobs.operations (new_row w.jobs op) absent
        (ground (arith, eq_refl op.account_id, eq_refl op.idempotency_key)))

  abbrev db1 : JobsDb
  db1 = (reserve w.jobs op).0

  abbrev db2 : JobsDb
  db2 = (update db1 started).0

  -- The row after the operation was marked as running, and after it was given up as `s`.
  started_row :
      find_operation op.account_id op.idempotency_key db2.operations
      ≡ some (overwrite db1.sql.clock started (new_row w.jobs op))
  started_row =
      update_row op.account_id op.idempotency_key db1 started (new_row w.jobs op) reserved_row
        (sym reserve_absent.3) (sym reserve_absent.4)
        (rw (reserve_absent.5) (working (suc w.jobs.sql.calls)))

  given_up_row :
      (s : OperationState)
      → let o = record started { state = s } in
        find_operation op.account_id op.idempotency_key (update db2 o).0.operations
        ≡ some (overwrite db2.sql.clock o (overwrite db1.sql.clock started (new_row w.jobs op)))
  given_up_row s =
      update_row op.account_id op.idempotency_key db2 (record started { state = s })
        (overwrite db1.sql.clock started (new_row w.jobs op)) started_row (sym reserve_absent.3)
        (sym reserve_absent.4)
        (rw (update_sql db1 started, reserve_absent.5) (working (suc (suc w.jobs.sql.calls))))

  started_fine : (update db1 started).1 ≡ none
  unfolding update rows_affected
  started_fine = ground (arith, one, reserve_absent.5, working (suc w.jobs.sql.calls))
    where
      one : rows_affected started db1.operations ≡ 1
      one = rw reserve_absent.2 (
          ground (
            arith,
            rows_affected-append started w.jobs.operations (new_row w.jobs op ∷ []),
            rows_affected-same started (new_row w.jobs op) w.jobs.operations reserve_absent.3
                reserve_absent.4,
            unused,
            reserve_absent.3,
            reserve_absent.4,
            eq_refl (new_row w.jobs op).id,
            eq_refl op.account_id,
          ))

  module _ (env : Env) (open_gate : env.gate ≡ some none) (direct : env.egress_check ≡ none) where
    failed_create-stored :
        (profile : Profile) (e : Error)
        → (env.create_droplet w.created (create_request profile)).1 ≡ some e
        → let r = create env w op profile in
          (r.2 ≡ some e)
          × (r.0.created ≡ create_request profile ∷ w.created)
          × (state_of op.account_id op.idempotency_key r.0.jobs ≡ some (failed_state e))
    unfolding create run_fresh call_create
    failed_create-stored profile e refused =
        ground (arith, reserve_absent, started_fine, given_up_row (failed_state e))

    -- A create of a new key that the provider refuses, with the gate open, no egress check and
    -- working statements, returns the error after one request and leaves the ledger's row as
    -- failed if the error is a status from 400 to 499 that is none of 408, 409 and 429, or a
    -- blocked mutation, and as unknown if it is any other.
    pub create-stored :
        (profile : Profile) (e : Error)
        → (env.create_droplet w.created (create_request profile)).1 ≡ some e
        → let r = create env w op profile in
          (r.2 ≡ some e)
          × (r.0.created ≡ create_request profile ∷ w.created)
          × (IsRefusal e → state_of op.account_id op.idempotency_key r.0.jobs ≡ some failed)
          × ((IsRefusal e → ⊥) → state_of op.account_id op.idempotency_key r.0.jobs ≡ some unknown)
    create-stored profile e refused =
        let (returned, sent, stored) = failed_create-stored profile e refused in
        (
          returned,
          sent,
          λ refusal. stored ∙ ap (λ s. some s) (failed_state-failed e refusal),
          λ other. stored ∙ ap (λ s. some s) (failed_state-unknown e other),
        )

    -- A failed delete leaves it as unknown, whatever the error says.
    pub delete-stored :
        (id : ℤ) (e : Error)
        → env.delete_droplet w.deleted id ≡ some e
        → let r = delete env w op id in
          (r.2 ≡ some e)
          × (r.0.deleted ≡ id ∷ w.deleted)
          × (state_of op.account_id op.idempotency_key r.0.jobs ≡ some unknown)
    unfolding delete run_fresh call_delete
    delete-stored id e refused = ground (arith, reserve_absent, started_fine, given_up_row unknown)
