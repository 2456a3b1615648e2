-- ===== src/Jobs/Store.antt =====
-- internal/jobs/store.go: SQLStore over the operations table.
use digital_ocean_bot.Prelude.{
  ℕ, ◌+◌, String, Bool, true, false, ◌&&◌, ◌||◌, Option, none, some, List, [], ◌∷◌, ◌++◌, str_eq,
  ◌==◌, if◌then◌else◌,
}
use digital_ocean_bot.Prelude.Int.{ℤ}
use digital_ocean_bot.Errors.{Error, operation_conflict, operation_not_found}
use digital_ocean_bot.Sql.{Sql, statement}
use digital_ocean_bot.Jobs.{Operation, OperationState, unset, planned, zero_operation}

pub record JobsDb : Type 0 where
  pub sql : Sql
  pub operations : List Operation

abbrev pub has_key : String → String → Operation → Bool
has_key account_id key o = str_eq o.account_id account_id && str_eq o.idempotency_key key

unfoldable pub find_operation : String → String → List Operation → Option Operation
find_operation account_id key [] = none
find_operation account_id key (o ∷ os) =
    if has_key account_id key o then some o else find_operation account_id key os

unfoldable pub get : JobsDb → String → String → JobsDb × Operation × Option Error
get db account_id key =
    let (sql, failed) = statement db.sql in
    let db' = record db { sql = sql } in
    elim failed [
      | some e ↦ (db', zero_operation, some e)
      | none ↦ elim (find_operation account_id key db.operations) [
        | none ↦ (db', zero_operation, some operation_not_found)
        | some o ↦ (db', o, none)
      ]
    ]

abbrev pub default_state : OperationState → OperationState
default_state unset = planned
default_state s = s

-- What the INSERT writes: a new row has attempt 0 and no provider's identifiers.
abbrev pub inserted : String → ℤ → Operation → Operation
inserted id now o = record o {
  id = id;
  provider_action_id = "";
  resource_id = "";
  attempt = 0;
  created_at = now;
  updated_at = now;
}

-- The result is the operation, whether this call reserved it, and the error.
unfoldable pub reserve : JobsDb → Operation → JobsDb × Operation × Bool × Option Error
reserve db o =
    if str_eq o.account_id "" || str_eq o.idempotency_key ""
    then (db, zero_operation, false, some operation_conflict)
    else let o' = record o { state = default_state o.state } in
      let now = db.sql.clock in
      let id = db.sql.new_id db.sql.calls in
      let (sql, failed) = statement db.sql in
      let db' = record db { sql = sql } in
      elim failed [
        | some e ↦ (db', zero_operation, false, some e)
        | none ↦ elim (find_operation o.account_id o.idempotency_key db.operations) [
          | none ↦ (
            record db' { operations = db.operations ++ inserted id now o' ∷ [] },
            record o' { id = id; created_at = now; updated_at = now },
            true,
            none,
          )
          | some old ↦
              let (db'', existing, err) = get db' o.account_id o.idempotency_key in
              (db'', existing, false, err)
        ]
      ]

abbrev pub is_row : Operation → Operation → Bool
is_row o row = str_eq row.id o.id && str_eq row.account_id o.account_id

abbrev pub overwrite : ℤ → Operation → Operation → Operation
overwrite now o row = record row {
  state = o.state;
  provider_action_id = o.provider_action_id;
  resource_id = o.resource_id;
  attempt = o.attempt;
  updated_at = now;
}

unfoldable pub update_rows : ℤ → Operation → List Operation → List Operation
update_rows now o [] = []
update_rows now o (row ∷ rows) =
    (if is_row o row then overwrite now o row else row) ∷ update_rows now o rows

unfoldable pub rows_affected : Operation → List Operation → ℕ
rows_affected o [] = 0
rows_affected o (row ∷ rows) = (if is_row o row then 1 else 0) + rows_affected o rows

unfoldable pub update : JobsDb → Operation → JobsDb × Option Error
update db o =
    let (sql, failed) = statement db.sql in
    elim failed [
      | some e ↦ (record db { sql = sql }, some e)
      | none ↦ (
        record db { sql = sql; operations = update_rows sql.clock o db.operations },
        if rows_affected o db.operations == 1 then none else some operation_not_found,
      )
    ]
