-- ===== src/Workflow/Table/Spec.antt =====
-- The tables of internal/workflow/store.go as a map from identifiers to rows: the calls of the
-- store, and what each does to the map.
use digital_ocean_bot.Prelude.{String, Option, none, some, List, [], ◌∷◌, str_eq, if◌then◌else◌}
use digital_ocean_bot.Prelude.Int.{ℤ}
use digital_ocean_bot.Sql.{Sql, statement}
use digital_ocean_bot.Workflow.{Deployment, Request, State}
use digital_ocean_bot.Workflow.Table
use digital_ocean_bot.Workflow.Table.{
  ProfileSnapshot, Row, Db, find_row, insert, change_rows, is_row_of, written, is_unset, new_row,
  exec_rows, insert_error,
}

pub data Op : Type 0 where
  reserve : Request → Op
  update : Deployment → Op
  event : String → String → State → String → Op
  attach : String → ProfileSnapshot → Op
  get : String → String → Op

unfoldable pub step : Op → Db → Db
unfolding Table.reserve Table.update Table.event Table.attach_snapshot Table.get
step (reserve r) db = (Table.reserve db r).0
step (update d) db = (Table.update db d).0
step (event id s state message) db = (Table.event db id s state message).0
step (attach id p) db = (Table.attach_snapshot db id p).0
step (get id account) db = (Table.get db id account).0

unfoldable pub run : List Op → Db → Db
unfolding step
run [] db = db
run (op ∷ ops) db = run ops (step op db)

-- The abstract store.
pub record Spec : Type 0 where
  pub sql : Sql
  pub rows : String → Option Row

abbrev pub view : Db → Spec
view db = record { sql = db.sql; rows = λ k. find_row k db.deployments }

abbrev pub put : String → Option Row → (String → Option Row) → String → Option Row
put id row rows k = if str_eq k id then row else rows k

-- A write of an update: the row is there, and is the account's own.
abbrev pub updated : Deployment → ℤ → Option Row → Option Row
updated d now none = none
updated d now (some r) =
    if str_eq r.deployment.account_id d.account_id then some (written d now r) else some r

-- The first snapshot stays.
abbrev pub attached : ProfileSnapshot → Option Row → Option Row
attached p none = none
attached p (some r) = elim r.profile_snapshot [
  | none ↦ some (record r { profile_snapshot = some p })
  | some q ↦ some r
]

-- A new row, unless its key is taken.
abbrev pub added : Row → Option Row → Option Row
added new none = some new
added new (some r) = some r

-- What each call does to the map, if its statement does not fail.
unfoldable pub effect : Op → Sql → (String → Option Row) → String → Option Row
effect (reserve r) s rows =
    let id = s.new_id s.calls in
    if str_eq r.deployment_id "" then put id (added (new_row id s.clock r) (rows id)) rows else rows
effect (update d) s rows = put d.id (updated d s.clock (rows d.id)) rows
effect (event id x state message) s rows = rows
effect (attach id p) s rows = put id (attached p (rows id)) rows
effect (get id account) s rows = rows

unfoldable pub spec_step : Op → Spec → Spec
unfolding effect
spec_step op a = elim (a.sql.fault a.sql.calls) [
  | some e ↦ record a { sql = (statement a.sql).0 }
  | none ↦ record { sql = (statement a.sql).0; rows = effect op a.sql a.rows }
]

unfoldable pub replay : List Op → Spec → Spec
unfolding spec_step
replay [] a = a
replay (op ∷ ops) a = replay ops (spec_step op a)
