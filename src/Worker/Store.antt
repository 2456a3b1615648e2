-- ===== src/Worker/Store.antt =====
-- internal/worker/recovery.go on the tables operations and deployments.
use digital_ocean_bot.Prelude.{
  ℕ, String, Bool, true, false, Option, none, some, List, [], ◌∷◌, if◌then◌else◌, take,
}
use digital_ocean_bot.Prelude.Int.{ℤ, pos, pos_part, ◌+ℤ◌, ltb_ℤ, leb_ℤ}
use digital_ocean_bot.Errors.{Error}
use digital_ocean_bot.Sql.{Sql, statement, Result, ok, fail}
use digital_ocean_bot.Jobs.{Operation, OperationState, running, verifying, unknown}
use digital_ocean_bot.Workflow.{Deployment, State, ready, failed}
use digital_ocean_bot.Worker.{RecoveryItem}

pub record RecoveryDb : Type 0 where
  pub sql : Sql
  pub operations : List Operation
  pub deployments : List Deployment
  -- the columns `state` as texts
  pub operation_text : OperationState → String
  pub deployment_text : State → String

-- `state IN ('running','verifying') AND updated_at <= now()-interval '15 seconds'`, or 30 seconds
-- for 'unknown'
abbrev pub patience : OperationState → Option ℤ
patience running = some (pos 15000000000)
patience verifying = some (pos 15000000000)
patience unknown = some (pos 30000000000)
patience _ = none

unfoldable pub is_stuck : ℤ → Operation → Bool
unfolding ◌+ℤ◌
is_stuck now o = elim (patience o.state) [ none ↦ false | some p ↦ leb_ℤ (o.updated_at +ℤ p) now ]

abbrev pub is_open : State → Bool
is_open ready = false
is_open failed = false
is_open _ = true

-- ORDER BY updated_at: insertion keeps rows of one time in the table's order.
unfoldable pub insert_by_update : RecoveryItem → List RecoveryItem → List RecoveryItem
insert_by_update x [] = x ∷ []
insert_by_update x (y ∷ ys) =
    if leb_ℤ x.updated_at y.updated_at then x ∷ y ∷ ys else y ∷ insert_by_update x ys

abbrev pub batch_size : ℤ → ℕ
batch_size limit = if ltb_ℤ limit (pos 1) then 100 else pos_part limit

abbrev pub operation_item : RecoveryDb → Operation → RecoveryItem
operation_item db o = record {
  id = o.id;
  account_id = o.account_id;
  kind = o.kind;
  state = db.operation_text o.state;
  updated_at = o.updated_at;
}

abbrev pub deployment_item : RecoveryDb → Deployment → RecoveryItem
deployment_item db d = record {
  id = d.id;
  account_id = d.account_id;
  kind = "deployment";
  state = db.deployment_text d.state;
  updated_at = d.updated_at;
}

unfoldable pub stuck_items : RecoveryDb → ℤ → List Operation → List RecoveryItem
unfolding insert_by_update
stuck_items db now [] = []
stuck_items db now (o ∷ os) =
    let rest = stuck_items db now os in
    if is_stuck now o then insert_by_update (operation_item db o) rest else rest

unfoldable pub open_items : RecoveryDb → List Deployment → List RecoveryItem
unfolding insert_by_update
open_items db [] = []
open_items db (d ∷ ds) =
    let rest = open_items db ds in
    if is_open d.state then insert_by_update (deployment_item db d) rest else rest

abbrev pub selected : Option Error → List RecoveryItem → Result (List RecoveryItem)
selected (some e) xs = fail e
selected none xs = ok xs

-- RecoveryStore.Operations and Deployments
unfoldable pub operations : RecoveryDb → ℤ → RecoveryDb × Result (List RecoveryItem)
unfolding stuck_items
operations db limit =
    let (s, lost) = statement db.sql in
    (
      record db { sql = s },
      selected lost (take (batch_size limit) (stuck_items db db.sql.clock db.operations)),
    )

unfoldable pub deployments : RecoveryDb → ℤ → RecoveryDb × Result (List RecoveryItem)
unfolding open_items
deployments db limit =
    let (s, lost) = statement db.sql in
    (record db { sql = s }, selected lost (take (batch_size limit) (open_items db db.deployments)))
