-- ===== src/Droplets/Lifecycle.antt =====
-- internal/droplets/lifecycle.go and lifecycle_engine.go: the end of a droplet's life.
pub mod Path
pub mod Stuck
pub mod Due
use digital_ocean_bot.Prelude.{
  ℕ, ◌+◌, String, Bool, true, false, ◌&&◌, ◌||◌, Option, none, some, List, [], ◌∷◌, str_eq, ◌==◌,
  if◌then◌else◌, take,
}
use digital_ocean_bot.Prelude.Int.{ℤ, pos, pos_part, ◌+ℤ◌, ltb_ℤ, leb_ℤ}
use digital_ocean_bot.Errors.{Error, lifecycle_provider_id}
use digital_ocean_bot.Sql.{Sql, statement}
use digital_ocean_bot.Text.{concat}
use digital_ocean_bot.Text.Decimal.{atoi}
use digital_ocean_bot.Jobs.{Operation, OperationState, verifying, succeeded}
use digital_ocean_bot.Droplets.{World, Env}
use digital_ocean_bot.Droplets.Reconcile.{build_delete_operation}
use digital_ocean_bot.Droplets.Executor.{delete}

pub data State : Type 0 where
  requested planned creating active provisioning ready expiring retiring deleting deleted : State

unfoldable pub State-discrete : Discrete State
State-discrete = hlevel

-- The columns of a droplets row that the lifecycle reads. `expires_at` may be NULL.
pub record LifecycleItem : Type 0 where
  pub id : String
  pub account_id : String
  pub provider_id : String
  pub profile_id : String
  pub replacement_deployment_id : String
  pub state : State
  pub expires_at : Option ℤ

-- The droplets table and the lifecycle_events, newest first, beside the executor's world.
pub record Fleet : Type 0 where
  pub world : World
  pub droplets : List LifecycleItem
  pub events : List (String × State)

abbrev pub sql_of : Fleet → Sql
sql_of f = f.world.jobs.sql

abbrev pub with_sql : Fleet → Sql → Fleet
with_sql f s = record f { world = record f.world { jobs = record f.world.jobs { sql = s } } }

abbrev pub is_state : State → State → Bool
is_state s t = elim (State-discrete s t) [ yes e ↦ true | no n ↦ false ]

-- `UPDATE droplets SET state=to WHERE id=$1 AND state=from`
unfoldable pub move_rows : String → State → State → List LifecycleItem → List LifecycleItem
move_rows id from to [] = []
move_rows id from to (x ∷ xs) =
    (if str_eq x.id id && is_state x.state from then record x { state = to } else x)
    ∷ move_rows id from to xs

unfoldable pub rows_moved : String → State → List LifecycleItem → ℕ
rows_moved id from [] = 0
rows_moved id from (x ∷ xs) =
    (if str_eq x.id id && is_state x.state from then 1 else 0) + rows_moved id from xs

unfoldable pub transition : Fleet → String → State → State → Fleet × Bool × Option Error
transition f id from to =
    let (s, failed) = statement (sql_of f) in
    let f' = with_sql f s in
    elim failed [
      | some e ↦ (f', false, some e)
      | none ↦ (
        record f' { droplets = move_rows id from to f.droplets },
        rows_moved id from f.droplets == 1,
        none,
      )
    ]

unfoldable pub event : Fleet → LifecycleItem → State → Fleet × Option Error
event f item state =
    let (s, failed) = statement (sql_of f) in
    let f' = with_sql f s in
    elim failed [
      | some e ↦ (f', some e)
      | none ↦ (record f' { events = (item.id, state) ∷ f.events }, none)
    ]

-- `ok, err := Transition(…); if err != nil || !ok { return err }; return Event(…)`
unfoldable pub advance : Fleet → LifecycleItem → State → State → Fleet × Option Error
unfolding transition event
advance f item from to =
    let (f', moved, err) = transition f item.id from to in
    elim err [ some e ↦ (f', some e) | none ↦ if moved then event f' item to else (f', none) ]

abbrev pub is_settled : OperationState → Bool
is_settled verifying = true
is_settled succeeded = true
is_settled _ = false

abbrev pub delete_key : LifecycleItem → String
delete_key item = concat ("lifecycle-delete:" ∷ item.id ∷ [])

abbrev pub delete_operation : LifecycleItem → ℤ → Operation
delete_operation item id = record (build_delete_operation item.account_id id) {
  idempotency_key = delete_key item;
}

unfoldable pub retire : Env → Fleet → LifecycleItem → Fleet × Option Error
unfolding build_delete_operation
retire env f item = elim (atoi item.provider_id) [
  | none ↦ (f, some lifecycle_provider_id)
  | some id ↦
      let (w, result, err) = delete env f.world (delete_operation item id) id in
      let f' = record f { world = w } in
      elim err [
        | some e ↦ (f', some e)
        | none ↦ if is_settled result.state then advance f' item retiring deleting else (f', none)
      ]
]

unfoldable pub process_in : State → Env → Fleet → LifecycleItem → Fleet × Option Error
process_in ready env f item = advance f item ready expiring
process_in expiring env f item = advance f item expiring retiring
process_in retiring env f item = retire env f item
process_in _ env f item = (f, none)

unfoldable pub process : Env → Fleet → LifecycleItem → Fleet × Option Error
unfolding process_in
process env f item = process_in item.state env f item

abbrev pub is_live : State → Bool
is_live ready = true
is_live expiring = true
is_live retiring = true
is_live deleting = true
is_live _ = false

abbrev pub expires_by : ℤ → Option ℤ → Bool
expires_by limit none = false
expires_by limit (some t) = leb_ℤ t limit

-- ORDER BY expires_at: insertion keeps rows of one time in the table's order.
abbrev pub expiry : LifecycleItem → ℤ
expiry x = elim x.expires_at [ none ↦ pos 0 | some t ↦ t ]

unfoldable pub insert_by_expiry : LifecycleItem → List LifecycleItem → List LifecycleItem
insert_by_expiry x [] = x ∷ []
insert_by_expiry x (y ∷ ys) =
    if leb_ℤ (expiry x) (expiry y) then x ∷ y ∷ ys else y ∷ insert_by_expiry x ys

-- The rows that are due, in order. `lead` is the account's head start in nanoseconds: the GREATEST,
-- LEAST and percentile over its past deployments are the database's.
unfoldable pub due_rows : (String → ℤ) → ℤ → List LifecycleItem → List LifecycleItem
unfolding insert_by_expiry ◌+ℤ◌
due_rows lead now [] = []
due_rows lead now (x ∷ xs) =
    let rest = due_rows lead now xs in
    if is_live x.state && expires_by (now +ℤ lead x.account_id) x.expires_at
    then insert_by_expiry x rest
    else rest

abbrev pub batch_size : ℤ → ℕ
batch_size limit = if ltb_ℤ limit (pos 1) then 100 else pos_part limit

unfoldable pub due : (String → ℤ) → Fleet → ℤ → ℤ → Fleet × List LifecycleItem × Option Error
unfolding due_rows
due lead f now limit =
    let (s, failed) = statement (sql_of f) in
    let f' = with_sql f s in
    elim failed [
      | some e ↦ (f', [], some e)
      | none ↦ (f', take (batch_size limit) (due_rows lead now f.droplets), none)
    ]
