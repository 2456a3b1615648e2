-- ===== src/Workflow/Table/Refines.antt =====
-- Every history of the calls of internal/workflow/store.go reads as its replay on the map.
use digital_ocean_bot.Prelude.{
  ap, String, ◌≡◌, refl, sym, ◌∙◌, inl, inr, true, Option, some, List, [], ◌∷◌, str_eq, Bool-cases,
  Option-cases,
}
use digital_ocean_bot.Sql.{statement}
use digital_ocean_bot.Workflow.{Request}
use digital_ocean_bot.Workflow.Table
use digital_ocean_bot.Workflow.Table.{
  ProfileSnapshot, Row, Db, find_row, insert, change_rows, is_row_of, written, is_unset, new_row,
  exec_rows, insert_error,
}
use digital_ocean_bot.Workflow.Table.Spec.{Op, view, effect, spec_step, replay, run, step}
use digital_ocean_bot.Workflow.Table.Rows.{insert-rows, update-rows, put_same, attach-rows}

insert-view :
    (db : Db) (r : Request)
    → str_eq r.deployment_id "" ≡ true
    → view (insert db r).0 ≡ spec_step (Op.reserve r) (view db)
unfolding insert spec_step effect
insert-view db r fresh = elim (Option-cases (db.sql.fault db.sql.calls)) [
  | inr (e, lost) ↦ rw (lost, insert, spec_step) refl
  | inl sent ↦ elim (Option-cases (find_row (db.sql.new_id db.sql.calls) db.deployments)) [
    | inr (x, clash) ↦
        rw (sent, insert, clash, spec_step, effect, fresh)
          (ap (λ (rows : String → Option Row). record { sql = (statement db.sql).0; rows = rows })
            (sym (
              put_same (db.sql.new_id db.sql.calls) (some x) (λ k. find_row k db.deployments)
                clash)))
    | inl free ↦
        rw (sent, insert, free, spec_step, effect, fresh)
          (ap (λ (rows : String → Option Row). record { sql = (statement db.sql).0; rows = rows })
            (insert-rows db.sql r db.deployments free))
  ]
]

step-view : (op : Op) (db : Db) → view (step op db) ≡ spec_step op (view db)
unfolding step spec_step effect
step-view (Op.reserve r) db = elim (Bool-cases (str_eq r.deployment_id "")) [
  | inl fresh ↦ rw (fresh, step) (insert-view db r fresh)
  | inr given ↦ elim (Option-cases (db.sql.fault db.sql.calls)) [
    | inr (e, lost) ↦ rw (given, step, lost, spec_step) refl
    | inl sent ↦ rw (given, step, sent, spec_step, effect, given) refl
  ]
]
step-view (Op.update d) db = elim (Option-cases (db.sql.fault db.sql.calls)) [
  | inr (e, lost) ↦ rw (lost, Table.update, spec_step) refl
  | inl sent ↦
      rw (sent, Table.update, spec_step)
        (ap (λ (rows : String → Option Row). record { sql = (statement db.sql).0; rows = rows })
          (update-rows d db.sql.clock db.deployments))
]
step-view (Op.event id s state message) db = elim (Option-cases (db.sql.fault db.sql.calls)) [
  | inr (e, lost) ↦ rw (lost, Table.event, spec_step) refl
  | inl sent ↦ rw (sent, Table.event, spec_step) refl
]
step-view (Op.attach id p) db = elim (Option-cases (db.sql.fault db.sql.calls)) [
  | inr (e, lost) ↦ rw (lost, Table.attach_snapshot, spec_step) refl
  | inl sent ↦
      rw (sent, Table.attach_snapshot, spec_step)
        (ap (λ (rows : String → Option Row). record { sql = (statement db.sql).0; rows = rows })
          (attach-rows id p db.deployments))
]
step-view (Op.get id account) db = elim (Option-cases (db.sql.fault db.sql.calls)) [
  | inr (e, lost) ↦ rw (lost, Table.get, spec_step) refl
  | inl sent ↦ rw (sent, Table.get, spec_step) refl
]

-- Every history of reservations, updates, events, attached snapshots and reads on the tables,
-- whichever statements fail, reads as its replay on a map from identifiers to rows: a reservation
-- adds a row under a new key, an update writes the account's own row only, the first attached
-- snapshot stays, and a failed statement changes nothing.
pub run_refines : (ops : List Op) (db : Db) → view (run ops db) ≡ replay ops (view db)
unfolding run replay
run_refines [] db = refl
run_refines (op ∷ ops) db = run_refines ops (step op db) ∙ ap (replay ops) (step-view op db)
