-- ===== src/Workflow/Table/Reading.antt =====
-- What internal/workflow/store.go reads back of what it wrote.
use digital_ocean_bot.Prelude.{
  suc, ◌≡◌, refl, ap, ◌∙◌, true, none, some, List, eq_iff, eq_refl, str_eq,
}
use digital_ocean_bot.Prelude.Int.{ℤ}
use digital_ocean_bot.Sql.{statement}
use digital_ocean_bot.Workflow.{Deployment}
use digital_ocean_bot.Workflow.Table.{
  scanned, Row, Db, find_row, owned_by, get, update, change_rows, is_row_of, written,
}
use digital_ocean_bot.Workflow.Table.Spec.{put, updated}
use digital_ocean_bot.Workflow.Table.Rows.{update-rows, find_row-id}

read_back :
    (d : Deployment) (r : Row) (now : ℤ) (rows : List Row)
    → find_row d.id rows ≡ some r
    → r.deployment.account_id ≡ d.account_id
    → find_row d.id (change_rows (is_row_of d) (written d now) rows) ≡ some (written d now r)
read_back d r now rows found own =
    let mine : str_eq r.deployment.account_id d.account_id ≡ true =
      (eq_iff r.deployment.account_id d.account_id).1 own in
    let written_own : updated d now (some r) ≡ some (written d now r) = rw mine refl in
    let put_own : put d.id (updated d now (find_row d.id rows)) (λ k. find_row k rows) d.id
        ≡ updated d now (find_row d.id rows) =
      rw (eq_refl d.id) refl in
    ap (λ f. f d.id) (update-rows d now rows) ∙ put_own ∙ ap (updated d now) found ∙ written_own

-- If the deployment's row is there and is the account's own, and neither statement fails, then
-- what Get reads after Update is the deployment that was given, with the profile and the time of
-- creation of the row and the time of the update.
pub get-update :
    (db : Db) (d : Deployment) (r : Row)
    → find_row d.id db.deployments ≡ some r
    → r.deployment.account_id ≡ d.account_id
    → db.sql.fault db.sql.calls ≡ none
    → db.sql.fault (suc db.sql.calls) ≡ none
    → let (db', err) = update db d in
      (err ≡ none)
      × ((get db' d.id d.account_id).1 ≡ record d {
        profile_id = r.deployment.profile_id;
        created_at = r.deployment.created_at;
        updated_at = db.sql.clock;
      })
      × ((get db' d.id d.account_id).2 ≡ none)
unfolding get update
get-update db d r found own sent sent' =
    let rows = change_rows (is_row_of d) (written d db.sql.clock) db.deployments in
    let read : find_row d.id rows ≡ some (written d db.sql.clock r) =
      read_back d r db.sql.clock db.deployments found own in
    let id_eq : r.deployment.id ≡ d.id =
      (eq_iff r.deployment.id d.id).0 (find_row-id d.id db.deployments r found) in
    let mine : str_eq r.deployment.account_id d.account_id ≡ true =
      (eq_iff r.deployment.account_id d.account_id).1 own in
    let db' : Db = record db { sql = (statement db.sql).0; deployments = rows } in
    let done : update db d ≡ (db', none) = rw (sent, update) refl in
    let scan : scanned (db'.sql.fault db'.sql.calls) (owned_by d.account_id (find_row d.id rows))
        ≡ ((written d db.sql.clock r).deployment, none) =
      rw (sent', read, mine) refl in
    let same : (written d db.sql.clock r).deployment ≡ record d {
      profile_id = r.deployment.profile_id;
      created_at = r.deployment.created_at;
      updated_at = db.sql.clock;
    } =
      rw (id_eq, own) refl in
    rw done (refl, ap (λ g. g.0) scan ∙ same, ap (λ g. g.1) scan)
