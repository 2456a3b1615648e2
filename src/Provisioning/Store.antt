-- ===== src/Provisioning/Store.antt =====
-- internal/provisioning/store.go on the table provision_runs.
use digital_ocean_bot.Prelude.{
  String, Bool, true, false, ◌&&◌, ◌||◌, Option, none, some, List, [], ◌∷◌, ◌++◌, str_eq,
  if◌then◌else◌,
}
use digital_ocean_bot.Prelude.Int.{ℤ}
use digital_ocean_bot.Errors.{Error, other}
use digital_ocean_bot.Sql.{Sql, statement}
use digital_ocean_bot.Provisioning.{Run}
use digital_ocean_bot.Provisioning.Engine.{zero_run}

pub record RunsDb : Type 0 where
  pub sql : Sql
  pub runs : List Run

abbrev pub has_key : String → String → Run → Bool
has_key account_id droplet_id x = str_eq x.account_id account_id && str_eq x.droplet_id droplet_id

unfoldable pub find_run : String → String → List Run → Option Run
find_run account_id droplet_id [] = none
find_run account_id droplet_id (x ∷ xs) =
    if has_key account_id droplet_id x then some x else find_run account_id droplet_id xs

unfoldable pub has_id : String → List Run → Bool
has_id id [] = false
has_id id (x ∷ xs) = str_eq x.id id || has_id id xs

-- `UPDATE provision_runs SET … WHERE id=$1 AND account_id=$2`
unfoldable pub update_rows : Run → ℤ → List Run → List Run
update_rows r now [] = []
update_rows r now (x ∷ xs) =
    (if str_eq x.id r.id && str_eq x.account_id r.account_id
      then record x {
        state = r.state;
        current_step = r.current_step;
        attempt = r.attempt;
        last_error = r.last_error;
        next_retry_at = r.next_retry_at;
        updated_at = now;
      }
      else x)
    ∷ update_rows r now xs

-- INSERT … ON CONFLICT(account_id,droplet_id) DO NOTHING RETURNING id: the row's attempt is 0, and
-- an identifier that is taken violates the primary key.
unfoldable pub reserve : RunsDb → Run → RunsDb × Run × Bool × Option Error
unfolding find_run has_id
reserve db r =
    let id = db.sql.new_id db.sql.calls in
    let (s1, failed) = statement db.sql in
    elim failed [
      | some e ↦ (record db { sql = s1 }, zero_run, false, some e)
      | none ↦ elim (find_run r.account_id r.droplet_id db.runs) [
        | none ↦
            if has_id id db.runs
            then (record db { sql = s1 }, zero_run, false, some (other "duplicate key"))
            else let row = record r {
              id = id;
              attempt = 0;
              last_error = "";
              next_retry_at = none;
              created_at = db.sql.clock;
              updated_at = db.sql.clock;
            } in
              (record db { sql = s1; runs = db.runs ++ row ∷ [] }, record r { id = id }, true, none)
        | some row ↦
            let (s2, failed2) = statement s1 in
            elim failed2 [
              | some e ↦ (record db { sql = s2 }, r, false, some e)
              | none ↦ (record db { sql = s2 }, row, false, none)
            ]
      ]
    ]

unfoldable pub update : RunsDb → Run → RunsDb × Option Error
unfolding update_rows
update db r =
    let (s, failed) = statement db.sql in
    elim failed [
      | some e ↦ (record db { sql = s }, some e)
      | none ↦ (record db { sql = s; runs = update_rows r s.clock db.runs }, none)
    ]
