-- ===== src/Scheduler/Store.antt =====
-- internal/scheduler/lease.go and store.go on the table schedules.
pub mod Leases
use digital_ocean_bot.Prelude.{
  ℕ, String, Bool, true, ◌&&◌, Option, none, some, List, [], ◌∷◌, str_eq, if◌then◌else◌, take,
}
use digital_ocean_bot.Prelude.Int.{ℤ, pos, pos_part, ◌+ℤ◌, ltb_ℤ, leb_ℤ}
use digital_ocean_bot.Errors.{Error}
use digital_ocean_bot.Sql.{Sql, statement}
use digital_ocean_bot.Scheduler.{Schedule}

pub record SchedulesDb : Type 0 where
  pub sql : Sql
  pub rows : List Schedule

-- ORDER BY next_run_at: insertion keeps rows of one time in the table's order.
unfoldable pub insert_by_next_run : Schedule → List Schedule → List Schedule
insert_by_next_run x [] = x ∷ []
insert_by_next_run x (y ∷ ys) =
    if leb_ℤ x.next_run_at y.next_run_at then x ∷ y ∷ ys else y ∷ insert_by_next_run x ys

-- `enabled=true AND next_run_at<=$1`
abbrev pub is_due : ℤ → Schedule → Bool
is_due now x = x.enabled && leb_ℤ x.next_run_at now

-- `lease_until IS NULL OR lease_until<$1`
abbrev pub is_free : ℤ → Schedule → Bool
is_free now x = elim x.lease_until [ none ↦ true | some t ↦ ltb_ℤ t now ]

unfoldable pub select_rows : (Schedule → Bool) → List Schedule → List Schedule
unfolding insert_by_next_run
select_rows test [] = []
select_rows test (x ∷ xs) =
    let rest = select_rows test xs in if test x then insert_by_next_run x rest else rest

abbrev pub limit_or_100 : ℤ → ℕ
limit_or_100 limit = if ltb_ℤ limit (pos 1) then 100 else pos_part limit

abbrev pub lease_or_minute : ℤ → ℤ
lease_or_minute lease = if leb_ℤ lease (pos 0) then pos 60000000000 else lease

-- `UPDATE schedules SET lease_until=$2 WHERE id=$1`
unfoldable pub lease_row : String → ℤ → List Schedule → List Schedule
lease_row id until [] = []
lease_row id until (x ∷ xs) =
    (if str_eq x.id id then record x { lease_until = some until } else x) ∷ lease_row id until xs

-- One UPDATE for each claimed row. The transaction is rolled back when one fails.
unfoldable pub lease_rows :
    Sql → ℤ → List Schedule → List Schedule → Sql × List Schedule × Option Error
unfolding lease_row
lease_rows s until [] rows = (s, rows, none)
lease_rows s until (x ∷ xs) rows =
    let (s1, failed) = statement s in
    let later = lease_rows s1 until xs (lease_row x.id until rows) in
    elim failed [ some e ↦ (s1, rows, some e) | none ↦ later ]

-- The statements are BEGIN, the SELECT, the UPDATEs and COMMIT.
unfoldable pub claim_due : SchedulesDb → ℤ → ℤ → ℤ → SchedulesDb × List Schedule × Option Error
unfolding select_rows lease_rows ◌+ℤ◌
claim_due db now limit lease =
    let (s1, failed1) = statement db.sql in
    elim failed1 [
      | some e ↦ (record db { sql = s1 }, [], some e)
      | none ↦
          let (s2, failed2) = statement s1 in
          elim failed2 [
            | some e ↦ (record db { sql = s2 }, [], some e)
            | none ↦
                let out =
                  take (limit_or_100 limit)
                    (select_rows (λ x. is_due now x && is_free now x) db.rows) in
                let (s3, rows, failed3) =
                  lease_rows s2 (now +ℤ lease_or_minute lease) out db.rows in
                elim failed3 [
                  | some e ↦ (record db { sql = s3 }, [], some e)
                  | none ↦
                      let (s4, failed4) = statement s3 in
                      elim failed4 [
                        | some e ↦ (record db { sql = s4 }, [], some e)
                        | none ↦ (record db { sql = s4; rows = rows }, out, none)
                      ]
                ]
          ]
    ]

-- `UPDATE schedules SET last_run_at=$2,next_run_at=$3,lease_until=NULL WHERE id=$1`
unfoldable pub complete_row : Schedule → ℤ → List Schedule → List Schedule
unfolding ◌+ℤ◌
complete_row x now [] = []
complete_row x now (y ∷ ys) =
    (if str_eq y.id x.id
      then record y { last_run_at = some now; next_run_at = now +ℤ x.interval; lease_until = none }
      else y)
    ∷ complete_row x now ys

unfoldable pub complete : SchedulesDb → Schedule → ℤ → SchedulesDb × Option Error
unfolding complete_row
complete db x now =
    let (s, failed) = statement db.sql in
    elim failed [
      | some e ↦ (record db { sql = s }, some e)
      | none ↦ (record db { sql = s; rows = complete_row x now db.rows }, none)
    ]

-- SQLStore.Due and Advance: the same without a lease.
unfoldable pub due : SchedulesDb → ℤ → ℤ → SchedulesDb × List Schedule × Option Error
unfolding select_rows
due db now limit =
    let (s, failed) = statement db.sql in
    elim failed [
      | some e ↦ (record db { sql = s }, [], some e)
      | none ↦ (
        record db { sql = s },
        take (limit_or_100 limit) (select_rows (is_due now) db.rows),
        none,
      )
    ]

unfoldable pub advance_row : Schedule → ℤ → List Schedule → List Schedule
unfolding ◌+ℤ◌
advance_row x now [] = []
advance_row x now (y ∷ ys) =
    (if str_eq y.id x.id
      then record y { last_run_at = some now; next_run_at = now +ℤ x.interval }
      else y)
    ∷ advance_row x now ys

unfoldable pub advance : SchedulesDb → Schedule → ℤ → SchedulesDb × Option Error
unfolding advance_row
advance db x now =
    let (s, failed) = statement db.sql in
    elim failed [
      | some e ↦ (record db { sql = s }, some e)
      | none ↦ (record db { sql = s; rows = advance_row x now db.rows }, none)
    ]
