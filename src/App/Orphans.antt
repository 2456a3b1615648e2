-- ===== src/App/Orphans.antt =====
-- internal/app/orphan_reconcile.go: droplets that live at the provider and count as deleted here.
pub mod Tags
pub mod Newest
pub mod Owned
pub mod Evidence
pub mod Whole
pub mod Undeleted
use digital_ocean_bot.Prelude.{
  ℕ, ◌+◌, String, Bool, true, false, ◌&&◌, ◌||◌, not, Option, none, some, List, [], ◌∷◌, str_eq,
  ◌==◌, if◌then◌else◌,
}
use digital_ocean_bot.Prelude.Int.{ℤ, pos, ◌-ℤ◌, ltb_ℤ}
use digital_ocean_bot.Errors.{Error}
use digital_ocean_bot.Sql.{statement, Result, ok, fail, scan_row}
use digital_ocean_bot.Text.{strip_prefix}
use digital_ocean_bot.Text.Decimal.{itoa}
use digital_ocean_bot.Droplets.Lifecycle.{
  State, deleted, retiring, LifecycleItem, Fleet, sql_of, with_sql, is_state, event,
}

-- What the snapshot says of one droplet.
pub record Listed : Type 0 where
  pub id : ℤ
  pub tags : List String

pub record Snapshot : Type 0 where
  pub account_id : String
  pub created_at : ℤ
  -- none if the data does not decode
  pub droplets : Option (List Listed)

pub record DeploymentRow : Type 0 where
  pub id : String
  pub account_id : String
  -- none for NULL
  pub droplet_id : Option String
  pub state : String

pub record World : Type 0 where
  pub fleet : Fleet
  pub snapshots : List Snapshot
  pub deployments : List DeploymentRow

-- The connection after one more statement, and its failure if it has one.
abbrev pub sent : World → World × Option Error
sent w =
    let (s, failed) = statement (sql_of w.fleet) in
    (record w { fleet = with_sql w.fleet s }, failed)

-- `ORDER BY created_at DESC LIMIT 1`
abbrev pub later : Snapshot → Option Snapshot → Option Snapshot
later s none = some s
later s (some t) = if ltb_ℤ s.created_at t.created_at then some t else some s

unfoldable pub latest : String → List Snapshot → Option Snapshot
latest account [] = none
latest account (s ∷ ss) =
    let rest = latest account ss in if str_eq s.account_id account then later s rest else rest

-- The loop over the tags: whether the bot owns the droplet, and its deployment's identifier.
unfoldable pub scan_tags : List String → Bool → String → Bool × String
scan_tags [] owned dep = (owned, dep)
scan_tags (t ∷ ts) owned dep =
    scan_tags ts (str_eq t "managed-by-digital-ocean-bot" || owned)
      (elim (strip_prefix t "dob-deployment-") [ none ↦ dep | some rest ↦ rest ])

unfoldable pub find_deployment : String → String → List DeploymentRow → Option DeploymentRow
find_deployment id account [] = none
find_deployment id account (d ∷ ds) =
    let rest = find_deployment id account ds in
    if str_eq d.id id && str_eq d.account_id account then some d else rest

unfoldable pub find_droplet : String → String → List LifecycleItem → Option LifecycleItem
find_droplet id provider [] = none
find_droplet id provider (x ∷ xs) =
    let rest = find_droplet id provider xs in
    if str_eq x.id id && str_eq x.provider_id provider then some x else rest

-- `deployments d JOIN droplets dr ON dr.id=d.droplet_id`
abbrev pub joined : String → Option DeploymentRow → List LifecycleItem → Option LifecycleItem
joined provider none xs = none
joined provider (some d) xs = elim d.droplet_id [
  | none ↦ none
  | some id ↦ find_droplet id provider xs
]

unfoldable pub is_restorable : String → String → String → LifecycleItem → Bool
is_restorable id account provider x =
    str_eq x.id id
    && str_eq x.account_id account
    && str_eq x.provider_id provider
    && is_state x.state deleted

abbrev pub restored : LifecycleItem → LifecycleItem
restored x = record x { state = retiring; replacement_deployment_id = "" }

unfoldable pub restore_rows : String → String → String → List LifecycleItem → List LifecycleItem
restore_rows id account provider [] = []
restore_rows id account provider (x ∷ xs) =
    (if is_restorable id account provider x then restored x else x)
    ∷ restore_rows id account provider xs

unfoldable pub rows_restored : String → String → String → List LifecycleItem → ℕ
rows_restored id account provider [] = 0
rows_restored id account provider (x ∷ xs) =
    (if is_restorable id account provider x then 1 else 0) + rows_restored id account provider xs

-- The update's event, whose failure is ignored.
unfoldable pub note_restored : World → LifecycleItem → World
note_restored w local = record w { fleet = (event w.fleet local retiring).0 }

unfoldable pub restore : World → String → String → LifecycleItem → World
restore w account provider local =
    let (w1, failed) = sent w in
    elim failed [
      | some e ↦ w1
      | none ↦
          let w2 = record w1 {
            fleet = record w1.fleet {
              droplets = restore_rows local.id account provider w1.fleet.droplets;
            };
          } in
          let noted = note_restored w2 local in
          if rows_restored local.id account provider w1.fleet.droplets == 1 then noted else w2
    ]

-- Only a deployment that was given up frees its droplet.
unfoldable pub restore_failed :
    World → String → String → LifecycleItem → Option DeploymentRow → World
restore_failed w account provider local row =
    let (w1, failed) = sent w in
    elim (scan_row failed row) [
      | fail e ↦ w1
      | ok d ↦ if str_eq d.state "FAILED" then restore w1 account provider local else w1
    ]

-- `dep` is the identifier that the tag is cast to.
unfoldable pub reconcile_tagged : World → String → ℤ → String → World
reconcile_tagged w account id dep =
    let row = find_deployment dep account w.deployments in
    let (w1, failed) = sent w in
    elim (scan_row failed (joined (itoa id) row w.fleet.droplets)) [
      | fail e ↦ w1
      | ok local ↦
          if is_state local.state deleted then restore_failed w1 account (itoa id) local row else w1
    ]

-- `uuid` is the database's cast of a text, which can fail.
module _ (uuid : String → Option String) where
  unfoldable pub reconcile_one : World → String → Listed → World
  reconcile_one w account x =
      let (owned, dep) = scan_tags x.tags false "" in
      if not owned || str_eq dep ""
      then w
      else elim (uuid dep) [ none ↦ (sent w).0 | some id ↦ reconcile_tagged w account x.id id ]

  unfoldable pub reconcile_all : World → String → List Listed → World
  reconcile_all w account [] = w
  reconcile_all w account (x ∷ xs) = reconcile_all (reconcile_one w account x) account xs

  -- ReconcileOwnedOrphans, at the time `now` of its clock
  unfoldable pub reconcile_owned_orphans : World → ℤ → String → World
  unfolding ◌-ℤ◌
  reconcile_owned_orphans w now account =
      let (w1, failed) = sent w in
      elim (scan_row failed (latest account w.snapshots)) [
        | fail e ↦ w1
        | ok snapshot ↦
            if ltb_ℤ (pos 120000000000) (now -ℤ snapshot.created_at)
            then w1
            else elim snapshot.droplets [
              | none ↦ w1
              | some listed ↦ reconcile_all w1 account listed
            ]
      ]
