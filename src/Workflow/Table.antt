-- ===== src/Workflow/Table.antt =====
-- internal/workflow/store.go, profile.go and profile_store.go: SQLStore and ProfileStore over the
-- tables. A NULL text and the empty one are the same here, as every statement converts them.
pub mod Spec
pub mod Rows
pub mod Refines
pub mod Reading
use digital_ocean_bot.Prelude.{
  ℕ, suc, String, Bool, true, false, ◌&&◌, not, Option, none, some, List, [], ◌∷◌, ◌++◌, str_eq,
  if◌then◌else◌,
}
use digital_ocean_bot.Prelude.Int.{ℤ, pos}
use digital_ocean_bot.Errors.{Error, other, no_rows, unique_violation, other}
use digital_ocean_bot.Sql.{Sql, statement}
use digital_ocean_bot.Workflow.{Deployment, Request, State, planned, Store}

pub record ProfileSnapshot : Type 0 where
  pub name : String
  pub region : String
  pub regions : List String
  pub size : String
  pub image : String
  pub lifetime : ℤ
  pub ssh_user : String
  pub ssh_key_secret_ref : String
  pub ssh_provider_key_id : ℤ
  pub installer_url : String
  pub database_template_id : String
  pub inbound_id : ℤ
  pub client_count : ℤ
  pub email_prefix : String

pub record PersistentProfile : Type 0 where
  pub id : String
  pub account_id : String
  pub name : String
  pub version : ℤ
  -- none if the column does not decode
  pub config : Option ProfileSnapshot
  pub enabled : Bool

-- A row of deployments; `profile_snapshot` is none while the column is '{}'.
pub record Row : Type 0 where
  pub deployment : Deployment
  pub profile_snapshot : Option ProfileSnapshot
  pub lock_version : ℕ

pub record Event : Type 0 where
  pub deployment_id : String
  pub step : String
  pub state : State
  pub message : String

pub record Db : Type 0 where
  pub sql : Sql
  pub deployments : List Row
  -- newest first
  pub events : List Event
  pub profiles : List PersistentProfile

-- `var d Deployment`, whose state is no constant's text until it is scanned
abbrev pub blank_deployment : Deployment
blank_deployment = record {
  id = "";
  account_id = "";
  profile_id = "";
  droplet_id = "";
  provider_id = "";
  state = planned;
  current_step = "";
  attempt = 0;
  last_error = "";
  created_at = pos 0;
  updated_at = pos 0;
}

-- The row with this primary key.
unfoldable pub find_row : String → List Row → Option Row
find_row id [] = none
find_row id (r ∷ rs) =
    let rest = find_row id rs in if str_eq r.deployment.id id then some r else rest

abbrev pub owned_by : String → Option Row → Option Row
owned_by account none = none
owned_by account (some r) = if str_eq r.deployment.account_id account then some r else none

abbrev pub scanned : Option Error → Option Row → Deployment × Option Error
scanned (some e) row = (blank_deployment, some e)
scanned none none = (blank_deployment, some no_rows)
scanned none (some r) = (r.deployment, none)

-- SQLStore.Get
unfoldable pub get : Db → String → String → Db × Deployment × Option Error
unfolding find_row
get db id account =
    let (s, failed) = statement db.sql in
    let (d, err) = scanned failed (owned_by account (find_row id db.deployments)) in
    (record db { sql = s }, d, err)

-- The row that the INSERT makes.
abbrev pub new_row : String → ℤ → Request → Row
new_row id now r = record {
  deployment = record {
    id = id;
    account_id = r.account_id;
    profile_id = r.profile_id;
    droplet_id = "";
    provider_id = "";
    state = planned;
    current_step = "create";
    attempt = 0;
    last_error = "";
    created_at = now;
    updated_at = now;
  };
  profile_snapshot = none;
  lock_version = 0;
}

abbrev pub is_taken : Option Row → Bool
is_taken none = false
is_taken (some r) = true

-- A taken primary key is an error of the INSERT.
abbrev pub insert_error : Option Error → Option Row → Option Error
insert_error (some e) row = some e
insert_error none none = none
insert_error none (some r) = some unique_violation

unfoldable pub insert : Db → Request → Db × Deployment × Bool × Option Error
unfolding find_row
insert db r =
    let id = db.sql.new_id db.sql.calls in
    let (s, failed) = statement db.sql in
    let new = new_row id db.sql.clock r in
    elim (insert_error failed (find_row id db.deployments)) [
      | some e ↦ (record db { sql = s }, blank_deployment, true, some e)
      | none ↦ (
        record db { sql = s; deployments = db.deployments ++ new ∷ [] },
        new.deployment,
        true,
        none,
      )
    ]

-- SQLStore.Reserve
unfoldable pub reserve : Db → Request → Db × Deployment × Bool × Option Error
unfolding get insert
reserve db r =
    if not (str_eq r.deployment_id "")
    then (let (db', d, err) = get db r.deployment_id r.account_id in (db', d, false, err))
    else insert db r

-- The columns that Update writes.
abbrev pub written : Deployment → ℤ → Row → Row
written d now r = record r {
  deployment = record r.deployment {
    droplet_id = d.droplet_id;
    provider_id = d.provider_id;
    state = d.state;
    current_step = d.current_step;
    attempt = d.attempt;
    last_error = d.last_error;
    updated_at = now;
  };
  lock_version = suc r.lock_version;
}

-- UPDATE deployments SET ... WHERE the row is one that `p` holds of
unfoldable pub change_rows : (Row → Bool) → (Row → Row) → List Row → List Row
change_rows p f [] = []
change_rows p f (r ∷ rs) = (if p r then f r else r) ∷ change_rows p f rs

abbrev pub is_row_of : Deployment → Row → Bool
is_row_of d r = str_eq r.deployment.id d.id && str_eq r.deployment.account_id d.account_id

-- ExecContext on the rows
abbrev pub exec_rows : Db → (List Row → List Row) → Db × Option Error
exec_rows db f =
    let (s, failed) = statement db.sql in
    elim failed [
      | some e ↦ (record db { sql = s }, some e)
      | none ↦ (record db { sql = s; deployments = f db.deployments }, none)
    ]

-- SQLStore.Update
unfoldable pub update : Db → Deployment → Db × Option Error
update db d = exec_rows db (change_rows (is_row_of d) (written d db.sql.clock))

-- SQLStore.Event
unfoldable pub event : Db → String → String → State → String → Db × Option Error
event db id step state message =
    let (s, failed) = statement db.sql in
    let e : Event = record { deployment_id = id; step = step; state = state; message = message } in
    elim failed [
      | some x ↦ (record db { sql = s }, some x)
      | none ↦ (record db { sql = s; events = e ∷ db.events }, none)
    ]

-- `WHERE id=$1 AND profile_snapshot='{}'::jsonb`
abbrev pub is_unset : String → Row → Bool
is_unset id r =
    str_eq r.deployment.id id && elim r.profile_snapshot [ none ↦ true | some p ↦ false ]

-- ProfileStore.AttachSnapshot
unfoldable pub attach_snapshot : Db → String → ProfileSnapshot → Db × Option Error
attach_snapshot db id p =
    exec_rows db (change_rows (is_unset id) (λ r. record r { profile_snapshot = some p }))

-- ProfileSnapshot{}, which '{}' decodes to
abbrev pub zero_snapshot : ProfileSnapshot
zero_snapshot = record {
  name = "";
  region = "";
  regions = [];
  size = "";
  image = "";
  lifetime = pos 0;
  ssh_user = "";
  ssh_key_secret_ref = "";
  ssh_provider_key_id = pos 0;
  installer_url = "";
  database_template_id = "";
  inbound_id = pos 0;
  client_count = pos 0;
  email_prefix = "";
}

abbrev pub snapshot_of : Option Error → Option Row → ProfileSnapshot × Option Error
snapshot_of (some e) row = (zero_snapshot, some e)
snapshot_of none none = (zero_snapshot, some no_rows)
snapshot_of none (some r) = (elim r.profile_snapshot [ none ↦ zero_snapshot | some p ↦ p ], none)

-- ProfileStore.SnapshotForDeployment
unfoldable pub snapshot_for_deployment : Db → String → Db × ProfileSnapshot × Option Error
unfolding find_row
snapshot_for_deployment db id =
    let (s, failed) = statement db.sql in
    let (p, err) = snapshot_of failed (find_row id db.deployments) in
    (record db { sql = s }, p, err)

unfoldable pub find_profile : String → List PersistentProfile → Option PersistentProfile
find_profile id [] = none
find_profile id (p ∷ ps) = let rest = find_profile id ps in if str_eq p.id id then some p else rest

-- ProfileStore.Get: a row whose config does not decode is an error.
unfoldable pub get_profile : Db → String → Db × Option PersistentProfile × Option Error
unfolding find_profile
get_profile db id =
    let (s, failed) = statement db.sql in
    let found = find_profile id db.profiles in
    elim failed [
      | some e ↦ (record db { sql = s }, none, some e)
      | none ↦ elim found [
        | none ↦ (record db { sql = s }, none, some no_rows)
        | some p ↦ (
          record db { sql = s },
          some p,
          elim p.config [ none ↦ some (other "invalid JSON") | some c ↦ none ],
        )
      ]
    ]

-- The Store interface that the engine is given.
abbrev pub sql_store : Store Db
sql_store = record { reserve = reserve; update = update; event = event }
