-- ===== src/Accounts.antt =====
-- internal/accounts: the cells of the accounts, cell.go and context.go.
pub mod Cells
use digital_ocean_bot.Prelude.{
  ℕ, zero, suc, ◌+◌, ◌-◌, ◌*◌, ◌/◌, ◌%◌, ◌^◌, ◌≤◌, ◌<◌, min, max, String, ◌≡◌, refl, sym, ap, ◌∙◌,
  subst, ◌≢◌, ◌↔◌, ◌⊎◌, inl, inr, Bool, true, false, ◌&&◌, ◌||◌, not, Option, none, some, List, [],
  ◌∷◌, ◌++◌, map, arith, eq_iff, eq_refl, str_eq, dec_lt, ltb, leb, ◌==◌, if◌then◌else◌, Bool-cases,
  Option-cases, length, get_elem?, take, drop, length-append,
}
use digital_ocean_bot.Prelude.Int.{
  ℤ, pos, negsuc, pos_part, neg_part, ◌+ℤ◌, ◌-ℤ◌, ◌≤ℤ◌, ltb_ℤ, leb_ℤ, wrap64, int_laws,
}
use digital_ocean_bot.Errors.{Error, cell_not_found, tenant_mismatch}
use digital_ocean_bot.Sql.{Result, ok, fail}
use digital_ocean_bot.Text.{concat}

pub record Context : Type 0 where
  pub account_id : String
  pub secret_namespace : String
  pub cache_namespace : String
  pub job_namespace : String
  pub rate_namespace : String
  pub audit_namespace : String

abbrev pub namespace : String → String → String
namespace account_id part = concat ("account:" ∷ account_id ∷ part ∷ [])

unfoldable pub new_context : String → Context
new_context account_id = record {
  account_id = account_id;
  secret_namespace = namespace account_id ":secrets";
  cache_namespace = namespace account_id ":cache";
  job_namespace = namespace account_id ":jobs";
  rate_namespace = namespace account_id ":ratelimit";
  audit_namespace = namespace account_id ":audit";
}

-- Context.Authorize
unfoldable pub authorize : Context → String → Option Error
authorize c account_id =
    if str_eq c.account_id "" || not (str_eq c.account_id account_id)
    then some tenant_mismatch
    else none

-- The map of the manager, whose mutex makes each call one step: a key stands once.
pub record CellManager : Type 0 where
  pub cells : List (String × Context)

abbrev pub new_cell_manager : CellManager
new_cell_manager = record { cells = [] }

unfoldable pub find_cell : String → List (String × Context) → Option Context
find_cell account_id [] = none
find_cell account_id ((key, c) ∷ cs) =
    let rest = find_cell account_id cs in if str_eq key account_id then some c else rest

-- CellManager.Register
unfoldable pub register : CellManager → String → CellManager × Context
register m account_id = elim (find_cell account_id m.cells) [
  | some c ↦ (m, c)
  | none ↦ let c = new_context account_id in (record { cells = (account_id, c) ∷ m.cells }, c)
]

-- CellManager.Acquire
unfoldable pub acquire : CellManager → String → Result Context
acquire m account_id = elim (find_cell account_id m.cells) [
  | none ↦ fail cell_not_found
  | some c ↦ elim (authorize c account_id) [ some e ↦ fail e | none ↦ ok c ]
]
