-- ===== src/Jobs.antt =====
-- internal/jobs: the ledger of provider mutations.
pub mod Store
pub mod Idempotency
use digital_ocean_bot.Prelude.{ℕ, String, Option, none, some, ◌||◌, not, str_eq, if◌then◌else◌}
use digital_ocean_bot.Prelude.Int.{ℤ}
use digital_ocean_bot.Errors.{Error, operation_tenant_mismatch}

-- `unset` is the empty text.
pub data OperationState : Type 0 where
  unset planned running verifying succeeded failed unknown : OperationState

pub record Operation : Type 0 where
  pub id : String
  pub account_id : String
  pub kind : String
  pub idempotency_key : String
  pub state : OperationState
  pub provider_action_id : String
  pub resource_id : String
  pub attempt : ℕ
  pub created_at : ℤ
  pub updated_at : ℤ

-- Operation{}
abbrev pub zero_operation : Operation
zero_operation = record {
  id = "";
  account_id = "";
  kind = "";
  idempotency_key = "";
  state = unset;
  provider_action_id = "";
  resource_id = "";
  attempt = 0;
  created_at = ℤ.pos 0;
  updated_at = ℤ.pos 0;
}

unfoldable pub authorize : Operation → String → Option Error
authorize o account_id =
    if str_eq o.account_id "" || not (str_eq o.account_id account_id)
    then some operation_tenant_mismatch
    else none
