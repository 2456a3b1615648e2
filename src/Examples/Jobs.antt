-- ===== src/Examples/Jobs.antt =====
-- The ledger on concrete rows.
use digital_ocean_bot.Prelude.{◌≤◌, none, some, [], ◌∷◌, ◌==◌, if◌then◌else◌}
use digital_ocean_bot.Prelude.Int.{pos}
use digital_ocean_bot.Errors.{other}
use digital_ocean_bot.Sql.{Sql}
use digital_ocean_bot.Jobs.{Operation, zero_operation}
use digital_ocean_bot.Jobs.Idempotency.{reserves, updates, gets, grants, grants-le}
use digital_ocean_bot.Text.Decimal.{itoa}

-- The second statement is lost.
abbrev pub flaky : Sql
flaky = record {
  calls = 0;
  fault = λ n. if n == 1 then some (other "connection reset") else none;
  new_id = λ n. itoa (pos n);
  clock = pos 100;
}

abbrev pub working : Sql
working = record { calls = 0; fault = λ n. none; new_id = λ n. itoa (pos n); clock = pos 100 }

abbrev pub wanted : Operation
wanted = record zero_operation {
  account_id = "a";
  kind = "CREATE_DROPLET";
  idempotency_key = "create:a:web";
}

grants-le_example :
    grants "a" "create:a:web"
      (record { sql = flaky; operations = [] })
      (reserves wanted ∷ gets "a" "create:a:web" ∷ reserves wanted ∷ updates wanted ∷ [])
    ≤ 1
grants-le_example =
    grants-le "a" "create:a:web" (record { sql = flaky; operations = [] })
      (reserves wanted ∷ gets "a" "create:a:web" ∷ reserves wanted ∷ updates wanted ∷ [])
