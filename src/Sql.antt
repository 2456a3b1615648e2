-- ===== src/Sql.antt =====
-- What the stores ask of PostgreSQL: each statement either fails, with no effect, or is run. Which
-- ones fail is a function of their number, so a theorem over every `fault` covers every pattern of
-- lost connections, timeouts and cancelled contexts.
use digital_ocean_bot.Prelude.{ℕ, suc, String, Option, none, some, ◌≡◌, refl, ◌⊎◌, inl, inr}
use digital_ocean_bot.Prelude.Int.{ℤ}
use digital_ocean_bot.Errors.{Error, no_rows}

pub record Sql : Type 0 where
  pub calls : ℕ
  pub fault : ℕ → Option Error
  -- gen_random_uuid(), by the number of the statement that calls it
  pub new_id : ℕ → String
  -- now()
  pub clock : ℤ

-- One statement is sent: the connection after it, and its failure if it has one.
abbrev pub statement : Sql → Sql × Option Error
statement s = (record s { calls = suc s.calls }, s.fault s.calls)

-- What a call returns that has a value or an error.
pub data Result {ℓ} (A : Type ℓ) : Type ℓ where
  ok : A → Result A
  fail : Error → Result A

-- What `QueryRow(...).Scan(...)` gives for the row that is there, if one is.
abbrev pub scan_row {ℓ} : {A : Type ℓ} → Option Error → Option A → Result A
scan_row (some e) row = fail e
scan_row none none = fail no_rows
scan_row none (some row) = ok row

pub Result-cases {ℓ} :
    {A : Type ℓ} (r : Result A) → ((a : A) × (r ≡ ok a)) ⊎ ((e : Error) × (r ≡ fail e))
Result-cases (ok a) = inl (a, refl)
Result-cases (fail e) = inr (e, refl)

pub scan_row-ok {ℓ} :
    {A : Type ℓ} (failed : Option Error) (row : Option A) (a : A)
    → scan_row failed row ≡ ok a
    → row ≡ some a
scan_row-ok none (some b) a h = cc
scan_row-ok none none a h = absurd cc
scan_row-ok (some e) row a h = absurd cc
