-- ===== src/Jobs/Idempotency.antt =====
-- How often a key of the ledger is reserved, over a history of store calls.
use digital_ocean_bot.Prelude.{
  ℕ, ◌+◌, ◌≤◌, String, ◌≡◌, refl, sym, ◌⊎◌, inl, inr, Bool, true, false, ◌&&◌, none, some, List, [],
  ◌∷◌, ◌++◌, arith, eq_iff, eq_refl, if◌then◌else◌, Bool-cases, Option-cases,
}
use digital_ocean_bot.Prelude.Int.{ℤ}
use mathlib.Core.Option
use mathlib.Core.Path.{subst₂}
use digital_ocean_bot.Jobs.{Operation}
use digital_ocean_bot.Jobs.Store.{
  JobsDb, has_key, find_operation, get, default_state, inserted, reserve, is_row, overwrite,
  update_rows, update,
}

pub find-append :
    (a k : String) (xs ys : List Operation) (o : Operation)
    → find_operation a k xs ≡ some o
    → find_operation a k (xs ++ ys) ≡ some o
unfolding find_operation
find-append a k [] ys o h = cc
find-append a k (x ∷ xs) ys o h = ground (arith, find-append a k xs ys o)

pub find-append_new :
    (a k : String) (xs : List Operation) (o : Operation)
    → find_operation a k xs ≡ none
    → has_key a k o ≡ true
    → find_operation a k (xs ++ o ∷ []) ≡ some o
unfolding find_operation
find-append_new a k [] o h e = ground arith
find-append_new a k (x ∷ xs) o h e = ground (arith, find-append_new a k xs o)

pub find-append_other :
    (a k : String) (xs : List Operation) (o : Operation)
    → has_key a k o ≡ false
    → find_operation a k (xs ++ o ∷ []) ≡ find_operation a k xs
unfolding find_operation
find-append_other a k [] o e = ground arith
find-append_other a k (x ∷ xs) o e = ground (arith, find-append_other a k xs o)

-- An update keeps every row's account and key.
pub find-update_rows :
    (a k : String) (now : ℤ) (o : Operation) (rows : List Operation)
    → find_operation a k (update_rows now o rows)
      ≡ Option.map
          (λ row. if is_row o row then overwrite now o row else row)
          (find_operation a k rows)
unfolding find_operation update_rows
find-update_rows a k now o [] = refl
find-update_rows a k now o (r ∷ rows) = ground (arith, find-update_rows a k now o rows)

-- The ledger holds an operation under the key.
abbrev pub IsReserved : String → String → JobsDb → Type 0
IsReserved a k db = (o : Operation) × (find_operation a k db.operations ≡ some o)

pub update-IsReserved :
    (a k : String) (db : JobsDb) (o : Operation)
    → IsReserved a k db
    → IsReserved a k (update db o).0
unfolding update
update-IsReserved a k db o (r, e) = (
  elim (db.sql.fault db.sql.calls) [
    | some x ↦ r
    | none ↦ if is_row o r then overwrite db.sql.clock o r else r
  ],
  ground (arith, find-update_rows a k db.sql.clock o db.operations),
)

pub get_operations : (db : JobsDb) (a k : String) → (get db a k).0.operations ≡ db.operations
unfolding get
get_operations db a k = ground arith

-- A key that is taken is not reserved again, and the ledger stays as it is.
pub reserve_taken :
    (db : JobsDb) (o : Operation)
    → IsReserved o.account_id o.idempotency_key db
    → ((reserve db o).2 ≡ false) × ((reserve db o).0.operations ≡ db.operations)
unfolding reserve get
reserve_taken db o (r, e) = ground arith

-- The row that a reservation adds.
abbrev pub new_row : JobsDb → Operation → Operation
new_row db o =
    inserted (db.sql.new_id db.sql.calls) db.sql.clock (record o { state = default_state o.state })

fresh_absent :
    (db : JobsDb) (o : Operation)
    → (reserve db o).2 ≡ true
    → find_operation o.account_id o.idempotency_key db.operations ≡ none
unfolding reserve get
fresh_absent db o h = ground arith

pub reserve_fresh :
    (db : JobsDb) (o : Operation)
    → (reserve db o).2 ≡ true
    → (find_operation o.account_id o.idempotency_key db.operations ≡ none)
      × IsReserved o.account_id o.idempotency_key (reserve db o).0
unfolding reserve get
reserve_fresh db o h = (
  fresh_absent db o h,
  (
    new_row db o,
    ground (
      arith,
      fresh_absent db o h,
      find-append_new o.account_id o.idempotency_key db.operations (new_row db o),
      eq_refl o.account_id,
      eq_refl o.idempotency_key,
    ),
  ),
)

pub reserve-IsReserved :
    (a k : String) (db : JobsDb) (o : Operation)
    → IsReserved a k db
    → IsReserved a k (reserve db o).0
unfolding reserve get
reserve-IsReserved a k db o (r, e) =
    (r, ground (arith, find-append a k db.operations (new_row db o ∷ []) r))

-- A call of the store, in any order and with any other caller's in between.
pub data Call : Type 0 where
  reserves updates : Operation → Call
  gets : String → String → Call

pub step : JobsDb → Call → JobsDb
step db (reserves o) = (reserve db o).0
step db (updates o) = (update db o).0
step db (gets a k) = (get db a k).0

-- 1 if the call is told that it has reserved the key.
pub granted : String → String → JobsDb → Call → ℕ
granted a k db (reserves o) = if has_key a k o && (reserve db o).2 then 1 else 0
granted a k db _ = 0

pub grants : String → String → JobsDb → List Call → ℕ
grants a k db [] = 0
grants a k db (c ∷ cs) = granted a k db c + grants a k (step db c) cs

step-IsReserved :
    (a k : String) (db : JobsDb) (c : Call) → IsReserved a k db → IsReserved a k (step db c)
unfolding step
step-IsReserved a k db (reserves o) r = reserve-IsReserved a k db o r
step-IsReserved a k db (updates o) r = update-IsReserved a k db o r
step-IsReserved a k db (gets b j) r = (r.0, rw (get_operations db b j) r.1)

key_lem :
    (a k : String) (o : Operation)
    → has_key a k o ≡ true
    → (a ≡ o.account_id) × (k ≡ o.idempotency_key)
key_lem a k o h = ground (arith, eq_iff o.account_id a, eq_iff o.idempotency_key k)

granted_taken : (a k : String) (db : JobsDb) (c : Call) → IsReserved a k db → granted a k db c ≡ 0
unfolding granted
granted_taken a k db (reserves o) r = elim (Bool-cases (has_key a k o)) [
  | inl hit ↦
      let taken =
        reserve_taken db o
          (subst₂ (λ x y. IsReserved x y db) (key_lem a k o hit).0 (key_lem a k o hit).1 r) in
      ground (arith, taken.0)
  | inr miss ↦ rw miss
]
granted_taken a k db (updates o) r = refl
granted_taken a k db (gets b j) r = refl

grants_taken :
    (a k : String) (db : JobsDb) (cs : List Call) → IsReserved a k db → grants a k db cs ≡ 0
unfolding grants
grants_taken a k db [] r = refl
grants_taken a k db (c ∷ cs) r =
    omega (
      arith,
      granted_taken a k db c r,
      grants_taken a k (step db c) cs (step-IsReserved a k db c r),
    )

granted_cases :
    (a k : String) (db : JobsDb) (c : Call)
    → (granted a k db c ≡ 0) ⊎ (granted a k db c ≡ 1) × IsReserved a k (step db c)
unfolding granted step
granted_cases a k db (updates o) = inl refl
granted_cases a k db (gets b j) = inl refl
granted_cases a k db (reserves o) = elim (Bool-cases (has_key a k o && (reserve db o).2)) [
  | inr no_grant ↦ inl (rw no_grant)
  | inl grant ↦
      let hit : has_key a k o ≡ true = ground arith in
      let fresh : (reserve db o).2 ≡ true = ground arith in
      let e = key_lem a k o hit in
      inr (
        rw grant,
        subst₂ (λ x y. IsReserved x y (reserve db o).0) (sym e.0) (sym e.1)
            (reserve_fresh db o fresh).1,
      )
]

-- Over every history of store calls, and whichever statements fail, at most one reservation of an
-- account and idempotency key is granted.
pub grants-le : (a k : String) (db : JobsDb) (cs : List Call) → grants a k db cs ≤ 1
unfolding grants
grants-le a k db [] = omega arith
grants-le a k db (c ∷ cs) = elim (granted_cases a k db c) [
  | inl idle ↦ omega (arith, idle, grants-le a k (step db c) cs)
  | inr (one, r) ↦ omega (arith, one, grants_taken a k (step db c) cs r)
]

-- The same as a test.
abbrev pub holds_key : String → String → JobsDb → Bool
holds_key a k db = elim (find_operation a k db.operations) [ none ↦ false | some o ↦ true ]

as_row : (a k : String) (db : JobsDb) → holds_key a k db ≡ true → IsReserved a k db
as_row a k db h = elim (Option-cases (find_operation a k db.operations)) [
  | inl e ↦ absurd (ground arith)
  | inr r ↦ r
]

as_test : (a k : String) (db : JobsDb) → IsReserved a k db → holds_key a k db ≡ true
as_test a k db (r, e) = ground arith

absent :
    (a k : String) (db : JobsDb)
    → find_operation a k db.operations ≡ none
    → holds_key a k db ≡ false
absent a k db e = ground arith

pub update_holds :
    (a k : String) (db : JobsDb) (o : Operation)
    → holds_key a k db ≡ true
    → holds_key a k (update db o).0 ≡ true
update_holds a k db o h = as_test a k (update db o).0 (update-IsReserved a k db o (as_row a k db h))

pub reserve_holds :
    (a k : String) (db : JobsDb) (o : Operation)
    → holds_key a k db ≡ true
    → holds_key a k (reserve db o).0 ≡ true
reserve_holds a k db o h =
    as_test a k (reserve db o).0 (reserve-IsReserved a k db o (as_row a k db h))

pub reserve_fresh_holds :
    (a k : String) (db : JobsDb) (o : Operation)
    → has_key a k o ≡ true
    → (reserve db o).2 ≡ true
    → (holds_key a k db ≡ false) × (holds_key a k (reserve db o).0 ≡ true)
reserve_fresh_holds a k db o hit fresh =
    let e = key_lem a k o hit in
    let r = reserve_fresh db o fresh in
    subst₂ (λ x y. (holds_key x y db ≡ false) × (holds_key x y (reserve db o).0 ≡ true)) (sym e.0)
      (sym e.1)
      (
        absent o.account_id o.idempotency_key db r.0,
        as_test o.account_id o.idempotency_key (reserve db o).0 r.1,
      )
