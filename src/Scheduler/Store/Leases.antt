-- ===== src/Scheduler/Store/Leases.antt =====
-- What a claim does for the claims after it.
use digital_ocean_bot.Prelude.{
  ℕ, zero, suc, String, ◌≡◌, refl, sym, ◌∙◌, subst, ◌⊎◌, inl, inr, Bool, true, false, ◌&&◌, ◌||◌,
  Option, none, some, List, [], ◌∷◌, arith, eq_iff, str_eq, Bool-cases, Option-cases, take,
}
use digital_ocean_bot.Prelude.Int.{ℤ, ◌+ℤ◌, ◌≤ℤ◌, ltb_ℤ}
use digital_ocean_bot.Errors.{Error}
use digital_ocean_bot.Sql.{Sql, statement}
use digital_ocean_bot.Scheduler.{Schedule}
use digital_ocean_bot.Scheduler.Store.{
  SchedulesDb, insert_by_next_run, is_due, is_free, select_rows, limit_or_100, lease_or_minute,
  lease_row, lease_rows, claim_due,
}

unfoldable pub has_row : String → List Schedule → Bool
has_row id [] = false
has_row id (x ∷ xs) = str_eq x.id id || has_row id xs

-- Every row of the identifier is leased until then.
abbrev pub Leased : ℤ → String → List Schedule → Type 0
Leased until id [] = Unit {0}
Leased until id (x ∷ xs) = (str_eq x.id id ≡ true → x.lease_until ≡ some until) × Leased until id xs

lease_row-Leased :
    (until : ℤ) (id : String) (rows : List Schedule) → Leased until id (lease_row id until rows)
unfolding lease_row
lease_row-Leased until id [] = tt
lease_row-Leased until id (x ∷ xs) = elim (Bool-cases (str_eq x.id id)) [
  | inl hit ↦ rw hit ((λ e. refl), lease_row-Leased until id xs)
  | inr miss ↦ rw miss ((λ e. ground (arith, miss)), lease_row-Leased until id xs)
]

lease_row-Leased_other :
    (until : ℤ) (id other : String) (rows : List Schedule)
    → Leased until id rows
    → Leased until id (lease_row other until rows)
unfolding lease_row
lease_row-Leased_other until id other [] l = tt
lease_row-Leased_other until id other (x ∷ xs) (here, later) =
    elim (Bool-cases (str_eq x.id other)) [
      | inl hit ↦ rw hit ((λ e. refl), lease_row-Leased_other until id other xs later)
      | inr miss ↦ rw miss (here, lease_row-Leased_other until id other xs later)
    ]

lease_rows-Leased :
    (s : Sql) (until : ℤ) (id : String) (xs rows : List Schedule)
    → (lease_rows s until xs rows).2 ≡ none
    → (has_row id xs ≡ true) ⊎ Leased until id rows
    → Leased until id (lease_rows s until xs rows).1
unfolding lease_rows has_row
lease_rows-Leased s until id [] rows fine (inl e) = ground arith
lease_rows-Leased s until id [] rows fine (inr l) = l
lease_rows-Leased s until id (x ∷ xs) rows fine how =
    let s1 = (statement s).0 in
    let next = lease_row x.id until rows in
    elim (Option-cases (statement s).1) [
      | inr (e, lost) ↦ ground arith
      | inl sent ↦
          let fine' = rw (sent, lease_rows) at fine in
          rw (sent, lease_rows)
            (elim how [
              | inr l ↦
                  lease_rows-Leased s1 until id xs next fine'
                    (inr (lease_row-Leased_other until id x.id rows l))
              | inl e ↦ elim (Bool-cases (str_eq x.id id)) [
                | inl hit ↦
                    let same : x.id ≡ id = (eq_iff x.id id).0 hit in
                    lease_rows-Leased s1 until id xs next fine' (
                      inr (
                        subst (λ i. Leased until id (lease_row i until rows)) (sym same)
                          (lease_row-Leased until id rows)))
                | inr miss ↦ lease_rows-Leased s1 until id xs next fine' (inl (ground arith))
              ]
            ])
    ]

insert-has_row :
    (id : String) (x : Schedule) (xs : List Schedule)
    → has_row id (insert_by_next_run x xs) ≡ str_eq x.id id || has_row id xs
unfolding insert_by_next_run has_row
insert-has_row id x [] = refl
insert-has_row id x (y ∷ ys) = ground (arith, insert-has_row id x ys)

-- A row whose lease runs is not selected.
select-has_row :
    (now until : ℤ) (id : String) (rows : List Schedule)
    → now ≤ℤ until
    → Leased until id rows
    → has_row id (select_rows (λ x. is_due now x && is_free now x) rows) ≡ false
unfolding select_rows has_row
select-has_row now until id [] h l = refl
select-has_row now until id (x ∷ xs) h (here, later) =
    let ih = select-has_row now until id xs h later in
    let rest = select_rows (λ x. is_due now x && is_free now x) xs in
    elim (Bool-cases (is_due now x && is_free now x)) [
      | inr not_taken ↦ rw (not_taken, select_rows) ih
      | inl taken ↦ rw (taken, select_rows) (insert-has_row id x rest ∙ outside rest taken ih)
    ]
  where
    outside :
        (rest : List Schedule)
        → is_due now x && is_free now x ≡ true
        → has_row id rest ≡ false
        → str_eq x.id id || has_row id rest ≡ false
    outside rest taken ih = elim (Bool-cases (str_eq x.id id)) [
      | inr miss ↦ rw miss ih
      | inl hit ↦
          let leased = here hit in
          let free : is_free now x ≡ true = ground (arith, taken) in
          let passed : ltb_ℤ until now ≡ true = rw leased at free in ground (arith, passed, h)
    ]

take-has_row :
    (n : ℕ) (id : String) (xs : List Schedule)
    → has_row id xs ≡ false
    → has_row id (take n xs) ≡ false
unfolding has_row
take-has_row zero id xs h = refl
take-has_row (suc n) id [] h = refl
take-has_row (suc n) id (x ∷ xs) h = ground (arith, take-has_row n id xs)

-- A claim that reports no error has leased every row that it returns.
claim_due-Leased :
    (db : SchedulesDb) (now limit lease : ℤ) (id : String)
    → (claim_due db now limit lease).2 ≡ none
    → has_row id (claim_due db now limit lease).1 ≡ true
    → Leased (now +ℤ lease_or_minute lease) id (claim_due db now limit lease).0.rows
unfolding claim_due
claim_due-Leased db now limit lease id fine hit =
    let until = now +ℤ lease_or_minute lease in
    let out =
      take (limit_or_100 limit) (select_rows (λ x. is_due now x && is_free now x) db.rows) in
    let s1 = (statement db.sql).0 in
    let s2 = (statement s1).0 in
    let r = lease_rows s2 until out db.rows in
    elim (Option-cases (statement db.sql).1) [
      | inr (e, lost) ↦ absurd (no_error (rw (lost, claim_due) at fine))
      | inl a ↦ elim (Option-cases (statement s1).1) [
        | inr (e, lost) ↦ absurd (no_error (rw (a, claim_due, lost) at fine))
        | inl b ↦ elim (Option-cases r.2) [
          | inr (e, lost) ↦ absurd (no_error (rw (a, claim_due, b, lost) at fine))
          | inl c ↦ elim (Option-cases (statement r.0).1) [
            | inr (e, lost) ↦ absurd (no_error (rw (a, claim_due, b, c, lost) at fine))
            | inl d ↦
                rw (a, claim_due, b, c, d)
                  (lease_rows-Leased s2 until id out db.rows c
                    (inl (rw (a, claim_due, b, c, d) at hit)))
          ]
        ]
      ]
    ]
  where
    no_error : {e : Error} → ◌≡◌ {A = Option Error} (some e) none → ⊥
    no_error p = ground arith

-- A claim returns no row that is leased beyond its time.
claim_due-free :
    (db : SchedulesDb) (now limit lease until : ℤ) (id : String)
    → now ≤ℤ until
    → Leased until id db.rows
    → has_row id (claim_due db now limit lease).1 ≡ false
unfolding claim_due has_row
claim_due-free db now limit lease until id h l =
    let rows = select_rows (λ x. is_due now x && is_free now x) db.rows in
    let clear =
      take-has_row (limit_or_100 limit) id rows (select-has_row now until id db.rows h l) in
    let s1 = (statement db.sql).0 in
    let s2 = (statement s1).0 in
    let r = lease_rows s2 (now +ℤ lease_or_minute lease) (take (limit_or_100 limit) rows) db.rows in
    elim (Option-cases (statement db.sql).1) [
      | inr (e, lost) ↦ rw (lost, claim_due) refl
      | inl a ↦ elim (Option-cases (statement s1).1) [
        | inr (e, lost) ↦ rw (a, claim_due, lost) refl
        | inl b ↦ elim (Option-cases r.2) [
          | inr (e, lost) ↦ rw (a, claim_due, b, lost) refl
          | inl c ↦ elim (Option-cases (statement r.0).1) [
            | inr (e, lost) ↦ rw (a, claim_due, b, c, lost) refl
            | inl d ↦ rw (a, claim_due, b, c, d) clear
          ]
        ]
      ]
    ]

-- A schedule that a claim without an error returned is returned by no later claim, up to the time
-- at which the first claim's lease ends, if nothing but the later claim happens in between; the
-- limits and the lease of the later claim, and which of its statements fail, do not matter.
pub claim_due-claim_due :
    (db : SchedulesDb) (now limit lease : ℤ) (id : String)
    → (claim_due db now limit lease).2 ≡ none
    → has_row id (claim_due db now limit lease).1 ≡ true
    → (later limit' lease' : ℤ) → later ≤ℤ now +ℤ lease_or_minute lease
    → has_row id (claim_due (claim_due db now limit lease).0 later limit' lease').1 ≡ false
claim_due-claim_due db now limit lease id fine hit later limit' lease' h =
    claim_due-free (claim_due db now limit lease).0 later limit' lease'
      (now +ℤ lease_or_minute lease) id h (claim_due-Leased db now limit lease id fine hit)
