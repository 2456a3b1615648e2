-- ===== src/Workflow/Table/Rows.antt =====
-- What is found in the rows after each statement of internal/workflow/store.go.
use digital_ocean_bot.Prelude.{
  String, ◌≡◌, refl, sym, ◌∙◌, subst, inl, inr, Bool, true, false, Option, ◌++◌, none, some, List,
  [], ◌∷◌, arith, eq_iff, str_eq, if◌then◌else◌, Bool-cases, Option-cases, if_cases,
}
use digital_ocean_bot.Prelude.Int.{ℤ}
use mathlib.Core.Path.{fun_ext}
use digital_ocean_bot.Sql.{Sql}
use digital_ocean_bot.Workflow.{Deployment, Request}
use digital_ocean_bot.Workflow.Table.{
  ProfileSnapshot, Row, find_row, change_rows, is_row_of, written, is_unset, new_row,
}
use digital_ocean_bot.Workflow.Table.Spec.{put, updated, attached}

pub find_row-id :
    (id : String) (rows : List Row) (r : Row)
    → find_row id rows ≡ some r
    → str_eq r.deployment.id id ≡ true
unfolding find_row
find_row-id id [] r h = absurd (ground arith)
find_row-id id (x ∷ rows) r h = elim (Bool-cases (str_eq x.deployment.id id)) [
  | inl hit ↦
      let here : some x ≡ some r = rw hit at h in
      let same : x ≡ r = cc in subst (λ k. str_eq k.deployment.id id ≡ true) (same) hit
  | inr miss ↦ find_row-id id rows r (rw miss at h)
]

abbrev mapped : (Row → Bool) → (Row → Row) → Option Row → Option Row
mapped p f none = none
mapped p f (some r) = some (if p r then f r else r)

-- What is found after a change was found before it.
find-change :
    (k : String) (p : Row → Bool) (f : Row → Row) (rows : List Row)
    → ((r : Row) → (f r).deployment.id ≡ r.deployment.id)
    → find_row k (change_rows p f rows) ≡ mapped p f (find_row k rows)
unfolding find_row change_rows
find-change k p f [] keeps = refl
find-change k p f (r ∷ rows) keeps =
    let same : (if p r then f r else r).deployment.id ≡ r.deployment.id =
      if_cases (λ (x : Row). x.deployment.id ≡ r.deployment.id) (p r) _ _ (keeps r) refl in
    elim (Bool-cases (str_eq r.deployment.id k)) [
      | inl hit ↦
          let hit' : str_eq (if p r then f r else r).deployment.id k ≡ true = rw same hit in
          rw (hit', hit) refl
      | inr miss ↦
          let miss' : str_eq (if p r then f r else r).deployment.id k ≡ false = rw same miss in
          rw (miss', miss) (find-change k p f rows keeps)
    ]

-- A change of the rows with one identifier is a write to the map at it.
module _ (id : String) (p : Row → Bool) (f : Row → Row) (g : Option Row → Option Row)
    (keeps : (r : Row) → (f r).deployment.id ≡ r.deployment.id)
    (only : (r : Row) → str_eq r.deployment.id id ≡ false → p r ≡ false)
    (own : (r : Row) → str_eq r.deployment.id id ≡ true → mapped p f (some r) ≡ g (some r))
    (absent : g none ≡ none) where
  change_self : (rows : List Row) → mapped p f (find_row id rows) ≡ g (find_row id rows)
  change_self rows = elim (Option-cases (find_row id rows)) [
    | inl gone ↦ rw gone (sym absent)
    | inr (r, found) ↦ rw found (own r (find_row-id id rows r found))
  ]

  change_other :
      (k : String) (rows : List Row)
      → str_eq k id ≡ false
      → mapped p f (find_row k rows) ≡ find_row k rows
  change_other k rows apart = elim (Option-cases (find_row k rows)) [
    | inl gone ↦ rw gone refl
    | inr (r, found) ↦
        let has = find_row-id k rows r found in
        let different : str_eq r.deployment.id id ≡ false =
          ground (arith, eq_iff r.deployment.id k, eq_iff k id, eq_iff r.deployment.id id) in
        rw (found, only r different) refl
  ]

  change_rows-put :
      (rows : List Row)
      → (λ k. find_row k (change_rows p f rows))
        ≡ put id (g (find_row id rows)) (λ k. find_row k rows)
  change_rows-put rows = fun_ext (λ k. elim (Bool-cases (str_eq k id)) [
    | inl same ↦
        let e : k ≡ id = (eq_iff k id).0 same in
        rw same (
          find-change k p f rows keeps
          ∙ subst (λ x. mapped p f (find_row x rows) ≡ g (find_row id rows)) (sym e)
              (change_self rows))
    | inr apart ↦ rw apart (find-change k p f rows keeps ∙ change_other k rows apart)
  ])

pub update-rows :
    (d : Deployment) (now : ℤ) (rows : List Row)
    → (λ k. find_row k (change_rows (is_row_of d) (written d now) rows))
      ≡ put d.id (updated d now (find_row d.id rows)) (λ k. find_row k rows)
update-rows d now rows =
    change_rows-put d.id (is_row_of d) (written d now) (updated d now) (λ r. refl)
      (λ r other. rw other refl) (λ r same. own r same) refl rows
  where
    own :
        (r : Row)
        → str_eq r.deployment.id d.id ≡ true
        → mapped (is_row_of d) (written d now) (some r) ≡ updated d now (some r)
    own r same = elim (Bool-cases (str_eq r.deployment.account_id d.account_id)) [
      | inl mine ↦ rw (same, mine) refl
      | inr theirs ↦ rw (same, theirs) refl
    ]

unset :
    (s : Option ProfileSnapshot) (new old : Row)
    → some (if elim s [ none ↦ true | some q ↦ false ] then new else old)
      ≡ (elim s as (λ x. Option Row) [ none ↦ some new | some q ↦ some old ])
unset none new old = refl
unset (some q) new old = refl

pub put_same :
    (id : String) (row : Option Row) (rows : String → Option Row)
    → rows id ≡ row
    → put id row rows ≡ rows
put_same id row rows e = fun_ext (λ k. elim (Bool-cases (str_eq k id)) [
  | inl same ↦ rw same (sym (subst (λ x. rows x ≡ row) (sym ((eq_iff k id).0 same)) e))
  | inr apart ↦ rw apart refl
])

abbrev pub attach_one : ProfileSnapshot → Row → Row
attach_one p r = record r { profile_snapshot = some p }

pub attach-rows :
    (id : String) (p : ProfileSnapshot) (rows : List Row)
    → (λ k. find_row k (change_rows (is_unset id) (attach_one p) rows))
      ≡ put id (attached p (find_row id rows)) (λ k. find_row k rows)
attach-rows id p rows =
    change_rows-put id (is_unset id) (attach_one p) (attached p) (λ r. refl)
      (λ r other. rw other refl) (λ r same. rw same (unset r.profile_snapshot (attach_one p r) r))
      refl rows

-- A row that is added at the end.
find-append :
    (k : String) (rows : List Row) (new : Row)
    → find_row new.deployment.id rows ≡ none
    → find_row k (rows ++ new ∷ []) ≡ put new.deployment.id (some new) (λ x. find_row x rows) k
unfolding find_row
find-append k [] new free = ground (arith, eq_iff new.deployment.id k, eq_iff k new.deployment.id)
find-append k (r ∷ rows) new free = elim (Bool-cases (str_eq r.deployment.id new.deployment.id)) [
  | inl clash ↦ absurd (ground arith)
  | inr other ↦
      let rest : find_row new.deployment.id rows ≡ none = rw other at free in
      elim (Bool-cases (str_eq r.deployment.id k)) [
        | inl hit ↦
            let apart : str_eq k new.deployment.id ≡ false = ground (
              arith,
              eq_iff r.deployment.id k,
              eq_iff k new.deployment.id,
              eq_iff r.deployment.id new.deployment.id,
            ) in
            rw (hit, apart) refl
        | inr miss ↦ rw miss (find-append k rows new rest)
      ]
]

-- Rows of one event's effect: the map of the table after it.
pub insert-rows :
    (s : Sql) (r : Request) (rows : List Row)
    → let id = s.new_id s.calls in
      let new = new_row id s.clock r in
      (find_row id rows ≡ none)
      → (λ k. find_row k (rows ++ new ∷ [])) ≡ put id (some new) (λ k. find_row k rows)
insert-rows s r rows free =
    fun_ext (λ k. find-append k rows (new_row (s.new_id s.calls) s.clock r) free)
