-- ===== src/Provisioning/Budget/Total.antt =====
-- The bound on the commands, step by step through Execute.
use digital_ocean_bot.Prelude.{
  ℕ, ◌+◌, ◌≤◌, String, ◌≡◌, sym, ap, ◌∙◌, subst, inl, inr, true, none, some, List, arith,
  Bool-cases, Option-cases,
}
use digital_ocean_bot.Prelude.Int.{ℤ}
use digital_ocean_bot.Sql.{statement}
use digital_ocean_bot.Provisioning.{Run}
use digital_ocean_bot.Provisioning.Store.{find_run, update_rows, update}
use digital_ocean_bot.Provisioning.Budget.{
  World, Remote, sql_env, count, attempt_of, Within, Fits, own, gain, own_eq, touch, touched-own,
  touched-other, update_rows-Sole, find-key, find-update_rows, touched, touch-hit,
}

module _ (a d : String) (remote : Remote) where
  -- A run that keeps its row's key and identifier.
  pub record Moves (g : ℕ) (r r' : Run) : Type 0 where
    pub id : r'.id ≡ r.id
    pub account : r'.account_id ≡ r.account_id
    pub droplet : r'.droplet_id ≡ r.droplet_id
    pub attempt : r'.attempt ≡ r.attempt + g
    pub small : own a d r ≡ true → r'.attempt ≤ 11

  pub own-attempt :
      (xs : List Run) (r row : Run)
      → find_run r.account_id r.droplet_id xs ≡ some row
      → own a d r ≡ true
      → attempt_of (find_run a d xs) ≡ row.attempt
  unfolding attempt_of
  own-attempt xs r row found mine =
      let (ea, ed) = own_eq a d r mine in
      let here : find_run a d xs ≡ some row = rw (← ea, ← ed) found in ap attempt_of here

  rows-Within :
      (g : ℕ) (w : World) (r r' : Run) (now : ℤ)
      → Within a d 0 w
      → Fits r w
      → Moves g r r'
      → let rows = update_rows r' now w.db.runs in
        (count a d w.commands + gain a d g r ≤ attempt_of (find_run a d rows))
        × (attempt_of (find_run a d rows) ≤ 11)
  rows-Within g w r r' now i f m =
      let same = f.same_id ∙ sym m.id in
      elim (Bool-cases (own a d r)) [
        | inl mine ↦
            let e = touched-own a d r r' f.row now w.db.runs f.found same m.account mine in
            let here = own-attempt w.db.runs r f.row f.found mine in
            rw mine (
              omega (arith, e, here, m.attempt, i.counted, f.behind),
              omega (arith, e, m.small mine),
            )
        | inr others ↦
            let e = touched-other a d r r' f.row now w.db.runs i.sole f.found same others in
            rw (others, e) (i.counted, i.bounded)
      ]

  touch_id : (r : Run) (now : ℤ) (x : Run) → (touch r now x).id ≡ x.id
  touch_id r now x = ground arith

  rows-Fits :
      (g : ℕ) (w : World) (r r' : Run) (now : ℤ)
      → Fits r w
      → Moves g r r'
      → (y : Run) × (find_run r'.account_id r'.droplet_id (update_rows r' now w.db.runs) ≡ some y)
        × (y.id ≡ r'.id)
        × (y.attempt ≤ r'.attempt)
  unfolding touched
  rows-Fits g w r r' now f m =
      let x = touch r' now f.row in
      let rows = update_rows r' now w.db.runs in
      let key = (find-key r.account_id r.droplet_id w.db.runs f.row f.found).0 in
      let hit = touch-hit a d r' f.row now (f.same_id ∙ sym m.id) (key ∙ sym m.account) in
      (
        x,
        subst (λ k. find_run k r'.droplet_id rows ≡ some x) (sym m.account)
            (subst (λ k. find_run r.account_id k rows ≡ some x) (sym m.droplet)
              (find-update_rows r.account_id r.droplet_id r' now w.db.runs
                ∙ ap (touched r' now) f.found)),
        touch_id r' now f.row ∙ f.same_id ∙ sym m.id,
        omega (arith, hit),
      )

  weaken : (g : ℕ) (w : World) → Within a d g w → Within a d 0 w
  weaken g w i = record { counted = omega (arith, i.counted); bounded = i.bounded; sole = i.sole }

  -- An update that is stored leaves room for what the run's attempt grew by.
  pub update-Within :
      (g : ℕ) (w : World) (r r' : Run)
      → Within a d 0 w
      → Fits r w
      → Moves g r r'
      → let u = (sql_env remote).update w r' in
        Within a d 0 u.0 × (u.1 ≡ none → Within a d (gain a d g r) u.0 × Fits r' u.0)
  unfolding update
  update-Within g w r r' i f m =
      let s = statement w.db.sql in
      let q = rows-Within g w r r' s.0.clock i f m in
      let y = rows-Fits g w r r' s.0.clock f m in
      elim (Option-cases s.1) [
        | inr (e, lost) ↦
            rw (lost, update)
              (
                record { counted = i.counted; bounded = i.bounded; sole = i.sole },
                λ e. ground arith,
              )
        | inl fine ↦
            let kept : Within a d (gain a d g r) (record w {
              db = record w.db { sql = s.0; runs = update_rows r' s.0.clock w.db.runs };
            }) =
              record {
                counted = q.0;
                bounded = q.1;
                sole = update_rows-Sole a d r' s.0.clock w.db.runs i.sole;
              } in
            rw (fine, update)
              (
                weaken (gain a d g r) _ kept,
                λ e. (kept, record { row = y.0; found = y.1; same_id = y.2; behind = y.3 }),
              )
      ]
