-- ===== src/Provisioning/Budget.antt =====
-- How many commands are run for one droplet, over every history of Execute on the SQL store.
pub mod Total
pub mod Steps
pub mod Reserve
pub mod History
use digital_ocean_bot.Prelude.{
  ℕ, ◌+◌, ◌≤◌, String, ◌≡◌, refl, sym, ap, ◌∙◌, inl, inr, Bool, true, false, ◌&&◌, not, Option,
  none, some, List, [], ◌∷◌, arith, eq_iff, eq_refl, str_eq, if◌then◌else◌, Bool-cases,
  Option-cases, length,
}
use digital_ocean_bot.Prelude.Int.{ℤ}
use digital_ocean_bot.Errors.{Error}
use digital_ocean_bot.Provisioning.{Target, Run, Plan, Env}
use digital_ocean_bot.Provisioning.Store.{
  RunsDb, has_key, find_run, has_id, update_rows, reserve, update,
}
use digital_ocean_bot.Provisioning.Engine.{
  Step, step_list, call, step_failed, step_done, run_step, run_steps, complete, give_up,
  attempt_steps, requested, execute,
}

-- The store, and the droplets that commands were sent to, newest first.
pub record World : Type 0 where
  pub db : RunsDb
  pub commands : List (String × String)

-- What the secret store and the hosts answer, by the number of commands before, and the clock.
pub record Remote : Type 0 where
  pub secret : ℕ → String × Option Error
  pub command : ℕ → Option Error
  pub now : ℕ → ℤ
  pub error_text : Error → String

abbrev pub sent : Remote → World → Target → World × Option Error
sent remote w t = (
  record w { commands = (t.account_id, t.droplet_id) ∷ w.commands },
  remote.command (length w.commands),
)

-- The engine's interfaces by SQLStore and the remote side.
abbrev pub sql_env : Remote → Env World
sql_env remote = record {
  reserve =
      λ w r. let (db, run, fresh, err) = reserve w.db r in (record w { db = db }, run, fresh, err);
  update = λ w r. let (db, err) = update w.db r in (record w { db = db }, err);
  get_secret = λ w a k. let (key, err) = remote.secret (length w.commands) in (w, key, err);
  wait = λ w t k. sent remote w t;
  run_command = λ w t k c. sent remote w t;
  now = λ w. remote.now (length w.commands);
  error_text = remote.error_text;
}

abbrev pub is_target : String → String → String × String → Bool
is_target a d (a', d') = str_eq a' a && str_eq d' d

-- The commands that went to one droplet.
pub count : String → String → List (String × String) → ℕ
count a d [] = 0
count a d (c ∷ cs) = (if is_target a d c then 1 else 0) + count a d cs

-- What an UPDATE makes of a row.
abbrev pub touch : Run → ℤ → Run → Run
touch r now x =
    if str_eq x.id r.id && str_eq x.account_id r.account_id
    then record x {
      state = r.state;
      current_step = r.current_step;
      attempt = r.attempt;
      last_error = r.last_error;
      next_retry_at = r.next_retry_at;
      updated_at = now;
    }
    else x

pub touched : Run → ℤ → Option Run → Option Run
touched r now none = none
touched r now (some x) = some (touch r now x)

pub find-update_rows :
    (a d : String) (r : Run) (now : ℤ) (xs : List Run)
    → find_run a d (update_rows r now xs) ≡ touched r now (find_run a d xs)
unfolding find_run update_rows touched
find-update_rows a d r now [] = refl
find-update_rows a d r now (x ∷ xs) = ground (arith, find-update_rows a d r now xs)

pub attempt_of : Option Run → ℕ
attempt_of none = 0
attempt_of (some x) = x.attempt

pub find-key :
    (a d : String) (xs : List Run) (x : Run)
    → find_run a d xs ≡ some x
    → (x.account_id ≡ a) × (x.droplet_id ≡ d)
unfolding find_run
find-key a d [] x e = ground arith
find-key a d (y ∷ ys) x e = elim (Bool-cases (has_key a d y)) [
  | inl hit ↦ ground (arith, e, eq_iff y.account_id a, eq_iff y.droplet_id d)
  | inr miss ↦ find-key a d ys x (ground (arith, e, miss))
]

-- A row shares the identifier of this droplet's row only if it is that row.
pub Sole : String → String → List Run → Type 0
Sole a d xs =
    (a' d' : String) (x y : Run)
    → find_run a d xs ≡ some x
    → find_run a' d' xs ≡ some y
    → x.id ≡ y.id
    → (a' ≡ a) × (d' ≡ d)

-- The table and the commands of one droplet, `extra` of which are still to be sent.
pub record Within (a d : String) (extra : ℕ) (w : World) : Type 0 where
  pub counted : count a d w.commands + extra ≤ attempt_of (find_run a d w.db.runs)
  pub bounded : attempt_of (find_run a d w.db.runs) ≤ 11
  pub sole : Sole a d w.db.runs

-- The row of a run, which the run is not behind.
pub record Fits (r : Run) (w : World) : Type 0 where
  pub row : Run
  pub found : find_run r.account_id r.droplet_id w.db.runs ≡ some row
  pub same_id : row.id ≡ r.id
  pub behind : row.attempt ≤ r.attempt

module _ (a d : String) where
  pub touched-some :
      (r : Run) (now : ℤ) (o : Option Run) (x : Run)
      → touched r now o ≡ some x
      → (y : Run) × (o ≡ some y) × (y.id ≡ x.id)
  unfolding touched
  touched-some r now none x e = ground arith
  touched-some r now (some y) x e = (y, refl, ground (arith, e))

  pub update_rows-Sole :
      (r : Run) (now : ℤ) (xs : List Run) → Sole a d xs → Sole a d (update_rows r now xs)
  unfolding Sole
  update_rows-Sole r now xs sole a' d' x y ex ey same =
      let (x0, ex0, ix) =
        touched-some r now (find_run a d xs) x (sym (find-update_rows a d r now xs) ∙ ex) in
      let (y0, ey0, iy) =
        touched-some r now (find_run a' d' xs) y (sym (find-update_rows a' d' r now xs) ∙ ey) in
      sole a' d' x0 y0 ex0 ey0 (ix ∙ same ∙ sym iy)

  abbrev pub own : Run → Bool
  own r = is_target a d (r.account_id, r.droplet_id)

  pub own_eq : (r : Run) → own r ≡ true → (r.account_id ≡ a) × (r.droplet_id ≡ d)
  own_eq r e = ground (arith, e, eq_iff r.account_id a, eq_iff r.droplet_id d)

  abbrev pub gain : ℕ → Run → ℕ
  gain g r = if own r then g else 0

  pub touch-hit :
      (r x : Run) (now : ℤ)
      → x.id ≡ r.id
      → x.account_id ≡ r.account_id
      → (touch r now x).attempt ≡ r.attempt
  touch-hit r x now i k = ground (arith, i, k, eq_iff x.id r.id, eq_iff x.account_id r.account_id)

  -- The row of this droplet after an update by a run that holds its own row.
  pub touched-own :
      (r r' row : Run) (now : ℤ) (xs : List Run)
      → find_run r.account_id r.droplet_id xs ≡ some row
      → row.id ≡ r'.id
      → r'.account_id ≡ r.account_id
      → own r ≡ true
      → attempt_of (find_run a d (update_rows r' now xs)) ≡ r'.attempt
  unfolding attempt_of touched
  touched-own r r' row now xs found same key mine =
      let (ea, ed) = own_eq r mine in
      let here : find_run a d xs ≡ some row = rw (← ea, ← ed) found in
      ap attempt_of (find-update_rows a d r' now xs ∙ ap (touched r' now) here)
      ∙ touch-hit r' row now same ((find-key r.account_id r.droplet_id xs row found).0 ∙ sym key)

  pub touched-other :
      (r r' row : Run) (now : ℤ) (xs : List Run)
      → Sole a d xs
      → find_run r.account_id r.droplet_id xs ≡ some row
      → row.id ≡ r'.id
      → own r ≡ false
      → attempt_of (find_run a d (update_rows r' now xs)) ≡ attempt_of (find_run a d xs)
  unfolding Sole touched
  touched-other r r' row now xs sole found same others =
      ap attempt_of (find-update_rows a d r' now xs) ∙ (elim (Option-cases (find_run a d xs)) [
        | inl nothing ↦ rw nothing refl
        | inr (x, here) ↦ rw here (elim (Bool-cases (str_eq x.id r'.id)) [
          | inr miss ↦ ground (arith, miss)
          | inl hit ↦
              let q =
                sole r.account_id r.droplet_id x row here found
                  ((eq_iff x.id r'.id).0 hit ∙ sym same) in
              ground (arith, q, eq_refl a, eq_refl d, others)
        ])
      ])
