-- ===== src/Provisioning/Budget/History.antt =====
-- The bound on the commands over every history of Execute.
use digital_ocean_bot.Prelude.{
  ℕ, ◌≤◌, String, ◌≡◌, refl, inl, inr, Bool, true, false, ◌&&◌, ◌||◌, not, List, [], ◌∷◌, arith,
  str_eq, leb, Bool-cases, Option-cases,
}
use digital_ocean_bot.Sql.{Sql}
use digital_ocean_bot.Provisioning.Store.{find_run}
use digital_ocean_bot.Provisioning.{Target, Run, Plan}
use digital_ocean_bot.Provisioning.Engine.{
  is_done, is_before, max_attempts, give_up, requested, execute,
}
use digital_ocean_bot.Provisioning.Budget.{
  World, Remote, sql_env, count, attempt_of, Sole, Within, Fits, own,
}
use digital_ocean_bot.Provisioning.Budget.Total.{Moves, update-Within}
use digital_ocean_bot.Provisioning.Budget.Steps.{attempt_steps-Within}
use digital_ocean_bot.Provisioning.Budget.Reserve.{reserve-Reserved}

-- The calls of Execute, one after the other, each with its own answers of the remote side.
pub execute_all : World → List (Remote × Target × Plan) → World
execute_all w [] = w
execute_all w ((remote, t, plan) ∷ later) = execute_all (execute (sql_env remote) w t plan).0 later

-- No run, and no command sent.
abbrev pub empty : Sql → World
empty sql = record { db = record { sql = sql; runs = [] }; commands = [] }

module _ (a d : String) where
  give_up-Within :
      (remote : Remote) (w : World) (r : Run)
      → Within a d 0 w
      → Fits r w
      → (own a d r ≡ true → r.attempt ≤ 11)
      → Within a d 0 (give_up (sql_env remote) w r).0
  give_up-Within remote w r i f small =
      let r' = (give_up (sql_env remote) w r).1 in
      let m : Moves a d remote 0 r r' = record {
        id = refl;
        account = refl;
        droplet = refl;
        attempt = omega arith;
        small = small;
      } in
      (update-Within a d remote 0 w r r' i f m).0

  execute-Within :
      (remote : Remote) (w : World) (t : Target) (plan : Plan)
      → Within a d 0 w
      → Within a d 0 (execute (sql_env remote) w t plan).0
  unfolding execute
  execute-Within remote w t plan i =
      let env = sql_env remote in
      let u = env.reserve w (requested t) in
      let p = reserve-Reserved a d remote w t i in
      elim (Bool-cases
        (str_eq plan.bootstrap "" || str_eq plan.install_panel "" || str_eq plan.verify "")) [
          | inl bad ↦ rw (bad, execute) i
          | inr good ↦ elim (Option-cases u.3) [
            | inr (e, lost) ↦ rw (good, execute, lost) p.within
            | inl fine ↦
                let (f, k, zero_attempts) = p.held fine in
                elim (Bool-cases (not u.2 && is_done u.1.state)) [
                  | inl done ↦ rw (good, execute, fine, done) p.within
                  | inr open_ ↦
                      elim (Bool-cases (not u.2 && is_before (env.now u.0) u.1.next_retry_at)) [
                        | inl early ↦ rw (good, execute, fine, open_, early) p.within
                        | inr due ↦ elim (Bool-cases (not u.2 && leb max_attempts u.1.attempt)) [
                          | inl spent ↦
                              rw (good, execute, fine, open_, due, spent)
                                (give_up-Within remote u.0 u.1 p.within f (p.small fine))
                          | inr more ↦
                              rw (good, execute, fine, open_, due, more)
                                (attempt_steps-Within a d remote u.0 t plan u.1 p.within f k
                                  (few u.2 u.1.attempt zero_attempts more))
                        ]
                      ]
                ]
          ]
        ]
    where
      few :
          (fresh : Bool) (n : ℕ)
          → (fresh ≡ true → n ≡ 0)
          → not fresh && leb max_attempts n ≡ false
          → n ≤ 7
      few fresh n new more = ground (arith, new, more)

  execute_all-Within :
      (w : World) (calls : List (Remote × Target × Plan))
      → Within a d 0 w
      → Within a d 0 (execute_all w calls)
  unfolding execute_all
  execute_all-Within w [] i = i
  execute_all-Within w ((remote, t, plan) ∷ later) i =
      execute_all-Within (execute (sql_env remote) w t plan).0 later
        (execute-Within remote w t plan i)

  empty-Within : (sql : Sql) → Within a d 0 (empty sql)
  unfolding Sole count attempt_of find_run
  empty-Within sql = record {
    counted = omega arith;
    bounded = omega arith;
    sole = λ a' d' x y ex ey same. ground arith;
  }

  -- Over every history of Execute on the SQL store, begun on an empty table, at most 11 commands
  -- (the wait for the host included) are sent to one droplet of an account, for all targets and
  -- plans, whichever statements fail, whatever the secret store, the hosts and the clock answer at
  -- each call, and whatever identifiers the database makes.
  pub count-execute_all :
      (sql : Sql) (calls : List (Remote × Target × Plan))
      → count a d (execute_all (empty sql) calls).commands ≤ 11
  count-execute_all sql calls =
      let i = execute_all-Within (empty sql) calls (empty-Within sql) in
      omega (arith, i.counted, i.bounded)
