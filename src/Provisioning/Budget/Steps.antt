-- ===== src/Provisioning/Budget/Steps.antt =====
-- The bound on the commands through the steps of one Execute.
use digital_ocean_bot.Prelude.{
  ℕ, suc, ◌+◌, ◌≤◌, String, ◌≡◌, refl, sym, ap, ◌∙◌, subst, inl, inr, Option, none, some, List, [],
  ◌∷◌, arith, str_eq, if◌then◌else◌, Bool-cases, Option-cases, length,
}
use digital_ocean_bot.Errors.{Error}
use digital_ocean_bot.Provisioning.{Target, Run, Plan, Env}
use digital_ocean_bot.Provisioning.Engine.{
  Step, step_list, call, step_failed, step_done, run_step, run_steps, is_completed, complete,
  attempt_steps,
}
use digital_ocean_bot.Provisioning.Budget.{
  World, Remote, sent, sql_env, is_target, count, Within, Fits, gain,
}
use digital_ocean_bot.Provisioning.Budget.Total.{Moves, update-Within}

module _ (a d : String) (remote : Remote) where
  abbrev env : Env World
  env = sql_env remote

  -- The run is the target's.
  unfoldable pub Keyed : Target → Run → Type 0
  Keyed t r = (r.account_id ≡ t.account_id) × (r.droplet_id ≡ t.droplet_id)

  call-sent :
      (s : Step) (w : World) (t : Target) (key : String) → call env s w t key ≡ sent remote w t
  call-sent s w t key = elim (Bool-cases (str_eq s.name "ssh")) [
    | inl ssh ↦ rw ssh refl
    | inr other ↦ rw other refl
  ]

  sent-Within :
      (w : World) (t : Target) (r : Run)
      → Keyed t r
      → Within a d (gain a d 1 r) w
      → Within a d 0 (sent remote w t).0
  unfolding count Keyed
  sent-Within w t r (ka, kd) i = record {
    counted = omega (arith, one, i.counted);
    bounded = i.bounded;
    sole = i.sole;
  }
    where
      one :
          count a d ((t.account_id, t.droplet_id) ∷ w.commands)
          ≡ gain a d 1 r + count a d w.commands
      one =
          ap (λ b. (if b then 1 else 0) + count a d w.commands)
            (ap (λ k. is_target a d (k, t.droplet_id)) (sym ka)
              ∙ ap (λ k. is_target a d (r.account_id, k)) (sym kd))

  still :
      (g : ℕ) (r r' : Run)
      → r'.id ≡ r.id
      → r'.account_id ≡ r.account_id
      → r'.droplet_id ≡ r.droplet_id
      → r'.attempt ≡ r.attempt + g
      → r'.attempt ≤ 11
      → Moves a d remote g r r'
  still g r r' i k l n small = record {
    id = i;
    account = k;
    droplet = l;
    attempt = n;
    small = λ mine. small;
  }

  -- What is known after steps that began with a run `r`, and `grown` more attempts.
  pub record After (t : Target) (grown : ℕ) (r : Run) (q : World × Run × Option Error)
      : Type 0 where
    pub within : Within a d 0 q.0
    pub goes_on : q.2 ≡ none → Fits q.1 q.0 × Keyed t q.1 × (q.1.attempt ≤ r.attempt + grown)

  sent-Fits : (w : World) (t : Target) (r : Run) → Fits r w → Fits r (sent remote w t).0
  sent-Fits w t r f = record {
    row = f.row;
    found = f.found;
    same_id = f.same_id;
    behind = f.behind;
  }

  step_failed-After :
      (t : Target) (g : ℕ) (r : Run) (w : World) (r1 : Run) (e : Error)
      → Within a d 0 w
      → Fits r1 w
      → r1.attempt ≤ 11
      → After t g r (step_failed env w r1 e)
  unfolding step_failed
  step_failed-After t g r w r1 e i f small =
      let r2 = (step_failed env w r1 e).1 in
      record {
        within =
            (update-Within a d remote 0 w r1 r2 i f
              (still 0 r1 r2 refl refl refl (omega arith) small)).0;
        goes_on = λ e. ground arith;
      }

  step_done-After :
      (t : Target) (g : ℕ) (r : Run) (s : Step) (w : World) (r1 : Run)
      → Within a d 0 w
      → Fits r1 w
      → Keyed t r1
      → r1.attempt ≤ 11
      → r1.attempt ≤ r.attempt + g
      → After t g r (step_done env s w r1)
  unfolding step_done Keyed
  step_done-After t g r s w r1 i f k small grown =
      let r2 = (step_done env s w r1).1 in
      let q =
        update-Within a d remote 0 w r1 r2 i f (still 0 r1 r2 refl refl refl (omega arith) small) in
      record { within = q.0; goes_on = λ e. ((q.1 e).1, k, grown) }

  more :
      (t : Target) (g h : ℕ) (r r0 : Run) (q : World × Run × Option Error)
      → r.attempt + g ≤ r0.attempt + h
      → After t g r q
      → After t h r0 q
  more t g h r r0 q le p = record {
    within = p.within;
    goes_on = λ e. let (f, k, n) = p.goes_on e in (f, k, omega arith);
  }

  run_step-After :
      (s : Step) (w : World) (t : Target) (key : String) (r : Run)
      → Within a d 0 w
      → Fits r w
      → Keyed t r
      → suc r.attempt ≤ 11
      → After t 1 r (run_step env s w t key r)
  unfolding run_step Keyed
  run_step-After s w t key r i f k small =
      let r1 = record r { state = s.state; current_step = s.name; attempt = suc r.attempt } in
      let u = env.update w r1 in
      let q =
        update-Within a d remote 1 w r r1 i f (still 1 r r1 refl refl refl (omega arith) small) in
      elim (Option-cases u.1) [
        | inr (e, lost) ↦ rw (lost, run_step) (record { within = q.0; goes_on = λ e. ground arith })
        | inl stored ↦
            let (room, held) = q.1 stored in
            let c = sent remote u.0 t in
            let same = call-sent s u.0 t key in
            let inside = subst (λ q. Within a d 0 q.0) (sym same) (sent-Within u.0 t r k room) in
            let here = subst (λ q. Fits r1 q.0) (sym same) (sent-Fits u.0 t r1 held) in
            elim (Option-cases c.1) [
              | inr (e, failed) ↦
                  let failed' : (call env s u.0 t key).1 ≡ some e = ap (λ q. q.1) same ∙ failed in
                  rw (stored, run_step, failed')
                    (step_failed-After t 1 r (call env s u.0 t key).0 r1 e inside here small)
              | inl fine ↦
                  let fine' : (call env s u.0 t key).1 ≡ none = ap (λ q. q.1) same ∙ fine in
                  rw (stored, run_step, fine')
                    (step_done-After t 1 r s (call env s u.0 t key).0 r1 inside here k small
                      (omega arith))
            ]
      ]

  run_steps-After :
      (steps : List Step) (w : World) (t : Target) (key : String) (r : Run)
      → Within a d 0 w
      → Fits r w
      → Keyed t r
      → r.attempt + length steps ≤ 11
      → After t (length steps) r (run_steps env steps w t key r)
  unfolding run_steps
  run_steps-After [] w t key r i f k small = record {
    within = i;
    goes_on = λ e. (f, k, omega arith);
  }
  run_steps-After (s ∷ rest) w t key r i f k small =
      let q = run_step env s w t key r in
      elim (Bool-cases (is_completed r.current_step s.name)) [
        | inl done ↦
            let ih = run_steps-After rest w t key r i f k (omega arith) in
            rw (done, run_steps) (more t (length rest) (suc (length rest)) r r _ (omega arith) ih)
        | inr now ↦
            let one = run_step-After s w t key r i f k (omega arith) in
            elim (Option-cases q.2) [
              | inr (e, failed) ↦
                  rw (now, run_steps, failed)
                    (record { within = one.within; goes_on = λ e. ground arith })
              | inl fine ↦
                  let (f1, k1, n1) = one.goes_on fine in
                  let ih = run_steps-After rest q.0 t key q.1 one.within f1 k1 (omega arith) in
                  rw (now, run_steps, fine)
                    (more t (length rest) (suc (length rest)) q.1 r _ (omega arith) ih)
            ]
      ]

  complete-Within :
      (w : World) (r : Run)
      → Within a d 0 w
      → Fits r w
      → r.attempt ≤ 11
      → Within a d 0 (complete env w r).0
  complete-Within w r i f small =
      let r2 = (complete env w r).1 in
      (update-Within a d remote 0 w r r2 i f (still 0 r r2 refl refl refl (omega arith) small)).0

  pub attempt_steps-Within :
      (w : World) (t : Target) (plan : Plan) (r : Run)
      → Within a d 0 w
      → Fits r w
      → Keyed t r
      → r.attempt ≤ 7
      → Within a d 0 (attempt_steps env w t plan r).0
  unfolding attempt_steps
  attempt_steps-Within w t plan r i f k small =
      let secret = env.get_secret w t.account_id t.key_secret_ref in
      let q = run_steps env (step_list plan) w t secret.1 r in
      let p = run_steps-After (step_list plan) w t secret.1 r i f k (omega arith) in
      elim (Option-cases secret.2) [
        | inr (e, lost) ↦ rw (lost, attempt_steps) i
        | inl got ↦ elim (Option-cases q.2) [
          | inr (e, failed) ↦ rw (got, attempt_steps, failed) p.within
          | inl fine ↦
              let (f1, k1, n1) = p.goes_on fine in
              rw (got, attempt_steps, fine) (complete-Within q.0 q.1 p.within f1 (omega arith))
        ]
      ]
