-- ===== src/Provisioning/Progress.antt =====
-- Which commands one call of Execute runs, and in which order.
use digital_ocean_bot.Errors.{retry_limit_reached, retry_deferred, Error}
use digital_ocean_bot.Provisioning.Engine.{
  max_attempts, is_before, is_done, rank, provision_next, is_completed, step_failed, step_done,
  Step, step_list, call, run_step, run_steps, complete, give_up, attempt_steps, requested, execute,
}
use digital_ocean_bot.Prelude.{
  ℕ, suc, ◌+◌, ◌-◌, ◌≤◌, String, ◌≡◌, refl, sym, ap, ◌∙◌, subst, ◌≢◌, ◌⊎◌, inl, inr, true, false,
  ◌&&◌, ◌||◌, not, Option, none, some, List, [], ◌∷◌, ◌++◌, map, arith, str_eq, ltb, leb,
  Bool-cases, Option-cases, length, drop,
}
use mathlib.Core.List.{append-nil, append_assoc}
use digital_ocean_bot.Provisioning.{Target, Run, Plan, Env}

-- Steps whose names have the ranks r, r + 1, ….
abbrev pub Ranked : ℕ → List Step → Type 0
Ranked r [] = Unit {0}
Ranked r (s ∷ ss) = (rank s.name ≡ r) × (rank (provision_next s.name) ≡ suc r) × Ranked (suc r) ss

table-Ranked : (plan : Plan) → Ranked 0 (step_list plan)
unfolding rank provision_next
table-Ranked plan = (refl, refl, (refl, refl, (refl, refl, (refl, refl, tt))))

rank_le : (s : String) → rank s ≤ 4
unfolding rank
rank_le s = ground arith

-- The host is waited for under the empty text, then come the plan's three commands.
abbrev pub commands : List Step → List String
commands ss = map (λ s. s.command) ss

module _ {W : Type 0} (env : Env W) (log : W → List String)
    (updates : (w : W) (r : Run) → log (env.update w r).0 ≡ log w)
    (secrets : (w : W) (a k : String) → log (env.get_secret w a k).0 ≡ log w)
    (waits : (w : W) (t : Target) (k : String) → log (env.wait w t k).0 ≡ log w ++ "" ∷ [])
    (runs : (w : W) (t : Target) (k c : String)
      → log (env.run_command w t k c).0 ≡ log w ++ c ∷ []) where
  -- `done` was run from `w` on, and `left` was not; nothing is left if no error is reported.
  pub record Resumed (steps : List Step) (w : W) (r : W × Run × Option Error) : Type 0 where
    pub ran : List String
    pub left : List String
    pub whole : ran ++ left ≡ commands steps
    pub logged : log r.0 ≡ log w ++ ran
    pub finished : r.2 ≡ none → left ≡ []

  -- The table's first step, and no other, is the wait.
  abbrev Waits : List Step → Type 0
  Waits [] = Unit {0}
  Waits (s ∷ ss) = (str_eq s.name "ssh" ≡ true → s.command ≡ "") × Waits ss

  call_log :
      (s : Step) (w : W) (t : Target) (key : String)
      → (str_eq s.name "ssh" ≡ true → s.command ≡ "")
      → log (call env s w t key).0 ≡ log w ++ s.command ∷ []
  call_log s w t key h = elim (Bool-cases (str_eq s.name "ssh")) [
    | inl ssh ↦ rw (ssh, h ssh) (waits w t key)
    | inr other ↦ rw other (runs w t key s.command)
  ]

  failed_log : (w : W) (run : Run) (e : Error) → log (step_failed env w run e).0 ≡ log w
  unfolding step_failed
  failed_log w run e = updates w (step_failed env w run e).1

  done_log : (s : Step) (w : W) (run : Run) → log (step_done env s w run).0 ≡ log w
  unfolding step_done
  done_log s w run = updates w (step_done env s w run).1

  run_step-cases :
      (s : Step) (w : W) (t : Target) (key : String) (run : Run)
      → (str_eq s.name "ssh" ≡ true → s.command ≡ "")
      → let r = run_step env s w t key run in
        (log r.0 ≡ log w) × (r.2 ≢ none)
        ⊎ (log r.0 ≡ log w ++ s.command ∷ [])
          × ((r.2 ≢ none) ⊎ (r.1.current_step ≡ provision_next s.name))
  unfolding run_step
  run_step-cases s w t key run h =
      let run1 = record run { state = s.state; current_step = s.name; attempt = suc run.attempt } in
      let w1 = (env.update w run1).0 in
      let c = call env s w1 t key in
      elim (Option-cases (env.update w run1).1) [
        | inr (e, lost) ↦ inl (ground (arith, updates w run1), ground arith)
        | inl stored ↦ elim (Option-cases c.1) [
          | inr (e, failed) ↦ inr (
            ground (arith, updates w run1, call_log s w1 t key h, failed_log c.0 run1 e),
            inl (ground arith),
          )
          | inl fine ↦ inr (
            ground (arith, updates w run1, call_log s w1 t key h, done_log s c.0 run1),
            inr (ground arith),
          )
        ]
      ]

  exec :
      (r : ℕ) (steps : List Step) (w : W) (t : Target) (key : String) (run : Run)
      → Ranked r steps
      → Waits steps
      → rank run.current_step ≤ r
      → Resumed steps w (run_steps env steps w t key run)
  unfolding run_steps
  exec r [] w t key run ranked h at = record {
    ran = [];
    left = [];
    whole = refl;
    logged = sym (append-nil (log w));
    finished = λ e. refl;
  }
  exec r (s ∷ rest) w t key run (here, after, ranked) (h, hs) at =
      let q = run_step env s w t key run in
      let now : is_completed run.current_step s.name ≡ false = ground arith in
      elim (run_step-cases s w t key run h) [
        | inl (same, err) ↦ rw now (elim (Option-cases q.2) [
          | inl e ↦ absurd (err e)
          | inr (x, e) ↦ rw e (record {
            ran = [];
            left = commands (s ∷ rest);
            whole = refl;
            logged = same ∙ sym (append-nil (log w));
            finished = λ e. ground arith;
          })
        ])
        | inr (ran_one, how) ↦ rw now (elim (Option-cases q.2) [
          | inr (x, e) ↦ rw e (record {
            ran = s.command ∷ [];
            left = commands rest;
            whole = refl;
            logged = ran_one;
            finished = λ e. ground arith;
          })
          | inl e ↦
              let step : q.1.current_step ≡ provision_next s.name = ground arith in
              let ih = exec (suc r) rest q.0 t key q.1 ranked hs (rw step (omega arith)) in
              rw e (record {
                ran = s.command ∷ ih.ran;
                left = ih.left;
                whole = ap (λ xs. s.command ∷ xs) ih.whole;
                logged =
                    ih.logged
                    ∙ ap (λ xs. xs ++ ih.ran) ran_one
                    ∙ append_assoc (log w) (s.command ∷ []) ih.ran;
                finished = ih.finished;
              })
        ])
      ]

  -- The steps before the checkpoint are passed over.
  skip :
      (k r : ℕ) (steps : List Step) (w : W) (t : Target) (key : String) (run : Run)
      → Ranked r steps
      → Waits steps
      → r ≤ k
      → k ≤ r + length steps
      → rank run.current_step ≡ k
      → Resumed (drop (k - r) steps) w (run_steps env steps w t key run)
  unfolding run_steps
  skip k r [] w t key run ranked h low high at =
      subst (λ n. Resumed (drop n []) w (w, run, none)) {x = 0} (omega arith)
        (exec r [] w t key run ranked h (omega arith))
  skip k r (s ∷ rest) w t key run ranked h low high at = elim (Bool-cases (ltb r k)) [
    | inl later ↦
        let passed : is_completed run.current_step s.name ≡ true = ground (arith, ranked.0) in
        let next : suc (k - suc r) ≡ k - r = ground arith in
        rw (passed, ← next)
          (skip k (suc r) rest w t key run ranked.2 h.1 (ground arith) (omega arith) at)
    | inr now ↦
        let zero : k - r ≡ 0 = ground arith in
        rw zero (exec r (s ∷ rest) w t key run ranked h (ground arith))
  ]

  table-Waits : (plan : Plan) → Waits (step_list plan)
  table-Waits plan = (λ e. refl, (λ e. ground arith, (λ e. ground arith, (λ e. ground arith, tt))))

  give_up_log : (w : W) (run : Run) → log (give_up env w run).0 ≡ log w
  give_up_log w run = updates w (give_up env w run).1

  complete_log : (w : W) (run : Run) → log (complete env w run).0 ≡ log w
  complete_log w run = updates w (complete env w run).1

  stays :
      (steps : List Step) (w w' : W) (run : Run) (e : Error)
      → log w' ≡ log w
      → Resumed steps w (w', run, some e)
  stays steps w w' run e same = record {
    ran = [];
    left = commands steps;
    whole = refl;
    logged = same ∙ sym (append-nil (log w));
    finished = λ e. ground arith;
  }

  -- Worlds of one log before, and of one log after.
  moved :
      (steps : List Step) (w w1 : W) (r : W × Run × Option Error) (w2 : W) (run : Run)
      (err : Option Error)
      → log w1 ≡ log w
      → log w2 ≡ log r.0
      → r.2 ≡ none ⊎ err ≢ none
      → Resumed steps w1 r
      → Resumed steps w (w2, run, err)
  moved steps w w1 r w2 run err before after how p = record {
    ran = p.ran;
    left = p.left;
    whole = p.whole;
    logged = after ∙ p.logged ∙ ap (λ xs. xs ++ p.ran) before;
    finished = λ e. elim how [ inl fine ↦ p.finished fine | inr bad ↦ absurd (bad e) ];
  }

  attempt-Resumed :
      (w : W) (t : Target) (plan : Plan) (run : Run)
      → Resumed (drop (rank run.current_step) (step_list plan)) w (attempt_steps env w t plan run)
  unfolding attempt_steps
  attempt-Resumed w t plan run =
      let k = rank run.current_step in
      let table = step_list plan in
      let secret = env.get_secret w t.account_id t.key_secret_ref in
      let same = secrets w t.account_id t.key_secret_ref in
      let q = run_steps env table secret.0 t secret.1 run in
      let p : Resumed (drop k table) secret.0 q =
        subst (λ n. Resumed (drop n table) secret.0 q) {x = k - 0} (omega arith)
          (skip k 0 table secret.0 t secret.1 run (table-Ranked plan) (table-Waits plan)
            (omega arith) (rank_le run.current_step) refl) in
      elim (Option-cases secret.2) [
        | inr (e, lost) ↦ rw (lost, attempt_steps) (stays (drop k table) w secret.0 run e same)
        | inl got ↦
            rw (got, attempt_steps)
              (elim (Option-cases q.2) [
                | inr (e, failed) ↦ rw failed (
                    moved (drop k table) w secret.0 q q.0 q.1 (some e) same refl
                      (inr (λ e. ground arith)) p)
                | inl fine ↦
                    let c = complete env q.0 q.1 in
                    rw fine (
                      moved (drop k table) w secret.0 q c.0 c.1 c.2 same (complete_log q.0 q.1)
                        (inl fine) p)
              ])
      ]

  -- With a valid plan, and a reservation that succeeds on a run that is not completed, one call of
  -- Execute runs the commands from the stored checkpoint on, in the order of the table, each at
  -- most once and none before it, and all of them if it reports no error (a deferred or exhausted
  -- run reports one, and runs none). This holds for every store, secret reader and runner that add
  -- nothing to the log but the commands.
  pub execute-Resumed :
      (w : W) (t : Target) (plan : Plan)
      → str_eq plan.bootstrap "" || str_eq plan.install_panel "" || str_eq plan.verify "" ≡ false
      → (env.reserve w (requested t)).3 ≡ none
      → is_done (env.reserve w (requested t)).1.state ≡ false
      → let r = env.reserve w (requested t) in
        Resumed (drop (rank r.1.current_step) (step_list plan)) r.0 (execute env w t plan)
  unfolding execute
  execute-Resumed w t plan whole fine unready =
      let r = env.reserve w (requested t) in
      let steps = drop (rank r.1.current_step) (step_list plan) in
      let open_ : not r.2 && is_done r.1.state ≡ false = ground (arith, unready) in
      rw (whole, fine, open_, execute)
        (elim (Bool-cases (not r.2 && is_before (env.now r.0) r.1.next_retry_at)) [
          | inl early ↦ rw early (stays steps r.0 r.0 r.1 retry_deferred refl)
          | inr due ↦ rw due (elim (Bool-cases (not r.2 && leb max_attempts r.1.attempt)) [
            | inl spent ↦
                let g = give_up env r.0 r.1 in
                rw spent (stays steps r.0 g.0 g.1 retry_limit_reached (give_up_log r.0 r.1))
            | inr more ↦ rw more (attempt-Resumed r.0 t plan r.1)
          ])
        ])
