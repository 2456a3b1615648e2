-- ===== src/Workflow/Run.antt =====
-- A whole run: from the stored checkpoint to a deployment that is ready.
use digital_ocean_bot.Prelude.{
  String, ◌≡◌, refl, ap, ◌∙◌, subst, inl, inr, false, none, List, arith, Option-cases, drop,
  length-drop,
}
use native.Mathlib.Nat.{zero-add}
use digital_ocean_bot.Errors.{Error}
use digital_ocean_bot.Workflow.{State, ready, Deployment, Request, Store, Steps}
use digital_ocean_bot.Workflow.Engine.{rank, is_ready, run_steps, step_list, complete, run}
use digital_ocean_bot.Workflow.Order.{
  Progress, AllNote, exec, skip, table-Ranked, rank_le, rank_done, map-drop, step_names,
}

module _ {W : Type 0} (store : Store W) (error_text : Error → String) where
  complete_ready :
      (w : W) (d : Deployment)
      → (complete store error_text w d).2 ≡ none
      → (complete store error_text w d).1.state ≡ ready
  unfolding complete
  complete_ready w d e = ground arith

  -- A run that reports no error ends with a deployment that is ready.
  pub run_ok-ready :
      (steps : Steps W) (w : W) (req : Request)
      → (run store error_text steps w req).2 ≡ none
      → (run store error_text steps w req).1.state ≡ ready
  unfolding run
  run_ok-ready steps w req e =
      let r = store.reserve w req in
      let looped = run_steps store error_text (step_list steps req) r.0 r.1 in
      ground (arith, complete_ready looped.0 looped.1)

module _ {W : Type 0} (store : Store W) (error_text : Error → String) (log : W → List String)
    (updates : (w : W) (d : Deployment) → log (store.update w d).0 ≡ log w)
    (events : (w : W) (i n : String) (s : State) (m : String)
      → log (store.event w i n s m).0 ≡ log w) where
  complete_log :
      (w : W) (d : Deployment)
      → (log (complete store error_text w d).0 ≡ log w)
        × ((complete store error_text w d).1.current_step ≡ "done")
  unfolding complete
  complete_log w d =
      let d' = record d { state = ready; current_step = "done"; last_error = "" } in
      let w1 = (store.update w d').0 in
      ground (arith, updates w d', events w1 d'.id "done" ready "")

  -- A run whose reservation succeeds on a deployment that is not ready calls the steps from the
  -- stored checkpoint on, in the order of the table, each at most once and none before it, and all
  -- of them if it reports no error; its checkpoint at the end is the last step it called or the
  -- one after. This holds for every store and all steps that note their names in a log which the
  -- store leaves alone and that leave the checkpoint to the engine.
  pub run-Progress :
      (steps : Steps W) (w : W) (req : Request)
      → (store.reserve w req).3 ≡ none
      → is_ready (store.reserve w req).1.state ≡ false
      → AllNote store error_text log updates events (step_list steps req)
      → let d = (store.reserve w req).1 in
        Progress store error_text log updates events
          (rank d.current_step)
          (drop (rank d.current_step) step_names)
          (store.reserve w req).0
          (run store error_text steps w req)
  unfolding run
  run-Progress steps w req fine unready notes =
      let r = store.reserve w req in
      let k = rank r.1.current_step in
      let specs = step_list steps req in
      let (same, ranked, noted) =
        skip store error_text log updates events k 0 specs r.0 r.1 (table-Ranked steps req) notes
          (omega arith) (rank_le r.1.current_step) in
      let q = run_steps store error_text specs r.0 r.1 in
      let p : Progress store error_text log updates events k (drop k step_names) r.0 q =
        rw (same, ← map-drop k specs)
          (exec store error_text log updates events k (drop k specs) r.0 r.1 (rw zero-add at ranked)
            noted refl) in
      let end = complete_log q.0 q.1 in
      elim (Option-cases q.2) [
        | inr (x, e) ↦
            subst (Progress store error_text log updates events k (drop k step_names) r.0) {x = q}
              {y = run store error_text steps w req} (ground arith) p
        | inl e ↦
            let all = p.3 e in
            let last : rank (complete store error_text q.0 q.1).1.current_step ≡ 7 =
              ap rank end.1 ∙ rank_done in
            subst (Progress store error_text log updates events k (drop k step_names) r.0)
              {x = complete store error_text q.0 q.1} {y = run store error_text steps w req}
              (ground arith)
              (
                p.0,
                end.0 ∙ p.1,
                p.2,
                λ h. all,
                omega (arith, length-drop k step_names, rank_le r.1.current_step),
                omega (arith, length-drop k step_names, rank_le r.1.current_step),
              )
      ]
