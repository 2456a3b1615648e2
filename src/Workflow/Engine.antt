-- ===== src/Workflow/Engine.antt =====
-- internal/workflow/engine.go. The run lock makes one run a sequence of steps on the world.
use digital_ocean_bot.Prelude.{
  ℕ, suc, String, Bool, true, false, Option, none, some, List, [], ◌∷◌, str_eq, ltb, if◌then◌else◌,
}
use digital_ocean_bot.Errors.{Error}
use digital_ocean_bot.Workflow.{
  State, creating, waiting_resource, provisioning, importing_database, configuring_panel,
  registering_clients, registering_traffic, ready, Deployment, Request, Store, Steps,
}

-- A text that is not in the map has rank 0.
unfoldable pub rank : String → ℕ
rank s =
    if str_eq s "create"
    then 0
    else if str_eq s "wait_resource"
    then 1
    else if str_eq s "provision"
    then 2
    else if str_eq s "database"
    then 3
    else if str_eq s "panel"
    then 4
    else if str_eq s "clients"
    then 5
    else if str_eq s "traffic"
    then 6
    else if str_eq s "done"
    then 7
    else 0

unfoldable pub next : String → String
next s =
    if str_eq s "create"
    then "wait_resource"
    else if str_eq s "wait_resource"
    then "provision"
    else if str_eq s "provision"
    then "database"
    else if str_eq s "database"
    then "panel"
    else if str_eq s "panel"
    then "clients"
    else if str_eq s "clients"
    then "traffic"
    else if str_eq s "traffic"
    then "done"
    else ""

abbrev pub done : String → String → Bool
done current target = ltb (rank target) (rank current)

pub record Step (W : Type 0) : Type 0 where
  pub name : String
  pub state : State
  pub fn : W → Deployment → W × Deployment × Option Error

abbrev pub is_ready : State → Bool
is_ready ready = true
is_ready _ = false

-- The table of steps.
abbrev pub step_list : {W : Type 0} → Steps W → Request → List (Step W)
step_list steps req =
    record { name = "create"; state = creating; fn = steps.create }
    ∷ record { name = "wait_resource"; state = waiting_resource; fn = steps.wait_resource }
    ∷ record { name = "provision"; state = provisioning; fn = steps.provision }
    ∷ record { name = "database"; state = importing_database; fn = steps.import_database }
    ∷ record { name = "panel"; state = configuring_panel; fn = steps.configure_panel }
    ∷ record {
      name = "clients";
      state = registering_clients;
      fn = λ w d. steps.register_clients w d req;
    }
    ∷ record { name = "traffic"; state = registering_traffic; fn = steps.register_traffic }
    ∷ []

module _ {W : Type 0} (store : Store W) (error_text : Error → String) where
  -- The step returned an error: it is noted, and the run ends.
  unfoldable pub step_failed : Step W → W → Deployment → Error → W × Deployment × Option Error
  step_failed s w d e =
      let d' = record d { last_error = error_text e } in
      let (w1, ignored) = store.update w d' in
      let (w2, ignored') = store.event w1 d'.id s.name d'.state "step failed" in (w2, d', some e)

  -- The step is done: the next one is stored as the checkpoint.
  unfoldable pub step_done : Step W → W → Deployment → W × Deployment × Option Error
  step_done s w d =
      let d' = record d { current_step = next s.name } in
      let (w', err) = store.update w d' in (w', d', err)

  -- The body of the loop for a step that is not done yet.
  unfoldable pub run_step : Step W → W → Deployment → W × Deployment × Option Error
  unfolding step_failed step_done
  run_step s w d =
      let d1 = record d { state = s.state; current_step = s.name; attempt = suc d.attempt } in
      let (w1, err) = store.update w d1 in
      elim err [
        | some e ↦ (w1, d1, some e)
        | none ↦
            let (w2, ignored) = store.event w1 d1.id s.name d1.state "" in
            let (w3, d2, err2) = s.fn w2 d1 in
            elim err2 [ some e ↦ step_failed s w3 d2 e | none ↦ step_done s w3 d2 ]
      ]

  unfoldable pub run_steps : List (Step W) → W → Deployment → W × Deployment × Option Error
  run_steps [] w d = (w, d, none)
  run_steps (s ∷ rest) w d =
      let skipped = run_steps rest w d in
      let (w', d', err) = run_step s w d in
      let later = run_steps rest w' d' in
      if done d.current_step s.name
      then skipped
      else elim err [ some e ↦ (w', d', some e) | none ↦ later ]

  -- The end of a run whose steps are all done.
  unfoldable pub complete : W → Deployment → W × Deployment × Option Error
  complete w d =
      let d' = record d { state = ready; current_step = "done"; last_error = "" } in
      let (w1, err) = store.update w d' in
      elim err [
        | some e ↦ (w1, d', some e)
        | none ↦ let (w2, ignored) = store.event w1 d'.id "done" ready "" in (w2, d', none)
      ]

  unfoldable pub run : Steps W → W → Request → W × Deployment × Option Error
  run steps w req =
      let (w1, d, fresh, err) = store.reserve w req in
      elim err [
        | some e ↦ (w1, d, some e)
        | none ↦
            if is_ready d.state
            then (w1, d, none)
            else let (w2, d', err') = run_steps (step_list steps req) w1 d in
              elim err' [ some e ↦ (w2, d', some e) | none ↦ complete w2 d' ]
      ]
