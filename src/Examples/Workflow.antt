-- ===== src/Examples/Workflow.antt =====
-- A deployment whose world is the list of the steps called.
use digital_ocean_bot.Prelude.{String, ◌≡◌, refl, false, Option, none, List, [], ◌∷◌, ◌++◌, drop}
use digital_ocean_bot.Prelude.Int.{pos}
use digital_ocean_bot.Errors.{Error}
use digital_ocean_bot.Workflow.{planned, Deployment, Request, Store, Steps}
use digital_ocean_bot.Workflow.Engine.{
  rank, run, run_steps, run_step, step_failed, step_done, complete, next,
}
use digital_ocean_bot.Workflow.Order.{Progress, step_names}
use digital_ocean_bot.Workflow.Run.{run-Progress}

-- A deployment that was interrupted in the `provision` step.
abbrev resumed : Deployment
resumed = record {
  id = "1";
  account_id = "a";
  profile_id = "p";
  droplet_id = "d1";
  provider_id = "42";
  state = planned;
  current_step = "provision";
  attempt = 3;
  last_error = "";
  created_at = pos 0;
  updated_at = pos 0;
}

abbrev store : Store (List String)
store = record {
  reserve = λ w r. (w, resumed, false, none);
  update = λ w d. (w, none);
  event = λ w i n s m. (w, none);
}

abbrev note : String → List String → Deployment → List String × Deployment × Option Error
note n w d = (w ++ n ∷ [], d, none)

abbrev steps : Steps (List String)
steps = record {
  create = note "create";
  wait_resource = note "wait_resource";
  provision = note "provision";
  import_database = note "database";
  configure_panel = note "panel";
  register_clients = λ w d r. note "clients" w d;
  register_traffic = note "traffic";
}

abbrev request : Request
request = record {
  deployment_id = "1";
  account_id = "a";
  profile_id = "p";
  client_count = pos 2;
  inbound_id = pos 1;
  email_prefix = "u";
}

abbrev text : Error → String
text e = "failed"

run-Progress_example :
    Progress store text
      (λ w. w)
      (λ w d. refl)
      (λ w i n s m. refl)
      (rank "provision")
      (drop (rank "provision") step_names)
      []
      (run store text steps [] request)
run-Progress_example =
    run-Progress store text (λ w. w) (λ w d. refl) (λ w i n s m. refl) steps [] request refl refl
      (
        (λ w d. refl, λ w d. refl),
        (
          (λ w d. refl, λ w d. refl),
          (
            (λ w d. refl, λ w d. refl),
            (
              (λ w d. refl, λ w d. refl),
              (
                (λ w d. refl, λ w d. refl),
                ((λ w d. refl, λ w d. refl), ((λ w d. refl, λ w d. refl), tt)),
              ),
            ),
          ),
        ),
      )

resumes :
    (run store text steps [] request).0
    ≡ "provision" ∷ "database" ∷ "panel" ∷ "clients" ∷ "traffic" ∷ []
unfolding run run_steps run_step step_failed step_done complete rank next
resumes = refl
