-- ===== src/Examples/Provisioning.antt =====
-- A run that resumes at its second command, on a world that lists the commands run.
use digital_ocean_bot.Prelude.{◌*◌, some, ◌≤◌, String, refl, false, none, List, [], ◌∷◌, ◌++◌, drop}
use digital_ocean_bot.Prelude.Int.{pos}
use digital_ocean_bot.Provisioning.{Target, Plan, Env, installing_panel}
use digital_ocean_bot.Provisioning.Engine.{rank, zero_run, step_list, execute}
use digital_ocean_bot.Provisioning.Budget.{Remote, count}
use digital_ocean_bot.Provisioning.Budget.History.{execute_all, empty, count-execute_all}
use digital_ocean_bot.Errors.{deadline_exceeded}
use digital_ocean_bot.Examples.Jobs.{working}
use digital_ocean_bot.Provisioning.Progress.{Resumed, execute-Resumed}

abbrev target : Target
target = record {
  account_id = "a";
  droplet_id = "d";
  host = "1.2.3.4";
  port = pos 22;
  user = "root";
  key_secret_ref = "k";
}

abbrev plan : Plan
plan = record { bootstrap = "boot"; install_panel = "install"; verify = "verify" }

abbrev pub env : Env (List String)
env = record {
  reserve = λ w r. (
    w,
    record zero_run { id = "1"; state = installing_panel; current_step = "panel"; attempt = 3 },
    false,
    none,
  );
  update = λ w r. (w, none);
  get_secret = λ w a k. (w, "key", none);
  wait = λ w t k. (w ++ "" ∷ [], none);
  run_command = λ w t k c. (w ++ c ∷ [], none);
  now = λ w. pos 0;
  error_text = λ e. "failed";
}

execute-Resumed_example :
    Resumed env
      (λ w. w)
      (λ w r. refl)
      (λ w a k. refl)
      (λ w t k. refl)
      (λ w t k c. refl)
      (drop 2 (step_list plan))
      []
      (execute env [] target plan)
unfolding rank
execute-Resumed_example =
    execute-Resumed env (λ w. w) (λ w r. refl) (λ w a k. refl) (λ w t k. refl) (λ w t k c. refl) []
      target plan refl refl refl

-- A host that never answers.
abbrev silent : Remote
silent = record {
  secret = λ n. ("key", none);
  command = λ n. some deadline_exceeded;
  now = λ n. pos (n * 10000000000000);
  error_text = λ e. "timeout";
}

count-execute_all_example :
    count "a" "d"
      (execute_all (empty working) ((silent, target, plan) ∷ (silent, target, plan) ∷ [])).commands
    ≤ 11
count-execute_all_example =
    count-execute_all "a" "d" working ((silent, target, plan) ∷ (silent, target, plan) ∷ [])
