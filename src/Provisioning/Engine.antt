-- ===== src/Provisioning/Engine.antt =====
-- internal/provisioning/engine.go.
use digital_ocean_bot.Prelude.{
  ℕ, suc, ◌*◌, ◌^◌, String, Bool, true, false, ◌&&◌, ◌||◌, not, Option, none, some, List, [], ◌∷◌,
  str_eq, ltb, leb, if◌then◌else◌,
}
use digital_ocean_bot.Prelude.Int.{ℤ, pos, ◌+ℤ◌, ltb_ℤ}
use digital_ocean_bot.Errors.{
  Error, canceled, deadline_exceeded, invalid_plan, retry_deferred, retry_limit_reached,
}
use digital_ocean_bot.Provisioning.{
  State, pending, waiting_ssh, bootstrapping, installing_panel, verifying, completed, failed,
  Target, Run, Plan, Env,
}

-- Run{}
abbrev pub zero_run : Run
zero_run = record {
  id = "";
  account_id = "";
  droplet_id = "";
  state = pending;
  current_step = "";
  attempt = 0;
  last_error = "";
  next_retry_at = none;
  created_at = pos 0;
  updated_at = pos 0;
}

-- The map `order`: a text that is not in it has rank 0.
unfoldable pub rank : String → ℕ
rank s =
    if str_eq s "ssh"
    then 0
    else if str_eq s "bootstrap"
    then 1
    else if str_eq s "panel"
    then 2
    else if str_eq s "verify"
    then 3
    else if str_eq s "done"
    then 4
    else 0

abbrev pub is_completed : String → String → Bool
is_completed current target = ltb (rank target) (rank current)

unfoldable pub provision_next : String → String
provision_next s =
    if str_eq s "ssh"
    then "bootstrap"
    else if str_eq s "bootstrap"
    then "panel"
    else if str_eq s "panel"
    then "verify"
    else if str_eq s "verify"
    then "done"
    else ""

pub record Step : Type 0 where
  pub name : String
  pub state : State
  pub command : String

abbrev pub step_list : Plan → List Step
step_list plan =
    record { name = "ssh"; state = waiting_ssh; command = "" }
    ∷ record { name = "bootstrap"; state = bootstrapping; command = plan.bootstrap }
    ∷ record { name = "panel"; state = installing_panel; command = plan.install_panel }
    ∷ record { name = "verify"; state = verifying; command = plan.verify }
    ∷ []

abbrev pub minute : ℕ
minute = 60000000000

-- time.Duration(1<<min(attempt, 6)) * time.Minute
abbrev pub backoff : ℕ → ℕ
backoff attempt = 2 ^ (if ltb attempt 6 then attempt else 6) * minute

-- A cancelled or expired context interrupts an attempt, and is no failure.
abbrev pub is_interruption : Error → Bool
is_interruption canceled = true
is_interruption deadline_exceeded = true
is_interruption _ = false

abbrev pub is_done : State → Bool
is_done completed = true
is_done _ = false

abbrev pub max_attempts : ℕ
max_attempts = 8

-- `now.Before(*run.NextRetryAt)`
abbrev pub is_before : ℤ → Option ℤ → Bool
is_before now none = false
is_before now (some t) = ltb_ℤ now t

abbrev pub requested : Target → Run
requested target = record zero_run {
  account_id = target.account_id;
  droplet_id = target.droplet_id;
  state = pending;
  current_step = "ssh";
}

module _ {W : Type 0} (env : Env W) where
  -- The command of a step, or the wait for the host.
  abbrev pub call : Step → W → Target → String → W × Option Error
  call s w target key =
      if str_eq s.name "ssh" then env.wait w target key else env.run_command w target key s.command

  -- The step's command failed: when to try again is noted, and the run ends.
  unfoldable pub step_failed : W → Run → Error → W × Run × Option Error
  unfolding ◌+ℤ◌
  step_failed w run e =
      let run' = record run {
        last_error = env.error_text e;
        next_retry_at = some (env.now w +ℤ pos (backoff run.attempt));
        state = if is_interruption e then run.state else failed;
      } in
      let (w', ignored) = env.update w run' in (w', run', some e)

  -- The step's command is done: the next step is stored as the checkpoint.
  unfoldable pub step_done : Step → W → Run → W × Run × Option Error
  step_done s w run =
      let run' = record run {
        current_step = provision_next s.name;
        last_error = "";
        next_retry_at = none;
      } in
      let (w', err) = env.update w run' in (w', run', err)

  -- The body of the loop for a step that is not completed yet.
  unfoldable pub run_step : Step → W → Target → String → Run → W × Run × Option Error
  unfolding step_failed step_done
  run_step s w target key run =
      let run' = record run { state = s.state; current_step = s.name; attempt = suc run.attempt } in
      let (w1, err) = env.update w run' in
      elim err [
        | some e ↦ (w1, run', some e)
        | none ↦
            let (w2, err2) = call s w1 target key in
            elim err2 [ some e ↦ step_failed w2 run' e | none ↦ step_done s w2 run' ]
      ]

  unfoldable pub run_steps : List Step → W → Target → String → Run → W × Run × Option Error
  run_steps [] w target key run = (w, run, none)
  run_steps (s ∷ rest) w target key run =
      let skipped = run_steps rest w target key run in
      let (w', run', err) = run_step s w target key run in
      let later = run_steps rest w' target key run' in
      if is_completed run.current_step s.name
      then skipped
      else elim err [ some e ↦ (w', run', some e) | none ↦ later ]

  -- The end of a run whose steps are all done.
  abbrev pub complete : W → Run → W × Run × Option Error
  complete w run =
      let run' = record run { state = completed; current_step = "done" } in
      let (w', err) = env.update w run' in (w', run', err)

  -- No attempt is left.
  abbrev pub give_up : W → Run → W × Run × Option Error
  give_up w run =
      let run' = record run {
        state = failed;
        last_error =
            if str_eq run.last_error "" then "provision retry limit reached" else run.last_error;
      } in
      let (w', ignored) = env.update w run' in (w', run', some retry_limit_reached)

  -- From the secret on.
  unfoldable pub attempt_steps : W → Target → Plan → Run → W × Run × Option Error
  unfolding run_steps
  attempt_steps w target plan run =
      let (w1, key, err) = env.get_secret w target.account_id target.key_secret_ref in
      elim err [
        | some e ↦ (w1, run, some e)
        | none ↦
            let (w2, run', err2) = run_steps (step_list plan) w1 target key run in
            elim err2 [ some e ↦ (w2, run', some e) | none ↦ complete w2 run' ]
      ]

  unfoldable pub execute : W → Target → Plan → W × Run × Option Error
  unfolding attempt_steps
  execute w target plan =
      if str_eq plan.bootstrap "" || str_eq plan.install_panel "" || str_eq plan.verify ""
      then (w, zero_run, some invalid_plan)
      else let (w1, run, fresh, err) = env.reserve w (requested target) in
        elim err [
          | some e ↦ (w1, zero_run, some e)
          | none ↦
              if not fresh && is_done run.state
              then (w1, run, none)
              else if not fresh && is_before (env.now w1) run.next_retry_at
              then (w1, run, some retry_deferred)
              else if not fresh && leb max_attempts run.attempt
              then give_up w1 run
              else attempt_steps w1 target plan run
        ]
