-- ===== src/Worker/Round.antt =====
-- Whom one round of the worker visits.
use digital_ocean_bot.Prelude.{
  ◌≡◌, refl, sym, ap, ◌∙◌, inl, inr, Bool, true, false, Option, none, List, [], ◌∷◌, ◌++◌, map,
  Bool-cases,
}
use digital_ocean_bot.Prelude.Int.{ℤ}
use digital_ocean_bot.Errors.{Error}
use digital_ocean_bot.Sql.{Result, ok, fail, Result-cases}
use digital_ocean_bot.Droplets.Lifecycle.{LifecycleItem}
use digital_ocean_bot.Worker.{
  RecoveryItem, Env, each, lifecycle_once, deployments_once, lifecycle_part, once,
}

-- What the handlers were called with, oldest first.
pub data Visit : Type 0 where
  operation : RecoveryItem → Visit
  lifecycle : LifecycleItem → Visit
  deployment : RecoveryItem → Visit

-- The queries answer from `ops`, `items` and `deps`, whatever was done before, and leave the log;
-- each handler notes its call, whatever it reports.
pub record Logged {W : Type 0} (env : Env W) (log : W → List Visit) : Type 0 where
  pub operations : (w : W) (n : ℤ) → log (env.operations w n).0 ≡ log w
  pub deployments : (w : W) (n : ℤ) → log (env.deployments w n).0 ≡ log w
  pub due : (w : W) (n : ℤ) → log (env.due w n).0 ≡ log w
  pub recover_operation :
      (w : W) (x : RecoveryItem) → log (env.recover_operation w x).0 ≡ log w ++ operation x ∷ []
  pub recover_deployment :
      (w : W) (x : RecoveryItem) → log (env.recover_deployment w x).0 ≡ log w ++ deployment x ∷ []
  pub process_lifecycle :
      (w : W) (x : LifecycleItem) → log (env.process_lifecycle w x).0 ≡ log w ++ lifecycle x ∷ []

append_assoc {ℓ} : {A : Type ℓ} (xs ys zs : List A) → (xs ++ ys) ++ zs ≡ xs ++ (ys ++ zs)
append_assoc [] ys zs = refl
append_assoc (x ∷ xs) ys zs = ap (λ t. x ∷ t) (append_assoc xs ys zs)

append_nil {ℓ} : {A : Type ℓ} (xs : List A) → xs ++ [] ≡ xs
append_nil [] = refl
append_nil (x ∷ xs) = ap (λ t. x ∷ t) (append_nil xs)

each-map :
    {W A : Type 0} (log : W → List Visit) (handle : W → A → W × Option Error) (visit : A → Visit)
    → ((w : W) (x : A) → log (handle w x).0 ≡ log w ++ visit x ∷ [])
    → (w : W) (xs : List A) → log (each handle w xs) ≡ log w ++ map visit xs
unfolding each
each-map log handle visit noted w [] = sym (append_nil (log w))
each-map log handle visit noted w (x ∷ xs) =
    each-map log handle visit noted (handle w x).0 xs
    ∙ ap (λ t. t ++ map visit xs) (noted w x)
    ∙ append_assoc (log w) (visit x ∷ []) (map visit xs)

-- What the answer of the lifecycle's query leads to.
abbrev pub lifecycle_visits : Bool → Result (List LifecycleItem) → List Visit
lifecycle_visits false items = []
lifecycle_visits true (ok xs) = map (λ x. lifecycle x) xs
lifecycle_visits true (fail e) = []

module _ {W : Type 0} (env : Env W) (log : W → List Visit) (laws : Logged env log) where
  log-lifecycle_once :
      (w : W) (m : ℤ)
      → log (lifecycle_once env w m).0 ≡ log w ++ lifecycle_visits true (env.due w m).1
  unfolding lifecycle_once
  log-lifecycle_once w m = elim (Result-cases (env.due w m).1) [
    | inr (e, lost) ↦ rw (lost, lifecycle_once) (laws.due w m ∙ sym (append_nil (log w)))
    | inl (xs, got) ↦
        rw (got, lifecycle_once)
          (each-map log env.process_lifecycle (λ x. lifecycle x) laws.process_lifecycle
              (env.due w m).0 xs
            ∙ ap (λ t. t ++ map (λ x. lifecycle x) xs) (laws.due w m))
  ]

  log-lifecycle_part :
      (w : W) (m : ℤ)
      → log (lifecycle_part env w m) ≡ log w ++ lifecycle_visits env.has_lifecycle (env.due w m).1
  unfolding lifecycle_part lifecycle_once
  log-lifecycle_part w m = elim (Bool-cases env.has_lifecycle) [
    | inl has ↦ rw (has, lifecycle_part) (log-lifecycle_once w m)
    | inr lacks ↦ rw (lacks, lifecycle_part) (sym (append_nil (log w)))
  ]

  log-deployments_once :
      (w : W) (n : ℤ) (deps : List RecoveryItem)
      → (env.deployments w n).1 ≡ ok deps
      → (log (deployments_once env w n).0 ≡ log w ++ map (λ x. deployment x) deps)
        × ((deployments_once env w n).1 ≡ none)
  unfolding deployments_once
  log-deployments_once w n deps got =
      rw (got, deployments_once)
        (
          each-map log env.recover_deployment (λ x. deployment x) laws.recover_deployment
                (env.deployments w n).0 deps
              ∙ ap (λ t. t ++ map (λ x. deployment x) deps) (laws.deployments w n),
          refl,
        )

  -- If the queries for operations and deployments succeed, one round of the worker hands every
  -- operation, then every droplet that its lifecycle's query returned, then every deployment to
  -- its handler, once and in the order of the answers, and reports no error, whatever the handlers
  -- report and even if the query for the droplets fails. This holds for every environment whose
  -- queries leave the log and whose handlers note their calls in it.
  pub once-visits :
      (w : W) (n m : ℤ) (ops deps : List RecoveryItem)
      → (env.operations w n).1 ≡ ok ops
      → (env.deployments
          (lifecycle_part env (each env.recover_operation (env.operations w n).0 ops) m)
          n).1
        ≡ ok deps
      → (log (once env w n m).0
          ≡ log w
            ++ (map (λ x. operation x) ops
                ++ (lifecycle_visits env.has_lifecycle
                      (env.due (each env.recover_operation (env.operations w n).0 ops) m).1
                    ++ map (λ x. deployment x) deps)))
        × ((once env w n m).1 ≡ none)
  unfolding once
  once-visits w n m ops deps listed open_ =
      let w2 = each env.recover_operation (env.operations w n).0 ops in
      let w3 = lifecycle_part env w2 m in
      let os = map (λ x. operation x) ops in
      let ls = lifecycle_visits env.has_lifecycle (env.due w2 m).1 in
      let ds = map (λ x. deployment x) deps in
      let last = log-deployments_once w3 n deps open_ in
      let first : log w2 ≡ log w ++ os =
        each-map log env.recover_operation (λ x. operation x) laws.recover_operation
          (env.operations w n).0 ops
        ∙ ap (λ t. t ++ os) (laws.operations w n) in
      rw (listed, once)
        (
          last.0
              ∙ ap (λ t. t ++ ds) (log-lifecycle_part w2 m)
              ∙ ap (λ t. (t ++ ls) ++ ds) first
              ∙ append_assoc (log w ++ os) ls ds
              ∙ append_assoc (log w) os (ls ++ ds),
          last.1,
        )
