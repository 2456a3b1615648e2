-- ===== src/Droplets/Once.antt =====
-- How many requests go out to the provider for one key of the ledger.
use digital_ocean_bot.Prelude.{
  ℕ, ◌+◌, ◌-◌, ◌≤◌, String, ◌≡◌, refl, ap, inl, inr, true, List, [], ◌∷◌, arith, if◌then◌else◌,
  Bool-cases, length,
}
use digital_ocean_bot.Prelude.Int.{ℤ}
use digital_ocean_bot.Jobs.{Operation}
use digital_ocean_bot.Jobs.Store.{has_key}
use digital_ocean_bot.Jobs.Idempotency.{holds_key}
use digital_ocean_bot.Droplets.{World, Env, Profile}
use digital_ocean_bot.Droplets.Executor.{create, delete}
use digital_ocean_bot.Droplets.Requests.{create-Single, delete-Quiet, create-taken, create-marks}

-- A call of the executor.
pub data Call : Type 0 where
  creates : Operation → Profile → Call
  deletes : Operation → ℤ → Call

pub step : Env × World → Call → World
step (env, w) (creates op profile) = (create env w op profile).0
step (env, w) (deletes op id) = (delete env w op id).0

-- The create requests that a call for the key sends.
abbrev pub sent_by : String → String → Env × World → Call → ℕ
sent_by a k (env, w) (creates op profile) =
    if has_key a k op then length (create env w op profile).0.created - length w.created else 0
sent_by a k (env, w) (deletes op id) = 0

-- Each call may meet another gate, provider and egress.
pub sent : String → String → World → List (Env × Call) → ℕ
sent a k w [] = 0
sent a k w ((env, c) ∷ cs) = sent_by a k (env, w) c + sent a k (step (env, w) c) cs

step-holds :
    (a k : String) (env : Env) (w : World) (c : Call)
    → holds_key a k w.jobs ≡ true
    → holds_key a k (step (env, w) c).jobs ≡ true
unfolding step
step-holds a k env w (creates op profile) h = (create-Single a k env w op profile).1 h
step-holds a k env w (deletes op id) h = (delete-Quiet a k env w op id).1 h

sent_held :
    (a k : String) (w : World) (cs : List (Env × Call))
    → holds_key a k w.jobs ≡ true
    → sent a k w cs ≡ 0
unfolding sent
sent_held a k w [] h = refl
sent_held a k w ((env, creates op profile) ∷ cs) h =
    let rest =
      sent_held a k (step (env, w) (creates op profile)) cs
        (step-holds a k env w (creates op profile) h) in
    elim (Bool-cases (has_key a k op)) [
      | inl hit ↦ ground (arith, rest, ap length (create-taken a k env w op profile hit h))
      | inr miss ↦ ground (arith, rest)
    ]
sent_held a k w ((env, deletes op id) ∷ cs) h =
    let after = step (env, w) (deletes op id) in
    omega (arith, sent_held a k after cs (step-holds a k env w (deletes op id) h))

-- Over every history of creates and deletes, whichever statements fail and whatever the gate, the
-- egress checks and the provider answer at each call, at most one CreateDroplet request goes out
-- under one account and idempotency key.
pub sent-le : (a k : String) (w : World) (cs : List (Env × Call)) → sent a k w cs ≤ 1
unfolding sent
sent-le a k w [] = omega arith
sent-le a k w ((env, deletes op id) ∷ cs) =
    omega (arith, sent-le a k (step (env, w) (deletes op id)) cs)
sent-le a k w ((env, creates op profile) ∷ cs) =
    let rest = sent-le a k (step (env, w) (creates op profile)) cs in
    let one = (create-Single a k env w op profile).0 in
    elim (Bool-cases (has_key a k op)) [
      | inr miss ↦ ground (arith, rest)
      | inl hit ↦ elim (create-marks a k env w op profile hit) [
        | inl same ↦ ground (arith, rest, ap length same)
        | inr held ↦ ground (
          arith,
          one,
          sent_held a k (step (env, w) (creates op profile)) cs (unfold step in held),
        )
      ]
    ]
