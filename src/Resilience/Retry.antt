-- ===== src/Resilience/Retry.antt =====
-- internal/resilience/retry.go. The called function, the clock and the wait act on a world `W`.
pub mod Laws
use digital_ocean_bot.Prelude.{
  ℕ, zero, suc, ◌<◌, Bool, true, false, Option, none, some, ◌==◌, if◌then◌else◌,
}
use digital_ocean_bot.Prelude.Int.{ℤ, pos, pos_part, ltb_ℤ}
use digital_ocean_bot.Errors.{Error}
use digital_ocean_bot.Resilience.Policy.{
  Policy, ErrorClass, permanent, unknown, default_policy, delay,
}
use digital_ocean_bot.Resilience.Circuit.{Circuit, allow, success, failure}

-- `fn`, `time.Now`, the classifier if one is set, and the wait: a timer against `ctx.Done()`, whose
-- error is `ctx.Err()`.
pub record Env (W : Type 0) : Type 0 where
  pub call : W → W × Option Error
  pub now : W → ℤ
  pub classify : Option (Error → ErrorClass)
  pub pause : ℤ → W → W × Option Error

abbrev pub class_of : Option (Error → ErrorClass) → Error → ErrorClass
class_of none e = unknown
class_of (some f) e = f e

abbrev pub is_permanent : ErrorClass → Bool
is_permanent permanent = true
is_permanent _ = false

-- `if r.Circuit != nil { r.Circuit.Allow(…) }`
abbrev pub gate : Option Circuit → ℤ → Option Circuit × Option Error
gate none now = (none, none)
gate (some c) now = let (c', e) = allow c now in (some c', e)

abbrev pub note_success : Option Circuit → Option Circuit
note_success none = none
note_success (some c) = some (success c)

abbrev pub note_failure : Option Circuit → ℤ → Option Circuit
note_failure none now = none
note_failure (some c) now = some (failure c now)

-- `if p.MaxAttempts < 1 { p = DefaultPolicy() }`
abbrev pub effective : Policy → Policy
effective p = if ltb_ℤ p.max_attempts (pos 1) then default_policy else p

module _ {W : Type 0} (env : Env W) where
  -- What follows a failed call. `rest` is the remaining loop; `last` is `attempt == p.MaxAttempts`.
  unfoldable pub after_failure :
      Policy
      → ℤ
      → Bool
      → (W → Option Circuit → W × Option Circuit × Option Error)
      → Error
      → W
      → Option Circuit
      → W × Option Circuit × Option Error
  after_failure p attempt last rest e w c =
      if is_permanent (class_of env.classify e)
      then (w, c, some e)
      else let c' = note_failure c (env.now w) in
        if last
        then (w, c', some e)
        else let (w', stopped) = env.pause (delay p attempt) w in
          elim stopped [ some e' ↦ (w', c', some e') | none ↦ rest w' c' ]

  -- `for attempt := 1; attempt <= p.MaxAttempts; attempt++`, over the rounds that are left.
  unfoldable pub loop : ℕ → ℕ → Policy → W → Option Circuit → W × Option Circuit × Option Error
  loop zero attempt p w c = (w, c, none)
  loop (suc k) attempt p w c =
      let (c1, refused) = gate c (env.now w) in
      elim refused [
        | some e ↦ (w, c1, some e)
        | none ↦
            let (w', failed) = env.call w in
            elim failed [
              | none ↦ (w', note_success c1, none)
              | some e ↦ after_failure p (pos attempt) (k == 0) (loop k (suc attempt) p) e w' c1
            ]
      ]

  unfoldable pub do_ : Policy → W → Option Circuit → W × Option Circuit × Option Error
  unfolding loop after_failure
  do_ p w c = let q = effective p in loop (pos_part q.max_attempts) 1 q w c
