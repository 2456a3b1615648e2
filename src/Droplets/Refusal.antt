-- ===== src/Droplets/Refusal.antt =====
-- Which errors of the provider leave a create as failed.
use digital_ocean_bot.Prelude.{ℕ, ◌≤◌, ◌<◌, ◌≡◌, refl, ◌≢◌, ◌⊎◌, inl, inr, arith}
use digital_ocean_bot.Prelude.Int.{ℤ, pos, negsuc}
use digital_ocean_bot.Errors.{Error, HttpError, mutation_blocked, http_error, provider_request}
use digital_ocean_bot.Jobs.{OperationState, failed, unknown}
use digital_ocean_bot.Resilience.Policy.{ErrorClass, permanent, retryable, rate_limited}
use digital_ocean_bot.Resilience.Policy
use digital_ocean_bot.DigitalOcean.Errors.{classify_error, classify_http, classify_http-permanent}
use digital_ocean_bot.Droplets.Executor.{failed_state}

-- The provider refused the request for good: a status from 400 to 499 that is none of 408, 409 and
-- 429; or the mutation was blocked on the way.
pub data IsRefusal : Error → Type 0 where
  blocked : IsRefusal mutation_blocked
  refused :
      (h : HttpError) (n : ℕ)
      → h.status ≡ pos n
      → (400 ≤ n) × (n < 500) × (n ≢ 408) × (n ≢ 409) × (n ≢ 429)
      → IsRefusal (http_error h)

pub failed_state-failed : (e : Error) → IsRefusal e → failed_state e ≡ failed
unfolding classify_error
failed_state-failed _ blocked = refl
failed_state-failed _ (refused h n s between) =
    rw ((classify_http-permanent h n s).1 between, failed_state) refl

class_state :
    (c : ErrorClass)
    → (c ≡ permanent → ⊥)
    → ◌≡◌ {A = OperationState} (elim c [ permanent ↦ failed | _ ↦ unknown ]) unknown
class_state permanent h = absurd (h refl)
class_state retryable h = refl
class_state rate_limited h = refl
class_state Policy.unknown h = refl

negative_class : (h : HttpError) (n : ℕ) → h.status ≡ negsuc n → classify_http h ≡ permanent → ⊥
unfolding classify_http
negative_class h n s c = ground arith

status_cases : (i : ℤ) → ((n : ℕ) × (i ≡ pos n)) ⊎ ((n : ℕ) × (i ≡ negsuc n))
status_cases (pos n) = inl (n, refl)
status_cases (negsuc n) = inr (n, refl)

pub failed_state-unknown : (e : Error) → (IsRefusal e → ⊥) → failed_state e ≡ unknown
unfolding classify_error
failed_state-unknown mutation_blocked other = absurd (other blocked)
failed_state-unknown (http_error h) other = class_state (classify_http h) (λ c.
    elim (status_cases h.status) [
      | inl (n, s) ↦ other (refused h n s ((classify_http-permanent h n s).0 c))
      | inr (n, s) ↦ negative_class h n s c
    ])
failed_state-unknown provider_request other = refl
failed_state-unknown _ other = refl
