-- ===== src/DigitalOcean/Errors.antt =====
-- internal/providers/digitalocean/errors.go.
use digital_ocean_bot.Prelude.{
  ℕ, ◌+◌, ◌*◌, ◌≤◌, ◌<◌, String, ◌≡◌, ◌≢◌, ◌↔◌, ◌⊎◌, Bool, true, false, ◌&&◌, ◌||◌, none, some,
  List, [], ◌∷◌, arith, str_eq, ◌==◌, if◌then◌else◌,
}
use digital_ocean_bot.Prelude.Int.{ℤ, pos, negsuc, pos_part, neg_part, ltb_ℤ, leb_ℤ, wrap64}
use digital_ocean_bot.Errors.{Error, HttpError, http_error, provider_request}
use digital_ocean_bot.Resilience.Policy.{
  ErrorClass, retryable, rate_limited, permanent, unknown, second,
}
use digital_ocean_bot.Text.{codes, to_lower, contains, trim_space}
use digital_ocean_bot.Text.Decimal.{atoi}

abbrev pub eqb_ℤ : ℤ → ℤ → Bool
eqb_ℤ a b = pos_part a + neg_part b == pos_part b + neg_part a

unfoldable pub classify_http : HttpError → ErrorClass
classify_http h =
    if eqb_ℤ h.status (pos 429)
    then rate_limited
    else if eqb_ℤ h.status (pos 408) || eqb_ℤ h.status (pos 409) || leb_ℤ (pos 500) h.status
    then retryable
    else if leb_ℤ (pos 400) h.status && ltb_ℤ h.status (pos 500)
    then permanent
    else unknown

unfoldable pub classify_error : Error → ErrorClass
unfolding classify_http
classify_error (http_error h) = classify_http h
classify_error provider_request = retryable
classify_error _ = unknown

abbrev pub needles : List String
needles = "region" ∷ "size" ∷ "capacity" ∷ "availability" ∷ "not available" ∷ "unavailable" ∷ []

-- The loop over the needles: the first one found decides by the status.
unfoldable pub scan_needles : HttpError → List String → Bool
scan_needles h [] = false
scan_needles h (n ∷ ns) =
    if contains (to_lower h.code) (codes n) || contains (to_lower h.message) (codes n)
    then eqb_ℤ h.status (pos 400) || eqb_ℤ h.status (pos 422)
    else scan_needles h ns

unfoldable pub is_capacity_error : Error → Bool
unfolding scan_needles
is_capacity_error (http_error h) = scan_needles h needles
is_capacity_error _ = false

-- The Retry-After header as a duration; a date, or any other text, is 0.
unfoldable pub parse_retry_after : String → ℤ
unfolding trim_space atoi wrap64
parse_retry_after v =
    let t = trim_space v in
    if str_eq t "" then pos 0 else elim (atoi t) [
      | none ↦ pos 0
      | some (negsuc n) ↦ pos 0
      | some (pos n) ↦ wrap64 (pos (n * second))
    ]

scan_needles-permanent :
    (h : HttpError) (ns : List String)
    → scan_needles h ns ≡ true
    → (h.status ≡ pos 400) ⊎ (h.status ≡ pos 422)
unfolding scan_needles
scan_needles-permanent h [] e = cc
scan_needles-permanent h (n ∷ ns) e = ground (arith, scan_needles-permanent h ns)

-- Every error that counts as a capacity error is of the permanent class.
pub is_capacity_error-permanent :
    (e : Error) → is_capacity_error e ≡ true → classify_error e ≡ permanent
unfolding is_capacity_error classify_error
is_capacity_error-permanent (http_error h) c = ground (arith, scan_needles-permanent h needles c)
is_capacity_error-permanent _ c = cc

-- A non-negative HTTP status is of the permanent class exactly when it is between 400 and 499 and
-- none of 408, 409 and 429.
pub classify_http-permanent :
    (h : HttpError) (n : ℕ)
    → h.status ≡ pos n
    → (classify_http h ≡ permanent) ↔ (400 ≤ n) × (n < 500) × (n ≢ 408) × (n ≢ 409) × (n ≢ 429)
unfolding classify_http
classify_http-permanent h n e = ground arith
