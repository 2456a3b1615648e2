-- ===== src/Network/Leak/Egress.antt =====
-- What a history of egress observations shows, and when a probe counts as healthy.
use digital_ocean_bot.Errors.{egress_changed, Error}
use digital_ocean_bot.Network.Leak.{
  trim_space, LeakObservation, ParseIp, validate_leak_observation, observe,
}
use digital_ocean_bot.Prelude.{
  ℕ, String, ◌≡◌, refl, sym, ap, subst, ◌≢◌, ◌↔◌, ◌⊎◌, inl, inr, false, Option, none, some, List,
  [], ◌∷◌, arith, eq_iff, str_eq, Bool-cases, Option-cases,
}
use digital_ocean_bot.Network.Headers.{has_forbidden_outbound_header}

-- The addresses of the observations that reported no error, and the baseline at the end.
pub observe_all : String → List (String × Option Error) → String × List String
observe_all baseline [] = (baseline, [])
observe_all baseline (a ∷ later) =
    let (next, ip, err) = observe baseline a in
    let (end, ips) = observe_all next later in
    elim err [ some e ↦ (end, ips) | none ↦ (end, ip ∷ ips) ]

-- Every address in the list is `ip`.
pub AllSame : String → List String → Type 0
AllSame ip [] = Unit {0}
AllSame ip (x ∷ xs) = (x ≡ ip) × AllSame ip xs

step_kept :
    (baseline body : String) (later : List (String × Option Error))
    → observe baseline (body, none) ≡ (baseline, trim_space body, none)
    → let q = observe_all baseline later in
      observe_all baseline ((body, none) ∷ later) ≡ (q.0, trim_space body ∷ q.1)
unfolding observe_all
step_kept baseline body later o = ap (λ r. joined r.0 r.1 r.2) o
  where
    joined : String → String → Option Error → String × List String
    joined next ip none = ((observe_all next later).0, ip ∷ (observe_all next later).1)
    joined next ip (some e) = observe_all next later

step_lost :
    (baseline body : String) (later : List (String × Option Error)) (e : Error)
    → observe baseline (body, none) ≡ (baseline, trim_space body, some e)
    → observe_all baseline ((body, none) ∷ later) ≡ observe_all baseline later
unfolding observe_all
step_lost baseline body later e o = ap (λ r. joined r.0 r.1 r.2) o
  where
    joined : String → String → Option Error → String × List String
    joined next ip none = ((observe_all next later).0, ip ∷ (observe_all next later).1)
    joined next ip (some e) = observe_all next later

-- From a baseline that is not empty on, every observation of the egress that reports no error
-- returns the baseline's address, and the baseline stays, over every history of answers.
pub observe_all-AllSame :
    (baseline : String) (answers : List (String × Option Error))
    → str_eq baseline "" ≡ false
    → ((observe_all baseline answers).0 ≡ baseline)
      × AllSame baseline (observe_all baseline answers).1
unfolding observe_all AllSame observe
observe_all-AllSame baseline [] set = (refl, tt)
observe_all-AllSame baseline ((body, some e) ∷ later) set = observe_all-AllSame baseline later set
observe_all-AllSame baseline ((body, none) ∷ later) set =
    let ih = observe_all-AllSame baseline later set in
    let ip = trim_space body in
    let q = observe_all baseline later in
    elim (Bool-cases (str_eq ip baseline)) [
      | inl same ↦
          let o : observe baseline (body, none) ≡ (baseline, ip, none) =
            rw (observe, set, same) refl in
          subst (λ r. (r.0 ≡ baseline) × AllSame baseline r.1) {x = (q.0, ip ∷ q.1)}
            (sym (step_kept baseline body later o)) (ih.0, ((eq_iff ip baseline).0 same, ih.1))
      | inr changed ↦
          let o : observe baseline (body, none) ≡ (baseline, ip, some egress_changed) =
            rw (observe, set, changed) refl in
          subst (λ r. (r.0 ≡ baseline) × AllSame baseline r.1) {x = q}
            (sym (step_lost baseline body later egress_changed o)) ih
    ]

-- A probe is clean exactly when the observed text is an address, which is the expected one if one
-- is expected, is not the server's and came with no forbidden header; this holds for every reading
-- of texts as addresses.
pub validate_leak_observation_iff :
    (parse_ip : ParseIp) (o : LeakObservation)
    → (validate_leak_observation parse_ip o ≡ none) ↔ (
        (observed : ℕ) × (parse_ip o.observed_ip ≡ some observed)
        × ((o.expected_exit_ip ≡ "") ⊎ (parse_ip o.expected_exit_ip ≡ some observed))
        × (parse_ip o.server_public_ip ≢ some observed)
        × (has_forbidden_outbound_header o.headers ≡ false))
unfolding validate_leak_observation
validate_leak_observation_iff parse_ip o = (passes, clean)
  where
    passes :
        validate_leak_observation parse_ip o ≡ none
        → ((observed : ℕ) × (parse_ip o.observed_ip ≡ some observed)
            × ((o.expected_exit_ip ≡ "") ⊎ (parse_ip o.expected_exit_ip ≡ some observed))
            × (parse_ip o.server_public_ip ≢ some observed)
            × (has_forbidden_outbound_header o.headers ≡ false))
    passes e = elim (Option-cases (parse_ip o.observed_ip)) [
      | inl lost ↦ ground arith
      | inr (a, seen) ↦
          (a, seen, ground (arith, eq_iff o.expected_exit_ip ""), λ s. ground arith, ground arith)
    ]

    clean :
        ((observed : ℕ) × (parse_ip o.observed_ip ≡ some observed)
          × ((o.expected_exit_ip ≡ "") ⊎ (parse_ip o.expected_exit_ip ≡ some observed))
          × (parse_ip o.server_public_ip ≢ some observed)
          × (has_forbidden_outbound_header o.headers ≡ false))
        → validate_leak_observation parse_ip o ≡ none
    clean (a, seen, wanted, no_leak, fine) = ground (arith, eq_iff o.expected_exit_ip "")
