-- ===== src/App/Sticky/Observe.antt =====
-- What is asked through a gateway: observeStickyGeo of internal/app/sticky_proxy.go,
-- fastGatewayExitIP of network_identity.go, and LocaleForCountry of internal/geoctx/geo.go.
use digital_ocean_bot.Prelude.{
  ℕ, ◌+◌, ◌-◌, ◌/◌, String, Bool, true, false, ◌&&◌, ◌||◌, not, Option, none, some, List, [], ◌∷◌,
  map, str_eq, leb, ◌==◌, if◌then◌else◌,
}
use digital_ocean_bot.Prelude.Int.{ℤ, pos, ltb_ℤ}
use digital_ocean_bot.Errors.{Error, other}
use digital_ocean_bot.Sql.{Result, ok, fail}
use digital_ocean_bot.Text.{lower_code, to_lower, trim_space, concat, is_space}
use digital_ocean_bot.Text.Decimal.{itoa}

-- The answer of ipwho.is, if its JSON decodes.
pub record GeoBody : Type 0 where
  pub ip : String
  pub country : String
  pub country_code : String
  pub timezone_id : String
  pub asn : ℤ
  pub org : String

pub record GeoResponse : Type 0 where
  pub status : ℕ
  pub body : Option GeoBody

-- The answer of ipify, if its JSON decodes.
pub record IpResponse : Type 0 where
  pub status : ℕ
  pub body : Option String

-- stickyGeo, the country's code as its code points
pub record StickyGeo : Type 0 where
  pub ip : String
  pub country : String
  pub country_code : List ℕ
  pub timezone : String
  pub asn : String

-- What lies outside: PostgreSQL's functions on addresses, net.ParseIP, the generated table of
-- locales, the answers of the services by the number of the statements sent before, and the store
-- of secrets.
pub record Net : Type 0 where
  -- host($1::inet)
  pub host : String → String
  -- the /24 or /48 of an address, as the statements compute it
  pub subnet : String → String
  -- net.ParseIP(s) != nil
  pub valid_ip : String → Bool
  -- territoryDefaultLocale, "" on a missing key
  pub territory_locale : List ℕ → String
  pub ask_geo : ℕ → List ℕ → Result GeoResponse
  -- the two answers, in the order in which they arrive
  pub ask_ip : ℕ → List ℕ → List (Result IpResponse)
  pub get_proxy_secret : ℕ → String → String → Option Error

-- strings.EqualFold, on the orbits of the ASCII letters.
abbrev pub fold_code : ℕ → ℕ
fold_code c =
    if leb 65 c && leb c 90 then c + 32 else if c == 8490 then 107 else if c == 383 then 115 else c

unfoldable pub equal_fold : List ℕ → List ℕ → Bool
equal_fold [] [] = true
equal_fold (a ∷ s) (b ∷ t) = fold_code a == fold_code b && equal_fold s t
equal_fold _ _ = false

-- strings.ToUpper, exact on ASCII
abbrev pub upper_code : ℕ → ℕ
upper_code c = if leb 97 c && leb c 122 then c - 32 else c

abbrev pub cons_trimmed : ℕ → List ℕ → List ℕ
cons_trimmed c [] = if is_space c then [] else c ∷ []
cons_trimmed c (d ∷ s) = c ∷ d ∷ s

unfoldable pub trim_end : List ℕ → List ℕ
trim_end [] = []
trim_end (c ∷ s) = cons_trimmed c (trim_end s)

unfoldable pub trim_start : List ℕ → List ℕ
trim_start [] = []
trim_start (c ∷ s) = if is_space c then trim_start s else c ∷ s

module _ (net : Net) where
  unfoldable pub locale_for_country : List ℕ → String
  unfolding trim_start trim_end is_space
  locale_for_country code =
      let v = net.territory_locale (map upper_code (trim_end (trim_start code))) in
      if not (str_eq v "") then v else "en-US"

  unfoldable pub read_geo : GeoResponse → Result StickyGeo
  unfolding trim_space lower_code
  read_geo resp = elim resp.body [
    | none ↦ fail (other "invalid geo response")
    | some raw ↦
        if not (resp.status / 100 == 2) || not (net.valid_ip (trim_space raw.ip))
        then fail (other "invalid geo response")
        else ok (record {
          ip = trim_space raw.ip;
          country = raw.country;
          country_code = to_lower raw.country_code;
          timezone = trim_space raw.timezone_id;
          asn = trim_space (
              if ltb_ℤ (pos 0) raw.asn
              then concat ("AS" ∷ itoa raw.asn ∷ " " ∷ trim_space raw.org ∷ [])
              else trim_space raw.org);
        })
  ]

  unfoldable pub observe_sticky_geo : ℕ → List ℕ → Result StickyGeo
  unfolding read_geo
  observe_sticky_geo t user = elim (net.ask_geo t user) [
    | fail e ↦ fail e
    | ok resp ↦ read_geo resp
  ]

  unfoldable pub read_ip : Result IpResponse → Result String
  unfolding trim_space
  read_ip (fail e) = fail e
  read_ip (ok resp) = elim resp.body [
    | none ↦ fail (other "invalid exit ip")
    | some ip ↦
        if not (resp.status / 100 == 2) || not (net.valid_ip (trim_space ip))
        then fail (other "invalid exit ip")
        else ok (trim_space ip)
  ]

  -- The first good answer, or else the last error.
  unfoldable pub first_ip : Result String → List (Result IpResponse) → Result String
  unfolding read_ip
  first_ip last [] = last
  first_ip last (r ∷ rs) = elim (read_ip r) [ ok ip ↦ ok ip | fail e ↦ first_ip (fail e) rs ]

  unfoldable pub fast_gateway_exit_ip : ℕ → List ℕ → Result String
  unfolding first_ip
  fast_gateway_exit_ip t user = first_ip (ok "") (net.ask_ip t user)
