-- ===== src/App/Proxy.antt =====
-- internal/app/proxy_provider.go: what the adapters can do, and the user names that they build. A
-- user name is the list of its code points.
pub mod Username
use digital_ocean_bot.Prelude.{
  ℕ, String, Bool, true, false, ◌&&◌, not, List, [], ◌∷◌, ◌++◌, map, ◌==◌, if◌then◌else◌,
}
use digital_ocean_bot.Text.{codes, lower_code, to_lower, trim_space}

-- the two implementations of ProxyProviderAdapter
pub data Adapter : Type 0 where
  generic suffix_session : Adapter

pub record Capabilities : Type 0 where
  pub country_targeting : Bool
  pub sticky_session : Bool
  pub session_ttl : Bool

pub record SessionRequest : Type 0 where
  pub base_username : List ℕ
  pub country_code : List ℕ
  pub session_id : List ℕ
  pub target_country : Bool

unfoldable pub capabilities : Adapter → Capabilities
capabilities generic = record {
  country_targeting = false;
  sticky_session = false;
  session_ttl = false;
}
capabilities suffix_session = record {
  country_targeting = true;
  sticky_session = true;
  session_ttl = true;
}

unfoldable pub same_codes : List ℕ → List ℕ → Bool
same_codes [] [] = true
same_codes (a ∷ s) (b ∷ t) = a == b && same_codes s t
same_codes _ _ = false

unfoldable pub adapter_by_name : String → Adapter
unfolding same_codes trim_space lower_code
adapter_by_name name =
    if same_codes (to_lower (trim_space name)) (codes "suffix-session")
    then suffix_session
    else generic

abbrev pub underscore : ℕ
underscore = 95

-- `if i := strings.Index(base, "__"); i >= 0 { base = base[:i] }`
unfoldable pub cut : List ℕ → List ℕ
cut [] = []
cut (a ∷ []) = a ∷ []
cut (a ∷ b ∷ s) = if a == underscore && b == underscore then [] else a ∷ cut (b ∷ s)

abbrev pub is_empty : List ℕ → Bool
is_empty [] = true
is_empty (c ∷ s) = false

-- The parts, in the order of the code.
unfoldable pub parts : SessionRequest → List (List ℕ)
unfolding lower_code
parts r =
    (if r.target_country && not (is_empty r.country_code)
      then (codes "cr." ++ map lower_code r.country_code) ∷ []
      else [])
    ++ (if is_empty r.session_id then [] else (codes "sid." ++ r.session_id) ∷ [])

-- strings.Join(p, ";")
unfoldable pub join : List (List ℕ) → List ℕ
join [] = []
join (p ∷ []) = p
join (p ∷ q ∷ ps) = p ++ 59 ∷ join (q ∷ ps)

unfoldable pub decorate : List ℕ → List (List ℕ) → List ℕ
unfolding join
decorate base [] = base
decorate base (p ∷ ps) = base ++ underscore ∷ underscore ∷ join (p ∷ ps)

unfoldable pub username : Adapter → SessionRequest → List ℕ
unfolding cut parts decorate
username generic r = r.base_username
username suffix_session r = decorate (cut r.base_username) (parts r)

unfoldable pub session_username : String → List ℕ → List ℕ → List ℕ → Bool → List ℕ
unfolding adapter_by_name username
session_username adapter base country session targeted =
    username (adapter_by_name adapter) (record {
      base_username = base;
      country_code = country;
      session_id = session;
      target_country = targeted;
    })
