-- ===== src/App/Deploy.antt =====
-- internal/app/deploy.go: StartDeployment, and the configuration that it draws for a deployment.
pub mod Regions
pub mod Start
use digital_ocean_bot.Prelude.{
  ℕ, zero, suc, ◌-◌, ◌*◌, String, Bool, false, ◌&&◌, ◌||◌, not, Option, none, some, List, [], ◌∷◌,
  ◌++◌, str_eq, if◌then◌else◌, length,
}
use digital_ocean_bot.Prelude.Int.{ℤ, pos, negsuc, ◌+ℤ◌, ◌-ℤ◌, ltb_ℤ, wrap64}
use digital_ocean_bot.Workflow.Table.{ProfileSnapshot}

unfoldable pub mem : String → List String → Bool
mem s [] = false
mem s (t ∷ ts) = str_eq t s || mem s ts

-- The account's preferences; the regions are shuffled already.
pub record Preferences : Type 0 where
  pub regions : List String
  pub sizes : List String
  pub images : List String
  pub lifetime_min : ℤ
  pub lifetime_max : ℤ
  pub fallback_any_region : Bool

pub record CatalogRegion : Type 0 where
  pub slug : String
  pub available : Bool

pub record CatalogSize : Type 0 where
  pub slug : String
  pub available : Bool
  pub regions : List String

-- What the newest provider snapshot offers.
pub record Catalog : Type 0 where
  pub regions : List CatalogRegion
  pub sizes : List CatalogSize

-- What rand.Intn gives at each of its three calls, by the bound.
pub record Draws : Type 0 where
  pub size_index : ℕ → ℕ
  pub image_index : ℕ → ℕ
  pub seconds : ℤ → ℤ

-- The regions of the first size that has the slug and is available.
unfoldable pub allowed : List CatalogSize → String → List String
allowed [] size = []
allowed (sz ∷ szs) size =
    let rest = allowed szs size in if str_eq sz.slug size && sz.available then sz.regions else rest

unfoldable pub compatible : List String → List String → List String
unfolding mem
compatible ok [] = []
compatible ok (rg ∷ rgs) = (if mem rg ok then rg ∷ [] else []) ++ compatible ok rgs

-- The other regions of the catalogue, each once; `chosen` is what the list holds so far.
unfoldable pub add_available : List String → List String → List CatalogRegion → List String
unfolding mem
add_available ok chosen [] = chosen
add_available ok chosen (rg ∷ rgs) =
    add_available ok
      (if rg.available && mem rg.slug ok && not (mem rg.slug chosen)
        then chosen ++ rg.slug ∷ []
        else chosen)
      rgs

abbrev pub first_or : String → List String → String
first_or d [] = d
first_or d (s ∷ ss) = s

-- xs[i], for an index in range
unfoldable pub pick : List String → ℕ → String
pick [] i = ""
pick (s ∷ ss) zero = s
pick (s ∷ ss) (suc i) = pick ss i

unfoldable pub prefer_regions : Preferences → ProfileSnapshot → ProfileSnapshot
prefer_regions p c = elim p.regions [ [] ↦ c | r ∷ rs ↦ record c { region = r; regions = r ∷ rs } ]

unfoldable pub draw_size : Preferences → Draws → ProfileSnapshot → ProfileSnapshot
unfolding pick
draw_size p d c = elim p.sizes [
  | [] ↦ c
  | s ∷ ss ↦ record c { size = pick (s ∷ ss) (d.size_index (length (s ∷ ss))) }
]

unfoldable pub draw_image : Preferences → Draws → ProfileSnapshot → ProfileSnapshot
unfolding pick
draw_image p d c = elim p.images [
  | [] ↦ c
  | s ∷ ss ↦ record c { image = pick (s ∷ ss) (d.image_index (length (s ∷ ss))) }
]

-- The preferred regions where the size is offered, and after them every other one.
unfoldable pub widen : Catalog → ProfileSnapshot → ProfileSnapshot
unfolding allowed compatible add_available
widen cat c =
    let ok = allowed cat.sizes c.size in
    let kept = compatible ok c.regions in
    record c { region = first_or c.region kept; regions = add_available ok kept cat.regions }

unfoldable pub fall_back : Preferences → Option Catalog → ProfileSnapshot → ProfileSnapshot
unfolding widen
fall_back p none c = c
fall_back p (some cat) c = if p.fallback_any_region then widen cat c else c

-- time.Duration(seconds) * time.Second
unfoldable pub seconds_of : ℤ → ℤ
seconds_of (pos n) = wrap64 (pos (n * 1000000000))
seconds_of (negsuc n) = wrap64 (negsuc (suc n * 1000000000 - 1))

unfoldable pub draw_lifetime : Preferences → Draws → ProfileSnapshot → ProfileSnapshot
unfolding seconds_of ◌+ℤ◌ ◌-ℤ◌
draw_lifetime p d c =
    if ltb_ℤ (pos 0) p.lifetime_min
    then record c {
      lifetime = seconds_of (
          if ltb_ℤ p.lifetime_min p.lifetime_max
          then p.lifetime_min +ℤ d.seconds (p.lifetime_max -ℤ p.lifetime_min +ℤ pos 1)
          else p.lifetime_min);
    }
    else c

unfoldable pub effective : Preferences → Option Catalog → Draws → ProfileSnapshot → ProfileSnapshot
unfolding prefer_regions draw_size fall_back draw_image draw_lifetime
effective p cat d c =
    draw_lifetime p d (draw_image p d (fall_back p cat (draw_size p d (prefer_regions p c))))
