-- ===== src/App/Deploy/Regions.antt =====
-- Which regions a deployment may try.
use digital_ocean_bot.App.Deploy.{ProfileSnapshot, mem, CatalogRegion}
use digital_ocean_bot.Prelude.{
  String, ◌≡◌, Bool, true, false, ◌&&◌, ◌||◌, not, List, [], ◌∷◌, str_eq,
}

-- The catalogue has the region, as available.
unfoldable pub is_available : String → List CatalogRegion → Bool
is_available s [] = false
is_available s (rg ∷ rgs) = str_eq rg.slug s && rg.available || is_available s rgs

unfoldable pub distinct : List String → Bool
unfolding mem
distinct [] = true
distinct (s ∷ ss) = not (mem s ss) && distinct ss

-- Neither the image nor the lifetime touches the regions and the size.
abbrev SamePlace : ProfileSnapshot → ProfileSnapshot → Type 0
SamePlace a b = (a.regions ≡ b.regions) × (a.size ≡ b.size)
