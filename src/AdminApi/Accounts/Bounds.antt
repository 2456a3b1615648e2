-- ===== src/AdminApi/Accounts/Bounds.antt =====
-- The bounds of what createAccount of internal/adminapi/accounts_write.go writes.
use digital_ocean_bot.Prelude.{
  ℕ, suc, ◌≤◌, String, ◌≡◌, refl, List, [], ◌∷◌, arith, if◌then◌else◌, length, take, length-take,
}
use digital_ocean_bot.Prelude.Int.{ℤ, pos, ◌≤ℤ◌, ltb_ℤ}
use digital_ocean_bot.AdminApi.Accounts.{AccountWrite, normalize, at_least, desired, first_of}

-- No list is longer than its limit, and no number below its least value or its partner.
pub record InBounds (x : AccountWrite) : Type 0 where
  pub regions_le : length x.regions ≤ 5
  pub sizes_le : length x.sizes ≤ 3
  pub images_le : length x.images ≤ 3
  pub region_first : x.region ≡ first_of x.regions
  pub spacing_ge : pos 1 ≤ℤ x.build_spacing_minutes
  pub spacing_le_max : x.build_spacing_minutes ≤ℤ x.build_spacing_max_minutes
  pub batch_ge : pos 1 ≤ℤ x.batch_size
  pub concurrent_ge : pos 1 ≤ℤ x.max_concurrent
  pub desired_ge : pos 1 ≤ℤ x.desired_server_count
  pub lifetime_ge : pos 1800 ≤ℤ x.lifetime_min_seconds
  pub lifetime_le_max : x.lifetime_min_seconds ≤ℤ x.lifetime_max_seconds

at_least-le : (least n : ℤ) → least ≤ℤ at_least least n
at_least-le least n = ground arith

desired-ge : (n : ℤ) → pos 1 ≤ℤ desired n
desired-ge n = ground arith

spacing-ge : (n : ℤ) → pos 1 ≤ℤ (if ltb_ℤ n (pos 1) then pos 60 else n)
spacing-ge n = ground arith

length-take-le : (n : ℕ) (xs : List String) → length (take n xs) ≤ n
length-take-le n xs = omega (arith, length-take {0} n xs)

first_of-take : (n : ℕ) (xs : List String) → first_of xs ≡ first_of (take (suc n) xs)
first_of-take n [] = refl
first_of-take n (x ∷ xs) = refl

-- Whatever a request to create an account holds, what is written of it has at most five regions,
-- three sizes and three images, its region is the first of the regions, its spacing, batch size,
-- number of concurrent builds and desired number of servers are at least 1, its lifetime at least
-- 1800 seconds, and no greatest value is below its least one.
pub normalize-InBounds : (x : AccountWrite) → InBounds (normalize x)
unfolding normalize
normalize-InBounds x = record {
  regions_le = length-take-le 5 x.regions;
  sizes_le = length-take-le 3 x.sizes;
  images_le = length-take-le 3 x.images;
  region_first = first_of-take 4 x.regions;
  spacing_ge = spacing-ge x.build_spacing_minutes;
  spacing_le_max = at_least-le _ x.build_spacing_max_minutes;
  batch_ge = at_least-le (pos 1) x.batch_size;
  concurrent_ge = at_least-le (pos 1) x.max_concurrent;
  desired_ge = desired-ge x.desired_server_count;
  lifetime_ge = at_least-le (pos 1800) x.lifetime_min_seconds;
  lifetime_le_max = at_least-le _ x.lifetime_max_seconds;
}
