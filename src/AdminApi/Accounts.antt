-- ===== src/AdminApi/Accounts.antt =====
-- internal/adminapi/accounts_write.go: the request that createAccount is given, as it is checked
-- and as it is written.
pub mod Table
pub mod Create
pub mod Bounds
pub mod Lost
use digital_ocean_bot.Prelude.{
  ℕ, zero, suc, ◌+◌, ◌-◌, ◌*◌, ◌/◌, ◌%◌, ◌^◌, ◌≤◌, ◌<◌, min, max, String, ◌≡◌, refl, sym, ap, ◌∙◌,
  subst, ◌≢◌, ◌↔◌, ◌⊎◌, inl, inr, Bool, true, false, ◌&&◌, ◌||◌, not, Option, none, some, List, [],
  ◌∷◌, ◌++◌, map, arith, eq_iff, eq_refl, str_eq, dec_lt, ltb, leb, ◌==◌, if◌then◌else◌, Bool-cases,
  Option-cases, length, get_elem?, take, drop, length-append,
}
use digital_ocean_bot.Prelude.Int.{
  ℤ, pos, negsuc, pos_part, neg_part, ◌+ℤ◌, ◌-ℤ◌, ◌≤ℤ◌, ltb_ℤ, leb_ℤ, wrap64, int_laws,
}
use digital_ocean_bot.Prelude.{
  ℕ, suc, String, Bool, true, false, ◌&&◌, ◌||◌, not, Option, none, some, List, [], ◌∷◌, ◌++◌,
  str_eq, if◌then◌else◌, take,
}
use digital_ocean_bot.Prelude.Int.{ℤ, pos, ltb_ℤ, leb_ℤ}
use digital_ocean_bot.Errors.{Error}
use digital_ocean_bot.Sql.{Sql, Result, ok, fail}

-- The fields of accountWrite that createAccount reads.
pub record AccountWrite : Type 0 where
  pub email : String
  pub external_id : String
  pub images : List String
  pub sizes : List String
  pub region : String
  pub regions : List String
  pub network_mode : String
  pub proxy_id : String
  pub interval_seconds : ℤ
  pub build_spacing_minutes : ℤ
  pub build_spacing_max_minutes : ℤ
  pub batch_size : ℤ
  pub max_concurrent : ℤ
  pub lifetime_seconds : ℤ
  pub lifetime_min_seconds : ℤ
  pub lifetime_max_seconds : ℤ
  pub desired_server_count : ℤ
  pub fallback_any_region : Option Bool
  pub name : String
  pub token : String
  pub login_email : String
  pub login_password : String

abbrev pub is_blank : List String → Bool
is_blank [] = true
is_blank (s ∷ ss) = false

abbrev pub at_least : ℤ → ℤ → ℤ
at_least least n = if ltb_ℤ n least then least else n

abbrev pub first_of : List String → String
first_of [] = ""
first_of (s ∷ ss) = s

-- The checks before the first change of the request.
unfoldable pub is_incomplete : AccountWrite → Bool
is_incomplete x =
    str_eq x.name ""
    || str_eq x.token ""
    || str_eq x.external_id ""
    || is_blank x.regions
    || is_blank x.sizes
    || is_blank x.images

-- One of the two is given without the other.
unfoldable pub half_login : AccountWrite → Bool
half_login x =
    str_eq x.login_email "" && not (str_eq x.login_password "")
    || not (str_eq x.login_email "") && str_eq x.login_password ""

abbrev pub mode_of : AccountWrite → String
mode_of x = if str_eq x.network_mode "" then "direct" else x.network_mode

-- The desired number of servers: no negative one, and 1 for 0.
abbrev pub desired : ℤ → ℤ
desired n = if leb_ℤ n (pos 0) then pos 1 else n

-- The request as it is written: lists cut, the defaults put in.
unfoldable pub normalize : AccountWrite → AccountWrite
normalize x =
    let spacing =
      if ltb_ℤ x.build_spacing_minutes (pos 1) then pos 60 else x.build_spacing_minutes in
    let lifetime = at_least (pos 1800) x.lifetime_min_seconds in
    record x {
      regions = take 5 x.regions;
      sizes = take 3 x.sizes;
      images = take 3 x.images;
      region = first_of x.regions;
      network_mode = mode_of x;
      build_spacing_minutes = spacing;
      build_spacing_max_minutes = at_least spacing x.build_spacing_max_minutes;
      interval_seconds = pos 60;
      batch_size = at_least (pos 1) x.batch_size;
      max_concurrent = at_least (pos 1) x.max_concurrent;
      desired_server_count = desired x.desired_server_count;
      lifetime_min_seconds = lifetime;
      lifetime_max_seconds = at_least lifetime x.lifetime_max_seconds;
      lifetime_seconds = lifetime;
    }

abbrev pub fallback_of : AccountWrite → Bool
fallback_of x = elim x.fallback_any_region [ none ↦ true | some b ↦ b ]
