-- ===== src/App/Sticky/Rotate.antt =====
-- MaintainStickyIdentity of internal/app/sticky_proxy.go: how a lost address is replaced.
use digital_ocean_bot.App.Repository.{Identity, World, query, is_none, find_identity}
use digital_ocean_bot.Prelude.{
  ℕ, String, Bool, true, false, ◌&&◌, ◌||◌, not, Option, none, some, List, [], ◌∷◌, str_eq,
  if◌then◌else◌,
}
use digital_ocean_bot.Prelude.Int.{ℤ, pos, ◌-ℤ◌, leb_ℤ}
use digital_ocean_bot.Errors.{Error, isolation_wait}
use digital_ocean_bot.Sql.{ok, fail}
use digital_ocean_bot.Text.{codes, concat}
use digital_ocean_bot.Network
use digital_ocean_bot.Network.{proxy_required}
use digital_ocean_bot.Network.Route.{new_proxy_gateway}
use digital_ocean_bot.App.Proxy.{capabilities, adapter_by_name, session_username}
use digital_ocean_bot.App.Sticky.Observe.{
  Net, StickyGeo, observe_sticky_geo, equal_fold, locale_for_country,
}
use digital_ocean_bot.App.Sticky.Rows.{new_session, taken}
use digital_ocean_bot.App.Sticky.Config.{Sticky}
use digital_ocean_bot.App.Sticky.Steps.{exec_, on_row, set_status, prior, store_address, announce}

-- stickyFallbackAfter: 5 * time.Minute
abbrev pub sticky_fallback_after : ℤ
sticky_fallback_after = pos 300000000000

abbrev pub waiting : String → String → World → World
waiting id why = set_status id (record { status = "ISOLATION_WAIT"; detail = some why })

-- The candidate is of another country, and the preferred one is still waited for.
unfoldable pub country_refused : Sticky → StickyGeo → Bool → Bool
unfolding capabilities adapter_by_name equal_fold
country_refused s geo allow_fallback =
    (capabilities (adapter_by_name s.config.proxy_adapter)).country_targeting
    && not allow_fallback
    && not (str_eq s.cc "")
    && not (equal_fold geo.country_code (codes s.cc))

-- The user name that asks for a fresh address.
abbrev pub search_user : Sticky → List ℕ → Bool → List ℕ
search_user s session allow_fallback =
    session_username s.config.proxy_adapter s.config.proxy_username (codes s.cc) session (
      (capabilities (adapter_by_name s.config.proxy_adapter)).country_targeting
      && not allow_fallback
      && not (str_eq s.cc ""))

-- The moment since which the account is without its address.
abbrev pub started_at : World → Option ℤ → ℤ
started_at w none = w.sql.clock
started_at w (some t) = t

unfoldable pub window_over : World → Sticky → Bool
unfolding ◌-ℤ◌
window_over w s = s.fallback || leb_ℤ sticky_fallback_after (w.sql.clock -ℤ started_at w s.started)

abbrev pub start_rotation : ℤ → Identity → Identity
start_rotation now i = record i { rotation_started_at = some now; last_health_ok = some false }

-- The rotation starts, unless it is under way.
unfoldable pub mark_rotation : World → String → Sticky → World
mark_rotation w id s =
    if is_none s.started then exec_ w (on_row id (start_rotation w.sql.clock)) else w

module _ (net : Net) where
  -- A unique candidate is taken, and the account is ready again.
  unfoldable pub accept : World → String → Sticky → StickyGeo → List ℕ → Bool → World × Option Error
  accept w id s geo session allow_fallback =
      let (w1, row) = query w (find_identity id w.identities) in
      let (was_country, was_timezone, was_locale) = prior row in
      let (w2, err) = store_address net w1 id geo session allow_fallback in
      elim err [
        | some e ↦ (w2, some e)
        | none ↦
            let changed =
              not (str_eq was_country geo.country)
              || not (str_eq was_timezone geo.timezone)
              || not (str_eq was_locale (locale_for_country net geo.country_code)) in
            let detail =
              if allow_fallback
                && not (str_eq s.cc "")
                && not (equal_fold geo.country_code (codes s.cc))
              then some (
                  concat (
                    "preferred country unavailable for 5 minutes; temporary fallback: "
                    ∷ geo.country ∷ []))
              else none in
            (announce w2 id changed detail, none)
      ]

  -- What was observed of a candidate: refused for its country, or if another account has it.
  unfoldable pub judge_candidate :
      World → String → Sticky → StickyGeo → List ℕ → Bool → World × Option Error
  judge_candidate w id s geo session allow_fallback =
      if country_refused s geo allow_fallback
      then (
        exec_ w (waiting id (concat ("waiting for healthy " ∷ s.country ∷ " proxy IP" ∷ []))),
        some isolation_wait,
      )
      else let (w1, collision) = query w (some (taken net id geo.ip w.identities)) in
        elim collision [
          | fail e ↦ (w1, some e)
          | ok true ↦
              (exec_ w1 (waiting id "waiting for unique proxy IP/subnet"), some isolation_wait)
          | ok false ↦ accept w1 id s geo session allow_fallback
        ]

  -- The address is gone or changed: the search for another one.
  unfoldable pub search_address :
      World → String → Network.Proxy → Sticky → Bool → World × Option Error
  search_address w id p s allow_fallback =
      let (w1, session) = query w (some (new_session w)) in
      elim session [
        | fail e ↦ (w1, some e)
        | ok session' ↦ elim (new_proxy_gateway id p) [
          | some e ↦ (w1, some e)
          | none ↦
              elim (observe_sticky_geo net w1.sql.calls (search_user s session' allow_fallback)) [
                | fail e ↦ (w1, some e)
                | ok geo ↦ judge_candidate w1 id s geo session' allow_fallback
              ]
        ]
      ]

  unfoldable pub recover_address : World → String → Network.Proxy → Sticky → World × Option Error
  unfolding mark_rotation
  recover_address w id p s = search_address (mark_rotation w id s) id p s (window_over w s)
