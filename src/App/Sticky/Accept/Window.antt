-- ===== src/App/Sticky/Accept/Window.antt =====
-- What the country of a candidate has to be, and when it no longer matters.
use digital_ocean_bot.App.Sticky.Observe.{fold_code, equal_fold, StickyGeo}
use digital_ocean_bot.Prelude.{
  ℕ, List, [], ◌∷◌, map, eq_iff, ==_iff, ◌≡◌, refl, sym, ◌∙◌, ◌⊎◌, inl, inr, true, false, Option,
  none, some, arith, str_eq, Bool-cases,
}
use digital_ocean_bot.Prelude.Int.{ℤ, pos, ◌-ℤ◌, ◌≤ℤ◌, leb_ℤ, int_laws}
use digital_ocean_bot.Text.{codes}
use mathlib.Core.Bool.{false≢true}
use digital_ocean_bot.App.Proxy.{capabilities, adapter_by_name}
use digital_ocean_bot.App.Repository.{World}
use digital_ocean_bot.App.Sticky.Config.{Sticky}
use digital_ocean_bot.App.Sticky.Rotate.{sticky_fallback_after, window_over, country_refused}

equal_fold-map : (a b : List ℕ) → equal_fold a b ≡ true → map fold_code a ≡ map fold_code b
unfolding equal_fold
equal_fold-map [] [] h = refl
equal_fold-map (x ∷ a) (y ∷ b) h = λ i.
    (==_iff (fold_code x) (fold_code y)).0 (ground arith) i ∷ equal_fold-map a b (ground arith) i
equal_fold-map [] (y ∷ b) h = absurd cc
equal_fold-map (x ∷ a) [] h = absurd cc

-- Why a candidate's country is right: it is the preferred one, none is preferred, none can be asked
-- for, a fallback is in use, or the account is without its address for five minutes.
abbrev pub Allowed : World → Sticky → StickyGeo → Type 0
Allowed w s geo =
    (map fold_code geo.country_code ≡ map fold_code (codes s.cc))
    ⊎ (s.cc ≡ "")
    ⊎ ((capabilities (adapter_by_name s.config.proxy_adapter)).country_targeting ≡ false)
    ⊎ (s.fallback ≡ true)
    ⊎ ((t : ℤ) × (s.started ≡ some t) × (pos 300000000000 ≤ℤ w.sql.clock -ℤ t))

no_wait : (now : ℤ) → leb_ℤ sticky_fallback_after (now -ℤ now) ≡ false
no_wait now = grind int_laws

leb_ℤ→≤ℤ : (a b : ℤ) → leb_ℤ a b ≡ true → a ≤ℤ b
leb_ℤ→≤ℤ a b h = ground arith

waited :
    (now : ℤ) (started : Option ℤ)
    → leb_ℤ sticky_fallback_after (now -ℤ (elim started [ none ↦ now | some t ↦ t ])) ≡ true
    → (t : ℤ) × (started ≡ some t) × (pos 300000000000 ≤ℤ now -ℤ t)
waited now none h = absurd (false≢true (sym (no_wait now) ∙ h))
waited now (some t) h = (t, refl, leb_ℤ→≤ℤ (pos 300000000000) (now -ℤ t) h)

window_over-Waited :
    (w : World) (s : Sticky)
    → window_over w s ≡ true
    → (s.fallback ≡ true)
      ⊎ ((t : ℤ) × (s.started ≡ some t) × (pos 300000000000 ≤ℤ w.sql.clock -ℤ t))
unfolding window_over
window_over-Waited w s over = elim (Bool-cases s.fallback) [
  | inl used ↦ inl used
  | inr unused ↦ inr (waited w.sql.clock s.started (rw unused at over))
]

pub country_refused-Allowed :
    (w : World) (s : Sticky) (geo : StickyGeo)
    → country_refused s geo (window_over w s) ≡ false
    → Allowed w s geo
unfolding country_refused
country_refused-Allowed w s geo fine =
    elim (Bool-cases (equal_fold geo.country_code (codes s.cc))) [
      | inl same ↦ inl (equal_fold-map geo.country_code (codes s.cc) same)
      | inr other ↦ elim (Bool-cases (str_eq s.cc "")) [
        | inl nowhere ↦ inr (inl ((eq_iff s.cc "").0 nowhere))
        | inr wanted ↦
            elim (Bool-cases
              (capabilities (adapter_by_name s.config.proxy_adapter)).country_targeting) [
                | inr blunt ↦ inr (inr (inl blunt))
                | inl able ↦ elim (Bool-cases (window_over w s)) [
                  | inl over ↦ inr (inr (inr (window_over-Waited w s over)))
                  | inr early ↦ absurd (
                      false≢true (sym fine ∙ rw (able, country_refused, early, wanted, other) refl))
                ]
              ]
      ]
    ]
