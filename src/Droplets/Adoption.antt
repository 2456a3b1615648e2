-- ===== src/Droplets/Adoption.antt =====
-- Which droplet an unknown create adopts.
use digital_ocean_bot.Prelude.{
  String, ◌≡◌, refl, ◌∙◌, ◌≢◌, ◌⊎◌, inl, inr, Bool, true, Option, none, some, List, [], ◌∷◌, arith,
  str_eq, if◌then◌else◌, Bool-cases,
}
use digital_ocean_bot.Errors.{outcome_still_unknown}
use digital_ocean_bot.Jobs.{Operation, verifying, unknown}
use digital_ocean_bot.DigitalOcean.{Droplet}
use digital_ocean_bot.Droplets.{World, LookupProvider}
use digital_ocean_bot.Droplets.Reconcile.{save, find_match, is_match, adopt_unknown_create}
use digital_ocean_bot.Text.Decimal.{itoa}

-- The droplets that match, in order.
abbrev pub matches : (Droplet → Bool) → List Droplet → List Droplet
matches p [] = []
matches p (x ∷ xs) = let rest = matches p xs in if p x then x ∷ rest else rest

-- What the loop must answer for them: nothing on two or more, else the one there is.
abbrev pub only : List Droplet → Option (Option Droplet)
only [] = some none
only (x ∷ []) = some (some x)
only (x ∷ y ∷ r) = none

abbrev only_after : Droplet → List Droplet → Option (Option Droplet)
only_after x [] = some (some x)
only_after x (y ∷ r) = none

only_other :
    (l : List Droplet) → ((x : Droplet) → l ≢ x ∷ []) → (only l ≡ some none) ⊎ (only l ≡ none)
only_other [] h = inl refl
only_other (x ∷ []) h = absurd (h x refl)
only_other (x ∷ y ∷ r) h = inr refl

find_match_seen :
    (p : Droplet → Bool) (x : Droplet) (xs : List Droplet)
    → find_match p (some x) xs ≡ only_after x (matches p xs)
unfolding find_match
find_match_seen p x [] = refl
find_match_seen p x (y ∷ ys) = ground (arith, find_match_seen p x ys)

find_match-only :
    (p : Droplet → Bool) (xs : List Droplet) → find_match p none xs ≡ only (matches p xs)
unfolding find_match
find_match-only p [] = refl
find_match-only p (x ∷ xs) = elim (Bool-cases (p x)) [
  | inl hit ↦ rw hit (find_match_seen p x xs ∙ only_lem x (matches p xs))
  | inr miss ↦ rw miss (find_match-only p xs)
]
  where
    only_lem : (x : Droplet) (r : List Droplet) → only_after x r ≡ only (x ∷ r)
    only_lem x [] = refl
    only_lem x (y ∷ r) = refl

-- The listed droplets that carry the identity in the region.
abbrev pub candidates : LookupProvider → World → String → String → String → List Droplet
candidates p w tag name region =
    matches (is_match tag name region) (p.list_droplet_models w.listings).0

module _ (p : LookupProvider) (w : World) (op : Operation) (tag name region : String)
    (pending : op.state ≡ unknown) (unowned : str_eq op.resource_id "" ≡ true)
    (listed : (p.list_droplet_models w.listings).1 ≡ none) where
  -- An unknown create without a resource, whose listing succeeds, adopts a droplet when exactly
  -- one listed droplet matches (the operation then names it, is verifying and is saved); otherwise
  -- the outcome stays unknown and the ledger is not written.
  pub adopt_unique :
      let r = adopt_unknown_create p w op tag name region in
      ((x : Droplet)
        → candidates p w tag name region ≡ x ∷ []
        → (r.1.resource_id ≡ itoa x.id)
          × (r.1.state ≡ verifying)
          × (r.0.jobs ≡ (save w r.1).0.jobs))
      × (((x : Droplet) → candidates p w tag name region ≢ x ∷ [])
          → (r.2 ≡ some outcome_still_unknown) × (r.1 ≡ op) × (r.0.jobs ≡ w.jobs))
  unfolding adopt_unknown_create
  adopt_unique = (
    λ x one.
        ground
          (arith, find_match-only (is_match tag name region) (p.list_droplet_models w.listings).0),
    λ not_one. elim (only_other (candidates p w tag name region) not_one) [
      | inl nobody ↦ ground (arith, nobody, found)
      | inr several ↦ ground (arith, several, found)
    ],
  )
    where
      found :
          find_match (is_match tag name region) none (p.list_droplet_models w.listings).0
          ≡ only (candidates p w tag name region)
      found = find_match-only (is_match tag name region) (p.list_droplet_models w.listings).0
