-- ===== src/Droplets/Reconcile.antt =====
-- internal/droplets/reconcile.go.
use digital_ocean_bot.Prelude.{
  suc, String, Bool, true, false, ◌&&◌, ◌||◌, not, Option, none, some, List, [], ◌∷◌, str_eq,
  if◌then◌else◌,
}
use digital_ocean_bot.Prelude.Int.{ℤ}
use digital_ocean_bot.Errors.{Error, outcome_still_unknown}
use digital_ocean_bot.Jobs.{
  Operation, OperationState, verifying, succeeded, unknown, planned, zero_operation,
}
use digital_ocean_bot.Jobs.Store.{update}
use digital_ocean_bot.DigitalOcean.{Droplet, Resource}
use digital_ocean_bot.Droplets.{World, LookupProvider}
use digital_ocean_bot.Text.{concat}
use digital_ocean_bot.Text.Decimal.{itoa}

abbrev pub is_unknown : OperationState → Bool
is_unknown unknown = true
is_unknown _ = false

abbrev pub is_verifying : OperationState → Bool
is_verifying verifying = true
is_verifying _ = false

-- r.Operations.Update, in the executor's world.
abbrev pub save : World → Operation → World × Option Error
save w op = let (jobs, err) = update w.jobs op in (record w { jobs = jobs }, err)

unfoldable pub has_id : String → List Resource → Bool
has_id id [] = false
has_id id (r ∷ rs) = str_eq r.id id || has_id id rs

unfoldable pub verify_create : LookupProvider → World → Operation → World × Operation × Option Error
unfolding has_id
verify_create provider w op =
    if not (is_verifying op.state) && not (is_unknown op.state)
    then (w, op, none)
    else let (items, err) = provider.list_droplets w.listings in
      let w' = record w { listings = suc w.listings } in
      elim err [
        | some e ↦ (w', op, some e)
        | none ↦
            let op' = record op { state = succeeded } in
            let (w'', failed) = save w' op' in
            if not (str_eq op.resource_id "") && has_id op.resource_id items
            then (w'', op', failed)
            else (w', op, some outcome_still_unknown)
      ]

unfoldable pub has_tag : String → List String → Bool
has_tag tag [] = false
has_tag tag (t ∷ ts) = (not (str_eq tag "") && str_eq t tag) || has_tag tag ts

-- `(tagged || (identityTag == "" && x.Name == name)) && (region == "" || x.Region.Slug == region)`
unfoldable pub is_match : String → String → String → Droplet → Bool
unfolding has_tag
is_match tag name region x =
    (has_tag tag x.tags || (str_eq tag "" && str_eq x.name name))
    && (str_eq region "" || str_eq x.region_slug region)

-- The loop over the droplets with its `match` so far. `none` is the early return at a second one.
unfoldable pub find_match :
    (Droplet → Bool) → Option Droplet → List Droplet → Option (Option Droplet)
find_match p seen [] = some seen
find_match p seen (x ∷ xs) =
    if p x
    then elim seen [ none ↦ find_match p (some x) xs | some y ↦ none ]
    else find_match p seen xs

unfoldable pub adopt_unknown_create :
    LookupProvider → World → Operation → String → String → String → World × Operation × Option Error
unfolding find_match is_match
adopt_unknown_create provider w op tag name region =
    if not (is_unknown op.state) || not (str_eq op.resource_id "")
    then (w, op, none)
    else let (items, err) = provider.list_droplet_models w.listings in
      let w' = record w { listings = suc w.listings } in
      elim err [
        | some e ↦ (w', op, some e)
        | none ↦ elim (find_match (is_match tag name region) none items) [
          | some (some x) ↦
              let op' = record op { resource_id = itoa x.id; state = verifying } in
              let (w'', failed) = save w' op' in (w'', op', failed)
          | _ ↦ (w', op, some outcome_still_unknown)
        ]
      ]

unfoldable pub build_delete_operation : String → ℤ → Operation
unfolding itoa
build_delete_operation account_id provider_id = record zero_operation {
  account_id = account_id;
  kind = "DELETE_DROPLET";
  idempotency_key = concat ("delete:" ∷ account_id ∷ ":" ∷ (itoa provider_id) ∷ []);
  state = planned;
}
