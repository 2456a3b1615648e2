-- ===== src/App/Orphans/Evidence.antt =====
-- What a restored droplet's row has to show.
use digital_ocean_bot.Prelude.{
  ◌≢◌, ℕ, get_elem?, eq_refl, if_cases, String, ◌≡◌, refl, sym, ap, ◌∙◌, subst, inl, inr, true,
  false, ◌||◌, not, Option, none, some, List, [], ◌∷◌, arith, eq_iff, str_eq, Bool-cases,
  Option-cases,
}
use digital_ocean_bot.App.Orphans.{
  ok, Listed, DeploymentRow, World, sent, scan_tags, find_deployment, find_droplet, joined,
  is_restorable, restore_failed, reconcile_tagged, reconcile_one,
}
use digital_ocean_bot.Prelude.Int.{ℤ}
use digital_ocean_bot.Errors.{Error}
use digital_ocean_bot.Sql.{scan_row, Result-cases, scan_row-ok}
use digital_ocean_bot.Text.Decimal.{itoa}
use digital_ocean_bot.Droplets.Lifecycle.{LifecycleItem}
use digital_ocean_bot.App.Orphans.Tags.{LastNames, scan_tags-owned, scan_tags-last}
use digital_ocean_bot.App.Orphans.Newest.{IsDeployment, find_deployment-IsDeployment}
use digital_ocean_bot.App.Orphans.Owned.{Step, Step-refl, Step-sent, Step-trans, Step-restore}

-- The listed droplet carries the tag of the bot and that of a deployment of the account, which was
-- given up and whose droplet is the row's, under the same number at the provider.
pub record Evidence (uuid : String → Option String) (ds : List DeploymentRow) (account : String)
    (l : Listed) (x : LifecycleItem) : Type 0 where
  pub dep : String
  pub id : String
  pub row : DeploymentRow
  pub owned : (i : ℕ) × (get_elem? l.tags i ≡ some "managed-by-digital-ocean-bot")
  pub tag : LastNames l.tags dep
  pub named : dep ≢ ""
  pub cast : uuid dep ≡ some id
  pub found : IsDeployment id account ds row
  pub given_up : row.state ≡ "FAILED"
  pub linked : row.droplet_id ≡ some x.id
  pub owner : x.account_id ≡ account
  pub number : x.provider_id ≡ itoa l.id

find_droplet-id :
    (id provider : String) (xs : List LifecycleItem) (x : LifecycleItem)
    → find_droplet id provider xs ≡ some x
    → str_eq x.id id ≡ true
unfolding find_droplet
find_droplet-id id provider [] x h = cc
find_droplet-id id provider (y ∷ ys) x h = ground (arith, find_droplet-id id provider ys x)

joined-linked :
    (provider : String) (d : DeploymentRow) (xs : List LifecycleItem) (x : LifecycleItem)
    → joined provider (some d) xs ≡ some x
    → d.droplet_id ≡ some x.id
joined-linked provider d xs x h = elim (Option-cases d.droplet_id) [
  | inl null ↦ absurd (ground arith)
  | inr (id, e) ↦
      let same = (eq_iff x.id id).0 (find_droplet-id id provider xs x (ground arith)) in
      e ∙ ap (λ s. some s) (sym same)
]

joined-row :
    (provider : String) (row : Option DeploymentRow) (xs : List LifecycleItem) (x : LifecycleItem)
    → joined provider row xs ≡ some x
    → (d : DeploymentRow) × (row ≡ some d)
joined-row provider none xs x h = absurd (ground arith)
joined-row provider (some d) xs x h = (d, refl)

abbrev fault : World → Option Error
fault w = w.fleet.world.jobs.sql.fault w.fleet.world.jobs.sql.calls

Step-restore_failed :
    (P : LifecycleItem → Type 0) (w : World) (account provider : String) (local : LifecycleItem)
    (row : Option DeploymentRow)
    → ((d : DeploymentRow)
        → row ≡ some d
        → str_eq d.state "FAILED" ≡ true
        → (x : LifecycleItem) → is_restorable local.id account provider x ≡ true
        → P x)
    → Step P w (restore_failed w account provider local row)
unfolding restore_failed
Step-restore_failed P w account provider local row p =
    elim (Result-cases (scan_row (fault w) row)) [
      | inr (e, lost) ↦ rw (lost, restore_failed) (Step-sent P w)
      | inl (d, got) ↦
          rw (got, restore_failed)
            (elim (Bool-cases (str_eq d.state "FAILED")) [
              | inr other ↦ rw other (Step-sent P w)
              | inl given_up ↦ rw given_up (
                  Step-trans P w (sent w).0 _ (Step-sent P w) (
                    Step-restore P (sent w).0 account provider local
                      (p d (scan_row-ok (fault w) row d got) given_up)))
            ])
    ]

Step-reconcile_tagged :
    (P : LifecycleItem → Type 0) (w : World) (account : String) (n : ℤ) (id : String)
    → ((d : DeploymentRow) (local x : LifecycleItem)
        → find_deployment id account w.deployments ≡ some d
        → str_eq d.state "FAILED" ≡ true
        → d.droplet_id ≡ some local.id
        → is_restorable local.id account (itoa n) x ≡ true
        → P x)
    → Step P w (reconcile_tagged w account n id)
unfolding reconcile_tagged
Step-reconcile_tagged P w account n id p =
    let row = find_deployment id account w.deployments in
    elim (Result-cases (scan_row (fault w) (joined (itoa n) row w.fleet.droplets))) [
      | inr (e, lost) ↦ rw (lost, reconcile_tagged) (Step-sent P w)
      | inl (local, got) ↦
          rw (got, reconcile_tagged)
            (if_cases (λ v. Step P w v) _ _ _
              (Step-trans P w (sent w).0 _ (Step-sent P w) (
                Step-restore_failed P (sent w).0 account (itoa n) local row
                  (λ d found given_up x hit.
                    p d local x found given_up (linked local d got found) hit)))
              (Step-sent P w))
    ]
  where
    linked :
        (local : LifecycleItem) (d : DeploymentRow)
        → scan_row
            (fault w)
            (joined (itoa n) (find_deployment id account w.deployments) w.fleet.droplets)
          ≡ ok local
        → find_deployment id account w.deployments ≡ some d
        → d.droplet_id ≡ some local.id
    linked local d got found = joined-linked (itoa n) d w.fleet.droplets local (
        subst (λ r. joined (itoa n) r w.fleet.droplets ≡ some local) found
          (scan_row-ok (fault w) _ local got))

restorable_row :
    (id account provider : String) (x : LifecycleItem)
    → is_restorable id account provider x ≡ true
    → (x.id ≡ id) × (x.account_id ≡ account) × (x.provider_id ≡ provider)
unfolding is_restorable
restorable_row id account provider x h = (
  (eq_iff x.id id).0 (ground arith),
  (eq_iff x.account_id account).0 (ground arith),
  (eq_iff x.provider_id provider).0 (ground arith),
)

bot_tag :
    (tags : List String)
    → (scan_tags tags false "").0 ≡ true
    → (i : ℕ) × (get_elem? tags i ≡ some "managed-by-digital-ocean-bot")
bot_tag tags h = elim (scan_tags-owned tags false "" h) [ inl never ↦ absurd cc | inr tag ↦ tag ]

deployment_tag :
    (tags : List String)
    → str_eq (scan_tags tags false "").1 "" ≡ false
    → LastNames tags (scan_tags tags false "").1
deployment_tag tags h = elim (scan_tags-last tags false "") [
  | inl tag ↦ tag
  | inr (empty, quiet) ↦ absurd (ground (arith, ap (λ s. str_eq s "") empty, eq_refl ""))
]

pub Step-reconcile_one :
    (uuid : String → Option String) (w : World) (account : String) (l : Listed)
    → Step (Evidence uuid w.deployments account l) w (reconcile_one uuid w account l)
unfolding reconcile_one
Step-reconcile_one uuid w account l =
    let P = Evidence uuid w.deployments account l in
    let dep = (scan_tags l.tags false "").1 in
    elim (Bool-cases (not (scan_tags l.tags false "").0 || str_eq dep "")) [
      | inl foreign ↦ rw (foreign, reconcile_one) (Step-refl P w)
      | inr ours ↦
          rw (ours, reconcile_one)
            (elim (Option-cases (uuid dep)) [
              | inl refused ↦ rw refused (Step-sent P w)
              | inr (id, cast) ↦ rw cast (
                  Step-reconcile_tagged P w account l.id id (λ d local x found given_up linked hit.
                    let r = restorable_row local.id account (itoa l.id) x hit in
                    record {
                      dep = dep;
                      id = id;
                      row = d;
                      owned = bot_tag l.tags (ground (arith, ours));
                      tag = deployment_tag l.tags (ground (arith, ours));
                      named = λ e. ground (arith, ours, ap (λ s. str_eq s "") e, eq_refl "");
                      cast = cast;
                      found = find_deployment-IsDeployment id account w.deployments d found;
                      given_up = (eq_iff d.state "FAILED").0 given_up;
                      linked = linked ∙ ap (λ s. some s) (sym r.0);
                      owner = r.1;
                      number = r.2;
                    }))
            ])
    ]
