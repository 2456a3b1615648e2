-- ===== src/App/Orphans/Owned.antt =====
-- What the reconciling of orphans may change.
use digital_ocean_bot.Prelude.{
  if_cases, String, ◌≡◌, refl, sym, ap, ◌∙◌, subst, ◌⊎◌, inl, inr, true, List, [], ◌∷◌, arith,
  Bool-cases, Option-cases,
}
use digital_ocean_bot.Droplets.{World as ExecutorWorld}
use digital_ocean_bot.Droplets.Lifecycle.{deleted, retiring, LifecycleItem, event}
use digital_ocean_bot.Droplets.Lifecycle.Path.{is_state_lem}
use digital_ocean_bot.App.Orphans.{World, sent, is_restorable, restore_rows, note_restored, restore}

-- A row stays, or it is restored and meets P.
abbrev pub RowStep : (LifecycleItem → Type 0) → LifecycleItem → LifecycleItem → Type 0
RowStep P x y =
    (y ≡ x)
    ⊎ ((y ≡ record x { state = retiring; replacement_deployment_id = "" })
        × (x.state ≡ deleted)
        × P x)

abbrev pub RowsStep : (LifecycleItem → Type 0) → List LifecycleItem → List LifecycleItem → Type 0
RowsStep P [] [] = Unit {0}
RowsStep P (x ∷ xs) (y ∷ ys) = RowStep P x y × RowsStep P xs ys
RowsStep P _ _ = ⊥

pub RowsStep-refl : (P : LifecycleItem → Type 0) (xs : List LifecycleItem) → RowsStep P xs xs
RowsStep-refl P [] = tt
RowsStep-refl P (x ∷ xs) = (inl refl, RowsStep-refl P xs)

retiring-ne-deleted : retiring ≡ deleted → ⊥
retiring-ne-deleted h = cc

RowStep-trans :
    (P : LifecycleItem → Type 0) (x y z : LifecycleItem)
    → RowStep P x y
    → RowStep P y z
    → RowStep P x z
RowStep-trans P x y z (inl same) s = subst (λ r. RowStep P r z) same s
RowStep-trans P x y z (inr (e, was, p)) (inl same) = inr (same ∙ e, was, p)
RowStep-trans P x y z (inr (e, was, p)) (inr (again, dead, q)) =
    absurd (retiring-ne-deleted (ap (λ r. r.state) (sym e) ∙ dead))

pub RowsStep-trans :
    (P : LifecycleItem → Type 0) (xs ys zs : List LifecycleItem)
    → RowsStep P xs ys
    → RowsStep P ys zs
    → RowsStep P xs zs
RowsStep-trans P [] [] [] s t = tt
RowsStep-trans P (x ∷ xs) (y ∷ ys) (z ∷ zs) (s, ss) (t, ts) =
    (RowStep-trans P x y z s t, RowsStep-trans P xs ys zs ss ts)
RowsStep-trans P [] (y ∷ ys) zs s t = absurd s
RowsStep-trans P (x ∷ xs) [] zs s t = absurd s
RowsStep-trans P [] [] (z ∷ zs) s t = absurd t
RowsStep-trans P (x ∷ xs) (y ∷ ys) [] s t = absurd t

pub RowsStep-map :
    (P Q : LifecycleItem → Type 0)
    → ((x : LifecycleItem) → P x → Q x)
    → (xs ys : List LifecycleItem) → RowsStep P xs ys
    → RowsStep Q xs ys
RowsStep-map P Q f [] [] s = tt
RowsStep-map P Q f (x ∷ xs) (y ∷ ys) (inl same, ss) = (inl same, RowsStep-map P Q f xs ys ss)
RowsStep-map P Q f (x ∷ xs) (y ∷ ys) (inr (e, was, p), ss) =
    (inr (e, was, f x p), RowsStep-map P Q f xs ys ss)
RowsStep-map P Q f [] (y ∷ ys) s = absurd s
RowsStep-map P Q f (x ∷ xs) [] s = absurd s

is_restorable-deleted :
    (id account provider : String) (x : LifecycleItem)
    → is_restorable id account provider x ≡ true
    → x.state ≡ deleted
unfolding is_restorable
is_restorable-deleted id account provider x h = is_state_lem x.state deleted (ground arith)

restore_rows-Step :
    (P : LifecycleItem → Type 0) (id account provider : String)
    → ((x : LifecycleItem) → is_restorable id account provider x ≡ true → P x)
    → (xs : List LifecycleItem) → RowsStep P xs (restore_rows id account provider xs)
unfolding restore_rows
restore_rows-Step P id account provider p [] = tt
restore_rows-Step P id account provider p (x ∷ xs) = (
  elim (Bool-cases (is_restorable id account provider x)) [
    | inr other ↦ rw other (inl refl)
    | inl hit ↦ rw hit (inr (refl, is_restorable-deleted id account provider x hit, p x hit))
  ],
  restore_rows-Step P id account provider p xs,
)

-- The rows take such steps, and neither the operations of the ledger nor the deployments change, nor
-- anything else of the executor's world: no request is sent, no droplets are listed and no egress is
-- checked.
pub record Step (P : LifecycleItem → Type 0) (w w' : World) : Type 0 where
  pub rows : RowsStep P w.fleet.droplets w'.fleet.droplets
  pub operations : w'.fleet.world.jobs.operations ≡ w.fleet.world.jobs.operations
  pub world : w'.fleet.world ≡ record w.fleet.world { jobs = w'.fleet.world.jobs }
  pub deployments : w'.deployments ≡ w.deployments

pub Step-refl : (P : LifecycleItem → Type 0) (w : World) → Step P w w
Step-refl P w = record {
  rows = RowsStep-refl P w.fleet.droplets;
  operations = refl;
  world = refl;
  deployments = refl;
}

pub Step-sent : (P : LifecycleItem → Type 0) (w : World) → Step P w (sent w).0
Step-sent P w = record {
  rows = RowsStep-refl P w.fleet.droplets;
  operations = refl;
  world = refl;
  deployments = refl;
}

pub Step-trans : (P : LifecycleItem → Type 0) (u v w : World) → Step P u v → Step P v w → Step P u w
Step-trans P u v w s t = record {
  rows = RowsStep-trans P u.fleet.droplets v.fleet.droplets w.fleet.droplets s.rows t.rows;
  operations = t.operations ∙ s.operations;
  world = t.world ∙ ap {A = ExecutorWorld} (λ v. record v { jobs = w.fleet.world.jobs }) s.world;
  deployments = t.deployments ∙ s.deployments;
}

-- An event is written or not.
Step-note_restored :
    (P : LifecycleItem → Type 0) (w : World) (local : LifecycleItem)
    → Step P w (note_restored w local)
unfolding note_restored event
Step-note_restored P w local =
    elim (Option-cases (w.fleet.world.jobs.sql.fault w.fleet.world.jobs.sql.calls)) [
      | inl fine ↦
          rw (fine, note_restored, event)
            (record {
              rows = RowsStep-refl P w.fleet.droplets;
              operations = refl;
              world = refl;
              deployments = refl;
            })
      | inr (e, lost) ↦ rw (lost, note_restored, event) (Step-sent P w)
    ]

pub Step-restore :
    (P : LifecycleItem → Type 0) (w : World) (account provider : String) (local : LifecycleItem)
    → ((x : LifecycleItem) → is_restorable local.id account provider x ≡ true → P x)
    → Step P w (restore w account provider local)
unfolding restore
Step-restore P w account provider local p =
    elim (Option-cases (w.fleet.world.jobs.sql.fault w.fleet.world.jobs.sql.calls)) [
      | inr (e, lost) ↦ rw (lost, restore) (Step-sent P w)
      | inl fine ↦
          rw (fine, restore)
            (let w2 = record (sent w).0 {
              fleet = record (sent w).0.fleet {
                droplets = restore_rows local.id account provider w.fleet.droplets;
              };
            } in
              let moved : Step P w w2 = record {
                rows = restore_rows-Step P local.id account provider p w.fleet.droplets;
                operations = refl;
                world = refl;
                deployments = refl;
              } in
              if_cases (λ v. Step P w v) _ _ _
                (Step-trans P w w2 _ moved (Step-note_restored P w2 local)) moved)
    ]

pub Step-map :
    (P Q : LifecycleItem → Type 0)
    → ((x : LifecycleItem) → P x → Q x)
    → (u v : World) → Step P u v
    → Step Q u v
Step-map P Q f u v s = record {
  rows = RowsStep-map P Q f u.fleet.droplets v.fleet.droplets s.rows;
  operations = s.operations;
  world = s.world;
  deployments = s.deployments;
}
