-- ===== src/Droplets/Lifecycle/Path.antt =====
-- The path of a droplet's row through the lifecycle.
use digital_ocean_bot.Prelude.{
  String, ◌≡◌, refl, ◌⊎◌, inl, inr, true, false, ◌&&◌, List, [], ◌∷◌, arith, str_eq, Bool-cases,
  Option-cases,
}
use digital_ocean_bot.Droplets.{Env}
use digital_ocean_bot.Text.Decimal.{atoi}
use digital_ocean_bot.Droplets.Executor.{delete}
use digital_ocean_bot.Droplets.Lifecycle.{
  State, State-discrete, ready, expiring, retiring, deleting, LifecycleItem, Fleet, is_state,
  move_rows, transition, event, advance, retire, process, process_in, is_settled, delete_operation,
}

pub data Edge : State → State → Type 0 where
  expire : Edge ready expiring
  retire_ : Edge expiring retiring
  delete_ : Edge retiring deleting

-- A row keeps everything but its state, and that only moves along an edge.
abbrev pub RowStep : LifecycleItem → LifecycleItem → Type 0
RowStep x y = (y ≡ record x { state = y.state }) × ((y.state ≡ x.state) ⊎ Edge x.state y.state)

abbrev pub RowsStep : List LifecycleItem → List LifecycleItem → Type 0
RowsStep [] [] = Unit {0}
RowsStep (x ∷ xs) (y ∷ ys) = RowStep x y × RowsStep xs ys
RowsStep _ _ = ⊥

RowsStep-refl : (xs : List LifecycleItem) → RowsStep xs xs
RowsStep-refl [] = tt
RowsStep-refl (x ∷ xs) = ((refl, inl refl), RowsStep-refl xs)

decided : {s t : State} (d : Dec (s ≡ t)) → (elim d [ yes e ↦ true | no n ↦ false ]) ≡ true → s ≡ t
decided (yes e) h = e
decided (no n) h = cc

pub is_state_lem : (s t : State) → is_state s t ≡ true → s ≡ t
is_state_lem s t h = decided (State-discrete s t) h

move_rows-RowsStep :
    (id : String) (from to : State) (xs : List LifecycleItem)
    → Edge from to
    → RowsStep xs (move_rows id from to xs)
unfolding move_rows
move_rows-RowsStep id from to [] e = tt
move_rows-RowsStep id from to (x ∷ xs) e = (
  elim (Bool-cases (str_eq x.id id && is_state x.state from)) [
    | inr other ↦ rw other (refl, inl refl)
    | inl hit ↦
        let same : x.state ≡ from = is_state_lem x.state from (ground arith) in
        rw hit (refl, inr (rw same e))
  ],
  move_rows-RowsStep id from to xs e,
)

-- The table after a call: as it was, or with the item's row moved.
abbrev Moved : LifecycleItem → State → State → List LifecycleItem → List LifecycleItem → Type 0
Moved item from to xs ys = (ys ≡ xs) ⊎ (ys ≡ move_rows item.id from to xs)

Moved-RowsStep :
    (item : LifecycleItem) {from to : State} (xs ys : List LifecycleItem)
    → Edge from to
    → Moved item from to xs ys
    → RowsStep xs ys
Moved-RowsStep item xs ys e (inl same) = rw same (RowsStep-refl xs)
Moved-RowsStep item {from} {to} xs ys e (inr moved) =
    rw moved (move_rows-RowsStep item.id from to xs e)

advance-Moved :
    (f : Fleet) (item : LifecycleItem) (from to : State)
    → Moved item from to f.droplets (advance f item from to).0.droplets
unfolding advance transition event
advance-Moved f item from to = elim (Option-cases (f.world.jobs.sql.fault f.world.jobs.sql.calls)) [
  | inr (x, lost) ↦ inl (ground arith)
  | inl sent ↦ inr (ground arith)
]

retire-Moved :
    (env : Env) (f : Fleet) (item : LifecycleItem)
    → Moved item retiring deleting f.droplets (retire env f item).0.droplets
unfolding retire
retire-Moved env f item = elim (Option-cases (atoi item.provider_id)) [
  | inl no_number ↦ inl (ground arith)
  | inr (id, e) ↦
      let r = delete env f.world (delete_operation item id) id in
      elim (Option-cases r.2) [
        | inr (x, lost) ↦ inl (ground arith)
        | inl sent ↦ elim (Bool-cases (is_settled r.1.state)) [
          | inr pending ↦ inl (ground arith)
          | inl settled ↦ elim (advance-Moved (record f { world = r.0 }) item retiring deleting) [
            | inl same ↦ inl (ground (arith, same))
            | inr moved ↦ inr (ground (arith, moved))
          ]
        ]
      ]
]

-- Every call of the lifecycle engine, for whatever item, environment and failing statements, moves
-- each row along an edge ready, expiring, retiring, deleting or leaves it, and changes nothing of
-- a row but its state.
pub process-RowsStep :
    (env : Env) (f : Fleet) (item : LifecycleItem)
    → RowsStep f.droplets (process env f item).0.droplets
unfolding process
process-RowsStep env f item = in_state item.state
  where
    in_state : (s : State) → RowsStep f.droplets (process_in s env f item).0.droplets
    in_state ready = Moved-RowsStep item f.droplets _ expire (advance-Moved f item ready expiring)
    in_state expiring =
        Moved-RowsStep item f.droplets _ retire_ (advance-Moved f item expiring retiring)
    in_state retiring = Moved-RowsStep item f.droplets _ delete_ (retire-Moved env f item)
    in_state _ = RowsStep-refl f.droplets
