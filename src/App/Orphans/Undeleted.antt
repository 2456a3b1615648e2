-- ===== src/App/Orphans/Undeleted.antt =====
-- What the lifecycle engine does with an orphan that was restored.
use digital_ocean_bot.Prelude.{
  ap, String, ◌≡◌, refl, sym, ◌∙◌, subst, inl, inr, Option, some, List, [], ◌∷◌, arith,
  Option-cases,
}
use digital_ocean_bot.Prelude.Int.{ℤ}
use digital_ocean_bot.Jobs.{Operation}
use digital_ocean_bot.Jobs.Store.{find_operation}
use digital_ocean_bot.Droplets.{Env}
use digital_ocean_bot.Text.Decimal.{atoi}
use digital_ocean_bot.Droplets.Lifecycle.{
  State, retiring, ready, expiring, deleting, LifecycleItem, Fleet, transition, event, advance,
  retire, process, process_in, delete_key, delete_operation,
}
use digital_ocean_bot.Droplets.Executor.{delete}
use digital_ocean_bot.Droplets.Lifecycle.Stuck.{delete_taken}
use digital_ocean_bot.App.Orphans.{World, reconcile_owned_orphans}
use digital_ocean_bot.App.Orphans.Whole.{reconcile_owned_orphans-Owned}

-- The ledger, and what was sent to the provider.
abbrev Kept : Fleet → Fleet → Type 0
Kept f g = (g.world.deleted ≡ f.world.deleted) × (g.world.jobs.operations ≡ f.world.jobs.operations)

advance-Kept :
    (f : Fleet) (item : LifecycleItem) (from to : State) → Kept f (advance f item from to).0
unfolding advance transition event
advance-Kept f item from to = (ground arith, ground arith)

retire-Kept :
    (env : Env) (f : Fleet) (item : LifecycleItem) (o : Operation)
    → find_operation item.account_id (delete_key item) f.world.jobs.operations ≡ some o
    → Kept f (retire env f item).0
unfolding retire
retire-Kept env f item o stored = elim (Option-cases (atoi item.provider_id)) [
  | inl no_number ↦ ground arith
  | inr (id, number) ↦
      let r = delete env f.world (delete_operation item id) id in
      let taken = delete_taken env f.world (delete_operation item id) o id stored in
      ground (arith, taken, advance-Kept (record f { world = r.0 }) item retiring deleting)
]

process-Kept :
    (env : Env) (f : Fleet) (item : LifecycleItem) (o : Operation) (s : State)
    → find_operation item.account_id (delete_key item) f.world.jobs.operations ≡ some o
    → Kept f (process_in s env f item).0
unfolding process_in
process-Kept env f item o State.ready stored = advance-Kept f item ready expiring
process-Kept env f item o State.expiring stored = advance-Kept f item expiring retiring
process-Kept env f item o State.retiring stored = retire-Kept env f item o stored
process-Kept env f item o _ stored = (refl, refl)

-- One call of the lifecycle engine for a droplet in some state, or of ReconcileOwnedOrphans at some
-- time of its clock.
pub data Call : Type 0 where
  engine : Env → State → Call
  reconcile : ℤ → Call

unfoldable pub step : (String → Option String) → String → LifecycleItem → World → Call → World
step uuid account item w (engine env s) = record w {
  fleet = (process env w.fleet (record item { state = s })).0;
}
step uuid account item w (reconcile now) = reconcile_owned_orphans uuid w now account

unfoldable pub run : (String → Option String) → String → LifecycleItem → World → List Call → World
run uuid account item w [] = w
run uuid account item w (c ∷ cs) = run uuid account item (step uuid account item w c) cs

step-Kept :
    (uuid : String → Option String) (account : String) (item : LifecycleItem) (o : Operation)
    (w : World) (c : Call)
    → find_operation item.account_id (delete_key item) w.fleet.world.jobs.operations ≡ some o
    → Kept w.fleet (step uuid account item w c).fleet
unfolding step process
step-Kept uuid account item o w (engine env s) stored =
    process-Kept env w.fleet (record item { state = s }) o s stored
step-Kept uuid account item o w (reconcile now) stored =
    let r = reconcile_owned_orphans-Owned uuid w now account in
    (ap (λ v. v.deleted) r.world, r.operations)

-- Once the ledger has the delete operation of a droplet, no history of calls of the lifecycle
-- engine for it, in whatever state, and of ReconcileOwnedOrphans sends the provider a request to
-- delete anything, whatever the operation's outcome was and whichever statements fail.
pub run-undeleted :
    (uuid : String → Option String) (account : String) (item : LifecycleItem) (o : Operation)
    (cs : List Call) (w : World)
    → find_operation item.account_id (delete_key item) w.fleet.world.jobs.operations ≡ some o
    → (run uuid account item w cs).fleet.world.deleted ≡ w.fleet.world.deleted
unfolding run
run-undeleted uuid account item o [] w stored = refl
run-undeleted uuid account item o (c ∷ cs) w stored =
    let k = step-Kept uuid account item o w c stored in
    let w' = step uuid account item w c in
    run-undeleted uuid account item o cs w' (
      subst (λ ops. find_operation item.account_id (delete_key item) ops ≡ some o) (sym k.1) stored)
    ∙ k.0
