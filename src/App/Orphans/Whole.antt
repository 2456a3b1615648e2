-- ===== src/App/Orphans/Whole.antt =====
-- The reconciling of one account's orphans, over all the droplets that its snapshot lists.
use digital_ocean_bot.Prelude.{
  ℕ, suc, String, ◌≡◌, refl, subst, inl, inr, false, Option, some, List, [], ◌∷◌, arith, Bool-cases,
  Option-cases, get_elem?,
}
use digital_ocean_bot.Prelude.Int.{ℤ, pos, ◌-ℤ◌, ◌≤ℤ◌, ltb_ℤ}
use digital_ocean_bot.Errors.{Error}
use digital_ocean_bot.Sql.{scan_row, Result-cases, scan_row-ok}
use digital_ocean_bot.Droplets.Lifecycle.{LifecycleItem}
use digital_ocean_bot.App.Orphans.{
  Listed, Snapshot, World, sent, latest, reconcile_one, reconcile_all, reconcile_owned_orphans,
}
use digital_ocean_bot.App.Orphans.Owned.{Step, Step-refl, Step-sent, Step-trans, Step-map}
use digital_ocean_bot.App.Orphans.Newest.{Newest, latest-Newest}
use digital_ocean_bot.App.Orphans.Evidence.{Evidence, Step-reconcile_one}

-- The account's latest snapshot is at most two minutes old, and a droplet that it lists shows that
-- the row is an orphan of the account.
pub record IsOrphan (uuid : String → Option String) (w : World) (now : ℤ) (account : String)
    (x : LifecycleItem) : Type 0 where
  pub snapshot : Snapshot
  pub listing : List Listed
  pub index : ℕ
  pub droplet : Listed
  pub newest : Newest account w.snapshots snapshot
  pub fresh : now -ℤ snapshot.created_at ≤ℤ pos 120000000000
  pub decoded : snapshot.droplets ≡ some listing
  pub listed : get_elem? listing index ≡ some droplet
  pub evidence : Evidence uuid w.deployments account droplet x

Step-reconcile_all :
    (uuid : String → Option String) (P : LifecycleItem → Type 0) (account : String)
    (ls : List Listed) (w : World)
    → ((i : ℕ) (l : Listed) (x : LifecycleItem)
        → get_elem? ls i ≡ some l
        → Evidence uuid w.deployments account l x
        → P x)
    → Step P w (reconcile_all uuid w account ls)
unfolding reconcile_all
Step-reconcile_all uuid P account [] w p = Step-refl P w
Step-reconcile_all uuid P account (l ∷ ls) w p =
    let v = reconcile_one uuid w account l in
    let one = Step-reconcile_one uuid w account l in
    Step-trans P w v _ (Step-map _ P (λ x e. p 0 l x refl e) w v one) (
      Step-reconcile_all uuid P account ls v (λ i m x at e.
        p (suc i) m x at (subst (λ ds. Evidence uuid ds account m x) one.deployments e)))

not_older :
    (now at : ℤ) → ltb_ℤ (pos 120000000000) (now -ℤ at) ≡ false → now -ℤ at ≤ℤ pos 120000000000
not_older now at h = ground arith

abbrev fault : World → Option Error
fault w = w.fleet.world.jobs.sql.fault w.fleet.world.jobs.sql.calls

-- ReconcileOwnedOrphans leaves each droplet's row as it is or moves it from DELETED to RETIRING
-- and takes its replacement off, and the latter only if the account's latest snapshot is at most
-- two minutes old and lists a droplet with the tag of the bot and the row's number, whose
-- deployment tag, the last one, names a deployment of the account that was given up and has this
-- row as its droplet. The row is the account's own. Neither the operations of the ledger nor the
-- deployments change, no request to create or delete is sent to the provider, no droplets are
-- listed and no egress is checked, whichever statements fail.
pub reconcile_owned_orphans-Owned :
    (uuid : String → Option String) (w : World) (now : ℤ) (account : String)
    → Step (IsOrphan uuid w now account) w (reconcile_owned_orphans uuid w now account)
unfolding reconcile_owned_orphans
reconcile_owned_orphans-Owned uuid w now account =
    let P = IsOrphan uuid w now account in
    elim (Result-cases (scan_row (fault w) (latest account w.snapshots))) [
      | inr (e, lost) ↦ rw (lost, reconcile_owned_orphans) (Step-sent P w)
      | inl (s, got) ↦
          rw (got, reconcile_owned_orphans)
            (elim (Bool-cases (ltb_ℤ (pos 120000000000) (now -ℤ s.created_at))) [
              | inl old ↦ rw old (Step-sent P w)
              | inr fresh ↦ rw fresh (elim (Option-cases s.droplets) [
                | inl garbled ↦ rw garbled (Step-sent P w)
                | inr (ls, decoded) ↦ rw decoded (
                    Step-trans P w (sent w).0 _ (Step-sent P w) (
                      Step-reconcile_all uuid P account ls (sent w).0 (λ i l x at e. record {
                        snapshot = s;
                        listing = ls;
                        index = i;
                        droplet = l;
                        newest =
                            latest-Newest account w.snapshots s (scan_row-ok (fault w) _ s got);
                        fresh = not_older now s.created_at fresh;
                        decoded = decoded;
                        listed = at;
                        evidence = e;
                      })))
              ])
            ])
    ]
