-- ===== src/App/Recovery/Evidence.antt =====
-- On which evidence recovery settles an operation.
use digital_ocean_bot.Prelude.{
  ℕ, zero, suc, String, ◌≡◌, refl, sym, ap, ◌∙◌, subst, ◌≢◌, ◌⊎◌, inl, inr, Bool, true, false, ◌&&◌,
  not, Option, none, some, List, [], ◌∷◌, arith, eq_iff, str_eq, Bool-cases, Option-cases,
  get_elem?,
}
use digital_ocean_bot.Prelude.Int.{ℤ, pos, ◌-ℤ◌, ◌≤ℤ◌}
use digital_ocean_bot.Text.Decimal.{atoi, itoa}
use digital_ocean_bot.Jobs.{OperationState, succeeded, unknown}
use digital_ocean_bot.App.Recovery.{
  Snapshot, is_fresh, listed, RecoveryItem, Env, local_evidence, find_out, verdict, settle,
  recover_operation,
}

-- Whether a droplet of the list has this number, as a text.
abbrev pub Lists : List ℤ → String → Bool → Type 0
Lists ds p true = (i : ℕ) × (d : ℤ) × (get_elem? ds i ≡ some d) × (itoa d ≡ p)
Lists ds p false = (i : ℕ) (d : ℤ) → get_elem? ds i ≡ some d → itoa d ≢ p

-- The snapshot is at most two minutes old, decodes, and lists the droplet or not.
pub record Fresh (now : ℤ) (s : Option Snapshot) (p : String) (exists : Bool) : Type 0 where
  pub snapshot : Snapshot
  pub droplets : List ℤ
  pub found : s ≡ some snapshot
  pub young : now -ℤ snapshot.created_at ≤ℤ pos 120000000000
  pub decoded : snapshot.droplets ≡ some droplets
  pub lists : Lists droplets p exists

-- The state that an operation deserves by its kind and whether its resource exists.
pub data Deserved (kind : String) (exists : Bool) : OperationState → Type 0 where
  created : kind ≡ "CREATE_DROPLET" → exists ≡ true → Deserved kind exists succeeded
  deleted : kind ≡ "DELETE_DROPLET" → exists ≡ false → Deserved kind exists succeeded
  not_created : kind ≡ "CREATE_DROPLET" → exists ≡ false → Deserved kind exists unknown
  not_deleted : kind ≡ "DELETE_DROPLET" → exists ≡ true → Deserved kind exists unknown

listed-true : (p : String) (ds : List ℤ) → listed p ds ≡ true → Lists ds p true
unfolding listed
listed-true p [] h = absurd cc
listed-true p (d ∷ ds) h = elim (Bool-cases (str_eq (itoa d) p)) [
  | inl same ↦ (0, d, refl, (eq_iff (itoa d) p).0 same)
  | inr other ↦ let (i, e, at, is) = listed-true p ds (ground arith) in (suc i, e, at, is)
]

listed-false : (p : String) (ds : List ℤ) → listed p ds ≡ false → Lists ds p false
unfolding listed
listed-false p [] h i d at is = absurd cc
listed-false p (e ∷ ds) h zero d at is = absurd (ground (arith, eq_iff (itoa e) p, ap_itoa at ∙ is))
  where
    ap_itoa : some e ≡ some d → itoa e ≡ itoa d
    ap_itoa at = cc
listed-false p (e ∷ ds) h (suc i) d at is = listed-false p ds (ground arith) i d at is

listed-Lists : (p : String) (ds : List ℤ) (b : Bool) → listed p ds ≡ b → Lists ds p b
listed-Lists p ds true h = listed-true p ds h
listed-Lists p ds false h = listed-false p ds h

some_bool : (a b : Bool) → some a ≡ some b → a ≡ b
some_bool a b e = cc

local_evidence-Fresh :
    (now : ℤ) (s : Option Snapshot) (p : String) (b : Bool)
    → local_evidence now s p ≡ some b
    → Fresh now s p b
unfolding local_evidence is_fresh
local_evidence-Fresh now none p b h = absurd cc
local_evidence-Fresh now (some s) p b h = elim (Option-cases s.droplets) [
  | inl garbled ↦ absurd (ground (arith, garbled))
  | inr (ds, decoded) ↦ elim (Bool-cases (is_fresh now s.created_at)) [
    | inr late ↦ absurd (ground (arith, late))
    | inl young ↦ record {
      snapshot = s;
      droplets = ds;
      found = refl;
      young = ground (arith, young);
      decoded = decoded;
      lists =
          listed-Lists p ds b
            (some_bool (listed p ds) b (rw (young, local_evidence, decoded) at h));
    }
  ]
]

module _ {W : Type 0} (env : Env W) (log : W → List (String × OperationState))
    (asks : (w : W) (id : ℤ) → log (env.droplet_exists w id).0 ≡ log w)
    (writes : (w : W) (id a : String) (s : OperationState)
      → (log (env.set_state w id a s).0 ≡ log w)
        ⊎ (log (env.set_state w id a s).0 ≡ (id, s) ∷ log w))
    (confirms : (w : W) (a p : String) → log (env.confirm_deleted w a p).0 ≡ log w) where
  -- A fresh snapshot that decodes says so, or the provider does without an error.
  pub data Shown (w : W) (a p : String) (exists : Bool) : Type 0 where
    by_snapshot : Fresh (env.now w) (env.snapshot w a) p exists → Shown w a p exists
    by_provider :
        (id : ℤ)
        → atoi p ≡ some id
        → (env.droplet_exists w id).1 ≡ exists
        → (env.droplet_exists w id).2 ≡ none
        → Shown w a p exists

  -- The ledger is not written, or one operation is settled by what was shown.
  pub data Settled (w : W) (item : RecoveryItem) (w' : W) : Type 0 where
    left_alone : log w' ≡ log w → Settled w item w'
    settled :
        (p : String) (exists : Bool) (state : OperationState)
        → p ≡ (env.resource_id w item.id item.account_id).0
        → Shown w item.account_id p exists
        → Deserved item.kind exists state
        → log w' ≡ (item.id, state) ∷ log w
        → Settled w item w'

  settle_log :
      (w : W) (item : RecoveryItem) (p : String) (exists : Bool)
      → (log (settle env w item p exists).0 ≡ log w)
        ⊎ (log (settle env w item p exists).0 ≡ (item.id, verdict env item.kind exists) ∷ log w)
  unfolding settle
  settle_log w item p exists =
      let r = env.set_state w item.id item.account_id (verdict env item.kind exists) in
      let wrote = writes w item.id item.account_id (verdict env item.kind exists) in
      elim (Option-cases r.1) [
        | inr (e, lost) ↦ rw (lost, settle) wrote
        | inl fine ↦ elim (Bool-cases (str_eq item.kind "DELETE_DROPLET" && not exists)) [
          | inr no_confirm ↦ rw (fine, settle, no_confirm) wrote
          | inl confirm ↦
              let same = confirms r.0 item.account_id p in
              rw (fine, settle, confirm)
                (elim wrote [ inl quiet ↦ inl (same ∙ quiet) | inr one ↦ inr (same ∙ one) ])
        ]
      ]

  find_out-Shown :
      (w : W) (a p : String)
      → (log (find_out env w a p).0 ≡ log w)
        × ((find_out env w a p).2 ≡ none → Shown w a p (find_out env w a p).1)
  unfolding find_out
  find_out-Shown w a p = elim (Option-cases (local_evidence (env.now w) (env.snapshot w a) p)) [
    | inr (seen, e) ↦
        rw (e, find_out)
          (refl, λ fine. by_snapshot (local_evidence-Fresh (env.now w) (env.snapshot w a) p seen e))
    | inl nothing ↦ elim (Option-cases (atoi p)) [
      | inl bad ↦ rw (nothing, find_out, bad) (refl, λ fine. ground arith)
      | inr (id, number) ↦
          rw (nothing, find_out, number) (asks w id, λ fine. by_provider id number refl fine)
    ]
  ]

  verdict-Deserved :
      (kind : String) (exists : Bool)
      → (not (str_eq kind "CREATE_DROPLET") && not (str_eq kind "DELETE_DROPLET")) ≡ false
      → Deserved kind exists (verdict env kind exists)
  unfolding verdict
  verdict-Deserved kind exists ours = elim (Bool-cases (str_eq kind "CREATE_DROPLET")) [
    | inl creates ↦
        let e = (eq_iff kind "CREATE_DROPLET").0 creates in
        subst (λ k. Deserved k exists (verdict env k exists)) (sym e) (create exists)
    | inr other ↦
        let deletes : str_eq kind "DELETE_DROPLET" ≡ true = ground (arith, ours, other) in
        let e = (eq_iff kind "DELETE_DROPLET").0 deletes in
        subst (λ k. Deserved k exists (verdict env k exists)) (sym e) (delete exists)
  ]
    where
      create : (b : Bool) → Deserved "CREATE_DROPLET" b (verdict env "CREATE_DROPLET" b)
      create true = created refl refl
      create false = not_created refl refl

      delete : (b : Bool) → Deserved "DELETE_DROPLET" b (verdict env "DELETE_DROPLET" b)
      delete true = not_deleted refl refl
      delete false = deleted refl refl

  -- Recovery of one operation leaves the ledger alone, or writes that operation once: as succeeded
  -- if it creates and its resource was shown to exist, or it deletes and the resource was shown
  -- not to exist, and as unknown if it creates and the resource was shown not to exist, or it
  -- deletes and the resource was shown to exist. What shows it is a snapshot that is at most two
  -- minutes old, decodes, and lists the droplet's number or does not, or the provider's answer
  -- without an error. This holds for every ledger whose update writes the state or nothing, and
  -- all other calls of which write none.
  pub recover_operation-Settled :
      (w : W) (item : RecoveryItem) → Settled w item (recover_operation env w item).0
  unfolding recover_operation
  recover_operation-Settled w item =
      let r = env.resource_id w item.id item.account_id in
      let f = find_out env w item.account_id r.0 in
      let shown = find_out-Shown w item.account_id r.0 in
      elim (Option-cases (env.runtime w item.account_id)) [
        | inr (e, down) ↦ rw (down, recover_operation) (left_alone refl)
        | inl up ↦
            elim (Bool-cases (
              not (str_eq item.kind "CREATE_DROPLET") && not (str_eq item.kind "DELETE_DROPLET"))) [
                | inl foreign ↦ rw (up, recover_operation, foreign) (left_alone refl)
                | inr ours ↦ elim (Option-cases r.1) [
                  | inr (e, lost) ↦ rw (up, recover_operation, ours, lost) (left_alone refl)
                  | inl got ↦ elim (Bool-cases (str_eq r.0 "")) [
                    | inl no_id ↦ rw (up, recover_operation, ours, got, no_id) (left_alone refl)
                    | inr some_id ↦ elim (Option-cases f.2) [
                      | inr (e, lost) ↦
                          rw (up, recover_operation, ours, got, some_id, lost) (left_alone shown.0)
                      | inl fine ↦
                          rw (up, recover_operation, ours, got, some_id, fine)
                            (elim (settle_log f.0 item r.0 f.1) [
                              | inl quiet ↦ left_alone (quiet ∙ shown.0)
                              | inr one ↦
                                  settled r.0 f.1 (verdict env item.kind f.1) refl (shown.1 fine)
                                    (verdict-Deserved item.kind f.1 ours)
                                    (one
                                      ∙ ap (λ l. (item.id, verdict env item.kind f.1) ∷ l) shown.0)
                            ])
                    ]
                  ]
                ]
              ]
      ]
