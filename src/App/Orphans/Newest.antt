-- ===== src/App/Orphans/Newest.antt =====
-- What the lookups of the reconciling find: the latest snapshot and a deployment.
use digital_ocean_bot.Prelude.{
  ℕ, zero, suc, String, ◌≡◌, refl, ap, ◌∙◌, subst, inl, inr, true, false, ◌&&◌, Option, none, some,
  List, [], ◌∷◌, arith, eq_iff, eq_refl, str_eq, Bool-cases, Option-cases, get_elem?,
}
use digital_ocean_bot.Prelude.Int.{ℤ, ◌≤ℤ◌, ltb_ℤ}
use digital_ocean_bot.App.Orphans.{Snapshot, DeploymentRow, later, latest, find_deployment}

-- One of the account's snapshots, and none of them is later.
pub record Newest (account : String) (snapshots : List Snapshot) (s : Snapshot) : Type 0 where
  pub index : ℕ
  pub at : get_elem? snapshots index ≡ some s
  pub owner : s.account_id ≡ account
  pub last :
      (i : ℕ) (t : Snapshot)
      → get_elem? snapshots i ≡ some t
      → t.account_id ≡ account
      → t.created_at ≤ℤ s.created_at

later-ne-none : (s : Snapshot) (o : Option Snapshot) → later s o ≡ none → ⊥
later-ne-none s none h = cc
later-ne-none s (some t) h = elim (Bool-cases (ltb_ℤ s.created_at t.created_at)) [
  | inl less ↦ some-ne-none t (rw less at h)
  | inr more ↦ some-ne-none s (rw more at h)
]
  where
    some-ne-none : (r : Snapshot) → some r ≡ none → ⊥
    some-ne-none r e = cc

head_eq : (s t : Snapshot) → some s ≡ some t → s ≡ t
head_eq s t e = cc

-- The first row is another account's.
skip :
    (account : String) (s : Snapshot)
    → str_eq s.account_id account ≡ false
    → s.account_id ≡ account
    → ⊥
skip account s other own = ground (arith, eq_refl account, ap (λ a. str_eq a account) own)

latest-none :
    (account : String) (ss : List Snapshot)
    → latest account ss ≡ none
    → (i : ℕ) (t : Snapshot) → get_elem? ss i ≡ some t
    → t.account_id ≡ account
    → ⊥
unfolding latest
latest-none account [] h i t at own = cc
latest-none account (s ∷ ss) h i t at own = elim (Bool-cases (str_eq s.account_id account)) [
  | inl ours ↦ later-ne-none s (latest account ss) (rw ours at h)
  | inr other ↦ place i at other (λ j its. latest-none account ss (rw other at h) j t its own)
]
  where
    place :
        (i : ℕ)
        → get_elem? (s ∷ ss) i ≡ some t
        → str_eq s.account_id account ≡ false
        → ((j : ℕ) → get_elem? ss j ≡ some t → ⊥)
        → ⊥
    place zero at other rest = skip account s other (ap (λ r. r.account_id) (head_eq s t at) ∙ own)
    place (suc i) at other rest = rest i at

Newest-cons :
    (account : String) (s x : Snapshot) (ss : List Snapshot)
    → (s.account_id ≡ account → s.created_at ≤ℤ x.created_at)
    → Newest account ss x
    → Newest account (s ∷ ss) x
Newest-cons account s x ss early n = record {
  index = suc n.index;
  at = n.at;
  owner = n.owner;
  last = λ i t at own. place i t at own;
}
  where
    place :
        (i : ℕ) (t : Snapshot)
        → get_elem? (s ∷ ss) i ≡ some t
        → t.account_id ≡ account
        → t.created_at ≤ℤ x.created_at
    place zero t at own =
        let here = head_eq s t at in
        subst (λ r. r.created_at ≤ℤ x.created_at) here (early (ap (λ r. r.account_id) here ∙ own))
    place (suc i) t at own = n.last i t at own

Newest-here :
    (account : String) (s : Snapshot) (ss : List Snapshot)
    → s.account_id ≡ account
    → ((i : ℕ) (t : Snapshot)
        → get_elem? ss i ≡ some t
        → t.account_id ≡ account
        → t.created_at ≤ℤ s.created_at)
    → Newest account (s ∷ ss) s
Newest-here account s ss ours early = record {
  index = 0;
  at = refl;
  owner = ours;
  last = λ i t at own. place i t at own;
}
  where
    place :
        (i : ℕ) (t : Snapshot)
        → get_elem? (s ∷ ss) i ≡ some t
        → t.account_id ≡ account
        → t.created_at ≤ℤ s.created_at
    place zero t at own = subst (λ r. r.created_at ≤ℤ s.created_at) (head_eq s t at) (omega arith)
    place (suc i) t at own = early i t at own

before_le : (a b : ℤ) → ltb_ℤ a b ≡ true → a ≤ℤ b
before_le a b h = ground arith

behind_le : (a b c : ℤ) → ltb_ℤ a b ≡ false → c ≤ℤ b → c ≤ℤ a
behind_le a b c h le = ground arith

pub latest-Newest :
    (account : String) (ss : List Snapshot) (x : Snapshot)
    → latest account ss ≡ some x
    → Newest account ss x
unfolding latest
latest-Newest account [] x h = absurd cc
latest-Newest account (s ∷ ss) x h = elim (Bool-cases (str_eq s.account_id account)) [
  | inr other ↦
      Newest-cons account s x ss (λ own. absurd (skip account s other own))
        (latest-Newest account ss x (rw other at h))
  | inl ours ↦
      let own = (eq_iff s.account_id account).0 ours in
      elim (Option-cases (latest account ss)) [
        | inl nothing ↦
            subst (λ r. Newest account (s ∷ ss) r) (head_eq s x (rw (ours, nothing) at h))
              (Newest-here account s ss own
                (λ i t at its. absurd (latest-none account ss nothing i t at its)))
        | inr (y, found) ↦
            let n = latest-Newest account ss y found in
            elim (Bool-cases (ltb_ℤ s.created_at y.created_at)) [
              | inl less ↦
                  subst (λ r. Newest account (s ∷ ss) r) (head_eq y x (rw (ours, found, less) at h))
                    (Newest-cons account s y ss (λ its. before_le s.created_at y.created_at less) n)
              | inr more ↦
                  subst (λ r. Newest account (s ∷ ss) r) (head_eq s x (rw (ours, found, more) at h))
                    (Newest-here account s ss own (λ i t at its.
                      behind_le s.created_at y.created_at t.created_at more (n.last i t at its)))
            ]
      ]
]

-- A deployment of the account with this identifier.
abbrev pub IsDeployment : String → String → List DeploymentRow → DeploymentRow → Type 0
IsDeployment id account ds d =
    ((i : ℕ) × (get_elem? ds i ≡ some d)) × (d.id ≡ id) × (d.account_id ≡ account)

row_eq : (s t : DeploymentRow) → some s ≡ some t → s ≡ t
row_eq s t e = cc

pub find_deployment-IsDeployment :
    (id account : String) (ds : List DeploymentRow) (d : DeploymentRow)
    → find_deployment id account ds ≡ some d
    → IsDeployment id account ds d
unfolding find_deployment
find_deployment-IsDeployment id account [] d h = absurd cc
find_deployment-IsDeployment id account (e ∷ ds) d h =
    elim (Bool-cases (str_eq e.id id && str_eq e.account_id account)) [
      | inl hit ↦
          subst (λ r. IsDeployment id account (e ∷ ds) r) (row_eq e d (rw hit at h))
            (
              (0, refl),
              (eq_iff e.id id).0 (ground (arith, hit)),
              (eq_iff e.account_id account).0 (ground (arith, hit)),
            )
      | inr miss ↦
          let ((i, at), its, own) = find_deployment-IsDeployment id account ds d (rw miss at h) in
          ((suc i, at), its, own)
    ]
