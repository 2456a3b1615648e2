-- ===== src/Accounts/Cells.antt =====
-- Which cells a manager hands out.
use digital_ocean_bot.Prelude.{
  String, ◌≡◌, refl, ap, subst, inl, inr, Bool, true, false, ◌||◌, none, some, List, [], ◌∷◌,
  eq_iff, eq_refl, str_eq, if◌then◌else◌, Bool-cases,
}
use digital_ocean_bot.Errors.{cell_not_found, tenant_mismatch}
use digital_ocean_bot.Sql.{Result, ok, fail}
use digital_ocean_bot.Accounts.{
  Context, new_context, authorize, CellManager, new_cell_manager, find_cell, register, acquire,
}

-- The manager after these registrations.
unfoldable pub register_all : CellManager → List String → CellManager
register_all m [] = m
register_all m (id ∷ ids) = register_all (register m id).0 ids

unfoldable pub mem : String → List String → Bool
mem id [] = false
mem id (x ∷ xs) = str_eq x id || mem id xs

-- What a call of Acquire answers, told by whether the account was registered.
abbrev pub answer_of : String → Bool → Result Context
answer_of id false = fail cell_not_found
answer_of id true = if str_eq id "" then fail tenant_mismatch else ok (new_context id)

-- The cell of an account, if it has one, is that of its own context.
abbrev Known : CellManager → String → Bool → Type 0
Known m id b = find_cell id m.cells ≡ (if b then some (new_context id) else none)

register-Known :
    (m : CellManager) (x id : String) (b c : Bool)
    → Known m x c
    → Known m id b
    → Known (register m x).0 id (str_eq x id || b)
unfolding register find_cell
register-Known m x id b true old k = elim (Bool-cases (str_eq x id)) [
  | inl same ↦
      rw (old, register, same)
        (subst (λ s. find_cell s m.cells ≡ some (new_context s)) ((eq_iff x id).0 same) old)
  | inr other ↦ rw (old, register, other) k
]
register-Known m x id b false old k = elim (Bool-cases (str_eq x id)) [
  | inl same ↦ rw (old, register, same) (ap (λ s. some (new_context s)) ((eq_iff x id).0 same))
  | inr other ↦ rw (old, register, other) k
]

or_swap : (a b c : Bool) → (b || (a || c)) ≡ ((a || b) || c)
or_swap true true c = refl
or_swap true false c = refl
or_swap false b c = refl

register_all-Known :
    (ids : List String) (m : CellManager) (p : String → Bool)
    → ((id : String) → Known m id (p id))
    → (id : String) → Known (register_all m ids) id (mem id ids || p id)
unfolding register_all mem
register_all-Known [] m p known id = known id
register_all-Known (x ∷ ids) m p known id =
    subst (λ b. Known (register_all (register m x).0 ids) id b)
      (or_swap (str_eq x id) (mem id ids) (p id))
      (register_all-Known ids (register m x).0 (λ i. str_eq x i || p i)
        (λ i. register-Known m x i (p i) (p x) (known x) (known i)) id)

or_false : (b : Bool) → (b || false) ≡ b
or_false true = refl
or_false false = refl

-- After any registrations, Acquire answers with the account's own context exactly for the accounts
-- that were registered and whose identifier is not empty, with the tenant error for the empty one
-- if it was registered, and with the error of a missing cell for all others.
pub acquire-register_all :
    (ids : List String) (id : String)
    → acquire (register_all new_cell_manager ids) id ≡ answer_of id (mem id ids)
unfolding acquire authorize find_cell new_context
acquire-register_all ids id =
    let found : Known (register_all new_cell_manager ids) id (mem id ids) =
      subst (λ b. Known (register_all new_cell_manager ids) id b) (or_false (mem id ids))
        (register_all-Known ids new_cell_manager (λ i. false) (λ i. refl) id) in
    elim (Bool-cases (mem id ids)) [
      | inr absent ↦ rw (found, acquire, absent) refl
      | inl there ↦
          rw (found, acquire, there)
            (elim (Bool-cases (str_eq id "")) [
              | inl empty ↦ rw empty refl
              | inr named ↦ rw (named, eq_refl id) refl
            ])
    ]
