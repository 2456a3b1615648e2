-- ===== src/Droplets/Lifecycle/Due.antt =====
-- Which droplets LifecycleStore.Due returns, and in which order.
use digital_ocean_bot.Prelude.{
  ℕ, zero, suc, ◌+◌, min, String, ◌≡◌, refl, ap, ◌∙◌, ◌⊎◌, inl, inr, Bool, true, false, ◌&&◌, none,
  List, [], ◌∷◌, arith, if◌then◌else◌, Bool-cases, Option-cases, length, take, length-take,
}
use digital_ocean_bot.Prelude.Int.{ℤ, ◌+ℤ◌, ◌≤ℤ◌, leb_ℤ}
use digital_ocean_bot.Sql.{statement}
use digital_ocean_bot.Droplets.Lifecycle.{
  LifecycleItem, Fleet, sql_of, is_live, expires_by, expiry, insert_by_expiry, due_rows, batch_size,
  due,
}

abbrev is_due : (String → ℤ) → ℤ → LifecycleItem → Bool
is_due lead now x = is_live x.state && expires_by (now +ℤ lead x.account_id) x.expires_at

-- Every item is live and expires within its account's lead time.
pub AllDue : (String → ℤ) → ℤ → List LifecycleItem → Type 0
AllDue lead now [] = Unit {0}
AllDue lead now (x ∷ xs) = (is_due lead now x ≡ true) × AllDue lead now xs

-- No item of the list expires before `t`, if the list is in order.
abbrev pub From : ℤ → List LifecycleItem → Type 0
From t [] = Unit {0}
From t (x ∷ xs) = t ≤ℤ expiry x

pub InOrder : List LifecycleItem → Type 0
InOrder [] = Unit {0}
InOrder (x ∷ xs) = From (expiry x) xs × InOrder xs

order-cases : (a b : ℤ) → (leb_ℤ a b ≡ true) × (a ≤ℤ b) ⊎ (leb_ℤ a b ≡ false) × (b ≤ℤ a)
order-cases a b = elim (Bool-cases (leb_ℤ a b)) [
  | inl le ↦ inl (le, ground (arith, le))
  | inr gt ↦ inr (gt, ground (arith, gt))
]

insert-From :
    (t : ℤ) (x : LifecycleItem) (xs : List LifecycleItem)
    → t ≤ℤ expiry x
    → From t xs
    → From t (insert_by_expiry x xs)
unfolding insert_by_expiry
insert-From t x [] h f = h
insert-From t x (y ∷ ys) h f = elim (Bool-cases (leb_ℤ (expiry x) (expiry y))) [
  | inl le ↦ rw le h
  | inr gt ↦ rw gt f
]

insert-InOrder :
    (x : LifecycleItem) (xs : List LifecycleItem) → InOrder xs → InOrder (insert_by_expiry x xs)
unfolding insert_by_expiry InOrder
insert-InOrder x [] o = (tt, tt)
insert-InOrder x (y ∷ ys) (f, o) = elim (order-cases (expiry x) (expiry y)) [
  | inl (le, h) ↦ rw le (h, (f, o))
  | inr (gt, h) ↦ rw gt (insert-From (expiry y) x ys h f, insert-InOrder x ys o)
]

insert-AllDue :
    (lead : String → ℤ) (now : ℤ) (x : LifecycleItem) (xs : List LifecycleItem)
    → is_due lead now x ≡ true
    → AllDue lead now xs
    → AllDue lead now (insert_by_expiry x xs)
unfolding insert_by_expiry AllDue
insert-AllDue lead now x [] d a = (d, tt)
insert-AllDue lead now x (y ∷ ys) d (e, a) = elim (Bool-cases (leb_ℤ (expiry x) (expiry y))) [
  | inl le ↦ rw le (d, (e, a))
  | inr gt ↦ rw gt (e, insert-AllDue lead now x ys d a)
]

due_rows-Good :
    (lead : String → ℤ) (now : ℤ) (rows : List LifecycleItem)
    → AllDue lead now (due_rows lead now rows) × InOrder (due_rows lead now rows)
unfolding due_rows AllDue InOrder
due_rows-Good lead now [] = (tt, tt)
due_rows-Good lead now (x ∷ xs) =
    let (a, o) = due_rows-Good lead now xs in
    let rest = due_rows lead now xs in
    elim (Bool-cases (is_due lead now x)) [
      | inl wanted ↦ rw wanted (insert-AllDue lead now x rest wanted a, insert-InOrder x rest o)
      | inr early ↦ rw early (a, o)
    ]

take-From : (n : ℕ) (t : ℤ) (xs : List LifecycleItem) → From t xs → From t (take n xs)
take-From zero t xs f = tt
take-From (suc n) t [] f = tt
take-From (suc n) t (x ∷ xs) f = f

take-Good :
    (lead : String → ℤ) (now : ℤ) (n : ℕ) (xs : List LifecycleItem)
    → AllDue lead now xs × InOrder xs
    → AllDue lead now (take n xs) × InOrder (take n xs)
unfolding AllDue InOrder
take-Good lead now zero xs g = (tt, tt)
take-Good lead now (suc n) [] g = (tt, tt)
take-Good lead now (suc n) (x ∷ xs) ((d, a), (f, o)) =
    let (a', o') = take-Good lead now n xs (a, o) in ((d, a'), (take-From n (expiry x) xs f, o'))

-- How many rows are due.
pub due_count : (String → ℤ) → ℤ → List LifecycleItem → ℕ
due_count lead now [] = 0
due_count lead now (x ∷ xs) = (if is_due lead now x then 1 else 0) + due_count lead now xs

length-insert :
    (x : LifecycleItem) (xs : List LifecycleItem) → length (insert_by_expiry x xs) ≡ suc (length xs)
unfolding insert_by_expiry
length-insert x [] = refl
length-insert x (y ∷ ys) = ground (arith, length-insert x ys)

length-due_rows :
    (lead : String → ℤ) (now : ℤ) (rows : List LifecycleItem)
    → length (due_rows lead now rows) ≡ due_count lead now rows
unfolding due_rows due_count
length-due_rows lead now [] = refl
length-due_rows lead now (x ∷ xs) =
    let ih = length-due_rows lead now xs in
    let rest = due_rows lead now xs in
    elim (Bool-cases (is_due lead now x)) [
      | inl wanted ↦ rw wanted (omega (arith, length-insert x rest, ih))
      | inr early ↦ rw early (omega (arith, ih))
    ]

nothing_due : (lead : String → ℤ) (now : ℤ) → AllDue lead now [] × InOrder []
unfolding AllDue InOrder
nothing_due lead now = (tt, tt)

-- Due returns rows that are live and expire within their account's lead time, in the order of
-- their expiry, and as many as there are of these up to the limit, or none of them with an error.
pub due-InOrder :
    (lead : String → ℤ) (f : Fleet) (now limit : ℤ)
    → let r = due lead f now limit in
      AllDue lead now r.1
      × InOrder r.1
      × (r.2 ≡ none → length r.1 ≡ min (batch_size limit) (due_count lead now f.droplets))
unfolding due
due-InOrder lead f now limit =
    let n = batch_size limit in
    let rows = due_rows lead now f.droplets in
    elim (Option-cases (statement (sql_of f)).1) [
      | inr (e, lost) ↦
          let (a, o) = nothing_due lead now in rw (lost, due) (a, o, λ e. ground arith)
      | inl fine ↦
          let (a, o) = take-Good lead now n rows (due_rows-Good lead now f.droplets) in
          let count = length-due_rows lead now f.droplets in
          let whole : length (take n rows) ≡ min n (due_count lead now f.droplets) =
            length-take n rows ∙ ap (min n) count in
          rw (fine, due) (a, o, λ e. whole)
    ]
