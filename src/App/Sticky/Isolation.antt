-- ===== src/App/Sticky/Isolation.antt =====
-- No two accounts share an exit address or its subnet: the predicate, and the two ways in which the
-- statements of internal/app/sticky_proxy.go change the rows.
use digital_ocean_bot.Prelude.{
  Option-cases, ◌++◌, String, ◌≡◌, refl, sym, subst, ◌⊎◌, inl, inr, true, false, ◌||◌, Option, none,
  some, List, [], ◌∷◌, arith, eq_iff, str_eq, Bool-cases,
}
use digital_ocean_bot.App.Repository.{
  World, exec, fault, tick, exec, tick, World, Identity, same_column, find_identity,
}
use digital_ocean_bot.App.Sticky.Rows.{has_identity, upsert_identity, update_identity, taken}
pub mod Writes
pub mod Rotation
pub mod Whole
use digital_ocean_bot.App.Sticky.Observe.{Net}

abbrev pub Apart : Identity → Identity → Type 0
Apart i j =
    (same_column i.exit_ip j.exit_ip ≡ false) × (same_column i.subnet_key j.subnet_key ≡ false)

unfoldable pub IsIsolated : List Identity → Type 0
IsIsolated rows =
    (a b : String) (i j : Identity)
    → find_identity a rows ≡ some i
    → find_identity b rows ≡ some j
    → str_eq a b ≡ false
    → Apart i j

abbrev pub mapped : (Identity → Identity) → Option Identity → Option Identity
mapped f none = none
mapped f (some i) = some (f i)

abbrev pub Keeps : (Identity → Identity) → Type 0
Keeps f = (i : Identity) → (f i).account_id ≡ i.account_id

differs : (x a id : String) → str_eq x id ≡ true → str_eq a id ≡ false → str_eq x a ≡ false
differs x a id e apart = ground (arith, eq_iff x id, eq_iff a id, eq_iff x a)

-- What is found after an update was there before, as it was or as the update made it.
abbrev Before : String → String → (Identity → Identity) → List Identity → Identity → Type 0
Before a id f rows new =
    (i : Identity) × (find_identity a rows ≡ some i)
    × ((str_eq a id ≡ false) × (new ≡ i) ⊎ (str_eq a id ≡ true) × (new ≡ f i))

found-update :
    (id a : String) (f : Identity → Identity) (rows : List Identity) (new : Identity)
    → Keeps f
    → find_identity a (update_identity id f rows) ≡ some new
    → Before a id f rows new
unfolding find_identity update_identity
found-update id a f [] new keeps h = absurd (ground arith)
found-update id a f (i ∷ rows) new keeps h = elim (Bool-cases (str_eq i.account_id id)) [
  | inl own ↦ elim (Bool-cases (str_eq i.account_id a)) [
    | inl hit ↦
        let hit' : str_eq (f i).account_id a ≡ true = rw (keeps i) hit in
        let here : some (f i) ≡ some new = rw (own, hit') at h in
        (
          i,
          rw hit refl,
          inr (ground (arith, eq_iff i.account_id id, eq_iff i.account_id a, eq_iff a id), cc),
        )
    | inr miss ↦
        let miss' : str_eq (f i).account_id a ≡ false = rw (keeps i) miss in
        let later : find_identity a (update_identity id f rows) ≡ some new = rw (own, miss') at h in
        let (j, found, how) = found-update id a f rows new keeps later in (j, rw miss found, how)
  ]
  | inr other ↦ elim (Bool-cases (str_eq i.account_id a)) [
    | inl hit ↦
        let here : some i ≡ some new = rw (other, hit) at h in
        (
          i,
          rw hit refl,
          inl (ground (arith, eq_iff i.account_id id, eq_iff i.account_id a, eq_iff a id), cc),
        )
    | inr miss ↦
        let later : find_identity a (update_identity id f rows) ≡ some new =
          rw (other, miss) at h in
        let (j, found, how) = found-update id a f rows new keeps later in (j, rw miss found, how)
  ]
]

-- An update that keeps the addresses.
pub update-IsIsolated :
    (id : String) (f : Identity → Identity) (rows : List Identity)
    → Keeps f
    → ((i : Identity) → ((f i).exit_ip ≡ i.exit_ip) × ((f i).subnet_key ≡ i.subnet_key))
    → IsIsolated rows
    → IsIsolated (update_identity id f rows)
unfolding IsIsolated
update-IsIsolated id f rows keeps same isolated a b i' j' found_i found_j apart =
    let (i, fi, how_i) = found-update id a f rows i' keeps found_i in
    let (j, fj, how_j) = found-update id b f rows j' keeps found_j in
    ground (arith, isolated a b i j fi fj apart, same i, same j)

same_column_comm :
    (x : Option String) (t : String) → same_column x (some t) ≡ same_column (some t) x
same_column_comm none t = refl
same_column_comm (some s) t = ground (arith, eq_iff s t, eq_iff t s)

some_injective : (i j : Identity) → some i ≡ some j → i ≡ j
some_injective i j e = cc

-- A row of another account is apart from an address that is not taken.
untaken :
    (net : Net) (id ip b : String) (rows : List Identity) (j : Identity)
    → taken net id ip rows ≡ false
    → find_identity b rows ≡ some j
    → str_eq b id ≡ false
    → (same_column j.exit_ip (some (net.host ip)) ≡ false)
      × (same_column j.subnet_key (some (net.subnet ip)) ≡ false)
unfolding taken find_identity
untaken net id ip b [] j free found other = absurd (ground arith)
untaken net id ip b (i ∷ rows) j free found other = elim (Bool-cases (str_eq i.account_id b)) [
  | inl hit ↦
      let here : i ≡ j = some_injective i j (rw hit at found) in
      let apart : str_eq i.account_id id ≡ false =
        ground (arith, eq_iff i.account_id id, eq_iff i.account_id b, eq_iff b id) in
      let now : (same_column i.exit_ip (some (net.host ip))
            || same_column i.subnet_key (some (net.subnet ip))
            || taken net id ip rows)
          ≡ false =
        rw apart at free in
      subst
        (λ k.
          (same_column k.exit_ip (some (net.host ip)) ≡ false)
          × (same_column k.subnet_key (some (net.subnet ip)) ≡ false))
        (here) (ground arith)
  | inr miss ↦
      let later : find_identity b rows ≡ some j = rw miss at found in
      let rest : taken net id ip rows ≡ false = ground arith in
      untaken net id ip b rows j rest later other
]

-- An update that takes an address which no other account has.
pub take-IsIsolated :
    (net : Net) (id ip : String) (f : Identity → Identity) (rows : List Identity)
    → Keeps f
    → ((i : Identity)
        → ((f i).exit_ip ≡ some (net.host ip)) × ((f i).subnet_key ≡ some (net.subnet ip)))
    → taken net id ip rows ≡ false
    → IsIsolated rows
    → IsIsolated (update_identity id f rows)
unfolding IsIsolated
take-IsIsolated net id ip f rows keeps takes free isolated a b i' j' found_i found_j apart =
    let (i, fi, how_i) = found-update id a f rows i' keeps found_i in
    let (j, fj, how_j) = found-update id b f rows j' keeps found_j in
    elim how_i [
      | inl (other_i, ei) ↦ elim how_j [
        | inl (other_j, ej) ↦ rw (ei, ej) (isolated a b i j fi fj apart)
        | inr (own_j, ej) ↦
            let (addresses, subnets) = untaken net id ip a rows i free fi other_i in
            rw (ei, ej, (takes j).0, (takes j).1) (addresses, subnets)
      ]
      | inr (own_i, ei) ↦ elim how_j [
        | inl (other_j, ej) ↦
            let (addresses, subnets) = untaken net id ip b rows j free fj other_j in
            rw
              (
                ei,
                ej,
                (takes i).0,
                (takes i).1,
                sym (same_column_comm j.exit_ip (net.host ip)),
                sym (same_column_comm j.subnet_key (net.subnet ip)),
              )
              (addresses, subnets)
        | inr (own_j, ej) ↦ absurd (ground (arith, eq_iff a id, eq_iff b id, eq_iff a b))
      ]
    ]

same_column-none : (x : Option String) → same_column x none ≡ false
same_column-none none = refl
same_column-none (some s) = refl

found-append :
    (a : String) (rows : List Identity) (fresh new : Identity)
    → find_identity a (rows ++ fresh ∷ []) ≡ some new
    → (find_identity a rows ≡ some new) ⊎ (new ≡ fresh)
unfolding find_identity
found-append a [] fresh new h = inr (ground arith)
found-append a (i ∷ rows) fresh new h = elim (Bool-cases (str_eq i.account_id a)) [
  | inl hit ↦ let here : some i ≡ some new = rw hit at h in inl (rw hit here)
  | inr miss ↦
      let later : find_identity a (rows ++ fresh ∷ []) ≡ some new = rw miss at h in
      rw miss (found-append a rows fresh new later)
]

-- A new row without an address.
append-IsIsolated :
    (fresh : Identity) (rows : List Identity)
    → fresh.exit_ip ≡ none
    → fresh.subnet_key ≡ none
    → IsIsolated rows
    → IsIsolated (rows ++ fresh ∷ [])
unfolding IsIsolated
append-IsIsolated fresh rows no_ip no_subnet isolated a b i j found_i found_j apart =
    elim (found-append a rows fresh i found_i) [
      | inr ei ↦ rw (ei, no_ip, no_subnet) (refl, refl)
      | inl fi ↦ elim (found-append b rows fresh j found_j) [
        | inr ej ↦
            rw (ej, no_ip, no_subnet) (same_column-none i.exit_ip, same_column-none i.subnet_key)
        | inl fj ↦ isolated a b i j fi fj apart
      ]
    ]

pub upsert-IsIsolated :
    (id : String) (fresh : Identity) (f : Identity → Identity) (rows : List Identity)
    → fresh.exit_ip ≡ none
    → fresh.subnet_key ≡ none
    → Keeps f
    → ((i : Identity) → ((f i).exit_ip ≡ i.exit_ip) × ((f i).subnet_key ≡ i.subnet_key))
    → IsIsolated rows
    → IsIsolated (upsert_identity id fresh f rows)
unfolding upsert_identity
upsert-IsIsolated id fresh f rows no_ip no_subnet keeps same isolated =
    elim (Bool-cases (has_identity id rows)) [
      | inl e ↦ rw e (update-IsIsolated id f rows keeps same isolated)
      | inr e ↦ rw e (append-IsIsolated fresh rows no_ip no_subnet isolated)
    ]

-- A statement keeps what holds of the rows before it and after its effect.
pub exec-IsIsolated :
    (w : World) (f : World → World)
    → IsIsolated w.identities
    → IsIsolated (f (tick w)).identities
    → IsIsolated (exec w f).0.identities
exec-IsIsolated w f before after = elim (Option-cases (fault w)) [
  | inl e ↦ rw e after
  | inr (x, e) ↦ rw e before
]

pub exec-identities :
    (w : World) (f : World → World)
    → ((v : World) → (f v).identities ≡ v.identities)
    → (exec w f).0.identities ≡ w.identities
exec-identities w f keeps = elim (Option-cases (fault w)) [
  | inl e ↦ rw e (keeps (tick w))
  | inr (x, e) ↦ rw e refl
]
