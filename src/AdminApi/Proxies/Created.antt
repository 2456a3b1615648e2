-- ===== src/AdminApi/Proxies/Created.antt =====
-- What createProxy leaves in the table.
use digital_ocean_bot.Prelude.{
  if_cases, suc, String, ◌≡◌, refl, ap, ◌∙◌, ◌⊎◌, inl, inr, true, false, Option, none, some, List,
  [], ◌∷◌, ◌++◌, arith, eq_refl, str_eq, ◌==◌, if◌then◌else◌, Bool-cases, Option-cases,
}
use digital_ocean_bot.Errors.{Error, unique_violation}
use digital_ocean_bot.Sql.{Result, ok, fail, Result-cases}
use digital_ocean_bot.Auth.{Role}
use digital_ocean_bot.AdminApi.Accounts.Create.{Answer, answer}
use digital_ocean_bot.AdminApi.Proxies.{
  ProxyWrite, Proxy, World, Env, valid_proxy_write, resolve_proxy_type, has_proxy, change_proxy,
  remove_proxy, applied, new_proxy, inserted, clean_up, mark_healthy, refer_secret, store_password,
  insert_and_store, create_proxy,
}

remove_proxy-append :
    (id : String) (xs : List Proxy) (x : Proxy)
    → has_proxy id xs ≡ false
    → str_eq x.id id ≡ true
    → remove_proxy id (xs ++ x ∷ []) ≡ xs
unfolding remove_proxy has_proxy
remove_proxy-append id [] x absent same = rw same refl
remove_proxy-append id (y ∷ ys) x absent same =
    let other : str_eq y.id id ≡ false = ground arith in
    rw other (ap (λ t. y ∷ t) (remove_proxy-append id ys x (ground arith) same))

change_proxy-append :
    (id : String) (f : Proxy → Proxy) (xs : List Proxy) (x : Proxy)
    → has_proxy id xs ≡ false
    → str_eq x.id id ≡ true
    → change_proxy id f (xs ++ x ∷ []) ≡ xs ++ f x ∷ []
unfolding change_proxy has_proxy
change_proxy-append id f [] x absent same = rw same refl
change_proxy-append id f (y ∷ ys) x absent same =
    let other : str_eq y.id id ≡ false = ground arith in
    rw other (ap (λ t. y ∷ t) (change_proxy-append id f ys x (ground arith) same))

-- The table has one row more, with this status.
abbrev pub Added : List Proxy → String → List Proxy → Type 0
Added rows status rows' = (x : Proxy) × (rows' ≡ rows ++ x ∷ []) × (x.status ≡ status)

-- The proxy was created, or it was not and no proxy is left that can be assigned.
abbrev pub Outcome : List Proxy → World × Answer → Type 0
Outcome rows (w, a) =
    ((a.status ≡ 201) × Added rows "healthy" w.proxies)
    ⊎ (((a.status == 201) ≡ false) × ((w.proxies ≡ rows) ⊎ Added rows "unknown" w.proxies))

-- The store of secrets does not touch the table.
pub record Apart (env : Env) : Type 0 where
  pub put :
      (w : World) (id password : String) → (env.put_secret w id password).0.proxies ≡ w.proxies
  pub delete : (w : World) (id : String) → (env.delete_secret w id).proxies ≡ w.proxies

-- While the handler runs the new row is the last one, and not healthy yet.
record Pending (rows : List Proxy) (id : String) (w : World) : Type 0 where
  row : Proxy
  absent : has_proxy id rows ≡ false
  same : str_eq row.id id ≡ true
  unknown : row.status ≡ "unknown"
  last : w.proxies ≡ rows ++ row ∷ []

abbrev fault : World → Option Error
fault w = w.sql.fault w.sql.calls

applied_cases :
    (P : World × Option Error → Type 0) (w : World) (effect : List Proxy → List Proxy)
    (lost : Option Error)
    → ((e : Error) → P (w, some e))
    → P (record w { proxies = effect w.proxies }, none)
    → P (applied w effect lost)
applied_cases P w effect (some e) bad good = bad e
applied_cases P w effect none bad good = good

-- The connection counts the statement.
abbrev counted : World → World
counted w = record w { sql = record w.sql { calls = suc w.sql.calls } }

-- The new row is changed, and nothing else.
Pending-change :
    (rows : List Proxy) (id : String) (f : Proxy → Proxy) (w : World) (p : Pending rows id w)
    → change_proxy id f w.proxies ≡ rows ++ f p.row ∷ []
Pending-change rows id f w p =
    ap (λ t. change_proxy id f t) p.last ∙ change_proxy-append id f rows p.row p.absent p.same

Pending-last :
    (rows : List Proxy) (id : String) (v w : World)
    → v.proxies ≡ w.proxies
    → Pending rows id w
    → Pending rows id v
Pending-last rows id v w e p = record {
  row = p.row;
  absent = p.absent;
  same = p.same;
  unknown = p.unknown;
  last = e ∙ p.last;
}

clean_up-Outcome :
    (rows : List Proxy) (id : String) (w : World)
    → Pending rows id w
    → Outcome rows (clean_up w id, answer 500 "internal_error")
unfolding clean_up
clean_up-Outcome rows id w p =
    applied_cases (λ r. Outcome rows (r.0, answer 500 "internal_error")) (counted w)
      (remove_proxy id) (fault w) (λ e. inr (refl, inr (p.row, p.last, p.unknown)))
      (inr (
        refl,
        inl (
            ap (λ t. remove_proxy id t) p.last ∙ remove_proxy-append id rows p.row p.absent p.same),
      ))

module _ (env : Env) (apart : Apart env) (rows : List Proxy) (id : String) where
  forget-Outcome :
      (w : World)
      → Pending rows id w
      → Outcome rows (clean_up (env.delete_secret w id) id, answer 500 "internal_error")
  forget-Outcome w p =
      clean_up-Outcome rows id (env.delete_secret w id)
        (Pending-last rows id (env.delete_secret w id) w (apart.delete w id) p)

  mark_healthy-Outcome : (w : World) → Pending rows id w → Outcome rows (mark_healthy env w id)
  unfolding mark_healthy
  mark_healthy-Outcome w p =
      let heal : Proxy → Proxy = λ x. record x { status = "healthy" } in
      applied_cases
        (λ r. Outcome rows (elim r.1 [
          | some e ↦ (clean_up (env.delete_secret r.0 id) id, answer 500 "internal_error")
          | none ↦ (r.0, answer 201 "")
        ]))
        (counted w) (change_proxy id heal) (fault w)
        (λ e. forget-Outcome (counted w) (Pending-last rows id (counted w) w refl p))
        (inl (refl, (heal p.row, Pending-change rows id heal w p, refl)))

  refer_secret-Outcome : (w : World) → Pending rows id w → Outcome rows (refer_secret env w id)
  unfolding refer_secret
  refer_secret-Outcome w p =
      let refer : Proxy → Proxy = λ x. record x { secret_ref = "proxy-password" } in
      applied_cases
        (λ r. Outcome rows (elim r.1 [
          | some e ↦ (clean_up (env.delete_secret r.0 id) id, answer 500 "internal_error")
          | none ↦ mark_healthy env r.0 id
        ]))
        (counted w) (change_proxy id refer) (fault w)
        (λ e. forget-Outcome (counted w) (Pending-last rows id (counted w) w refl p))
        (mark_healthy-Outcome (record (counted w) { proxies = change_proxy id refer w.proxies })
          (record {
            row = refer p.row;
            absent = p.absent;
            same = p.same;
            unknown = p.unknown;
            last = Pending-change rows id refer w p;
          }))

  store_password-Outcome :
      (w : World) (x : ProxyWrite) → Pending rows id w → Outcome rows (store_password env w x id)
  unfolding store_password
  store_password-Outcome w x p =
      let w1 = (env.put_secret w id x.password).0 in
      let q : Pending rows id w1 = record {
        row = p.row;
        absent = p.absent;
        same = p.same;
        unknown = p.unknown;
        last = apart.put w id x.password ∙ p.last;
      } in
      elim (Option-cases (env.put_secret w id x.password).1) [
        | inr (e, lost) ↦ rw (lost, store_password) (clean_up-Outcome rows id w1 q)
        | inl fine ↦ rw (fine, store_password) (refer_secret-Outcome w1 q)
      ]

inserted_cases :
    (P : World × Result String → Type 0) (w : World) (x : Proxy) (lost : Option Error)
    → ((e : Error) → P (w, fail e))
    → (has_proxy x.id w.proxies ≡ false → P (record w { proxies = w.proxies ++ x ∷ [] }, ok x.id))
    → P (inserted w x lost)
inserted_cases P w x (some e) bad good = bad e
inserted_cases P w x none bad good = elim (Bool-cases (has_proxy x.id w.proxies)) [
  | inl taken ↦ rw taken (bad unique_violation)
  | inr absent ↦ rw absent (good absent)
]

insert_and_store-Outcome :
    (env : Env)
    → Apart env
    → (w : World) (x : ProxyWrite) (kind : String)
    → Outcome w.proxies (insert_and_store env w x kind)
unfolding insert_and_store
insert_and_store-Outcome env apart w x kind =
    let row = new_proxy (w.sql.new_id w.sql.calls) x kind in
    inserted_cases
      (λ r. Outcome w.proxies (elim r.1 [
        | fail e ↦ (r.0, answer 409 "internal_error")
        | ok id ↦
            if str_eq x.password "" then mark_healthy env r.0 id else store_password env r.0 x id
      ]))
      (counted w) row (fault w) (λ e. inr (refl, inl refl))
      (λ absent.
        let w2 = record (counted w) { proxies = w.proxies ++ row ∷ [] } in
        let p : Pending w.proxies row.id w2 = record {
          row = row;
          absent = absent;
          same = eq_refl row.id;
          unknown = refl;
          last = refl;
        } in
        if_cases (λ r. Outcome w.proxies r) (str_eq x.password "") _ _
          (mark_healthy-Outcome env apart w.proxies row.id w2 p)
          (store_password-Outcome env apart w.proxies row.id w2 x p))

-- createProxy answers 201 and has added one row, which counts as healthy, or it gives another
-- answer and the table is as it was or has one row more, whose status is unknown, so that it can
-- be assigned to no account. This holds whichever statements fail, for every detection and every
-- store of secrets that leaves the table alone.
pub create_proxy-Outcome :
    (env : Env)
    → Apart env
    → (w : World) (role : Role) (x : Option ProxyWrite)
    → Outcome w.proxies (create_proxy env w role x)
unfolding create_proxy
create_proxy-Outcome env apart w Role.admin none = inr (refl, inl refl)
create_proxy-Outcome env apart w Role.admin (some x) = elim (Bool-cases (valid_proxy_write x)) [
  | inr wrong ↦ rw (wrong, create_proxy) (inr (refl, inl refl))
  | inl good ↦
      rw (good, create_proxy)
        (elim (Result-cases (resolve_proxy_type env w x)) [
          | inr (e, lost) ↦ rw lost (inr (refl, inl refl))
          | inl (kind, found) ↦ rw found (insert_and_store-Outcome env apart w x kind)
        ])
]
create_proxy-Outcome env apart w Role.operator x = inr (refl, inl refl)
create_proxy-Outcome env apart w Role.viewer x = inr (refl, inl refl)
create_proxy-Outcome env apart w (Role.other_role r) x = inr (refl, inl refl)
