-- ===== src/App/Sticky/Accept.antt =====
-- Which candidate for a lost address is taken.
pub mod Window
use digital_ocean_bot.App.Sticky.Observe.{
  locale_for_country, equal_fold, Net, StickyGeo, observe_sticky_geo,
}
use digital_ocean_bot.Prelude.{
  zero, [], ◌∷◌, ◌≢◌, ap, subst, get_elem?, eq_iff, eq_refl, ℕ, suc, String, ◌≡◌, refl, sym, ◌∙◌,
  ◌⊎◌, inl, inr, Bool, true, false, Option, none, some, List, arith, str_eq, Bool-cases,
  Option-cases,
}
use digital_ocean_bot.Prelude.Int.{ℤ, pos, ◌-ℤ◌, ◌≤ℤ◌, leb_ℤ, int_laws}
use digital_ocean_bot.Text.{codes}
use mathlib.Core.Bool.{false≢true}
use digital_ocean_bot.App.Proxy.{capabilities, adapter_by_name}
use digital_ocean_bot.Errors.{Error}
use digital_ocean_bot.Sql.{ok, Result-cases}
use digital_ocean_bot.Network
use digital_ocean_bot.Network.Route.{new_proxy_gateway}
use digital_ocean_bot.App.Repository.{
  exec, run_unless, same_column, text_of, Identity, World, fault, tick,
}
use digital_ocean_bot.App.Sticky.Rows.{
  without_dashes, or_keep, update_identity, taken, new_session, with_address,
}
use digital_ocean_bot.App.Sticky.Config.{Sticky}
use digital_ocean_bot.App.Sticky.Steps.{exec_, store_address}
use digital_ocean_bot.App.Sticky.Rotate.{
  sticky_fallback_after, accept, judge_candidate, search_address, recover_address, window_over,
  country_refused, search_user, mark_rotation,
}
use digital_ocean_bot.App.Sticky.Isolation.Writes.{announce_identities}
use digital_ocean_bot.App.Sticky.Accept.Window.{Allowed, country_refused-Allowed}

-- What a search that ends without an error has written: an address that the proxy showed, that no
-- other account has, and whose country is not refused.
record Found (net : Net) (rows : List Identity) (id : String) (s : Sticky) (session : List ℕ)
    (b : Bool) (after : List Identity) : Type 0 where
  time : ℕ
  geo : StickyGeo
  seen : observe_sticky_geo net time (search_user s session b) ≡ ok geo
  wanted : country_refused s geo b ≡ false
  unique : taken net id geo.ip rows ≡ false
  stored : after ≡ update_identity id (with_address net geo (some session) b) rows

-- No row of another account has the address or the subnet.
abbrev pub IsUnique : Net → String → String → List Identity → Type 0
IsUnique net id ip rows =
    (i : ℕ) (x : Identity)
    → get_elem? rows i ≡ some x
    → x.account_id ≢ id
    → (x.exit_ip ≢ some (net.host ip)) × (x.subnet_key ≢ some (net.subnet ip))

-- The rows as they were, or the account's row marked at the time of the clock, which needs that no
-- rotation is under way.
abbrev pub Marked : World → String → Sticky → List Identity → Type 0
Marked w id s rows =
    (rows ≡ w.identities)
    ⊎ ((s.started ≡ none)
        × (rows
            ≡ update_identity id
                (λ i. record i {
                  rotation_started_at = some w.sql.clock;
                  last_health_ok = some false;
                })
                w.identities))

mark_rotation-Marked :
    (w : World) (id : String) (s : Sticky) → Marked w id s (mark_rotation w id s).identities
unfolding mark_rotation
mark_rotation-Marked w id s = elim (Option-cases s.started) [
  | inr (t, under_way) ↦ rw (under_way, mark_rotation) (inl refl)
  | inl idle ↦ elim (Option-cases (fault w)) [
    | inr (e, lost) ↦ rw (idle, mark_rotation, exec_, exec, run_unless, lost) (inl refl)
    | inl sent ↦ rw (idle, mark_rotation, exec_, exec, run_unless, sent) (inr (refl, refl))
  ]
]

-- What the replacement of an address has written: an address that the proxy showed for the session
-- that the database made for the first statement after the mark, that no other account has, and
-- whose country is right.
pub record Accepted (net : Net) (w : World) (id : String) (s : Sticky) (after : List Identity)
    : Type 0 where
  pub time : ℕ
  pub geo : StickyGeo
  pub session : List ℕ
  pub marked : Marked w id s (mark_rotation w id s).identities
  pub new :
      session
      ≡ without_dashes (codes ((mark_rotation w id s).sql.new_id (mark_rotation w id s).sql.calls))
  pub seen : observe_sticky_geo net time (search_user s session (window_over w s)) ≡ ok geo
  pub allowed : Allowed w s geo
  pub unique : IsUnique net id geo.ip (mark_rotation w id s).identities
  pub stored :
      after
      ≡ update_identity id
          (λ i. record i {
            sticky_session = some session;
            exit_ip = some (net.host geo.ip);
            subnet_key = some (net.subnet geo.ip);
            country = some geo.country;
            timezone = or_keep geo.timezone i.timezone;
            locale = locale_for_country net geo.country_code;
            last_health_ok = some true;
            rotation_started_at = none;
            fallback_active = window_over w s;
          })
          (mark_rotation w id s).identities

same_column-ne : (a : Option String) (b : String) → same_column a (some b) ≡ false → a ≢ some b
same_column-ne none b h e = absurd cc
same_column-ne (some a) b h e = absurd (ground (arith, eq_refl b, ap text_of e))

taken-IsUnique :
    (net : Net) (id ip : String) (rows : List Identity)
    → taken net id ip rows ≡ false
    → IsUnique net id ip rows
unfolding taken
taken-IsUnique net id ip [] free i x at other = absurd cc
taken-IsUnique net id ip (y ∷ rows) free (suc i) x at other =
    taken-IsUnique net id ip rows (ground arith) i x at other
taken-IsUnique net id ip (y ∷ rows) free zero x at other =
    subst (λ r. (r.exit_ip ≢ some (net.host ip)) × (r.subnet_key ≢ some (net.subnet ip))) here
      (
        same_column-ne y.exit_ip (net.host ip) (ground (arith, foreign)),
        same_column-ne y.subnet_key (net.subnet ip) (ground (arith, foreign)),
      )
  where
    here : y ≡ x
    here = cc

    foreign : str_eq y.account_id id ≡ false
    foreign = elim (Bool-cases (str_eq y.account_id id)) [
      | inl own ↦
          absurd (other (ap (λ r. r.account_id) (sym here) ∙ (eq_iff y.account_id id).0 own))
      | inr apart ↦ apart
    ]

none-ne-some : {e : Error} → none ≡ some e → ⊥
none-ne-some h = cc

module _ (net : Net) where
  store_address-stored :
      (w : World) (id : String) (geo : StickyGeo) (session : List ℕ) (b : Bool)
      → fault w ≡ none
      → (store_address net w id geo session b).0.identities
        ≡ update_identity id (with_address net geo (some session) b) w.identities
  unfolding store_address
  store_address-stored w id geo session b good = rw (good, store_address) refl

  accept-stored :
      (w : World) (id : String) (s : Sticky) (geo : StickyGeo) (session : List ℕ) (b : Bool)
      → (accept net w id s geo session b).1 ≡ none
      → (accept net w id s geo session b).0.identities
        ≡ update_identity id (with_address net geo (some session) b) w.identities
  unfolding accept store_address
  accept-stored w id s geo session b done = elim (Option-cases (fault (tick w))) [
    | inr (e, bad) ↦ absurd (ground arith)
    | inl good ↦
        rw (good, accept, store_address)
          (announce_identities _ id _ _ ∙ store_address-stored (tick w) id geo session b good)
  ]

  judge_candidate-Found :
      (w : World) (id : String) (s : Sticky) (geo : StickyGeo) (session : List ℕ) (b : Bool) (t : ℕ)
      → observe_sticky_geo net t (search_user s session b) ≡ ok geo
      → (judge_candidate net w id s geo session b).1 ≡ none
      → Found net w.identities id s session b
          (judge_candidate net w id s geo session b).0.identities
  unfolding judge_candidate
  judge_candidate-Found w id s geo session b t shown done =
      elim (Bool-cases (country_refused s geo b)) [
        | inl refused ↦ absurd (none-ne-some (sym (rw (refused, judge_candidate) at done)))
        | inr fine ↦ elim (Option-cases (fault w)) [
          | inr (e, lost) ↦ absurd (none-ne-some (sym (rw (fine, judge_candidate, lost) at done)))
          | inl sent ↦ elim (Bool-cases (taken net id geo.ip w.identities)) [
            | inl used ↦
                absurd (none-ne-some (sym (rw (fine, judge_candidate, sent, used) at done)))
            | inr free ↦
                let done' : (accept net (tick w) id s geo session b).1 ≡ none =
                  rw (fine, judge_candidate, sent, free) at done in
                record {
                  geo = geo;
                  time = t;
                  seen = shown;
                  wanted = fine;
                  unique = free;
                  stored =
                      rw (fine, judge_candidate, sent, free)
                        (accept-stored (tick w) id s geo session b done');
                }
          ]
        ]
      ]

  search_address-Found :
      (w : World) (id : String) (p : Network.Proxy) (s : Sticky) (b : Bool)
      → (search_address net w id p s b).1 ≡ none
      → Found net w.identities id s (new_session w) b (search_address net w id p s b).0.identities
  unfolding search_address
  search_address-Found w id p s b done = elim (Option-cases (fault w)) [
    | inr (e, lost) ↦ absurd (none-ne-some (sym (rw (lost, search_address) at done)))
    | inl sent ↦ elim (Option-cases (new_proxy_gateway id p)) [
      | inr (e, bad) ↦ absurd (none-ne-some (sym (rw (sent, search_address, bad) at done)))
      | inl good ↦
          elim (Result-cases
            (observe_sticky_geo net (suc w.sql.calls) (search_user s (new_session w) b))) [
              | inr (e, lost) ↦
                  absurd (none-ne-some (sym (rw (sent, search_address, good, lost) at done)))
              | inl (geo, seen) ↦
                  let done' : (judge_candidate net (tick w) id s geo (new_session w) b).1 ≡ none =
                    rw (sent, search_address, good, seen) at done in
                  rw (sent, search_address, good, seen)
                    (judge_candidate-Found (tick w) id s geo (new_session w) b (suc w.sql.calls)
                      seen done')
            ]
    ]
  ]

  -- If the replacement of a lost address ends without an error, then the rows are those from
  -- before, where the account's row may be marked with the start of the rotation if none was under
  -- way, with one address taken in the account's row: one that the proxy showed for the session
  -- which the database made for this search, that no row of another account has in whole or by its
  -- subnet, and whose country is the preferred one up to the case of its letters, unless a
  -- fallback is in use, the account is without its address for five minutes, or no country is
  -- preferred or can be asked for.
  pub recover_address-Accepted :
      (w : World) (id : String) (p : Network.Proxy) (s : Sticky)
      → (recover_address net w id p s).1 ≡ none
      → Accepted net w id s (recover_address net w id p s).0.identities
  unfolding recover_address with_address
  recover_address-Accepted w id p s done =
      let w1 = mark_rotation w id s in
      let found = search_address-Found w1 id p s (window_over w s) done in
      record {
        time = found.time;
        geo = found.geo;
        session = new_session w1;
        marked = mark_rotation-Marked w id s;
        new = refl;
        seen = found.seen;
        allowed = country_refused-Allowed w s found.geo found.wanted;
        unique = taken-IsUnique net id found.geo.ip w1.identities found.unique;
        stored = found.stored;
      }
