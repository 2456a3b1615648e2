-- ===== src/Provisioning/Budget/Reserve.antt =====
-- What a reservation leaves of the bound on the commands.
use digital_ocean_bot.Prelude.{
  ◌≤◌, String, ◌≡◌, refl, sym, ap, ◌∙◌, subst, ◌≢◌, ◌⊎◌, inl, inr, Bool, true, false, Option, none,
  some, List, [], ◌∷◌, ◌++◌, arith, eq_iff, if◌then◌else◌, Bool-cases, Option-cases,
}
use digital_ocean_bot.Errors.{Error}
use digital_ocean_bot.Sql.{statement}
use digital_ocean_bot.Provisioning.{Target, Run}
use digital_ocean_bot.Provisioning.Store.{has_key, find_run, has_id, reserve}
use digital_ocean_bot.Provisioning.Engine.{requested}
use digital_ocean_bot.Provisioning.Budget.{
  World, Remote, sql_env, attempt_of, Sole, Within, Fits, own, find-key,
}
use digital_ocean_bot.Provisioning.Budget.Total.{own-attempt}
use digital_ocean_bot.Provisioning.Budget.Steps.{Keyed}

find-append_some :
    (a d : String) (xs ys : List Run) (x : Run)
    → find_run a d xs ≡ some x
    → find_run a d (xs ++ ys) ≡ some x
unfolding find_run
find-append_some a d [] ys x e = ground arith
find-append_some a d (y ∷ xs) ys x e = ground (arith, e, find-append_some a d xs ys x)

find-append_none :
    (a d : String) (xs : List Run) (row : Run)
    → find_run a d xs ≡ none
    → find_run a d (xs ++ row ∷ []) ≡ (if has_key a d row then some row else none)
unfolding find_run
find-append_none a d [] row e = refl
find-append_none a d (y ∷ xs) row e = ground (arith, e, find-append_none a d xs row)

append-cases :
    (a d : String) (xs : List Run) (row x : Run)
    → find_run a d (xs ++ row ∷ []) ≡ some x
    → (find_run a d xs ≡ some x) ⊎ (x ≡ row) × (row.account_id ≡ a) × (row.droplet_id ≡ d)
append-cases a d xs row x e = elim (Option-cases (find_run a d xs)) [
  | inr (y, old) ↦ inl (old ∙ sym (find-append_some a d xs (row ∷ []) y old) ∙ e)
  | inl nothing ↦
      let n = find-append_none a d xs row nothing in
      elim (Bool-cases (has_key a d row)) [
        | inl hit ↦
            let same : some row ≡ some x = sym (rw hit at n) ∙ e in
            inr (
              ground arith,
              ground (arith, hit, eq_iff row.account_id a),
              ground (arith, hit, eq_iff row.droplet_id d),
            )
        | inr miss ↦
            let gone : ◌≡◌ {A = Option Run} none (some x) = sym (rw miss at n) ∙ e in ground arith
      ]
]

attempt-append :
    (a d : String) (xs : List Run) (row : Run)
    → row.attempt ≡ 0
    → attempt_of (find_run a d (xs ++ row ∷ [])) ≡ attempt_of (find_run a d xs)
unfolding attempt_of
attempt-append a d xs row zero_attempts = elim (Option-cases (find_run a d xs)) [
  | inr (y, old) ↦ ap attempt_of (find-append_some a d xs (row ∷ []) y old ∙ sym old)
  | inl nothing ↦
      let n = find-append_none a d xs row nothing in
      elim (Bool-cases (has_key a d row)) [
        | inl hit ↦ ap attempt_of (rw hit at n) ∙ zero_attempts ∙ ap attempt_of (sym nothing)
        | inr miss ↦ ap attempt_of (rw miss at n) ∙ ap attempt_of (sym nothing)
      ]
]

found-id :
    (a d id : String) (xs : List Run) (x : Run)
    → find_run a d xs ≡ some x
    → has_id id xs ≡ false
    → x.id ≢ id
unfolding find_run has_id
found-id a d id [] x e h = ground arith
found-id a d id (y ∷ xs) x e h = elim (Bool-cases (has_key a d y)) [
  | inl hit ↦ ground (arith, e, hit, h, eq_iff y.id id)
  | inr miss ↦ found-id a d id xs x (ground (arith, e, miss)) (ground (arith, h))
]

append-Sole :
    (a d : String) (xs : List Run) (row : Run)
    → has_id row.id xs ≡ false
    → Sole a d xs
    → Sole a d (xs ++ row ∷ [])
unfolding Sole
append-Sole a d xs row fresh sole a' d' x y ex ey same = elim (append-cases a d xs row x ex) [
  | inl old ↦ elim (append-cases a' d' xs row y ey) [
    | inl old' ↦ sole a' d' x y old old' same
    | inr (new', k, l) ↦ absurd (found-id a d row.id xs x old fresh (same ∙ ap (λ r. r.id) new'))
  ]
  | inr (new, k, l) ↦ elim (append-cases a' d' xs row y ey) [
    | inl old' ↦ absurd (found-id a' d' row.id xs y old' fresh (sym same ∙ ap (λ r. r.id) new))
    | inr (new', k', l') ↦ (sym k' ∙ k, sym l' ∙ l)
  ]
]

own_row :
    (a d : String) (xs : List Run) (row : Run)
    → find_run a d xs ≡ some row
    → row.account_id ≡ a
    → row.droplet_id ≡ d
    → find_run row.account_id row.droplet_id xs ≡ some row
own_row a d xs row e k l =
    subst (λ s. find_run s row.droplet_id xs ≡ some row) (sym k)
      (subst (λ s. find_run a s xs ≡ some row) (sym l) e)

new_row :
    (a d : String) (xs : List Run) (row : Run)
    → find_run a d xs ≡ none
    → row.account_id ≡ a
    → row.droplet_id ≡ d
    → find_run a d (xs ++ row ∷ []) ≡ some row
new_row a d xs row e k l =
    let n = find-append_none a d xs row e in
    let hit : has_key a d row ≡ true =
      ground (arith, (eq_iff row.account_id a).1 k, (eq_iff row.droplet_id d).1 l) in
    rw hit at n

module _ (a d : String) (remote : Remote) where
  -- What a reservation for a target returns: its row, at attempt 0 if it is new.
  pub record Reserved (t : Target) (u : World × Run × Bool × Option Error) : Type 0 where
    pub within : Within a d 0 u.0
    pub held : u.3 ≡ none → Fits u.1 u.0 × Keyed a d remote t u.1 × (u.2 ≡ true → u.1.attempt ≡ 0)
    pub small : u.3 ≡ none → own a d u.1 ≡ true → u.1.attempt ≤ 11

  failed-Reserved :
      (t : Target) (w w' : World) (r : Run) (fresh : Bool) (e : Error)
      → w'.db.runs ≡ w.db.runs
      → w'.commands ≡ w.commands
      → Within a d 0 w
      → Reserved t (w', r, fresh, some e)
  failed-Reserved t w w' r fresh e rows sent i = record {
    within = record {
      counted = rw (rows, sent) i.counted;
      bounded = rw rows i.bounded;
      sole = rw rows i.sole;
    };
    held = λ e. ground arith;
    small = λ e. ground arith;
  }

  pub reserve-Reserved :
      (w : World) (t : Target)
      → Within a d 0 w
      → Reserved t ((sql_env remote).reserve w (requested t))
  unfolding reserve Keyed
  reserve-Reserved w t i =
      let s1 = statement w.db.sql in
      let id = w.db.sql.new_id w.db.sql.calls in
      let xs = w.db.runs in
      elim (Option-cases s1.1) [
        | inr (e, lost) ↦ rw (lost, reserve) (failed-Reserved t w _ _ _ e refl refl i)
        | inl sent ↦ elim (Option-cases (find_run t.account_id t.droplet_id xs)) [
          | inr (row, old) ↦ elim (Option-cases (statement s1.0).1) [
            | inr (e, lost) ↦
                rw (sent, reserve, old, lost) (failed-Reserved t w _ _ _ e refl refl i)
            | inl fine ↦
                let (k, l) = find-key t.account_id t.droplet_id xs row old in
                rw (sent, reserve, old, fine)
                  (record {
                    within = record { counted = i.counted; bounded = i.bounded; sole = i.sole };
                    held = λ e. (
                      record {
                        row = row;
                        found = own_row t.account_id t.droplet_id xs row old k l;
                        same_id = refl;
                        behind = omega arith;
                      },
                      (k, l),
                      λ b. ground arith,
                    );
                    small = λ e mine. omega (
                      arith,
                      own-attempt a d remote xs row row
                          (own_row t.account_id t.droplet_id xs row old k l) mine,
                      i.bounded,
                    );
                  })
          ]
          | inl nothing ↦ elim (Bool-cases (has_id id xs)) [
            | inl taken ↦
                rw (sent, reserve, nothing, taken) (failed-Reserved t w _ _ _ _ refl refl i)
            | inr new ↦
                let row : Run = record (requested t) {
                  id = id;
                  attempt = 0;
                  last_error = "";
                  next_retry_at = none;
                  created_at = w.db.sql.clock;
                  updated_at = w.db.sql.clock;
                } in
                let kept = attempt-append a d xs row refl in
                rw (sent, reserve, nothing, new)
                  (record {
                    within = record {
                      counted = omega (arith, kept, i.counted);
                      bounded = omega (arith, kept, i.bounded);
                      sole = append-Sole a d xs row new i.sole;
                    };
                    held = λ e. (
                      record {
                        row = row;
                        found = new_row t.account_id t.droplet_id xs row nothing refl refl;
                        same_id = refl;
                        behind = omega arith;
                      },
                      (refl, refl),
                      λ b. refl,
                    );
                    small = λ e mine. omega arith;
                  })
          ]
        ]
      ]
