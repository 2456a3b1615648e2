-- ===== src/Workflow/Order.antt =====
-- Which steps a run calls, in which order, and where it stops.
use digital_ocean_bot.Prelude.{
  ℕ, zero, suc, ◌+◌, ◌≤◌, String, ◌≡◌, refl, sym, ap, ◌∙◌, ◌≢◌, ◌⊎◌, inl, inr, true, false, Option,
  none, List, [], ◌∷◌, ◌++◌, map, arith, Option-cases, length, take, drop,
}
use native.Mathlib.Nat.{add-zero}
use mathlib.Core.List.{append-nil, append_assoc}
use digital_ocean_bot.Errors.{Error}
use digital_ocean_bot.Workflow.{State, Deployment, Request, Store, Steps}
use digital_ocean_bot.Workflow.Engine.{rank, next, done, Step, run_step, run_steps, step_list}

-- Steps whose names have the ranks r, r + 1, ….
abbrev pub Ranked {ℓ} : {W : Type 0} → ℕ → List (Step W) → Type ℓ
Ranked r [] = Unit
Ranked r (s ∷ ss) = (rank s.name ≡ r) × (rank (next s.name) ≡ suc r) × Ranked (suc r) ss

abbrev pub step_names : List String
step_names =
    "create" ∷ "wait_resource" ∷ "provision" ∷ "database" ∷ "panel" ∷ "clients" ∷ "traffic" ∷ []

pub table-Ranked :
    {W : Type 0} (steps : Steps W) (req : Request) → Ranked {0} 0 (step_list steps req)
unfolding rank next
table-Ranked steps req = (
  refl,
  refl,
  (refl, refl, (refl, refl, (refl, refl, (refl, refl, (refl, refl, (refl, refl, tt)))))),
)

pub rank_le : (s : String) → rank s ≤ 7
unfolding rank
rank_le s = ground arith

pub rank_done : rank "done" ≡ 7
unfolding rank
rank_done = refl

pub map-drop :
    {W : Type 0} (k : ℕ) (specs : List (Step W))
    → map (λ s. s.name) (drop k specs) ≡ drop k (map (λ s. s.name) specs)
map-drop zero specs = refl
map-drop (suc k) [] = refl
map-drop (suc k) (s ∷ specs) = map-drop k specs

module _ {W : Type 0} (store : Store W) (error_text : Error → String) (log : W → List String)
    (updates : (w : W) (d : Deployment) → log (store.update w d).0 ≡ log w)
    (events : (w : W) (i n : String) (s : State) (m : String)
      → log (store.event w i n s m).0 ≡ log w) where
  -- A step notes its name, and leaves the checkpoint to the engine.
  abbrev pub Notes : Step W → Type 0
  Notes s =
      ((w : W) (d : Deployment) → log (s.fn w d).0 ≡ log w ++ s.name ∷ [])
      × ((w : W) (d : Deployment) → (s.fn w d).1.current_step ≡ d.current_step)

  abbrev pub AllNote : List (Step W) → Type 0
  AllNote [] = Unit {0}
  AllNote (s ∷ ss) = Notes s × AllNote ss

  abbrev noted : Deployment → Error → Deployment
  noted d e = record d { last_error = error_text e }

  -- One step that is not skipped: it is called, unless the checkpoint before it cannot be stored.
  run_step-cases :
      (s : Step W) (w : W) (d : Deployment)
      → Notes s
      → let r = run_step store error_text s w d in
        (log r.0 ≡ log w) × (r.2 ≢ none) × (r.1.current_step ≡ s.name)
        ⊎ (log r.0 ≡ log w ++ s.name ∷ [])
          × ((r.1.current_step ≡ s.name) × (r.2 ≢ none) ⊎ (r.1.current_step ≡ next s.name))
  unfolding run_step
  run_step-cases s w d (notes, keeps) =
      let d1 = record d { state = s.state; current_step = s.name; attempt = suc d.attempt } in
      let w1 = (store.update w d1).0 in
      let w2 = (store.event w1 d1.id s.name d1.state "").0 in
      let r = s.fn w2 d1 in
      elim (Option-cases (store.update w d1).1) [
        | inr (e, lost) ↦ inl (ground (arith, updates w d1))
        | inl stored ↦ elim (Option-cases r.2) [
          | inr (e, failed) ↦ inr (
            ground (
              arith,
              updates w d1,
              events w1 d1.id s.name d1.state "",
              notes w2 d1,
              updates r.0 (noted r.1 e),
              events (store.update r.0 (noted r.1 e)).0 r.1.id s.name r.1.state "step failed",
            ),
            inl (ground (arith, keeps w2 d1), ground arith),
          )
          | inl fine ↦ inr (
            ground (
              arith,
              updates w d1,
              events w1 d1.id s.name d1.state "",
              notes w2 d1,
              updates r.0 (record r.1 { current_step = next s.name }),
            ),
            inr (ground arith),
          )
        ]
      ]

  -- How far a run got over steps whose first has rank r: it called the first n of them, all if it
  -- ended well, and its checkpoint is the last step called or the one after it.
  abbrev pub Progress : ℕ → List String → W → W × Deployment × Option Error → Type 0
  Progress r names w q =
      (n : ℕ) × (log q.0 ≡ log w ++ take n names)
      × (n ≤ length names)
      × (q.2 ≡ none → n ≡ length names)
      × (rank q.1.current_step ≤ r + n)
      × (r + n ≤ rank q.1.current_step + 1)

  pub exec :
      (r : ℕ) (specs : List (Step W)) (w : W) (d : Deployment)
      → Ranked {0} r specs
      → AllNote specs
      → rank d.current_step ≡ r
      → Progress r (map (λ s. s.name) specs) w (run_steps store error_text specs w d)
  unfolding run_steps
  exec r [] w d ranked notes at =
      (0, sym (append-nil (log w)), omega arith, λ e. refl, omega arith, omega arith)
  exec r (s ∷ rest) w d (here, after, ranked) (note, notes) at =
      let q = run_step store error_text s w d in
      let now : done d.current_step s.name ≡ false = ground arith in
      elim (run_step-cases s w d note) [
        | inl (same, err, cur) ↦ rw now (elim (Option-cases q.2) [
          | inl e ↦ absurd (err e)
          | inr (x, e) ↦ rw e (
            0,
            same ∙ sym (append-nil (log w)),
            omega arith,
            λ h. cc,
            omega (arith, ap rank cur),
            omega (arith, ap rank cur),
          )
        ])
        | inr (called, inl (cur, err)) ↦ rw now (elim (Option-cases q.2) [
          | inl e ↦ absurd (err e)
          | inr (x, e) ↦ rw e (
            1,
            called,
            omega arith,
            λ h. cc,
            omega (arith, ap rank cur),
            omega (arith, ap rank cur),
          )
        ])
        | inr (called, inr cur) ↦ rw now (elim (Option-cases q.2) [
          | inr (x, e) ↦ rw e (
            1,
            called,
            omega arith,
            λ h. cc,
            omega (arith, ap rank cur),
            omega (arith, ap rank cur),
          )
          | inl e ↦
              let p = exec (suc r) rest q.0 q.1 ranked notes (ap rank cur ∙ after) in
              rw e (
                suc p.0,
                p.1
                    ∙ ap (λ l. l ++ take p.0 (map (λ s. s.name) rest)) called
                    ∙ append_assoc (log w) (s.name ∷ []) (take p.0 (map (λ s. s.name) rest)),
                omega (arith, p.2),
                λ h. ap suc (p.3 h),
                omega (arith, p.4),
                omega (arith, p.5),
              )
        ])
      ]

  pub skip :
      (k r : ℕ) (specs : List (Step W)) (w : W) (d : Deployment)
      → Ranked {0} r specs
      → AllNote specs
      → rank d.current_step ≡ r + k
      → k ≤ length specs
      → (run_steps store error_text specs w d ≡ run_steps store error_text (drop k specs) w d)
        × Ranked {0} (r + k) (drop k specs)
        × AllNote (drop k specs)
  unfolding run_steps
  skip zero r specs w d ranked notes at le = (refl, rw add-zero ranked, notes)
  skip (suc k) r [] w d ranked notes at le = absurd (omega arith)
  skip (suc k) r (s ∷ rest) w d (here, after, ranked) (note, notes) at le =
      let past : done d.current_step s.name ≡ true = ground arith in
      let p = skip k (suc r) rest w d ranked notes (omega arith) (omega arith) in
      let e : r + suc k ≡ suc r + k = omega arith in (rw past p.0, rw e p.1, p.2)
