-- ===== src/Resilience/Retry/Laws.antt =====
-- How often the retrier calls, and what its success means.
use digital_ocean_bot.Resilience.Retry.{
  Error, Env, gate, note_failure, after_failure, loop, effective, do_,
}
use digital_ocean_bot.Prelude.{
  ℕ, zero, suc, ◌+◌, ◌≤◌, ◌<◌, ◌≡◌, ◌∙◌, ◌⊎◌, inl, inr, Bool, false, Option, none, some, arith,
  ◌==◌, Option-cases,
}
use digital_ocean_bot.Prelude.Int.{ℤ, pos, pos_part}
use digital_ocean_bot.Resilience.Policy.{Policy, delay}
use digital_ocean_bot.Resilience.Circuit.{Circuit}

module _ {W : Type 0} (env : Env W) (calls : W → ℕ)
    (counts : (w : W) → calls (env.call w).0 ≡ suc (calls w))
    (idles : (d : ℤ) (w : W) → calls (env.pause d w).0 ≡ calls w) where
  calls-loop :
      (k n : ℕ) (p : Policy) (w : W) (c : Option Circuit)
      → calls (loop env k n p w c).0 ≤ calls w + k
  unfolding loop after_failure
  calls-loop zero n p w c = omega arith
  calls-loop (suc k) n p w c =
      let w' = (env.call w).0 in
      let paused = (env.pause (delay p (pos n)) w').0 in
      ground (
        arith,
        counts w,
        idles (delay p (pos n)) w',
        calls-loop k (suc n) p paused (note_failure (gate c (env.now w)).0 (env.now w')),
      )

  -- The retrier calls its function at most as often as the attempts of the policy in force, for
  -- every function, clock, classifier and breaker, where each call is counted once and waiting is
  -- not counted.
  pub calls-do :
      (p : Policy) (w : W) (c : Option Circuit)
      → calls (do_ env p w c).0 ≤ calls w + pos_part (effective p).max_attempts
  unfolding do_
  calls-do p w c = calls-loop (pos_part (effective p).max_attempts) 1 (effective p) w c

module _ {W : Type 0} (env : Env W) where
  -- The world is the one that a successful call left.
  abbrev pub Called : W → Type 0
  Called w = (w0 : W) × ((env.call w0).1 ≡ none) × (w ≡ (env.call w0).0)

  after_failure-none :
      (p : Policy) (a : ℤ) (last : Bool)
      (rest : W → Option Circuit → W × Option Circuit × Option Error) (e : Error) (w : W)
      (c : Option Circuit)
      → (after_failure env p a last rest e w c).2 ≡ none
      → (last ≡ false)
        × (after_failure env p a last rest e w c
            ≡ rest (env.pause (delay p a) w).0 (note_failure c (env.now w)))
  unfolding after_failure
  after_failure-none p a last rest e w c h = ground arith

  loop-failed :
      (k n : ℕ) (p : Policy) (w : W) (c : Option Circuit) (x : Error)
      → (gate c (env.now w)).1 ≡ none
      → (env.call w).1 ≡ some x
      → loop env (suc k) n p w c
        ≡ after_failure env p
            (pos n)
            (k == 0)
            (loop env k (suc n) p)
            x
            (env.call w).0
            (gate c (env.now w)).0
  unfolding loop
  loop-failed k n p w c x passed failed = ground arith

  -- One round of a loop that ends well.
  loop-round :
      (k n : ℕ) (p : Policy) (w : W) (c : Option Circuit)
      → (loop env (suc k) n p w c).2 ≡ none
      → ((env.call w).1 ≡ none) × ((loop env (suc k) n p w c).0 ≡ (env.call w).0)
        ⊎ (0 < k)
          × (loop env (suc k) n p w c
              ≡ loop env k
                  (suc n)
                  p
                  (env.pause (delay p (pos n)) (env.call w).0).0
                  (note_failure (gate c (env.now w)).0 (env.now (env.call w).0)))
  unfolding loop
  loop-round k n p w c e = elim (Option-cases (gate c (env.now w)).1) [
    | inr (x, refused) ↦ absurd (ground arith)
    | inl passed ↦ elim (Option-cases (env.call w).1) [
      | inl fine ↦ inl (fine, ground arith)
      | inr (x, failed) ↦
          let round = loop-failed k n p w c x passed failed in
          let (more, again) =
            after_failure-none p (pos n) (k == 0) (loop env k (suc n) p) x (env.call w).0
              (gate c (env.now w)).0 (rw (← round) e) in
          inr (ground arith, round ∙ again)
    ]
  ]

  loop-Called :
      (k n : ℕ) (p : Policy) (w : W) (c : Option Circuit)
      → 0 < k
      → (loop env k n p w c).2 ≡ none
      → Called (loop env k n p w c).0
  loop-Called zero n p w c h e = elim h [ ]
  loop-Called (suc k) n p w c h e = elim (loop-round k n p w c e) [
    | inl (fine, same) ↦ (w, fine, same)
    | inr (more, again) ↦ rw again (loop-Called k (suc n) p _ _ more (rw (← again) e))
  ]

  -- The retrier reports success only with a world that a successful call of the function left.
  pub do-Called :
      (p : Policy) (w : W) (c : Option Circuit)
      → (do_ env p w c).2 ≡ none
      → Called (do_ env p w c).0
  unfolding do_
  do-Called p w c e =
      loop-Called (pos_part (effective p).max_attempts) 1 (effective p) w c (ground arith) e
