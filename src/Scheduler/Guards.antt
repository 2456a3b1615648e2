-- ===== src/Scheduler/Guards.antt =====
-- When the scheduler starts a deployment, and how many.
use digital_ocean_bot.Scheduler.Engine.{
  minute, Counts, Env, is_stale, needed, available, too_early, slots, spacing, minutes, start_all,
  build, is_ready, run_one, run_all, run_due,
}
use digital_ocean_bot.Prelude.{
  ℕ, zero, suc, ◌+◌, ◌≤◌, ◌<◌, String, ◌≡◌, refl, ap, ◌∙◌, ◌⊎◌, inl, inr, Bool, true, false, Option,
  none, some, List, [], ◌∷◌, arith, Bool-cases, Option-cases, length,
}
use digital_ocean_bot.Prelude.{eq_iff, ◌≢◌}
use digital_ocean_bot.Prelude.Int.{◌-ℤ◌, ℤ, pos, ◌+ℤ◌, ◌≤ℤ◌, leb_ℤ, wrap64}
use digital_ocean_bot.Scheduler.{Schedule}

-- The count that the engine uses when the third query fails.
abbrev pub pre_of : Option ℤ → ℤ
pre_of none = pos 0
pre_of (some n) = n

-- What must hold of the answers to the engine's queries before it starts anything: the account is
-- enabled and READY; the snapshot is there and at most two minutes old; a droplet is desired beyond
-- the managed ones and the deployments before their creation; the time of the next build, if one is
-- noted, is over; and the provider's limit leaves a place beside its droplets and the creations that
-- are pending.
pub record MayBuild {W : Type 0} (env : Env W) (w : W) (now : ℤ) (x : Schedule) : Type 0 where
  pub counts : Counts
  pub ready : env.account w x.account_id ≡ some (true, "READY")
  pub counted : env.counts w x.account_id x.profile_id ≡ some counts
  pub seen : counts.snapshot_at ≢ pos 0
  pub fresh : now -ℤ counts.snapshot_at ≤ℤ pos 120000000000
  pub wanted :
      pos 1
      ≤ℤ counts.desired -ℤ counts.managed -ℤ pre_of (env.pre_create w x.account_id x.profile_id)
  pub in_time : (t : ℤ) → counts.next_build ≡ some t → t ≤ℤ now
  pub room : pos 1 ≤ℤ counts.limit -ℤ counts.provider_droplets -ℤ counts.pending_creates

is_stale-seen : (now at : ℤ) → is_stale now at ≡ false → at ≢ pos 0
unfolding is_stale
is_stale-seen now at h e = ground (arith, e)

is_stale-fresh : (now at : ℤ) → is_stale now at ≡ false → now -ℤ at ≤ℤ pos 120000000000
unfolding is_stale
is_stale-fresh now at h = ground arith

too_early-over :
    (now : ℤ) (next : Option ℤ) → too_early now next ≡ false → (t : ℤ) → next ≡ some t → t ≤ℤ now
too_early-over now none h t e = absurd cc
too_early-over now (some s) h t e = ground (arith, e)

available-room :
    (c : Counts)
    → pos 1 ≤ℤ available c
    → pos 1 ≤ℤ c.limit -ℤ c.provider_droplets -ℤ c.pending_creates
unfolding available
available-room c h = ground arith

needed-wanted :
    (c : Counts) (pre : ℤ) → pos 1 ≤ℤ needed c pre → pos 1 ≤ℤ c.desired -ℤ c.managed -ℤ pre
unfolding needed
needed-wanted c pre h = h

is_ready-answer :
    {W : Type 0} (env : Env W) (a : Bool × String) → is_ready env a ≡ true → a ≡ (true, "READY")
is_ready-answer env (true, status) h =
    ap (λ s. (true, s)) ((eq_iff status "READY").0 (ground arith))
is_ready-answer env (false, status) h = absurd cc

slots_le : (a b : ℤ) → slots a b ≤ 1
unfolding slots
slots_le a b = ground arith

slots_pos : (a b : ℤ) → 0 < slots a b → (pos 1 ≤ℤ a) × (pos 1 ≤ℤ b)
unfolding slots
slots_pos a b h = ground arith

module _ {W : Type 0} (env : Env W) (starts : W → List (String × String))
    (prepares : (w : W) (a : String) → starts (env.prepare w a) ≡ starts w)
    (completes : (w : W) (x : Schedule) (t : ℤ) → starts (env.complete w x t) ≡ starts w)
    (spaces : (w : W) (a : String) (t : ℤ) → starts (env.set_next_build w a t) ≡ starts w)
    (claims : (w : W) (t n l : ℤ) → starts (env.claim_due w t n l).0 ≡ starts w)
    (notes : (w : W) (a p : String) → starts (env.start w a p).0 ≡ (a, p) ∷ starts w) where
  start_all_log :
      (n : ℕ) (w : W) (x : Schedule) (now : ℤ) (c : Counts)
      → n ≤ 1
      → (starts (start_all env n w x now c) ≡ starts w)
        ⊎ (0 < n) × (starts (start_all env n w x now c) ≡ (x.account_id, x.profile_id) ∷ starts w)
  unfolding start_all
  start_all_log zero w x now c h = inl refl
  start_all_log (suc zero) w x now c h =
      let s = env.start w x.account_id x.profile_id in
      let noted = notes w x.account_id x.profile_id in
      elim (Option-cases s.1) [
        | inr (e, failed) ↦ inr (omega arith, rw (failed, start_all) noted)
        | inl fine ↦ inr (
          omega arith,
          rw (fine, start_all)
              (spaces s.0 x.account_id (now +ℤ wrap64 (minutes env (spacing env s.0 c))) ∙ noted),
        )
      ]
  start_all_log (suc (suc n)) w x now c h = absurd (no_two n h)
    where
      no_two : (n : ℕ) → suc (suc n) ≤ 1 → ⊥
      no_two n h = omega arith

  -- Nothing is started, or one deployment is and all guards have passed.
  abbrev pub OneStart : W → ℤ → Schedule → W → Type 0
  OneStart w now x w' =
      (starts w' ≡ starts w)
      ⊎ (starts w' ≡ (x.account_id, x.profile_id) ∷ starts w) × MayBuild env w now x

  pre_of_eq : (p : Option ℤ) → ◌≡◌ {A = ℤ} (elim p [ none ↦ pos 0 | some n ↦ n ]) (pre_of p)
  pre_of_eq none = refl
  pre_of_eq (some n) = refl

  build-OneStart :
      (w : W) (x : Schedule) (now : ℤ) (a : Bool × String) (c : Counts)
      → env.account w x.account_id ≡ some a
      → is_ready env a ≡ true
      → env.counts w x.account_id x.profile_id ≡ some c
      → OneStart w now x (build env w x now c)
  unfolding build
  build-OneStart w x now a c answered ready counted =
      let n = needed c (pre_of (env.pre_create w x.account_id x.profile_id)) in
      let k = slots n (available c) in
      elim (Bool-cases (is_stale now c.snapshot_at)) [
        | inl stale ↦ rw (stale, build) (inl refl)
        | inr fresh ↦ elim (Bool-cases (leb_ℤ n (pos 0))) [
          | inl enough ↦ rw (fresh, build, pre_of_eq, enough) (inl refl)
          | inr wanted ↦ elim (Bool-cases (too_early now c.next_build)) [
            | inl early ↦ rw (fresh, build, pre_of_eq, wanted, early) (inl refl)
            | inr in_time ↦
                rw (fresh, build, pre_of_eq, wanted, in_time)
                  (elim (start_all_log k w x now c (slots_le n (available c))) [
                    | inl same ↦ inl same
                    | inr (some_slot, one) ↦ inr (
                      one,
                      record {
                        counts = c;
                        ready = answered ∙ ap (λ r. some r) (is_ready-answer env a ready);
                        counted = counted;
                        seen = is_stale-seen now c.snapshot_at fresh;
                        fresh = is_stale-fresh now c.snapshot_at fresh;
                        wanted =
                            needed-wanted c (pre_of (env.pre_create w x.account_id x.profile_id))
                              (slots_pos n (available c) some_slot).0;
                        in_time = too_early-over now c.next_build in_time;
                        room = available-room c (slots_pos n (available c) some_slot).1;
                      },
                    )
                  ])
          ]
        ]
      ]

  -- For one claimed schedule the engine starts at most one deployment, and only if the account is
  -- enabled and READY, its counts were read, its provider snapshot is neither missing nor older
  -- than two minutes, more droplets are desired than there are managed ones and deployments before
  -- their creation (where a failed count of the latter is 0), the noted time of the next build, if
  -- there is one, is over, and the provider's limit leaves a place beside its droplets and the
  -- pending creations.
  pub run_one-OneStart :
      (w : W) (now : ℤ) (x : Schedule)
      → let v = env.prepare w x.account_id in
        (starts (run_one env w now x) ≡ starts w)
        ⊎ (starts (run_one env w now x) ≡ (x.account_id, x.profile_id) ∷ starts w)
          × MayBuild env v now x
  unfolding run_one
  run_one-OneStart w now x =
      let v = env.prepare w x.account_id in
      let same = prepares w x.account_id in
      let stay = completes v x now ∙ same in
      elim (Option-cases (env.account v x.account_id)) [
        | inl lost ↦ rw (lost, run_one) (inl stay)
        | inr (a, answered) ↦ elim (Bool-cases (is_ready env a)) [
          | inr blocked ↦ rw (answered, run_one, blocked) (inl stay)
          | inl ready ↦ elim (Option-cases (env.counts v x.account_id x.profile_id)) [
            | inl lost ↦ rw (answered, run_one, ready, lost) (inl stay)
            | inr (c, counted) ↦
                let b = build env v x now c in
                rw (answered, run_one, ready, counted)
                  (elim (build-OneStart v x now a c answered ready counted) [
                    | inl none_started ↦ inl (completes b x now ∙ none_started ∙ same)
                    | inr (one, may) ↦ inr (
                      completes b x now ∙ one ∙ ap (λ l. (x.account_id, x.profile_id) ∷ l) same,
                      may,
                    )
                  ])
          ]
        ]
      ]

  run_all-length :
      (items : List Schedule) (w : W) (now : ℤ)
      → length (starts (run_all env w now items)) ≤ length (starts w) + length items
  unfolding run_all
  run_all-length [] w now = omega arith
  run_all-length (x ∷ xs) w now =
      let w1 = run_one env w now x in
      let ih = run_all-length xs w1 now in
      elim (run_one-OneStart w now x) [
        | inl same ↦ let e = ap length same in omega arith
        | inr (one, may) ↦ let e = ap length one in omega arith
      ]

  -- One run of the scheduler starts at most as many deployments as it claimed schedules.
  pub run_due-length :
      (w : W) (now : ℤ)
      → let claimed = env.claim_due w now (pos 100) minute in
        length (starts (run_due env w now).0) ≤ length (starts w) + length claimed.1
  unfolding run_due
  run_due-length w now =
      let claimed = env.claim_due w now (pos 100) minute in
      let same = ap length (claims w now (pos 100) minute) in
      elim (Option-cases claimed.2) [
        | inr (e, failed) ↦ rw (failed, run_due) (omega arith)
        | inl fine ↦ rw (fine, run_due) (omega (arith, run_all-length claimed.1 claimed.0 now))
      ]
