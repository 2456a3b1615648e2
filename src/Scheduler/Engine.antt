-- ===== src/Scheduler/Engine.antt =====
-- internal/scheduler/engine.go over an interface of its store, its queries and its starter.
use digital_ocean_bot.Prelude.{
  ℕ, zero, suc, ◌-◌, ◌*◌, String, Bool, false, ◌&&◌, ◌||◌, Option, none, some, List, [], ◌∷◌,
  str_eq, if◌then◌else◌,
}
use digital_ocean_bot.Prelude.Int.{ℤ, pos, negsuc, pos_part, ◌+ℤ◌, ◌-ℤ◌, ltb_ℤ, leb_ℤ, wrap64}
use digital_ocean_bot.Errors.{Error}
use digital_ocean_bot.Scheduler.{Schedule}

-- The row of counts that the second query returns. A missing snapshot has limit and droplets 0 and
-- the creation time 0, the epoch.
pub record Counts : Type 0 where
  pub limit : ℤ
  pub provider_droplets : ℤ
  pub pending_creates : ℤ
  pub concurrent : ℤ
  pub desired : ℤ
  pub managed : ℤ
  pub spacing_min : ℤ
  pub spacing_max : ℤ
  pub next_build : Option ℤ
  pub snapshot_at : ℤ

-- What the engine calls, over the world `W`: each query is its answer, or none if it fails.
pub record Env (W : Type 0) : Type 0 where
  -- ClaimDue(ctx, now, 100, time.Minute) and Complete
  pub claim_due : W → ℤ → ℤ → ℤ → W × List Schedule × Option Error
  pub complete : W → Schedule → ℤ → W
  pub prepare : W → String → W
  -- accounts.enabled and accounts.runtime_status
  pub account : W → String → Option (Bool × String)
  pub counts : W → String → String → Option Counts
  -- deployments of the profile without a provider_id that are neither READY nor FAILED
  pub pre_create : W → String → String → Option ℤ
  pub start : W → String → String → W × Option Error
  -- `UPDATE accounts SET next_build_at=$2 WHERE id=$1`
  pub set_next_build : W → String → ℤ → W
  -- rand.Intn
  pub intn : W → ℤ → ℤ

abbrev pub minute : ℤ
minute = pos 60000000000

-- `snapshotAt.Equal(time.Unix(0, 0)) || now.Sub(snapshotAt) > 2*time.Minute`
unfoldable pub is_stale : ℤ → ℤ → Bool
unfolding ◌-ℤ◌
is_stale now snapshot_at =
    (leb_ℤ snapshot_at (pos 0) && leb_ℤ (pos 0) snapshot_at)
    || ltb_ℤ (pos 120000000000) (now -ℤ snapshot_at)

abbrev pub min_ℤ : ℤ → ℤ → ℤ
min_ℤ a b = if ltb_ℤ b a then b else a

-- The free slots at the provider, at least 0.
unfoldable pub available : Counts → ℤ
unfolding ◌-ℤ◌
available c =
    let a = c.limit -ℤ c.provider_droplets -ℤ c.pending_creates in
    if ltb_ℤ a (pos 0) then pos 0 else a

unfoldable pub needed : Counts → ℤ → ℤ
unfolding ◌-ℤ◌
needed c pre_create = c.desired -ℤ c.managed -ℤ pre_create

-- `allowed`: one, capped at what is needed and at what is free.
unfoldable pub slots : ℤ → ℤ → ℕ
slots need free = pos_part (min_ℤ (min_ℤ (pos 1) need) free)

abbrev pub too_early : ℤ → Option ℤ → Bool
too_early now none = false
too_early now (some t) = ltb_ℤ now t

module _ {W : Type 0} (env : Env W) where
  -- The minutes until the next build.
  unfoldable pub spacing : W → Counts → ℤ
  unfolding ◌+ℤ◌ ◌-ℤ◌
  spacing w c =
      let most = if ltb_ℤ c.spacing_max c.spacing_min then c.spacing_min else c.spacing_max in
      if ltb_ℤ c.spacing_min most
      then c.spacing_min +ℤ env.intn w (most -ℤ c.spacing_min +ℤ pos 1)
      else c.spacing_min

  -- minutes * time.Minute, for minutes of either sign
  abbrev pub minutes : ℤ → ℤ
  minutes (pos n) = pos (n * 60000000000)
  minutes (negsuc n) = negsuc (suc n * 60000000000 - 1)

  -- `for i := 0; i < allowed; i++ { if err := StartScheduledDeployment(…); err == nil { … } }`
  unfoldable pub start_all : ℕ → W → Schedule → ℤ → Counts → W
  unfolding spacing ◌+ℤ◌
  start_all zero w x now c = w
  start_all (suc n) w x now c =
      let (w1, err) = env.start w x.account_id x.profile_id in
      elim err [
        | some e ↦ start_all n w1 x now c
        | none ↦
            start_all n
              (env.set_next_build w1 x.account_id (now +ℤ wrap64 (minutes (spacing w1 c)))) x now c
      ]

  -- What is started for a schedule whose account is ready and whose counts were read.
  unfoldable pub build : W → Schedule → ℤ → Counts → W
  unfolding start_all
  build w x now c =
      if is_stale now c.snapshot_at
      then w
      else let pre : ℤ = elim (env.pre_create w x.account_id x.profile_id) [
        | none ↦ pos 0
        | some n ↦ n
      ] in
        if leb_ℤ (needed c pre) (pos 0)
        then w
        else if too_early now c.next_build
        then w
        else start_all (slots (needed c pre) (available c)) w x now c

  -- `enabled && runtimeStatus == "READY"`
  abbrev pub is_ready : Bool × String → Bool
  is_ready (enabled, status) = enabled && str_eq status "READY"

  -- The body of the loop: every path ends with Complete.
  unfoldable pub run_one : W → ℤ → Schedule → W
  unfolding build
  run_one w now x =
      let w1 = env.prepare w x.account_id in
      let w2 : W = elim (env.account w1 x.account_id) [
        | none ↦ w1
        | some a ↦
            if is_ready a
            then elim (env.counts w1 x.account_id x.profile_id) [
              | none ↦ w1
              | some c ↦ build w1 x now c
            ]
            else w1
      ] in
      env.complete w2 x now

  unfoldable pub run_all : W → ℤ → List Schedule → W
  unfolding run_one
  run_all w now [] = w
  run_all w now (x ∷ xs) = run_all (run_one w now x) now xs

  unfoldable pub run_due : W → ℤ → W × Option Error
  unfolding run_all
  run_due w now =
      let (w1, items, err) = env.claim_due w now (pos 100) minute in
      elim err [ some e ↦ (w1, some e) | none ↦ (run_all w1 now items, none) ]
