-- ===== src/Scheduler/Planner.antt =====
-- internal/scheduler/model.go and planner.go. An int is an exact integer here.
use digital_ocean_bot.Prelude.Int.{
  +ℤ_parts, ℤ, pos, pos_part, neg_part, ◌+ℤ◌, ◌-ℤ◌, ◌≤ℤ◌, ltb_ℤ, leb_ℤ, int_laws,
}
use digital_ocean_bot.Prelude.{
  ◌+◌, ◌≡◌, refl, ◌≢◌, ◌↔◌, ◌⊎◌, inl, inr, false, ◌&&◌, arith, if◌then◌else◌, Bool-cases,
}

pub data Decision : Type 0 where
  allow_create block_capacity block_account block_network : Decision

pub record Capacity : Type 0 where
  pub limit : ℤ
  pub active : ℤ
  pub creating : ℤ
  pub provisioning : ℤ
  pub reserved_replacement : ℤ

unfoldable pub available : Capacity → ℤ
unfolding ◌-ℤ◌
available c = c.limit -ℤ c.active -ℤ c.creating -ℤ c.provisioning -ℤ c.reserved_replacement

pub record Policy : Type 0 where
  pub max_servers : ℤ
  pub lifetime : ℤ

unfoldable pub plan : Capacity → Policy → Decision
unfolding available ◌+ℤ◌
plan c policy =
    if ltb_ℤ (pos 0) policy.max_servers
      && leb_ℤ policy.max_servers (c.active +ℤ c.creating +ℤ c.provisioning)
    then block_capacity
    else if leb_ℤ (available c) (pos 0)
    then block_capacity
    else allow_create

-- The available slots, moved to the other side.
room :
    (c : Capacity)
    → let a = available c in
      let used = c.active +ℤ c.creating +ℤ c.provisioning +ℤ c.reserved_replacement +ℤ pos 1 in
      pos_part a + neg_part c.limit + pos_part used
      ≡ neg_part a + pos_part c.limit + neg_part used + 1
unfolding available
room c = omega int_laws

below :
    (m busy : ℤ) → (ltb_ℤ (pos 0) m && leb_ℤ m busy ≡ false) ↔ (m ≤ℤ pos 0) ⊎ (busy +ℤ pos 1 ≤ℤ m)
below m busy = let more = +ℤ_parts busy (pos 1) in (λ e. ground arith, λ h. ground arith)

left :
    (c : Capacity)
    → (leb_ℤ (available c) (pos 0) ≡ false)
      ↔ (c.active +ℤ c.creating +ℤ c.provisioning +ℤ c.reserved_replacement +ℤ pos 1 ≤ℤ c.limit)
left c =
    let used = c.active +ℤ c.creating +ℤ c.provisioning +ℤ c.reserved_replacement +ℤ pos 1 in
    left_of (available c) used c.limit (room c)
  where
    left_of :
        (a used limit : ℤ)
        → pos_part a + neg_part limit + pos_part used
          ≡ neg_part a + pos_part limit + neg_part used + 1
        → (leb_ℤ a (pos 0) ≡ false) ↔ (used ≤ℤ limit)
    left_of a used limit r = (λ e. ground arith, λ h. ground arith)

-- The planner allows a creation exactly when one more droplet fits the provider's limit beside the
-- active ones, those being created or provisioned and the reserved replacements, and the policy's
-- maximum, if it sets one, is not reached.
pub plan_iff :
    (c : Capacity) (policy : Policy)
    → let busy = c.active +ℤ c.creating +ℤ c.provisioning in
      (plan c policy ≡ allow_create)
      ↔ (busy +ℤ c.reserved_replacement +ℤ pos 1 ≤ℤ c.limit)
        × ((policy.max_servers ≤ℤ pos 0) ⊎ (busy +ℤ pos 1 ≤ℤ policy.max_servers))
unfolding plan
plan_iff c policy =
    let busy = c.active +ℤ c.creating +ℤ c.provisioning in
    let (out, back) = left c in
    let (out', back') = below policy.max_servers busy in
    (
      λ e. elim (Bool-cases (ltb_ℤ (pos 0) policy.max_servers && leb_ℤ policy.max_servers busy)) [
        | inl full ↦ absurd (block_capacity_ne (rw full at e))
        | inr fine ↦ elim (Bool-cases (leb_ℤ (available c) (pos 0))) [
          | inl gone ↦ absurd (block_capacity_ne (rw (fine, gone) at e))
          | inr some_left ↦ (out some_left, out' fine)
        ]
      ],
      λ h. rw (back' h.1, back h.0) refl,
    )
  where
    block_capacity_ne : block_capacity ≢ allow_create
    block_capacity_ne e = ground arith
