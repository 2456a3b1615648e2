-- ===== src/App/Sticky/Collided.antt =====
-- An account whose address collides with another's.
use digital_ocean_bot.Prelude.{String, ◌≡◌, ap, ◌∙◌, Option, none, some}
use digital_ocean_bot.Errors.{Error, network_identity_collision}
use digital_ocean_bot.App.Repository.{World, account, empty_config}
use digital_ocean_bot.App.Sticky.Observe.{Net}
use digital_ocean_bot.App.Sticky.Config.{sticky_config, blank, forgive, config_of}
use digital_ocean_bot.App.Sticky.Maintain.{on_found, maintain, with_config, clear_if_generic}
use digital_ocean_bot.App.Sticky.Isolation.Whole.{account-identities}

sticky_config-collision :
    (w : World) (id : String)
    → (account w id).2 ≡ some network_identity_collision
    → sticky_config w id ≡ ((account w id).0, blank (empty_config id), none)
unfolding sticky_config
sticky_config-collision w id collides =
    ap
      (λ (e : Option Error).
        let (cfg, err) = forgive id ((account w id).1, e) in config_of (account w id).0 id cfg err)
      collides

module _ (net : Net) where
  -- If the account's configuration is refused because its address collides with another account's,
  -- then MaintainStickyIdentity, past its first step, ends without an error and does nothing but
  -- that read: it writes no row, so that the colliding address stays.
  pub maintain-collision :
      (w : World) (id : String)
      → let (w1, err) = clear_if_generic w id in
        err ≡ none
        → (account w1 id).2 ≡ some network_identity_collision
        → (maintain net w id ≡ ((account w1 id).0, none))
          × ((maintain net w id).0.identities ≡ w1.identities)
  unfolding maintain on_found with_config
  maintain-collision w id cleared collides =
      let w1 = (clear_if_generic w id).0 in
      let whole : maintain net w id ≡ ((account w1 id).0, none) =
        rw (cleared, maintain) (ap (on_found net id) (sticky_config-collision w1 id collides)) in
      (whole, ap (λ r. r.0.identities) whole ∙ account-identities w1 id)
