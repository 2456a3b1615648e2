-- ===== src/DigitalOcean.antt =====
-- internal/providers/digitalocean: the provider's data and its errors. Fields that no modelled
-- function reads (prices, quotas other than the droplet limit) are left out.
pub mod Errors
use digital_ocean_bot.Prelude.{ℕ, String, List}
use digital_ocean_bot.Prelude.Int.{ℤ}

-- One entry of networks.v4.
pub record Network : Type 0 where
  pub ip_address : String
  pub kind : String

pub record Droplet : Type 0 where
  pub id : ℤ
  pub name : String
  pub status : String
  pub region_slug : String
  pub created_at : String
  pub networks : List Network
  pub tags : List String
  pub public_ipv4 : String

-- What CreateDroplet sends.
pub record CreateDropletRequest : Type 0 where
  pub name : String
  pub region : String
  pub size : String
  pub image : String
  pub ssh_keys : List ℤ
  pub tags : List String

-- digitalocean.Resource
pub record Resource : Type 0 where
  pub id : String
  pub kind : String
  pub state : String
