-- ===== src/Network.antt =====
-- internal/network: routes, proxies and their health.
pub mod Route
pub mod Health
pub mod Headers
pub mod Leak
use digital_ocean_bot.Prelude.{ℕ, String, Option}
use digital_ocean_bot.Prelude.Int.{ℤ}

-- The three texts that are constants, and every other.
pub data RouteMode : Type 0 where
  direct proxy_required : RouteMode
  other_mode : String → RouteMode

pub data ProxyStatus : Type 0 where
  unknown healthy degraded down : ProxyStatus

pub data ProxyType : Type 0 where
  http https socks5 : ProxyType
  other_type : String → ProxyType

pub record Proxy : Type 0 where
  pub id : String
  pub name : String
  pub kind : ProxyType
  pub host : String
  pub port : ℤ
  pub username : String
  pub secret_ref : String
  pub status : ProxyStatus
  pub exit_ip : String
  pub failure_count : ℕ

pub record Profile : Type 0 where
  pub id : String
  pub account_id : String
  pub mode : RouteMode
  pub proxy_id : Option String
