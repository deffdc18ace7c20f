-- ===== src/Config.antt =====
-- src/core/config/types.rs: the parsed configuration. Text is a list of character codes.
use mathlib.Core.List.{List}
use r_wg.Base.{ℕ, Option}
use r_wg.Net.{IpAddr, AllowedIp}

abbrev pub Text : Type 0
Text = List ℕ

-- The bytes of a key.
abbrev pub Key : Type 0
Key = List ℕ

pub record InterfaceAddress : Type 0 where
  pub addr : IpAddr
  pub cidr : ℕ

pub data RouteTable : Type 0 where
  auto off : RouteTable
  id : ℕ → RouteTable

pub record Endpoint : Type 0 where
  pub host : Text
  pub port : ℕ

pub record PeerConfig : Type 0 where
  pub public_key : Key
  pub preshared_key : Option Key
  pub allowed_ips : List AllowedIp
  pub endpoint : Option Endpoint
  pub persistent_keepalive : Option ℕ

pub record InterfaceConfig : Type 0 where
  pub private_key : Key
  pub listen_port : Option ℕ
  pub fwmark : Option ℕ
  pub addresses : List InterfaceAddress
  pub dns_servers : List IpAddr
  pub dns_search : List Text
  pub mtu : Option ℕ
  pub table : Option RouteTable

pub record WireGuardConfig : Type 0 where
  pub interface : InterfaceConfig
  pub peers : List PeerConfig
