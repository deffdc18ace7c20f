-- ===== src/Parser/Builders.antt =====
-- The builders of a configuration: InterfaceBuilder, PeerBuilder and the functions that fill them
use mathlib.Core.List.{List, [], ◌++◌}
use r_wg.Base.{ℕ, Option, none, some, if◌then◌else◌, is_some}
use r_wg.Base.Result.{Result, ok, err, ◌>>=◌}
use r_wg.Base.Texts.{codes, is_text}
use r_wg.Config.{Text, Key, Endpoint, InterfaceAddress, RouteTable, InterfaceConfig, PeerConfig}
use r_wg.Net.{IpAddr, AllowedIp}
use r_wg.Parser.{FieldError, invalid_number}
use r_wg.Parser.Fields.{
  parse_allowed_ips, parse_interface_addresses, parse_dns_entries, parse_endpoint, parse_table,
  parse_fwmark, ok_or,
}
use r_wg.Parser.Keys.{KeyError, parse_key}
use r_wg.Parser.Lines.{LineError}
use r_wg.Parser.Numbers.{parse_uint}

-- What is wrong. The texts of the messages are left out.
pub data ConfigProblem : Type 0 where
  duplicate_key unsupported_key multiple_interfaces unsupported_section no_section
        peer_without_section missing_interface missing_private_key missing_public_key :
      ConfigProblem
  in_line : LineError → ConfigProblem
  in_key : KeyError → ConfigProblem
  in_field : FieldError → ConfigProblem

pub record ConfigError : Type 0 where
  pub line : Option ℕ
  pub problem : ConfigProblem

-- An error at a line.
abbrev pub at_line : {A : Type 0} → ℕ → ConfigProblem → Result ConfigError A
at_line n p = err (record { line = some n; problem = p })

abbrev pub field_at : {A : Type 0} → ℕ → Result FieldError A → Result ConfigError A
field_at n (ok a) = ok a
field_at n (err e) = at_line n (ConfigProblem.in_field e)

abbrev pub key_at : {A : Type 0} → ℕ → Result KeyError A → Result ConfigError A
key_at n (ok a) = ok a
key_at n (err e) = at_line n (ConfigProblem.in_key e)

abbrev pub line_at : {A : Type 0} → ℕ → Result LineError A → Result ConfigError A
line_at n (ok a) = ok a
line_at n (err e) = at_line n (ConfigProblem.in_line e)

pub record InterfaceBuilder : Type 0 where
  pub private_key : Option Key
  pub listen_port : Option ℕ
  pub fwmark : Option ℕ
  pub addresses : List InterfaceAddress
  pub dns_servers : List IpAddr
  pub dns_search : List Text
  pub mtu : Option ℕ
  pub table : Option RouteTable

abbrev pub empty_interface : InterfaceBuilder
empty_interface = record {
  private_key = none;
  listen_port = none;
  fwmark = none;
  addresses = [];
  dns_servers = [];
  dns_search = [];
  mtu = none;
  table = none;
}

pub record PeerBuilder : Type 0 where
  pub start_line : ℕ
  pub public_key : Option Key
  pub preshared_key : Option Key
  pub allowed_ips : List AllowedIp
  pub endpoint : Option Endpoint
  pub persistent_keepalive : Option ℕ

-- `PeerBuilder::new`
abbrev pub new_peer : ℕ → PeerBuilder
new_peer n = record {
  start_line = n;
  public_key = none;
  preshared_key = none;
  allowed_ips = [];
  endpoint = none;
  persistent_keepalive = none;
}

abbrev pub interface_with :
    InterfaceBuilder → Option ℕ → Option Key → Result ConfigError InterfaceConfig
interface_with b line none =
    err (record { line = line; problem = ConfigProblem.missing_private_key })
interface_with b line (some key) = ok (record {
  private_key = key;
  listen_port = b.listen_port;
  fwmark = b.fwmark;
  addresses = b.addresses;
  dns_servers = b.dns_servers;
  dns_search = b.dns_search;
  mtu = b.mtu;
  table = b.table;
})

-- `InterfaceBuilder::finish`
unfoldable pub finish_interface : InterfaceBuilder → Option ℕ → Result ConfigError InterfaceConfig
finish_interface b line = interface_with b line b.private_key

abbrev pub peer_with : PeerBuilder → Option Key → Result ConfigError PeerConfig
peer_with b none = at_line b.start_line ConfigProblem.missing_public_key
peer_with b (some key) = ok (record {
  public_key = key;
  preshared_key = b.preshared_key;
  allowed_ips = b.allowed_ips;
  endpoint = b.endpoint;
  persistent_keepalive = b.persistent_keepalive;
})

-- `PeerBuilder::finish`
unfoldable pub finish_peer : PeerBuilder → Result ConfigError PeerConfig
finish_peer b = peer_with b b.public_key

-- A field that may be given once.
abbrev pub once : {A B : Type 0} → ℕ → Option A → Result ConfigError B → Result ConfigError B
once n field set = if is_some field then at_line n ConfigProblem.duplicate_key else set

abbrev pub u16_at : ℕ → Text → Result ConfigError ℕ
u16_at n value = field_at n (ok_or invalid_number (parse_uint 16 value))

module _ (parse_ip : Text → Option IpAddr) (decode : Text → Option Key) where
  unfoldable pub parse_interface_kv :
      InterfaceBuilder → Text → Text → ℕ → Result ConfigError InterfaceBuilder
  unfolding parse_key parse_fwmark parse_interface_addresses parse_dns_entries parse_table
      parse_uint
  parse_interface_kv b key value n =
      if is_text key (codes "privatekey")
      then (once n b.private_key
          (key_at n (parse_key decode value) >>= λ k. ok (record b { private_key = some k })))
      else (if is_text key (codes "listenport")
          then (once n b.listen_port
              (u16_at n value >>= λ p. ok (record b { listen_port = some p })))
          else (if is_text key (codes "fwmark")
              then (once n b.fwmark
                  (field_at n (parse_fwmark value) >>= λ m. ok (record b { fwmark = m })))
              else (if is_text key (codes "address")
                  then (field_at n (parse_interface_addresses parse_ip value) >>= λ more.
                      ok (record b { addresses = b.addresses ++ more }))
                  else (if is_text key (codes "dns")
                      then (field_at n (parse_dns_entries parse_ip value) >>= λ p. ok (record b {
                        dns_servers = b.dns_servers ++ p.0;
                        dns_search = b.dns_search ++ p.1;
                      }))
                      else (if is_text key (codes "mtu")
                          then (once n b.mtu
                              (u16_at n value >>= λ m. ok (record b { mtu = some m })))
                          else (if is_text key (codes "table")
                              then (once n b.table (
                                  field_at n (parse_table value) >>= λ t.
                                  ok (record b { table = some t })))
                              else at_line n ConfigProblem.unsupported_key))))))

  unfoldable pub parse_peer_kv : PeerBuilder → Text → Text → ℕ → Result ConfigError PeerBuilder
  unfolding parse_key parse_allowed_ips parse_endpoint parse_uint
  parse_peer_kv b key value n =
      if is_text key (codes "publickey")
      then (once n b.public_key
          (key_at n (parse_key decode value) >>= λ k. ok (record b { public_key = some k })))
      else (if is_text key (codes "presharedkey")
          then (once n b.preshared_key
              (key_at n (parse_key decode value) >>= λ k. ok (record b { preshared_key = some k })))
          else (if is_text key (codes "allowedips")
              then (field_at n (parse_allowed_ips parse_ip value) >>= λ more.
                  ok (record b { allowed_ips = b.allowed_ips ++ more }))
              else (if is_text key (codes "endpoint")
                  then (once n b.endpoint (
                      field_at n (parse_endpoint value) >>= λ e.
                      ok (record b { endpoint = some e })))
                  else (if is_text key (codes "persistentkeepalive")
                      then (once n b.persistent_keepalive
                          (u16_at n value >>= λ k. ok (record b { persistent_keepalive = some k })))
                      else at_line n ConfigProblem.unsupported_key))))
