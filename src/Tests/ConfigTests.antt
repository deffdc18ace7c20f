-- ===== src/Tests/ConfigTests.antt =====
-- parse_config on short configurations.
use mathlib.Core.Path.{◌≡◌, refl}
use mathlib.Core.List.{[], ◌∷◌, ◌++◌}
use r_wg.Base.{◌<◌, ◌^◌, arith, ℕ, none, some, All, ◌≤◌, Option}
use r_wg.Base.Result.{ok, err}
use r_wg.Base.Texts.{codes}
use r_wg.Base.Trim.{is_whitespace, trim_start, trim}
use r_wg.Config.{Text, Key, WireGuardConfig}
use r_wg.Net.{v4}
use r_wg.Parser.{split_on, split_once}
use r_wg.Parser.HexText.{hex_text, parse_key-hex_text}
use r_wg.Parser.Builders.{
  ConfigProblem, ConfigError, finish_interface, finish_peer, parse_interface_kv, parse_peer_kv,
}
use r_wg.Parser.Document.{
  enter_interface, enter_peer, enter_section, read_line, read_lines, finish_parse, parse_config,
}
use r_wg.Parser.Fields.{parse_allowed_ip, parse_allowed_ips}
use r_wg.Parser.Keys.{first_pair, hex_bytes, parse_key}
use r_wg.Parser.Lines.{strip_bom, lines, strip_comments, parse_section_header, split_key_value}
use r_wg.Parser.Numbers.{digits_value, from_digits, from_radix, parse_uint, parse_hex}
use r_wg.Parser.Parsed.{Sections, parse_config-Within, parse_config-Sections}
use r_wg.Tests.ParserTests.{zero_ip, zero_ip_valid}

abbrev line_end : Text
line_end = 10 ∷ []

-- A decoder of base64 that refuses every text.
abbrev no_base64 : Text → Option Key
no_base64 s = none

abbrev interface_part : Text
interface_part =
    codes "[Interface] # home"
    ++ line_end
    ++ codes "PrivateKey = 0000000000000000000000000000000000000000000000000000000000000001"
    ++ line_end

abbrev peer_part : Text
peer_part =
    codes "[peer]"
    ++ line_end
    ++ codes "PublicKey=000000000000000000000000000000000000000000000000000000000000000A"
    ++ line_end
    ++ codes "AllowedIPs = 0/8, 0/0"
    ++ line_end

abbrev key_ending : ℕ → Key
key_ending n =
    0 ∷ 0 ∷ 0 ∷ 0 ∷ 0 ∷ 0 ∷ 0 ∷ 0 ∷ 0 ∷ 0 ∷ 0 ∷ 0 ∷ 0 ∷ 0 ∷ 0 ∷ 0 ∷ 0 ∷ 0 ∷ 0 ∷ 0 ∷ 0 ∷ 0 ∷ 0 ∷ 0
    ∷ 0 ∷ 0 ∷ 0 ∷ 0 ∷ 0 ∷ 0 ∷ 0 ∷ n ∷ []

abbrev one_peer : WireGuardConfig
one_peer = record {
  interface = record {
    private_key = key_ending 1;
    listen_port = none;
    fwmark = none;
    addresses = [];
    dns_servers = [];
    dns_search = [];
    mtu = none;
    table = none;
  };
  peers =
      record {
        public_key = key_ending 10;
        preshared_key = none;
        allowed_ips = record { addr = v4 0; cidr = 8 } ∷ record { addr = v4 0; cidr = 0 } ∷ [];
        endpoint = none;
        persistent_keepalive = none;
      }
      ∷ [];
}

one_peer_read : parse_config zero_ip no_base64 (interface_part ++ peer_part) ≡ ok one_peer
unfolding parse_config strip_bom lines read_lines read_line finish_parse enter_section
    enter_interface enter_peer finish_peer finish_interface trim trim_start is_whitespace
    strip_comments parse_section_header split_key_value split_once parse_interface_kv parse_peer_kv
    parse_key hex_bytes first_pair parse_hex from_radix from_digits digits_value parse_allowed_ips
    parse_allowed_ip split_on parse_uint
one_peer_read = refl

-- The second section of the interface is in the third line.
abbrev second_interface : ConfigError
second_interface = record { line = some 3; problem = ConfigProblem.multiple_interfaces }

second_interface_read :
    parse_config zero_ip no_base64 (interface_part ++ interface_part) ≡ err second_interface
unfolding parse_config strip_bom lines read_lines read_line finish_parse enter_section
    enter_interface enter_peer finish_peer finish_interface trim trim_start is_whitespace
    strip_comments parse_section_header split_key_value split_once parse_interface_kv parse_peer_kv
    parse_key hex_bytes first_pair parse_hex from_radix from_digits digits_value
second_interface_read = refl

parse_config-Within_example : (1 ≤ 3) × (3 ≤ 4)
unfolding strip_bom lines
parse_config-Within_example =
    parse_config-Within zero_ip no_base64 zero_ip_valid (interface_part ++ interface_part)
      second_interface second_interface_read

parse_config-Sections_example : Sections 1 1 one_peer
unfolding strip_bom lines trim trim_start is_whitespace strip_comments parse_section_header
parse_config-Sections_example =
    parse_config-Sections zero_ip no_base64 zero_ip_valid (interface_part ++ peer_part) one_peer
      one_peer_read

hex_key_read :
    parse_key no_base64 (codes " 0000000000000000000000000000000000000000000000000000000000000001")
    ≡ ok (key_ending 1)
unfolding parse_key trim trim_start is_whitespace hex_bytes first_pair parse_hex from_radix
    from_digits digits_value
hex_key_read = refl

key_bytes : All (λ b. b < 2 ^ 8) (key_ending 171)
key_bytes = ground arith

parse_key-hex_text_example : parse_key no_base64 (hex_text (key_ending 171)) ≡ ok (key_ending 171)
parse_key-hex_text_example = parse_key-hex_text no_base64 (key_ending 171) (refl, key_bytes)
