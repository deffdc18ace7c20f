-- ===== src/Parser/Document.antt =====
-- `parse_config`: the loop over the lines and its end
use mathlib.Core.List.{List, [], ◌∷◌, ◌++◌}
use r_wg.Base.{ℕ, suc, Bool, true, false, Option, none, some, if◌then◌else◌, is_empty}
use r_wg.Base.Result.{Result, ok, err, ◌>>=◌}
use r_wg.Base.Texts.{codes, is_text, to_ascii_lowercase}
use r_wg.Base.Trim.{trim}
use r_wg.Config.{Text, Key, PeerConfig, WireGuardConfig}
use r_wg.Net.{IpAddr}
use r_wg.Parser.Builders.{
  ConfigProblem, ConfigError, at_line, line_at, InterfaceBuilder, empty_interface, PeerBuilder,
  new_peer, finish_interface, finish_peer, parse_interface_kv, parse_peer_kv,
}
use r_wg.Parser.Lines.{strip_bom, lines, strip_comments, parse_section_header, split_key_value}

pub data Section : Type 0 where
  interface peer : Section

-- The variables of the loop.
pub record Parse : Type 0 where
  pub section : Option Section
  pub builder : InterfaceBuilder
  pub interface_line : Option ℕ
  pub peers : List PeerConfig
  pub current_peer : Option PeerBuilder
  pub seen_interface : Bool

abbrev pub initial : Parse
initial = record {
  section = none;
  builder = empty_interface;
  interface_line = none;
  peers = [];
  current_peer = none;
  seen_interface = false;
}

-- `if let Some(peer) = current_peer.take() { peers.push(peer.finish()?) }`
abbrev pub push_peer : Option PeerBuilder → Parse → Result ConfigError Parse
unfolding finish_peer
push_peer none p = ok p
push_peer (some b) p =
    finish_peer b >>= λ peer. ok (record p { peers = p.peers ++ (peer ∷ []); current_peer = none })

unfoldable pub enter_interface : ℕ → Parse → Result ConfigError Parse
unfolding finish_peer
enter_interface n p =
    if p.seen_interface
    then at_line n ConfigProblem.multiple_interfaces
    else (push_peer p.current_peer p >>= λ q. ok (record q {
      seen_interface = true;
      interface_line = some n;
      section = some Section.interface;
    }))

unfoldable pub enter_peer : ℕ → Parse → Result ConfigError Parse
unfolding finish_peer
enter_peer n p = push_peer p.current_peer p >>= λ q.
    ok (record q { current_peer = some (new_peer n); section = some Section.peer })

unfoldable pub enter_section : ℕ → Text → Parse → Result ConfigError Parse
unfolding enter_interface enter_peer
enter_section n name p =
    if is_text (to_ascii_lowercase name) (codes "interface")
    then enter_interface n p
    else (if is_text (to_ascii_lowercase name) (codes "peer")
        then enter_peer n p
        else at_line n ConfigProblem.unsupported_section)

abbrev pub finish_seen : Parse → Bool → Result ConfigError WireGuardConfig
unfolding finish_interface
finish_seen p false = err (record { line = none; problem = ConfigProblem.missing_interface })
finish_seen p true = finish_interface p.builder p.interface_line >>= λ i.
    ok (record { interface = i; peers = p.peers })

unfoldable pub finish_parse : Parse → Result ConfigError WireGuardConfig
unfolding finish_peer finish_interface
finish_parse p = push_peer p.current_peer p >>= λ q. finish_seen q q.seen_interface

module _ (parse_ip : Text → Option IpAddr) (decode : Text → Option Key) where
  abbrev pub set_peer_field :
      ℕ → Text × Text → Parse → Option PeerBuilder → Result ConfigError Parse
  unfolding parse_peer_kv
  set_peer_field n kv p none = at_line n ConfigProblem.peer_without_section
  set_peer_field n kv p (some b) =
      parse_peer_kv parse_ip decode b kv.0 kv.1 n >>= λ c. ok (record p { current_peer = some c })

  abbrev pub set_field : ℕ → Section → Parse → Text × Text → Result ConfigError Parse
  unfolding parse_interface_kv parse_peer_kv
  set_field n Section.interface p kv =
      parse_interface_kv parse_ip decode p.builder kv.0 kv.1 n >>= λ b.
      ok (record p { builder = b })
  set_field n Section.peer p kv = set_peer_field n kv p p.current_peer

  abbrev pub read_field : ℕ → Text → Parse → Option Section → Result ConfigError Parse
  unfolding parse_interface_kv parse_peer_kv split_key_value
  read_field n line p none = at_line n ConfigProblem.no_section
  read_field n line p (some active) = line_at n (split_key_value line) >>= set_field n active p

  abbrev pub read_header : ℕ → Text → Parse → Option Text → Result ConfigError Parse
  unfolding parse_interface_kv parse_peer_kv split_key_value enter_section
  read_header n line p (some name) = enter_section n name p
  read_header n line p none = read_field n line p p.section

  -- One line, with its number.
  unfoldable pub read_line : ℕ → Text → Parse → Result ConfigError Parse
  unfolding trim strip_comments parse_section_header enter_section parse_interface_kv parse_peer_kv
      split_key_value
  read_line n raw p =
      let line = trim (strip_comments raw) in
      if is_empty line then ok p else read_header n line p (parse_section_header line)

  -- The number is that of the line before.
  unfoldable pub read_lines : ℕ → List Text → Parse → Result ConfigError Parse
  unfolding read_line
  read_lines n [] p = ok p
  read_lines n (l ∷ ls) p = read_line (suc n) l p >>= read_lines (suc n) ls

  unfoldable pub parse_config : Text → Result ConfigError WireGuardConfig
  unfolding strip_bom lines read_lines finish_parse
  parse_config input = read_lines 0 (lines (strip_bom input)) initial >>= finish_parse
