-- ===== src/Parser/Parsed.antt =====
-- What parse_config returns, as a whole: its errors and the configurations it accepts.
use mathlib.Core.List.{List, [], ◌∷◌}
use r_wg.Base.{
  ℕ, suc, ◌+◌, ◌≤◌, ◌≡◌, refl, sym, ◌∙◌, subst, Bool, true, false, Option, none, some, length, All,
  arith,
}
use r_wg.Base.Result.{Result, ok, err, ◌>>=◌}
use r_wg.Config.{Text, Key, PeerConfig, WireGuardConfig}
use r_wg.Net.{IpAddr, IsIp}
use r_wg.Parser.Builders.{
  ConfigError, InterfaceBuilder, finish_interface, finish_peer, interface_with,
}
use r_wg.Parser.Document.{
  Parse, initial, push_peer, read_line, read_lines, finish_seen, finish_parse, parse_config,
}
use r_wg.Parser.Lines.{strip_bom, lines}
use r_wg.Parser.Post.{Within, Post, Post-chain}
use r_wg.Parser.Sound.{flag, PrefixesFit, Inv, Pushed, push_peer-Pushed}
use r_wg.Parser.Headers.{header_of, interface_header, peer_header}
use r_wg.Parser.Steps.{read_line_lem}

-- How many of the lines open a section.
abbrev pub interface_headers : List Text → ℕ
interface_headers [] = 0
interface_headers (l ∷ ls) = interface_header (header_of l) + interface_headers ls

abbrev pub peer_headers : List Text → ℕ
peer_headers [] = 0
peer_headers (l ∷ ls) = peer_header (header_of l) + peer_headers ls

Within-more : (m n : ℕ) (o : Option ℕ) → m ≤ n → Within m o → Within n o
Within-more m n none le h = tt
Within-more m n (some k) le h = (h.0, omega (arith, h.1, le))

Post-more :
    {A : Type 0} (Q : A → Type 0) (m n : ℕ) (r : Result ConfigError A)
    → m ≤ n
    → Post Q m r
    → Post Q n r
Post-more Q m n (ok a) le h = h
Post-more Q m n (err e) le h = Within-more m n e.line le h

-- The configuration that b peers and an interface of which there are i make.
abbrev pub Sections : ℕ → ℕ → WireGuardConfig → Type 0
Sections b i c = (length c.peers ≡ b) × (i ≡ 1) × All PrefixesFit c.peers

interface_with_lem :
    (m b i : ℕ) (builder : InterfaceBuilder) (key : Option Key) (line : Option ℕ)
    (peers : List PeerConfig)
    → Within m line
    → length peers ≡ b
    → i ≡ 1
    → All PrefixesFit peers
    → Post
        (Sections b i)
        m
        (interface_with builder line key >>= λ c. ok (record { interface = c; peers = peers }))
interface_with_lem m b i builder none line peers w l s a = w
interface_with_lem m b i builder (some key) line peers w l s a = (l, s, a)

finish_seen_lem :
    (m b i : ℕ) (p : Parse) (seen : Bool)
    → p.seen_interface ≡ seen
    → Pushed m b i p
    → Post (Sections b i) m (finish_seen p seen)
unfolding finish_interface
finish_seen_lem m b i p false e h = tt
finish_seen_lem m b i p true e h =
    interface_with_lem m b i p.builder p.builder.private_key p.interface_line p.peers
      h.interface_line h.count (sym h.seen ∙ subst (λ s. flag s ≡ 1) (sym e) refl) h.peers

finish_parse_lem : (m b i : ℕ) (p : Parse) → Inv m b i p → Post (Sections b i) m (finish_parse p)
unfolding finish_parse finish_peer finish_interface
finish_parse_lem m b i p h =
    Post-chain (Pushed m b i) (Sections b i) m (push_peer p.current_peer p) _
      (push_peer-Pushed m b i p h) (λ q g. finish_seen_lem m b i q q.seen_interface refl g)

module _ (parse_ip : Text → Option IpAddr) (decode : Text → Option Key)
    (valid : (s : Text) (a : IpAddr) → parse_ip s ≡ some a → IsIp a) where
  read_lines_lem :
      (n k i m a b : ℕ) (ls : List Text) (p : Parse)
      → n + length ls ≡ m
      → k + peer_headers ls ≡ a
      → i + interface_headers ls ≡ b
      → Inv n k i p
      → Post (Inv m a b) m (read_lines parse_ip decode n ls p)
  unfolding read_lines
  read_lines_lem n k i m a b [] p x y z h =
      let x' : n ≡ m = omega (arith, x) in
      let y' : k ≡ a = omega (arith, y) in
      let z' : i ≡ b = omega (arith, z) in
      subst (λ m. Inv m a b p) x' (subst (λ a. Inv n a b p) y' (subst (λ b. Inv n k b p) z' h))
  read_lines_lem n k i m a b (l ∷ ls) p x y z h =
      let k' = k + peer_header (header_of l) in
      let i' = i + interface_header (header_of l) in
      Post-chain (Inv (suc n) k' i') (Inv m a b) m (read_line parse_ip decode (suc n) l p) _
        (Post-more (Inv (suc n) k' i') (suc n) m _ (omega (arith, x))
          (read_line_lem parse_ip decode valid n k i l p h))
        (λ q g.
          read_lines_lem (suc n) k' i' m a b ls q (omega (arith, x)) (omega (arith, y))
            (omega (arith, z)) g)

  parse_config_lem :
      (input : Text)
      → let ls = lines (strip_bom input) in
        Post
          (Sections (peer_headers ls) (interface_headers ls))
          (length ls)
          (parse_config parse_ip decode input)
  unfolding parse_config read_lines finish_parse
  parse_config_lem input =
      let ls = lines (strip_bom input) in
      let m = length ls in
      let a = peer_headers ls in
      let b = interface_headers ls in
      Post-chain (Inv m a b) (Sections a b) m (read_lines parse_ip decode 0 ls initial) finish_parse
        (read_lines_lem 0 0 0 m a b ls initial (omega arith) (omega arith) (omega arith)
          (record { interface_line = tt; current = tt; peers = tt; count = refl; seen = refl }))
        (λ p h. finish_parse_lem m a b p h)

  -- When every address the parser of addresses reads is one, an error of parse_config that names a
  -- line names one of the lines of the input, counted from 1.
  pub parse_config-Within :
      (input : Text) (e : ConfigError)
      → parse_config parse_ip decode input ≡ err e
      → Within (length (lines (strip_bom input))) e.line
  parse_config-Within input e h =
      let ls = lines (strip_bom input) in
      subst (Post (Sections (peer_headers ls) (interface_headers ls)) (length ls)) h
        (parse_config_lem input)

  -- When every address the parser of addresses reads is one, a configuration that parse_config
  -- returns has as many peers as the input has headers of a peer, the input has exactly one header
  -- of the interface, and each allowed address of a peer has a prefix no longer than the address.
  pub parse_config-Sections :
      (input : Text) (c : WireGuardConfig)
      → parse_config parse_ip decode input ≡ ok c
      → Sections
          (peer_headers (lines (strip_bom input)))
          (interface_headers (lines (strip_bom input)))
          c
  parse_config-Sections input c h =
      let ls = lines (strip_bom input) in
      subst (Post (Sections (peer_headers ls) (interface_headers ls)) (length ls)) h
        (parse_config_lem input)
