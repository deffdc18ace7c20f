-- ===== src/Parser/Sound.antt =====
-- What holds between the lines of parse_config.
use mathlib.Core.List.{[], ◌∷◌, ◌++◌}
use r_wg.Base.{
  ℕ, suc, ◌+◌, ◌≤◌, ◌≡◌, refl, ◌∙◌, Bool, true, false, Option, none, some, length, length-append,
  All, All-append, arith,
}
use r_wg.Base.Result.{ok, ◌>>=◌}
use r_wg.Config.{Key, PeerConfig}
use r_wg.Net.{IsPrefix}
use r_wg.Parser.Builders.{PeerBuilder, finish_peer, peer_with}
use r_wg.Parser.Document.{Parse, push_peer}
use r_wg.Parser.Post.{Within, Post, Within-suc}

-- A peer of which the section starts in the first n lines.
abbrev pub PeerFits : ℕ → PeerBuilder → Type 0
PeerFits n b = (1 ≤ b.start_line) × (b.start_line ≤ n) × All IsPrefix b.allowed_ips

abbrev pub CurrentFits : ℕ → Option PeerBuilder → Type 0
CurrentFits n none = Unit
CurrentFits n (some b) = PeerFits n b

abbrev pub current_size : Option PeerBuilder → ℕ
current_size none = 0
current_size (some b) = 1

abbrev pub flag : Bool → ℕ
flag true = 1
flag false = 0

abbrev pub PrefixesFit : PeerConfig → Type 0
PrefixesFit p = All IsPrefix p.allowed_ips

-- After n lines with k headers of a peer and i of the interface.
pub record Inv (n k i : ℕ) (p : Parse) : Type 0 where
  pub interface_line : Within n p.interface_line
  pub current : CurrentFits n p.current_peer
  pub peers : All PrefixesFit p.peers
  pub count : length p.peers + current_size p.current_peer ≡ k
  pub seen : flag p.seen_interface ≡ i

-- When the peer that was being read has been taken.
pub record Pushed (n k i : ℕ) (p : Parse) : Type 0 where
  pub interface_line : Within n p.interface_line
  pub none_left : p.current_peer ≡ none
  pub peers : All PrefixesFit p.peers
  pub count : length p.peers ≡ k
  pub seen : flag p.seen_interface ≡ i

push_some_lem :
    (n k i : ℕ) (b : PeerBuilder) (key : Option Key) (p : Parse)
    → PeerFits n b
    → Within n p.interface_line
    → All PrefixesFit p.peers
    → length p.peers + 1 ≡ k
    → flag p.seen_interface ≡ i
    → Post (Pushed n k i) n (
        peer_with b key >>= λ peer.
        ok (record p { peers = p.peers ++ (peer ∷ []); current_peer = none }))
push_some_lem n k i b none p f w a c s = (f.0, f.1)
push_some_lem n k i b (some key) p f w a c s = record {
  interface_line = w;
  none_left = refl;
  peers = All-append PrefixesFit p.peers _ a (f.2, tt);
  count = length-append p.peers _ ∙ c;
  seen = s;
}

push_lem :
    (n k i : ℕ) (c : Option PeerBuilder) (p : Parse)
    → p.current_peer ≡ c
    → CurrentFits n c
    → Within n p.interface_line
    → All PrefixesFit p.peers
    → length p.peers + current_size c ≡ k
    → flag p.seen_interface ≡ i
    → Post (Pushed n k i) n (push_peer c p)
unfolding finish_peer
push_lem n k i none p e f w a c s = record {
  interface_line = w;
  none_left = e;
  peers = a;
  count = omega (arith, c);
  seen = s;
}
push_lem n k i (some b) p e f w a c s = push_some_lem n k i b b.public_key p f w a c s

pub push_peer-Pushed :
    (n k i : ℕ) (p : Parse) → Inv n k i p → Post (Pushed n k i) n (push_peer p.current_peer p)
unfolding finish_peer
push_peer-Pushed n k i p h =
    push_lem n k i p.current_peer p refl h.current h.interface_line h.peers h.count h.seen

CurrentFits-suc : (n : ℕ) (c : Option PeerBuilder) → CurrentFits n c → CurrentFits (suc n) c
CurrentFits-suc n none h = tt
CurrentFits-suc n (some b) h = (h.0, omega (arith, h.1), h.2)

pub Inv-suc : (n k i : ℕ) (p : Parse) → Inv n k i p → Inv (suc n) k i p
Inv-suc n k i p h = record {
  interface_line = Within-suc n p.interface_line h.interface_line;
  current = CurrentFits-suc n p.current_peer h.current;
  peers = h.peers;
  count = h.count;
  seen = h.seen;
}
