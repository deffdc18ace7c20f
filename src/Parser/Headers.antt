-- ===== src/Parser/Headers.antt =====
-- The headers of the lines, and what the lines that are headers keep.
use r_wg.Base.{
  ℕ, suc, ◌+◌, sym, ◌∙◌, ap, subst, Bool, Option, none, some, if◌then◌else◌, is_empty, length,
  arith, Bool-cases, inl, inr,
}
use r_wg.Base.Texts.{codes, is_text, to_ascii_lowercase}
use r_wg.Base.Trim.{trim}
use r_wg.Config.{Text}
use r_wg.Parser.Builders.{finish_peer}
use r_wg.Parser.Document.{Parse, push_peer, enter_interface, enter_peer, enter_section}
use r_wg.Parser.Lines.{strip_comments, parse_section_header}
use r_wg.Parser.Post.{Post, Post-chain, Post-if}
use r_wg.Parser.Sound.{CurrentFits, current_size, flag, Inv, Pushed, push_peer-Pushed, Inv-suc}

-- The sections that a line opens.
abbrev pub opens : Text → Text → Bool
opens name header = is_text (to_ascii_lowercase header) name

abbrev pub header_of : Text → Option Text
unfolding trim strip_comments parse_section_header
header_of raw =
    let line = trim (strip_comments raw) in
    if is_empty line then none else parse_section_header line

-- 1 for a header of the interface, and of a peer.
abbrev pub interface_header : Option Text → ℕ
interface_header none = 0
interface_header (some h) = if opens (codes "interface") h then 1 else 0

abbrev pub peer_header : Option Text → ℕ
peer_header none = 0
peer_header (some h) =
    if opens (codes "interface") h then 0 else (if opens (codes "peer") h then 1 else 0)

module _ (n k i : ℕ) where
  enter_interface_lem :
      (p : Parse) → Inv n k i p → Post (Inv (suc n) k (suc i)) (suc n) (enter_interface (suc n) p)
  unfolding enter_interface finish_peer
  enter_interface_lem p h =
      Post-if (Inv (suc n) k (suc i)) (suc n) p.seen_interface _ _ (λ _. (omega arith, omega arith))
        (λ e.
          Post-chain (Pushed (suc n) k i) (Inv (suc n) k (suc i)) (suc n)
            (push_peer p.current_peer p) _ (push_peer-Pushed (suc n) k i p (Inv-suc n k i p h))
            (λ q g. record {
              interface_line = (omega arith, omega arith);
              current = subst (CurrentFits (suc n)) (sym g.none_left) tt;
              peers = g.peers;
              count =
                  ap (λ c. length q.peers + current_size c) g.none_left ∙ omega (arith, g.count);
              seen = omega (arith, h.seen, ap flag e);
            }))

  enter_peer_lem :
      (p : Parse) → Inv n k i p → Post (Inv (suc n) (suc k) i) (suc n) (enter_peer (suc n) p)
  unfolding enter_peer finish_peer
  enter_peer_lem p h =
      Post-chain (Pushed (suc n) k i) (Inv (suc n) (suc k) i) (suc n) (push_peer p.current_peer p) _
        (push_peer-Pushed (suc n) k i p (Inv-suc n k i p h))
        (λ q g. record {
          interface_line = g.interface_line;
          current = (omega arith, omega arith, tt);
          peers = g.peers;
          count = omega (arith, g.count);
          seen = g.seen;
        })

  pub enter_section_lem :
      (header : Text) (p : Parse)
      → Inv n k i p
      → Post
          (Inv (suc n) (k + peer_header (some header)) (i + interface_header (some header)))
          (suc n)
          (enter_section (suc n) header p)
  unfolding enter_section enter_interface enter_peer
  enter_section_lem header p h = elim (Bool-cases (opens (codes "interface") header)) [
    | inl e ↦ rw e (
        subst (λ a. Post (Inv (suc n) a (i + 1)) (suc n) (enter_interface (suc n) p)) (omega arith)
          (subst (λ b. Post (Inv (suc n) k b) (suc n) (enter_interface (suc n) p)) (omega arith)
            (enter_interface_lem p h)))
    | inr e ↦ elim (Bool-cases (opens (codes "peer") header)) [
      | inl f ↦
          rw (e, f)
            (subst (λ a. Post (Inv (suc n) a (i + 0)) (suc n) (enter_peer (suc n) p)) (omega arith)
              (subst (λ b. Post (Inv (suc n) (suc k) b) (suc n) (enter_peer (suc n) p))
                (omega arith) (enter_peer_lem p h)))
      | inr f ↦ rw (e, f) (omega arith, omega arith)
    ]
  ]
