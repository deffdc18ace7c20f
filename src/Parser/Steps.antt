-- ===== src/Parser/Steps.antt =====
-- Each line keeps what holds between the lines.
use r_wg.Base.{
  ℕ, suc, ◌+◌, ◌≡◌, refl, sym, ◌∙◌, ap, subst, Option, none, some, is_empty, length, All-append,
  arith, Bool-cases, inl, inr,
}
use r_wg.Base.Result.{ok}
use r_wg.Base.Texts.{codes, is_text}
use r_wg.Base.Trim.{trim}
use r_wg.Config.{Text, Key}
use r_wg.Net.{IpAddr, IsIp, IsPrefix}
use r_wg.Parser.Accepted.{parse_allowed_ips-IsPrefix}
use r_wg.Parser.Builders.{
  unsupported_key, InterfaceBuilder, PeerBuilder, parse_interface_kv, parse_peer_kv,
}
use r_wg.Parser.Document.{
  Section, Parse, enter_section, set_peer_field, set_field, read_field, read_header, read_line,
}
use r_wg.Parser.Fields.{
  parse_allowed_ips, parse_interface_addresses, parse_dns_entries, parse_endpoint, parse_table,
  parse_fwmark, ok_or,
}
use r_wg.Parser.Keys.{parse_key}
use r_wg.Parser.Lines.{strip_comments, parse_section_header, split_key_value}
use r_wg.Parser.Numbers.{parse_uint}
use r_wg.Parser.Post.{
  Post, Post-chain, Post-if, Post-line, Post-field, Post-key, Post-split, Post-once,
}
use r_wg.Parser.Sound.{PeerFits, CurrentFits, current_size, Inv, Inv-suc}
use r_wg.Parser.Headers.{header_of, interface_header, peer_header, enter_section_lem}

module _ (parse_ip : Text → Option IpAddr) (decode : Text → Option Key)
    (valid : (s : Text) (a : IpAddr) → parse_ip s ≡ some a → IsIp a) where
  interface_kv_lem :
      (b : InterfaceBuilder) (key value : Text) (n : ℕ)
      → Post (λ _. Unit) (suc n) (parse_interface_kv parse_ip decode b key value (suc n))
  unfolding parse_interface_kv
  interface_kv_lem b key value n =
      let any = λ (_ : InterfaceBuilder). Unit in
      Post-if any (suc n) (is_text key (codes "privatekey")) _ _
        (λ _.
          Post-once any n b.private_key _ (Post-key any n (parse_key decode value) _ (λ a e. tt)))
        (λ _.
          Post-if any (suc n) (is_text key (codes "listenport")) _ _
            (λ _.
              Post-once any n b.listen_port _
                (Post-field any n (ok_or _ (parse_uint 16 value)) _ (λ a e. tt)))
            (λ _.
              Post-if any (suc n) (is_text key (codes "fwmark")) _ _
                (λ _.
                  Post-once any n b.fwmark _ (Post-field any n (parse_fwmark value) _ (λ a e. tt)))
                (λ _.
                  Post-if any (suc n) (is_text key (codes "address")) _ _
                    (λ _. Post-field any n (parse_interface_addresses parse_ip value) _ (λ a e. tt))
                    (λ _.
                      Post-if any (suc n) (is_text key (codes "dns")) _ _
                        (λ _. Post-field any n (parse_dns_entries parse_ip value) _ (λ a e. tt))
                        (λ _.
                          Post-if any (suc n) (is_text key (codes "mtu")) _ _
                            (λ _.
                              Post-once any n b.mtu _
                                (Post-field any n (ok_or _ (parse_uint 16 value)) _ (λ a e. tt)))
                            (λ _.
                              Post-if any (suc n) (is_text key (codes "table")) _ _
                                (λ _.
                                  Post-once any n b.table _
                                    (Post-field any n (parse_table value) _ (λ a e. tt)))
                                (λ _. Post-line any n unsupported_key)))))))

  peer_kv_lem :
      (m n : ℕ) (b : PeerBuilder) (key value : Text)
      → PeerFits m b
      → Post (PeerFits m) (suc n) (parse_peer_kv parse_ip decode b key value (suc n))
  unfolding parse_peer_kv
  peer_kv_lem m n b key value h =
      let fits = PeerFits m in
      Post-if fits (suc n) (is_text key (codes "publickey")) _ _
        (λ _.
          Post-once fits n b.public_key _ (Post-key fits n (parse_key decode value) _ (λ a e. h)))
        (λ _.
          Post-if fits (suc n) (is_text key (codes "presharedkey")) _ _
            (λ _.
              Post-once fits n b.preshared_key _
                (Post-key fits n (parse_key decode value) _ (λ a e. h)))
            (λ _.
              Post-if fits (suc n) (is_text key (codes "allowedips")) _ _
                (λ _. Post-field fits n (parse_allowed_ips parse_ip value) _ (λ a e. (
                  h.0,
                  h.1,
                  All-append IsPrefix b.allowed_ips a h.2
                      (parse_allowed_ips-IsPrefix parse_ip valid value a e).0,
                )))
                (λ _.
                  Post-if fits (suc n) (is_text key (codes "endpoint")) _ _
                    (λ _.
                      Post-once fits n b.endpoint _
                        (Post-field fits n (parse_endpoint value) _ (λ a e. h)))
                    (λ _.
                      Post-if fits (suc n) (is_text key (codes "persistentkeepalive")) _ _
                        (λ _.
                          Post-once fits n b.persistent_keepalive _
                            (Post-field fits n (ok_or _ (parse_uint 16 value)) _ (λ a e. h)))
                        (λ _. Post-line fits n unsupported_key)))))

  peer_field_lem :
      (n k i : ℕ) (kv : Text × Text) (c : Option PeerBuilder) (p : Parse)
      → p.current_peer ≡ c
      → Inv n k i p
      → Post (Inv (suc n) k i) (suc n) (set_peer_field parse_ip decode (suc n) kv p c)
  unfolding parse_peer_kv
  peer_field_lem n k i kv none p e h = (omega arith, omega arith)
  peer_field_lem n k i kv (some b) p e h =
      Post-chain (PeerFits (suc n)) (Inv (suc n) k i) (suc n)
        (parse_peer_kv parse_ip decode b kv.0 kv.1 (suc n)) _
        (peer_kv_lem (suc n) n b kv.0 kv.1
          (subst (CurrentFits (suc n)) e (Inv-suc n k i p h).current))
        (λ c f. record {
          interface_line = (Inv-suc n k i p h).interface_line;
          current = f;
          peers = h.peers;
          count = ap (λ o. length p.peers + current_size o) (sym e) ∙ h.count;
          seen = h.seen;
        })

  field_lem :
      (n k i : ℕ) (active : Section) (p : Parse) (kv : Text × Text)
      → Inv n k i p
      → Post (Inv (suc n) k i) (suc n) (set_field parse_ip decode (suc n) active p kv)
  unfolding parse_peer_kv parse_interface_kv
  field_lem n k i Section.interface p kv h =
      Post-chain (λ _. Unit) (Inv (suc n) k i) (suc n)
        (parse_interface_kv parse_ip decode p.builder kv.0 kv.1 (suc n)) _
        (interface_kv_lem p.builder kv.0 kv.1 n)
        (λ b _. record {
          interface_line = (Inv-suc n k i p h).interface_line;
          current = (Inv-suc n k i p h).current;
          peers = h.peers;
          count = h.count;
          seen = h.seen;
        })
  field_lem n k i Section.peer p kv h = peer_field_lem n k i kv p.current_peer p refl h

  read_field_lem :
      (n k i : ℕ) (line : Text) (p : Parse) (active : Option Section)
      → Inv n k i p
      → Post (Inv (suc n) k i) (suc n) (read_field parse_ip decode (suc n) line p active)
  unfolding parse_peer_kv parse_interface_kv split_key_value
  read_field_lem n k i line p none h = (omega arith, omega arith)
  read_field_lem n k i line p (some active) h =
      Post-split (Inv (suc n) k i) n (split_key_value line) _ (λ kv. field_lem n k i active p kv h)

  read_header_lem :
      (n k i : ℕ) (line : Text) (p : Parse) (header : Option Text)
      → Inv n k i p
      → Post
          (Inv (suc n) (k + peer_header header) (i + interface_header header))
          (suc n)
          (read_header parse_ip decode (suc n) line p header)
  unfolding parse_interface_kv parse_peer_kv split_key_value enter_section
  read_header_lem n k i line p (some name) h = enter_section_lem n k i name p h
  read_header_lem n k i line p none h =
      subst
        (λ a.
          Post (Inv (suc n) a (i + 0)) (suc n)
            (read_field parse_ip decode (suc n) line p p.section))
        (omega arith)
        (subst
          (λ b.
            Post (Inv (suc n) k b) (suc n) (read_field parse_ip decode (suc n) line p p.section))
          (omega arith) (read_field_lem n k i line p p.section h))

  plus_zero_lem :
      (n k i : ℕ) (p : Parse) → Inv n k i p → Post (Inv (suc n) (k + 0) (i + 0)) (suc n) (ok p)
  plus_zero_lem n k i p h =
      subst (λ a. Inv (suc n) a (i + 0) p) (omega arith)
        (subst (λ b. Inv (suc n) k b p) (omega arith) (Inv-suc n k i p h))

  pub read_line_lem :
      (n k i : ℕ) (raw : Text) (p : Parse)
      → Inv n k i p
      → Post
          (Inv (suc n) (k + peer_header (header_of raw)) (i + interface_header (header_of raw)))
          (suc n)
          (read_line parse_ip decode (suc n) raw p)
  unfolding read_line trim strip_comments parse_section_header
  read_line_lem n k i raw p h = elim (Bool-cases (is_empty (trim (strip_comments raw)))) [
    | inl e ↦ rw e (plus_zero_lem n k i p h)
    | inr e ↦ rw e (
        read_header_lem n k i (trim (strip_comments raw)) p
          (parse_section_header (trim (strip_comments raw))) h)
  ]
