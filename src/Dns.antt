-- ===== src/Dns.antt =====
-- src/core/dns.rs: the choice of the DNS servers at start. The preset's addresses are numbers, the
-- texts for the display are left out.
use mathlib.Core.Path.{◌≡◌, refl}
use mathlib.Core.List.{List, [], ◌∷◌, ◌++◌}
use mathlib.Core.List.{append-nil, append_assoc}
use native.Mathlib.Omega.{arith}
use r_wg.Base.{
  any-append, any, ◌*◌, ◌+◌, ◌^◌, Bool-cases, sym, inl, inr, ℕ, Bool, true, if◌then◌else◌,
}
use r_wg.Net.{IpAddr, v4, v6, is_ipv4, is_ipv6}
use r_wg.Config.{Text}

pub data DnsMode : Type 0 where
  follow_config use_system_dns auto_fill_missing_families override_all : DnsMode

pub data DnsPreset : Type 0 where
  cloudflare_standard cloudflare_malware cloudflare_malware_adult adguard_default adguard_unfiltered
        adguard_family :
      DnsPreset

pub record DnsSelection : Type 0 where
  pub mode : DnsMode
  pub preset : DnsPreset

-- The address `a.b.c.d`.
abbrev pub quad : ℕ → ℕ → ℕ → ℕ → IpAddr
quad a b c d = v4 (((a * 256 + b) * 256 + c) * 256 + d)

-- The address `a:b:c::d:e`.
abbrev pub hexes : ℕ → ℕ → ℕ → ℕ → ℕ → IpAddr
hexes a b c d e = v6 (((a * 65536 + b) * 65536 + c) * 2 ^ 80 + d * 65536 + e)

unfoldable pub ipv4_addrs : DnsPreset → List IpAddr
ipv4_addrs DnsPreset.cloudflare_standard = quad 1 1 1 1 ∷ quad 1 0 0 1 ∷ []
ipv4_addrs DnsPreset.cloudflare_malware = quad 1 1 1 2 ∷ quad 1 0 0 2 ∷ []
ipv4_addrs DnsPreset.cloudflare_malware_adult = quad 1 1 1 3 ∷ quad 1 0 0 3 ∷ []
ipv4_addrs DnsPreset.adguard_default = quad 94 140 14 14 ∷ quad 94 140 15 15 ∷ []
ipv4_addrs DnsPreset.adguard_unfiltered = quad 94 140 14 140 ∷ quad 94 140 14 141 ∷ []
ipv4_addrs DnsPreset.adguard_family = quad 94 140 14 15 ∷ quad 94 140 15 16 ∷ []

unfoldable pub ipv6_addrs : DnsPreset → List IpAddr
ipv6_addrs DnsPreset.cloudflare_standard =
    hexes 0x2606 0x4700 0x4700 0 0x1111 ∷ hexes 0x2606 0x4700 0x4700 0 0x1001 ∷ []
ipv6_addrs DnsPreset.cloudflare_malware =
    hexes 0x2606 0x4700 0x4700 0 0x1112 ∷ hexes 0x2606 0x4700 0x4700 0 0x1002 ∷ []
ipv6_addrs DnsPreset.cloudflare_malware_adult =
    hexes 0x2606 0x4700 0x4700 0 0x1113 ∷ hexes 0x2606 0x4700 0x4700 0 0x1003 ∷ []
ipv6_addrs DnsPreset.adguard_default =
    hexes 0x2a10 0x50c0 0 0xad1 0xff ∷ hexes 0x2a10 0x50c0 0 0xad2 0xff ∷ []
ipv6_addrs DnsPreset.adguard_unfiltered =
    hexes 0x2a10 0x50c0 0 1 0xff ∷ hexes 0x2a10 0x50c0 0 2 0xff ∷ []
ipv6_addrs DnsPreset.adguard_family =
    hexes 0x2a10 0x50c0 0 0xbad1 0xff ∷ hexes 0x2a10 0x50c0 0 0xbad2 0xff ∷ []

unfoldable pub all_addrs : DnsPreset → List IpAddr
unfolding ipv4_addrs ipv6_addrs
all_addrs p = ipv4_addrs p ++ ipv6_addrs p

-- The servers with those of the families that are missing; `has_v4` and `has_v6` are read first.
unfoldable pub fill_missing : List IpAddr → DnsPreset → List IpAddr
unfolding ipv4_addrs ipv6_addrs
fill_missing servers p =
    let filled = if any is_ipv4 servers then servers else servers ++ ipv4_addrs p in
    if any is_ipv6 servers then filled else filled ++ ipv6_addrs p

-- The servers and the search domains after the selection.
unfoldable pub apply_dns_selection :
    List IpAddr → List Text → DnsSelection → List IpAddr × List Text
unfolding fill_missing all_addrs
apply_dns_selection servers search selection = elim selection.mode [
  | DnsMode.follow_config ↦ (servers, search)
  | DnsMode.use_system_dns ↦ ([], [])
  | DnsMode.auto_fill_missing_families ↦ (fill_missing servers selection.preset, search)
  | DnsMode.override_all ↦ (all_addrs selection.preset, [])
]

-- Every preset has a server of each family.
any-ipv4_addrs : (p : DnsPreset) → any is_ipv4 (ipv4_addrs p) ≡ true
unfolding ipv4_addrs
any-ipv4_addrs p = elim p as (λ p. any is_ipv4 (ipv4_addrs p) ≡ true) [
  | DnsPreset.cloudflare_standard ↦ refl
  | DnsPreset.cloudflare_malware ↦ refl
  | DnsPreset.cloudflare_malware_adult ↦ refl
  | DnsPreset.adguard_default ↦ refl
  | DnsPreset.adguard_unfiltered ↦ refl
  | DnsPreset.adguard_family ↦ refl
]

any-ipv6_addrs : (p : DnsPreset) → any is_ipv6 (ipv6_addrs p) ≡ true
unfolding ipv6_addrs
any-ipv6_addrs p = elim p as (λ p. any is_ipv6 (ipv6_addrs p) ≡ true) [
  | DnsPreset.cloudflare_standard ↦ refl
  | DnsPreset.cloudflare_malware ↦ refl
  | DnsPreset.cloudflare_malware_adult ↦ refl
  | DnsPreset.adguard_default ↦ refl
  | DnsPreset.adguard_unfiltered ↦ refl
  | DnsPreset.adguard_family ↦ refl
]

any_append_right :
    (f : IpAddr → Bool) (xs ys : List IpAddr) → any f ys ≡ true → any f (xs ++ ys) ≡ true
any_append_right f xs ys h = ground (arith, any-append f xs ys, h)

any_append_left :
    (f : IpAddr → Bool) (xs ys : List IpAddr) → any f xs ≡ true → any f (xs ++ ys) ≡ true
any_append_left f xs ys h = ground (arith, any-append f xs ys, h)

-- Filling the missing families: afterwards there is a server of each family, the configured
-- servers come first, and servers of both families are left as they are.
pub fill_missing_families :
    (servers : List IpAddr) (p : DnsPreset)
    → (any is_ipv4 (fill_missing servers p) ≡ true)
      × (any is_ipv6 (fill_missing servers p) ≡ true)
      × ((added : List IpAddr) × (fill_missing servers p ≡ servers ++ added))
      × (any is_ipv4 servers ≡ true → any is_ipv6 servers ≡ true → fill_missing servers p ≡ servers)
unfolding fill_missing
fill_missing_families servers p = elim (Bool-cases (any is_ipv4 servers)) [
  | inl e ↦ elim (Bool-cases (any is_ipv6 servers)) [
    | inl f ↦ rw (e, f) (e, f, ([], sym (append-nil servers)), λ _ _. refl)
    | inr f ↦
        rw (e, f)
          (
            any_append_left is_ipv4 servers (ipv6_addrs p) e,
            any_append_right is_ipv6 servers (ipv6_addrs p) (any-ipv6_addrs p),
            (ipv6_addrs p, refl),
            λ _ h. absurd (cc),
          )
  ]
  | inr e ↦ elim (Bool-cases (any is_ipv6 servers)) [
    | inl f ↦
        rw (e, f)
          (
            any_append_right is_ipv4 servers (ipv4_addrs p) (any-ipv4_addrs p),
            any_append_left is_ipv6 servers (ipv4_addrs p) f,
            (ipv4_addrs p, refl),
            λ h _. absurd (cc),
          )
    | inr f ↦
        rw (e, f)
          (
            any_append_left is_ipv4 (servers ++ ipv4_addrs p) (ipv6_addrs p)
                (any_append_right is_ipv4 servers (ipv4_addrs p) (any-ipv4_addrs p)),
            any_append_right is_ipv6 (servers ++ ipv4_addrs p) (ipv6_addrs p) (any-ipv6_addrs p),
            (ipv4_addrs p ++ ipv6_addrs p, append_assoc servers (ipv4_addrs p) (ipv6_addrs p)),
            λ h _. absurd (cc),
          )
  ]
]
