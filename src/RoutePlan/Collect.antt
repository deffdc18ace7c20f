-- ===== src/RoutePlan/Collect.antt =====
-- The collected routes are the peers' prefixes, each once.
use mathlib.Core.Path.{◌≡◌, refl, ap, ◌∙◌, sym}
use mathlib.Core.Logic.{inl, inr}
use mathlib.Core.List.{List, [], ◌∷◌}
use native.Mathlib.Omega.{arith}
use r_wg.Base.{Bool, true, false, ◌&&◌, ◌||◌, any, any-append, Bool-cases}
use r_wg.Net.{AllowedIp, allowed_eq, allowed_eq_iff, is_ipv4, is_ipv6}
use r_wg.Config.{PeerConfig}
use r_wg.RoutePlan.{FullTunnelStatus, any_family}
use r_wg.RoutePlan.Normalize.{
  is_default, wants_full_tunnel, collect_from, all_allowed, collect_allowed_routes, note_route,
  detect_from, detect_full_tunnel,
}

-- No element is found again after it.
abbrev pub IsDistinct : List AllowedIp → Type 0
IsDistinct [] = Unit
IsDistinct (a ∷ rest) = (any (allowed_eq a) rest ≡ false) × IsDistinct rest

-- What was seen is not collected.
seen_lem :
    (x : AllowedIp) (seen rest : List AllowedIp)
    → any (allowed_eq x) seen ≡ true
    → any (allowed_eq x) (collect_from seen rest) ≡ false
unfolding collect_from
seen_lem x seen [] h = refl
seen_lem x seen (a ∷ rest) h =
    ground (arith, seen_lem x seen rest h, seen_lem x (a ∷ seen) rest, h, allowed_eq_iff x a)

collect_from-IsDistinct : (seen rest : List AllowedIp) → IsDistinct (collect_from seen rest)
unfolding collect_from
collect_from-IsDistinct seen [] = tt
collect_from-IsDistinct seen (a ∷ rest) = elim (Bool-cases (any (allowed_eq a) seen)) [
  | inl e ↦ rw e (collect_from-IsDistinct seen rest)
  | inr e ↦ rw e (
    seen_lem a (a ∷ seen) rest (ground (arith, allowed_eq_iff a a)),
    collect_from-IsDistinct (a ∷ seen) rest,
  )
]

any_same :
    (x a : AllowedIp) (xs : List AllowedIp)
    → allowed_eq x a ≡ true
    → any (allowed_eq x) xs ≡ any (allowed_eq a) xs
any_same x a xs h = ap (λ z. any (allowed_eq z) xs) ((allowed_eq_iff x a).0 h)

any-all_allowed :
    (p : AllowedIp → Bool) (peers : List PeerConfig)
    → any p (all_allowed peers) ≡ any (λ q. any p q.allowed_ips) peers
unfolding all_allowed
any-all_allowed p [] = refl
any-all_allowed p (q ∷ qs) =
    any-append p q.allowed_ips (all_allowed qs)
    ∙ ap (λ b. any p q.allowed_ips || b) (any-all_allowed p qs)

-- A prefix is collected or was seen exactly if it is in the list or was seen.
collected_lem :
    (x : AllowedIp) (seen rest : List AllowedIp)
    → (any (allowed_eq x) seen || any (allowed_eq x) (collect_from seen rest))
      ≡ (any (allowed_eq x) seen || any (allowed_eq x) rest)
unfolding collect_from
collected_lem x seen [] = refl
collected_lem x seen (a ∷ rest) = elim (Bool-cases (any (allowed_eq a) seen)) [
  | inl e ↦ rw e (ground (arith, collected_lem x seen rest, any_same x a seen))
  | inr e ↦ rw e (ground (arith, collected_lem x (a ∷ seen) rest))
]

-- The collected routes have no duplicates, and a prefix is among them exactly if a peer allows it.
pub collect_allowed_routes_lem :
    (peers : List PeerConfig) (x : AllowedIp)
    → IsDistinct (collect_allowed_routes peers)
      × (any (allowed_eq x) (collect_allowed_routes peers)
          ≡ any (λ p. any (allowed_eq x) p.allowed_ips) peers)
unfolding collect_allowed_routes
collect_allowed_routes_lem peers x = (
  collect_from-IsDistinct [] (all_allowed peers),
  collected_lem x [] (all_allowed peers) ∙ any-all_allowed (allowed_eq x) peers,
)

found_lem :
    (p : AllowedIp → Bool) (a : AllowedIp) (seen : List AllowedIp)
    → any (allowed_eq a) seen ≡ true
    → p a ≡ true
    → any p seen ≡ true
found_lem p a [] h k = absurd (cc)
found_lem p a (b ∷ rest) h k = elim (Bool-cases (allowed_eq a b)) [
  | inl e ↦ ground (arith, ap p ((allowed_eq_iff a b).0 e), k)
  | inr e ↦ ground (arith, found_lem p a rest, h, e, k)
]

-- A test holds of a collected route exactly if it holds of a listed prefix.
any-collect_from :
    (p : AllowedIp → Bool) (seen rest : List AllowedIp)
    → (any p seen || any p (collect_from seen rest)) ≡ (any p seen || any p rest)
unfolding collect_from
any-collect_from p seen [] = refl
any-collect_from p seen (a ∷ rest) = elim (Bool-cases (any (allowed_eq a) seen)) [
  | inl e ↦ rw e (ground (arith, any-collect_from p seen rest, found_lem p a seen e))
  | inr e ↦ rw e (ground (arith, any-collect_from p (a ∷ seen) rest))
]

abbrev pub default4 : AllowedIp → Bool
default4 a = is_default a && is_ipv4 a.addr

abbrev pub default6 : AllowedIp → Bool
default6 a = is_default a && is_ipv6 a.addr

detect_from_lem :
    (s : FullTunnelStatus) (routes : List AllowedIp)
    → ((detect_from s routes).ipv4 ≡ (s.ipv4 || any default4 routes))
      × ((detect_from s routes).ipv6 ≡ (s.ipv6 || any default6 routes))
unfolding detect_from
detect_from_lem s [] = ground arith
detect_from_lem s (a ∷ rest) = ground (arith, detect_from_lem (note_route s a) rest)

default_lem : (a : AllowedIp) → is_default a ≡ (default4 a || default6 a)
default_lem a = ground arith

any_or :
    (routes : List AllowedIp) → any is_default routes ≡ (any default4 routes || any default6 routes)
any_or [] = refl
any_or (a ∷ rest) = ground (arith, default_lem a, any_or rest)

-- The plan's full tunnel of each family is exactly that a peer allows 0.0.0.0/0, or ::/0; and one
-- of them holds exactly if the configuration wants a full tunnel.
pub detect_full_tunnel_lem :
    (peers : List PeerConfig)
    → ((detect_full_tunnel (collect_allowed_routes peers)).ipv4
        ≡ any (λ p. any default4 p.allowed_ips) peers)
      × ((detect_full_tunnel (collect_allowed_routes peers)).ipv6
          ≡ any (λ p. any default6 p.allowed_ips) peers)
      × (any_family (detect_full_tunnel (collect_allowed_routes peers)) ≡ wants_full_tunnel peers)
unfolding detect_full_tunnel collect_allowed_routes wants_full_tunnel
detect_full_tunnel_lem peers =
    let d =
      detect_from_lem (record { ipv4 = false; ipv6 = false })
        (collect_from [] (all_allowed peers)) in
    let four = d.0 ∙ any-collect_from default4 [] (all_allowed peers) in
    let six = d.1 ∙ any-collect_from default6 [] (all_allowed peers) in
    (
      four ∙ any-all_allowed default4 peers,
      six ∙ any-all_allowed default6 peers,
      rw (four, six) (sym (any_or (all_allowed peers))) ∙ any-all_allowed is_default peers,
    )
