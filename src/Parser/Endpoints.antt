-- ===== src/Parser/Endpoints.antt =====
-- What the parser of an endpoint accepts.
use mathlib.Core.Path.{◌≡◌, subst}
use mathlib.Core.Logic.{inl, inr}
use mathlib.Core.List.{[], ◌∷◌}
use native.Mathlib.Omega.{arith}
use r_wg.Base.{
  ℕ, ◌^◌, ◌<◌, false, Option, none, some, if◌then◌else◌, ltb, ltb→lt, is_empty, ◌==◌, Bool-cases,
}
use r_wg.Base.Result.{ok, err, ◌>>=◌, >>=-eq-ok, ok-injective}
use r_wg.Base.Trim.{trim}
use r_wg.Config.{Text, Endpoint}
use r_wg.Parser.{FieldError, strip_char}
use r_wg.Parser.Numbers.{parse_uint, from_radix, from_digits, digits_value, digit, bounded}
use r_wg.Parser.Fields.{ok_or, check_port, check_endpoint, host_and_port, parse_endpoint}
use r_wg.Parser.Accepted.{ok_or-eq-ok}

-- The endpoint has a host, and a port that is not zero and fits sixteen bits.
abbrev pub IsReachable : Endpoint → Type 0
IsReachable e = (is_empty e.host ≡ false) × (0 < e.port) × (e.port < 2 ^ 16)

bounded_lem : (bits : ℕ) (o : Option ℕ) (n : ℕ) → bounded bits o ≡ some n → n < 2 ^ bits
bounded_lem bits none n h = absurd (cc)
bounded_lem bits (some v) n h = elim (Bool-cases (ltb v (2 ^ bits))) [
  | inl e ↦
      let k : some v ≡ some n = subst (λ b. (if b then some v else none) ≡ some n) e h in
      let same : v ≡ n = cc in subst (λ m. m < 2 ^ bits) same (ltb→lt v (2 ^ bits) e)
  | inr e ↦
      let k : none ≡ some n = subst (λ b. (if b then some v else none) ≡ some n) e h in absurd (cc)
]

from_digits_lem :
    (read : ℕ → Option ℕ) (radix bits : ℕ) (s : Text) (n : ℕ)
    → from_digits read radix bits s ≡ some n
    → n < 2 ^ bits
unfolding from_digits
from_digits_lem read radix bits [] n h = absurd (cc)
from_digits_lem read radix bits (c ∷ s) n h =
    bounded_lem bits (digits_value read radix (some 0) (c ∷ s)) n h

-- A number that is read fits its bits.
pub from_radix_lem :
    (read : ℕ → Option ℕ) (radix bits : ℕ) (s : Text) (n : ℕ)
    → from_radix read radix bits s ≡ some n
    → n < 2 ^ bits
unfolding from_radix
from_radix_lem read radix bits [] n h = absurd (cc)
from_radix_lem read radix bits (c ∷ s) n h = elim (Bool-cases (c == 43)) [
  | inl e ↦ from_digits_lem read radix bits s n (
      subst
        (λ b.
          (if b then from_digits read radix bits s else from_digits read radix bits (c ∷ s))
          ≡ some n)
        e h)
  | inr e ↦ from_digits_lem read radix bits (c ∷ s) n (
      subst
        (λ b.
          (if b then from_digits read radix bits s else from_digits read radix bits (c ∷ s))
          ≡ some n)
        e h)
]

parse_uint_lem : (bits : ℕ) (s : Text) (n : ℕ) → parse_uint bits s ≡ some n → n < 2 ^ bits
unfolding parse_uint
parse_uint_lem bits s n h = from_radix_lem digit 10 bits s n h

check_port_lem :
    (host : Text) (port : ℕ) (e : Endpoint)
    → is_empty host ≡ false
    → port < 2 ^ 16
    → check_port host port ≡ ok e
    → IsReachable e
check_port_lem host port e n b h = elim (Bool-cases (port == 0)) [
  | inl z ↦
      let k =
        subst
          (λ b.
            (if b then err FieldError.zero_port else ok (record { host = host; port = port }))
            ≡ ok e)
          z h in
      absurd (ground (arith, k))
  | inr z ↦
      let k : record { host = host; port = port } ≡ e = ok-injective (
        subst
          (λ b.
            (if b then err FieldError.zero_port else ok (record { host = host; port = port }))
            ≡ ok e)
          z h) in
      let positive : 0 < port = ground arith in subst IsReachable k (n, positive, b)
]

check_endpoint_lem : (p : Text × Text) (e : Endpoint) → check_endpoint p ≡ ok e → IsReachable e
check_endpoint_lem p e h = elim (Bool-cases (is_empty p.0)) [
  | inl z ↦
      let k =
        subst
          (λ b.
            (if b
              then err FieldError.host_is_empty
              else (ok_or FieldError.invalid_port (parse_uint 16 p.1) >>= λ port.
                  check_port p.0 port))
            ≡ ok e)
          z h in
      absurd (ground (arith, k))
  | inr z ↦
      let (port, first, g) =
        >>=-eq-ok (ok_or FieldError.invalid_port (parse_uint 16 p.1)) (λ port. check_port p.0 port)
          (subst
            (λ b.
              (if b
                then err FieldError.host_is_empty
                else (ok_or FieldError.invalid_port (parse_uint 16 p.1) >>= λ port.
                    check_port p.0 port))
              ≡ ok e)
            z h) in
      check_port_lem p.0 port e z
        (parse_uint_lem 16 p.1 port
          (ok_or-eq-ok FieldError.invalid_port (parse_uint 16 p.1) port first))
        g
]

-- An endpoint that is accepted has a host, and a port that is not zero and fits sixteen bits.
pub parse_endpoint-IsReachable : (s : Text) (e : Endpoint) → parse_endpoint s ≡ ok e → IsReachable e
unfolding parse_endpoint
parse_endpoint-IsReachable s e h = elim (Bool-cases (is_empty (trim s))) [
  | inl z ↦
      let k =
        subst
          (λ b.
            (if b
              then err FieldError.endpoint_is_empty
              else (host_and_port (trim s) (strip_char 91 (trim s)) >>= check_endpoint))
            ≡ ok e)
          z h in
      absurd (ground (arith, k))
  | inr z ↦
      let (p, _, g) = >>=-eq-ok (host_and_port (trim s) (strip_char 91 (trim s))) check_endpoint (
        subst
          (λ b.
            (if b
              then err FieldError.endpoint_is_empty
              else (host_and_port (trim s) (strip_char 91 (trim s)) >>= check_endpoint))
            ≡ ok e)
          z h) in
      check_endpoint_lem p e g
]
