-- ===== src/Parser/Accepted.antt =====
-- What the parser of a field accepts is well formed.
use mathlib.Core.Path.{◌≡◌, ap, sym, subst}
use mathlib.Core.Logic.{inl, inr}
use mathlib.Core.List.{List, [], ◌∷◌}
use native.Mathlib.Omega.{arith}
use r_wg.Base.{ℕ, false, Option, none, some, if◌then◌else◌, leb, leb→le, is_empty, Bool-cases, All}
use r_wg.Base.Result.{Result, ok, err, ◌>>=◌, >>=-eq-ok, ok-injective}
use r_wg.Base.Trim.{trim}
use r_wg.Net.{IpAddr, AllowedIp, width, IsIp, IsPrefix}
use r_wg.Config.{Text}
use r_wg.Parser.{FieldError, split_on}
use r_wg.Parser.Numbers.{parse_uint}
use r_wg.Parser.Fields.{
  ok_or, parse_items, refuse_empty, check_prefix, after_addr, from_parts, parse_allowed_ip,
  parse_allowed_ips,
}

pub ok_or-eq-ok :
    {A : Type 0} (e : FieldError) (o : Option A) (a : A) → ok_or e o ≡ ok a → o ≡ some a
ok_or-eq-ok e none a h = absurd (cc)
ok_or-eq-ok e (some b) a h = ap some (ok-injective h)

-- The items of an accepted list are accepted.
parse_items_lem :
    {A : Type 0} (P : A → Type 0) (f : Text → Result FieldError A) (items : List Text)
    (out : List A)
    → ((s : Text) (a : A) → f s ≡ ok a → P a)
    → parse_items f items ≡ ok out
    → All P out
parse_items_lem P f [] out k h = subst (All P) (ok-injective h) tt
parse_items_lem P f (s ∷ rest) out k h = elim (Bool-cases (is_empty (trim s))) [
  | inl e ↦ parse_items_lem P f rest out k (
      subst
        (λ b.
          (if b
            then parse_items f rest
            else (f (trim s) >>= λ a. parse_items f rest >>= λ more. ok (a ∷ more)))
          ≡ ok out)
        e h)
  | inr e ↦
      let g : f (trim s) >>= (λ a. parse_items f rest >>= λ more. ok (a ∷ more)) ≡ ok out =
        subst
          (λ b.
            (if b
              then parse_items f rest
              else (f (trim s) >>= λ a. parse_items f rest >>= λ more. ok (a ∷ more)))
            ≡ ok out)
          e h in
      let (a, first, g2) =
        >>=-eq-ok (f (trim s)) (λ a. parse_items f rest >>= λ more. ok (a ∷ more)) g in
      let (more, later, g3) = >>=-eq-ok (parse_items f rest) (λ more. ok (a ∷ more)) g2 in
      subst (All P) (ok-injective g3) (k (trim s) a first, parse_items_lem P f rest more k later)
]

refuse_empty_lem :
    {A : Type 0} (e : FieldError) (xs out : List A)
    → refuse_empty e xs ≡ ok out
    → (xs ≡ out) × (is_empty out ≡ false)
refuse_empty_lem e [] out h = absurd (cc)
refuse_empty_lem e (x ∷ xs) out h =
    let k : x ∷ xs ≡ out = ok-injective h in (k, sym (ap is_empty k))

module _ (parse_ip : Text → Option IpAddr)
    (valid : (s : Text) (a : IpAddr) → parse_ip s ≡ some a → IsIp a) where
  check_prefix_lem :
      (a : IpAddr) (c : ℕ) (p : AllowedIp) → IsIp a → check_prefix parse_ip a c ≡ ok p → IsPrefix p
  check_prefix_lem a c p i h = elim (Bool-cases (leb c (width a))) [
    | inl e ↦
        let k : record { addr = a; cidr = c } ≡ p = ok-injective (
          subst
            (λ b.
              (if b then ok (record { addr = a; cidr = c }) else err FieldError.wrong_version)
              ≡ ok p)
            e h) in
        subst IsPrefix k (record { ip = i; fits = leb→le c (width a) e })
    | inr e ↦ absurd (
        ground (
          arith,
          subst
              (λ b.
                (if b then ok (record { addr = a; cidr = c }) else err FieldError.wrong_version)
                ≡ ok p)
              e h,
        ))
  ]

  after_addr_lem :
      (a : IpAddr) (rest : List Text) (p : AllowedIp)
      → IsIp a
      → after_addr parse_ip a rest ≡ ok p
      → IsPrefix p
  after_addr_lem a [] p i h = absurd (cc)
  after_addr_lem a (c ∷ []) p i h =
      let (n, _, g) =
        >>=-eq-ok (ok_or FieldError.invalid_cidr (parse_uint 8 c)) (λ n. check_prefix parse_ip a n)
          h in
      check_prefix_lem a n p i g
  after_addr_lem a (c ∷ extra ∷ rest) p i h =
      let (n, _, g) =
        >>=-eq-ok (ok_or FieldError.invalid_cidr (parse_uint 8 c))
          (λ _. err FieldError.invalid_format) h in
      absurd (cc)

  from_parts_lem :
      (parts : List Text) (p : AllowedIp) → from_parts parse_ip parts ≡ ok p → IsPrefix p
  from_parts_lem [] p h = absurd (cc)
  from_parts_lem (s ∷ rest) p h =
      let (a, first, g) =
        >>=-eq-ok (ok_or FieldError.invalid_ip (parse_ip s)) (λ addr. after_addr parse_ip addr rest)
          h in
      after_addr_lem a rest p (valid s a (ok_or-eq-ok FieldError.invalid_ip (parse_ip s) a first)) g

  parse_allowed_ip_lem :
      (s : Text) (p : AllowedIp) → parse_allowed_ip parse_ip s ≡ ok p → IsPrefix p
  unfolding parse_allowed_ip
  parse_allowed_ip_lem s p h = from_parts_lem (split_on 47 s) p h

  -- If the parser of addresses returns addresses of their family's width, the AllowedIPs that are
  -- accepted are not empty, and each is a prefix no longer than its family's width.
  pub parse_allowed_ips-IsPrefix :
      (value : Text) (out : List AllowedIp)
      → parse_allowed_ips parse_ip value ≡ ok out
      → All IsPrefix out × (is_empty out ≡ false)
  unfolding parse_allowed_ips
  parse_allowed_ips-IsPrefix value out h =
      let (xs, first, g) =
        >>=-eq-ok (parse_items (parse_allowed_ip parse_ip) (split_on 44 value))
          (λ xs. refuse_empty FieldError.no_allowed_ips xs) h in
      let k = refuse_empty_lem FieldError.no_allowed_ips xs out g in
      (
        subst (All IsPrefix) k.0 (
            parse_items_lem IsPrefix (parse_allowed_ip parse_ip) (split_on 44 value) xs
              parse_allowed_ip_lem first),
        k.1,
      )
