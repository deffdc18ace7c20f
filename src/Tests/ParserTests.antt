-- ===== src/Tests/ParserTests.antt =====
-- The fields of a configuration on short texts.
use mathlib.Core.Path.{◌≡◌, refl, subst}
use mathlib.Core.List.{List, [], ◌∷◌}
use mathlib.Core.Logic.{inl, inr}
use native.Mathlib.Omega.{arith}
use r_wg.Base.{false, Option, none, some, is_empty, All, if◌then◌else◌, Bool-cases}
use r_wg.Base.Result.{ok}
use r_wg.Base.Trim.{is_whitespace, trim_start, trim}
use r_wg.Net.{IpAddr, v4, AllowedIp, IsIp, IsPrefix}
use r_wg.Config.{Text, Endpoint, RouteTable}
use r_wg.Library.{text_eq}
use r_wg.Parser.{split_on, split_once, rsplit_once}
use r_wg.Parser.Numbers.{digits_value, from_digits, from_radix, parse_uint, parse_hex}
use r_wg.Parser.Fields.{
  parse_allowed_ip, parse_allowed_ips, parse_endpoint, parse_table, parse_fwmark,
}
use r_wg.Parser.Accepted.{parse_allowed_ips-IsPrefix}
use r_wg.Parser.Endpoints.{IsReachable, parse_endpoint-IsReachable}

-- A parser that knows `0` only.
abbrev pub zero_ip : Text → Option IpAddr
zero_ip s = if text_eq s (48 ∷ []) then some (v4 0) else none

pub zero_ip_valid : (s : Text) (a : IpAddr) → zero_ip s ≡ some a → IsIp a
zero_ip_valid s a h = elim (Bool-cases (text_eq s (48 ∷ []))) [
  | inl e ↦
      let k : some (v4 0) ≡ some a = subst (λ b. (if b then some (v4 0) else none) ≡ some a) e h in
      let same : v4 0 ≡ a = cc in subst IsIp same (omega arith)
  | inr e ↦
      let k : none ≡ some a = subst (λ b. (if b then some (v4 0) else none) ≡ some a) e h in
      absurd (cc)
]

-- `0/8, 0/0`
abbrev two_prefixes : Text
two_prefixes = 48 ∷ 47 ∷ 56 ∷ 44 ∷ 32 ∷ 48 ∷ 47 ∷ 48 ∷ []

abbrev prefixes : List AllowedIp
prefixes = record { addr = v4 0; cidr = 8 } ∷ record { addr = v4 0; cidr = 0 } ∷ []

two_prefixes_read : parse_allowed_ips zero_ip two_prefixes ≡ ok prefixes
unfolding parse_allowed_ips parse_allowed_ip split_on trim trim_start is_whitespace parse_uint
    from_radix from_digits digits_value
two_prefixes_read = refl

parse_allowed_ips-IsPrefix_example : All IsPrefix prefixes × (is_empty prefixes ≡ false)
parse_allowed_ips-IsPrefix_example =
    parse_allowed_ips-IsPrefix zero_ip zero_ip_valid two_prefixes prefixes two_prefixes_read

-- `[::1]:80`
abbrev endpoint : Endpoint
endpoint = record { host = 58 ∷ 58 ∷ 49 ∷ []; port = 80 }

endpoint_read : parse_endpoint (91 ∷ 58 ∷ 58 ∷ 49 ∷ 93 ∷ 58 ∷ 56 ∷ 48 ∷ []) ≡ ok endpoint
unfolding parse_endpoint split_once rsplit_once trim trim_start is_whitespace parse_uint from_radix
    from_digits digits_value
endpoint_read = refl

parse_endpoint-IsReachable_example : IsReachable endpoint
parse_endpoint-IsReachable_example =
    parse_endpoint-IsReachable (91 ∷ 58 ∷ 58 ∷ 49 ∷ 93 ∷ 58 ∷ 56 ∷ 48 ∷ []) endpoint endpoint_read

-- `OFF` and `0x5257`
table_read : parse_table (79 ∷ 70 ∷ 70 ∷ []) ≡ ok RouteTable.off
unfolding parse_table trim trim_start is_whitespace
table_read = refl

fwmark_read : parse_fwmark (48 ∷ 120 ∷ 53 ∷ 50 ∷ 53 ∷ 55 ∷ []) ≡ ok (some 21079)
unfolding parse_fwmark trim trim_start is_whitespace parse_hex from_radix from_digits digits_value
fwmark_read = refl
