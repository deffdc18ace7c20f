-- ===== src/Parser/Fields.antt =====
-- The values of AllowedIPs, Address, DNS, Endpoint, Table and FwMark
use mathlib.Core.List.{List, [], ◌∷◌}
use r_wg.Base.{ℕ, ◌&&◌, Option, none, some, if◌then◌else◌, leb, is_empty, ◌==◌}
use r_wg.Base.Result.{Result, ok, err, ◌>>=◌}
use r_wg.Base.Trim.{trim}
use r_wg.Net.{IpAddr, AllowedIp, width}
use r_wg.Config.{Text, Endpoint, InterfaceAddress, RouteTable}
use r_wg.Parser.{FieldError, eq_ignore_ascii_case, split_on, split_once, rsplit_once, strip_char}
use r_wg.Parser.Numbers.{parse_uint, parse_hex}
use r_wg.Library.{text_eq}

abbrev pub ok_or {ℓ} : {A : Type ℓ} {E : Type ℓ} → E → Option A → Result E A
ok_or e none = err e
ok_or e (some a) = ok a

-- The items of a list with commas, empty ones skipped, up to the first error.
abbrev pub parse_items :
    {A : Type 0} → (Text → Result FieldError A) → List Text → Result FieldError (List A)
parse_items f [] = ok []
parse_items f (s ∷ rest) =
    let later = parse_items f rest in
    if is_empty (trim s) then later else (f (trim s) >>= λ a. later >>= λ more. ok (a ∷ more))

abbrev pub refuse_empty : {A : Type 0} → FieldError → List A → Result FieldError (List A)
refuse_empty e [] = err e
refuse_empty e (a ∷ rest) = ok (a ∷ rest)

module _ (parse_ip : Text → Option IpAddr) where
  -- The check of the length against the family.
  abbrev pub check_prefix : IpAddr → ℕ → Result FieldError AllowedIp
  check_prefix a c =
      if leb c (width a) then ok (record { addr = a; cidr = c }) else err FieldError.wrong_version

  abbrev pub after_addr : IpAddr → List Text → Result FieldError AllowedIp
  after_addr a [] = err FieldError.missing_cidr
  after_addr a (c ∷ []) = ok_or FieldError.invalid_cidr (parse_uint 8 c) >>= λ n. check_prefix a n
  after_addr a (c ∷ extra ∷ rest) =
      ok_or FieldError.invalid_cidr (parse_uint 8 c) >>= λ _. err FieldError.invalid_format

  abbrev pub from_parts : List Text → Result FieldError AllowedIp
  from_parts [] = err FieldError.invalid_ip
  from_parts (a ∷ rest) = ok_or FieldError.invalid_ip (parse_ip a) >>= λ addr. after_addr addr rest

  -- `AllowedIp::from_str`
  unfoldable pub parse_allowed_ip : Text → Result FieldError AllowedIp
  unfolding split_on
  parse_allowed_ip s = from_parts (split_on 47 s)

  unfoldable pub parse_allowed_ips : Text → Result FieldError (List AllowedIp)
  unfolding parse_allowed_ip split_on
  parse_allowed_ips value =
      parse_items parse_allowed_ip (split_on 44 value) >>= refuse_empty FieldError.no_allowed_ips

  -- An address without a length has its family's width.
  abbrev pub from_split : Text → Option (Text × Text) → Result FieldError (IpAddr × ℕ)
  from_split value none = ok_or FieldError.invalid_ip (parse_ip value) >>= λ a. ok (a, width a)
  from_split value (some p) = ok_or FieldError.invalid_ip (parse_ip p.0) >>= λ a.
      ok_or FieldError.invalid_cidr (parse_uint 8 p.1) >>= λ c. ok (a, c)

  abbrev pub check_address : IpAddr × ℕ → Result FieldError InterfaceAddress
  check_address p =
      if leb p.1 (width p.0)
      then ok (record { addr = p.0; cidr = p.1 })
      else err FieldError.wrong_version

  -- `InterfaceAddress::from_str`
  unfoldable pub parse_address : Text → Result FieldError InterfaceAddress
  unfolding trim split_once
  parse_address s =
      let value = trim s in
      if is_empty value
      then err FieldError.address_is_empty
      else from_split value (split_once 47 value) >>= check_address

  unfoldable pub parse_interface_addresses : Text → Result FieldError (List InterfaceAddress)
  unfolding parse_address split_on
  parse_interface_addresses value =
      parse_items parse_address (split_on 44 value) >>= refuse_empty FieldError.no_address

  abbrev pub add_entry : Text → Option IpAddr → List IpAddr × List Text → List IpAddr × List Text
  add_entry s none p = (p.0, s ∷ p.1)
  add_entry s (some a) p = (a ∷ p.0, p.1)

  -- What reads as an address is a server, all else is a search domain.
  unfoldable pub dns_entries : List Text → List IpAddr × List Text
  unfolding trim
  dns_entries [] = ([], [])
  dns_entries (s ∷ rest) =
      let later = dns_entries rest in
      if is_empty (trim s) then later else add_entry (trim s) (parse_ip (trim s)) later

  unfoldable pub parse_dns_entries : Text → Result FieldError (List IpAddr × List Text)
  unfolding dns_entries split_on
  parse_dns_entries value =
      let p = dns_entries (split_on 44 value) in
      if is_empty p.0 && is_empty p.1 then err FieldError.dns_is_empty else ok p

-- The host and the text of the port.
abbrev pub bracket_port : Option (Text × Text) → Result FieldError (Text × Text)
bracket_port none = err FieldError.missing_bracket
bracket_port (some p) = ok_or FieldError.missing_port (strip_char 58 p.1) >>= λ port. ok (p.0, port)

abbrev pub host_and_port : Text → Option Text → Result FieldError (Text × Text)
host_and_port value (some rest) = bracket_port (split_once 93 rest)
host_and_port value none = ok_or FieldError.missing_port (rsplit_once 58 value)

abbrev pub check_port : Text → ℕ → Result FieldError Endpoint
check_port host port =
    if port == 0 then err FieldError.zero_port else ok (record { host = host; port = port })

abbrev pub check_endpoint : Text × Text → Result FieldError Endpoint
check_endpoint p =
    if is_empty p.0
    then err FieldError.host_is_empty
    else ok_or FieldError.invalid_port (parse_uint 16 p.1) >>= λ port. check_port p.0 port

-- `Endpoint::from_str`
unfoldable pub parse_endpoint : Text → Result FieldError Endpoint
unfolding trim split_once rsplit_once
parse_endpoint s =
    let value = trim s in
    if is_empty value
    then err FieldError.endpoint_is_empty
    else host_and_port value (strip_char 91 value) >>= check_endpoint

-- `parse_table`: auto, off, or a number
unfoldable pub parse_table : Text → Result FieldError RouteTable
unfolding trim
parse_table s =
    let value = trim s in
    if eq_ignore_ascii_case value (97 ∷ 117 ∷ 116 ∷ 111 ∷ [])
    then ok RouteTable.auto
    else (if eq_ignore_ascii_case value (111 ∷ 102 ∷ 102 ∷ [])
        then ok RouteTable.off
        else (ok_or FieldError.invalid_table (parse_uint 32 value) >>= λ n. ok (RouteTable.id n)))

-- `strip_prefix("0x")`
abbrev pub strip_hex : Text → Option Text
strip_hex [] = none
strip_hex (a ∷ []) = none
strip_hex (a ∷ b ∷ s) = if a == 48 && b == 120 then some s else none

abbrev pub fwmark_number : Text → Option Text → Result FieldError (Option ℕ)
fwmark_number value (some hex) =
    ok_or FieldError.invalid_fwmark_hex (parse_hex 32 hex) >>= λ n. ok (some n)
fwmark_number value none =
    ok_or FieldError.invalid_fwmark (parse_uint 32 value) >>= λ n. ok (some n)

-- `parse_fwmark`: off and 0 are no mark
unfoldable pub parse_fwmark : Text → Result FieldError (Option ℕ)
unfolding trim
parse_fwmark s =
    let value = trim s in
    if eq_ignore_ascii_case value (111 ∷ 102 ∷ 102 ∷ [])
    then ok none
    else (if text_eq value (48 ∷ []) then ok none else fwmark_number value (strip_hex value))
