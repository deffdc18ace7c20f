-- ===== src/Parser.antt =====
-- The parser of a configuration: src/core/config/parser.rs and the `from_str` of
-- src/core/config/types.rs. The parser of IP addresses and
-- the decoder of base64 are parameters; error texts are constructors.
pub mod Numbers
pub mod Fields
pub mod Accepted
pub mod Endpoints
pub mod Lines
pub mod Keys
pub mod HexText
pub mod Builders
pub mod Document
pub mod Post
pub mod Sound
pub mod Headers
pub mod Steps
pub mod Parsed
use mathlib.Core.List.{List, [], ◌∷◌}
use r_wg.Base.{ℕ, Bool, true, false, ◌&&◌, Option, none, some, if◌then◌else◌, leb, ◌+◌, ◌==◌}
use r_wg.Config.{Text}

pub data FieldError : Type 0 where
  invalid_ip missing_cidr invalid_cidr invalid_format wrong_version address_is_empty
        endpoint_is_empty missing_bracket missing_port host_is_empty invalid_port zero_port
        no_allowed_ips no_address dns_is_empty invalid_table invalid_number invalid_fwmark_hex
        invalid_fwmark :
      FieldError

-- `to_ascii_lowercase` of a character.
abbrev pub ascii_lower : ℕ → ℕ
ascii_lower c = if leb 65 c && leb c 90 then c + 32 else c

abbrev pub eq_ignore_ascii_case : Text → Text → Bool
eq_ignore_ascii_case [] [] = true
eq_ignore_ascii_case (a ∷ s) (b ∷ t) = ascii_lower a == ascii_lower b && eq_ignore_ascii_case s t
eq_ignore_ascii_case [] (b ∷ t) = false
eq_ignore_ascii_case (a ∷ s) [] = false

abbrev pub push_head : ℕ → List Text → List Text
push_head c [] = (c ∷ []) ∷ []
push_head c (s ∷ rest) = (c ∷ s) ∷ rest

-- `str::split` at a character.
unfoldable pub split_on : ℕ → Text → List Text
split_on sep [] = [] ∷ []
split_on sep (c ∷ s) = let rest = split_on sep s in if c == sep then [] ∷ rest else push_head c rest

abbrev pub prepend : ℕ → Option (Text × Text) → Option (Text × Text)
prepend c none = none
prepend c (some p) = some (c ∷ p.0, p.1)

-- `str::split_once`
unfoldable pub split_once : ℕ → Text → Option (Text × Text)
split_once sep [] = none
split_once sep (c ∷ s) =
    let rest = prepend c (split_once sep s) in if c == sep then some ([], s) else rest

abbrev pub or_split : Option (Text × Text) → Option (Text × Text) → Option (Text × Text)
or_split (some p) other = some p
or_split none other = other

-- `str::rsplit_once`
unfoldable pub rsplit_once : ℕ → Text → Option (Text × Text)
rsplit_once sep [] = none
rsplit_once sep (c ∷ s) =
    or_split (prepend c (rsplit_once sep s)) (if c == sep then some ([], s) else none)

-- `str::strip_prefix` with one character.
abbrev pub strip_char : ℕ → Text → Option Text
strip_char p [] = none
strip_char p (c ∷ s) = if c == p then some s else none
