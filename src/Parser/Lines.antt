-- ===== src/Parser/Lines.antt =====
-- The lines of a configuration: what parse_config does to each before it reads it
use mathlib.Core.List.{List, [], ◌∷◌}
use r_wg.Base.{ℕ, Bool, false, ◌&&◌, ◌||◌, Option, none, some, if◌then◌else◌, is_empty, ◌==◌}
use r_wg.Base.Texts.{starts_with, to_ascii_lowercase}
use r_wg.Base.Trim.{trim}
use r_wg.Base.Result.{Result, ok, err}
use r_wg.Config.{Text}
use r_wg.Parser.{push_head, split_once}

-- `trim_start_matches('\u{feff}')`
unfoldable pub strip_bom : Text → Text
strip_bom [] = []
strip_bom (c ∷ s) = let rest = strip_bom s in if c == 65279 then rest else c ∷ s

-- `str::lines`: a line ends in a line feed, with or without a carriage return before it.
unfoldable pub lines : Text → List Text
lines [] = []
lines (c ∷ s) =
    let rest = lines s in
    if c == 10
    then [] ∷ rest
    else (if c == 13 && starts_with (10 ∷ []) s then rest else push_head c rest)

-- Up to the first `#` or `;`.
unfoldable pub strip_comments : Text → Text
strip_comments [] = []
strip_comments (c ∷ s) = let rest = strip_comments s in if c == 35 || c == 59 then [] else c ∷ rest

abbrev pub ends_with : ℕ → Text → Bool
ends_with p [] = false
ends_with p (c ∷ []) = c == p
ends_with p (c ∷ d ∷ s) = ends_with p (d ∷ s)

abbrev pub without_last : Text → Text
without_last [] = []
without_last (c ∷ []) = []
without_last (c ∷ d ∷ s) = c ∷ without_last (d ∷ s)

abbrev pub header_name : Text → Option Text
unfolding trim
header_name [] = none
header_name (c ∷ s) = if c == 91 && ends_with 93 (c ∷ s) then some (trim (without_last s)) else none

unfoldable pub parse_section_header : Text → Option Text
unfolding trim
parse_section_header line = header_name (trim line)

pub data LineError : Type 0 where
  no_equals empty_key empty_value : LineError

abbrev pub key_and_value : Text × Text → Result LineError (Text × Text)
unfolding trim
key_and_value p =
    if is_empty (trim p.0)
    then err LineError.empty_key
    else (if is_empty (trim p.1)
        then err LineError.empty_value
        else ok (to_ascii_lowercase (trim p.0), trim p.1))

abbrev pub from_equals : Option (Text × Text) → Result LineError (Text × Text)
unfolding trim
from_equals none = err LineError.no_equals
from_equals (some p) = key_and_value p

unfoldable pub split_key_value : Text → Result LineError (Text × Text)
unfolding trim split_once
split_key_value line = from_equals (split_once 61 line)
