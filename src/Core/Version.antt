-- ===== src/Core/Version.antt =====
-- src/core/version.cpp, and FindHeaderValue and IsMediaType of src/core/http_utils.cpp.
pub mod Supported
mod Examples
use a2a_cpp.Base.{
  ℕ, Bool, true, false, not, ◌&&◌, ◌||◌, Option, none, some, List, [], ◌∷◌, ◌++◌, ◌==◌,
  if◌then◌else◌, Bytes, codes, bytes_eq, split_at, is_digit, is_empty, length, all, Assoc,
}
use a2a_cpp.Core.Strings.{equals_ascii_case_insensitive, trim_ascii_whitespace}

abbrev pub protocol_version : Bytes
protocol_version = codes "1.0"

abbrev pub empty_version_fallback : Bytes
empty_version_fallback = codes "0.3"

-- IsNumericComponent
pub is_numeric_component : Bytes → Bool
is_numeric_component [] = false
is_numeric_component (c ∷ cs) = (is_empty cs || not (c == b'0')) && all is_digit (c ∷ cs)

-- The part of MajorMinor behind the first dot: `major` stands before it, and `split` tells where a
-- second dot cuts `tail`.
minor_checked : Bytes → Bytes → Option (Bytes × Bytes) → Option Bytes
unfolding is_numeric_component
minor_checked major tail none =
    if not (is_numeric_component tail) then none else some (major ++ b'.' ∷ tail)
minor_checked major tail (some (minor, patch)) =
    if not (is_numeric_component minor)
    then none
    else if not (is_numeric_component patch)
    then none
    else some (major ++ b'.' ∷ minor)

major_checked : Option (Bytes × Bytes) → Option Bytes
unfolding minor_checked is_numeric_component
major_checked none = none
major_checked (some (major, tail)) =
    if not (is_numeric_component major) then none else minor_checked major tail (split_at b'.' tail)

-- Version::MajorMinor
pub major_minor : Bytes → Option Bytes
unfolding major_checked
major_minor version =
    if is_empty version then some empty_version_fallback else major_checked (split_at b'.' version)

abbrev is_protocol_version : Option Bytes → Bool
is_protocol_version none = false
is_protocol_version (some v) = bytes_eq v protocol_version

-- Version::IsSupported
pub is_supported : Bytes → Bool
unfolding major_minor
is_supported version = is_protocol_version (major_minor version)

-- FindHeaderValue; the order of the headers is the map's.
unfoldable pub find_header_value : Assoc Bytes → Bytes → Option Bytes
find_header_value [] name = none
find_header_value ((header_name, value) ∷ headers) name =
    let rest = find_header_value headers name in
    if equals_ascii_case_insensitive header_name name then some value else rest

-- IsMediaType
pub is_media_type : Bytes → Bytes → Bool
is_media_type content_type expected =
    let media_type : Bytes = elim (split_at b';' content_type) [
      | none ↦ content_type
      | some (before, after) ↦ before
    ] in
    equals_ascii_case_insensitive (trim_ascii_whitespace media_type) expected
