-- ===== src/Core/Extensions/Examples.antt =====
-- Runs of src/core/extensions.cpp.
use a2a_cpp.Base.{◌≡◌, refl, ◌∷◌, [], codes, bytes_eq, bytes_lt}
use a2a_cpp.Core.Error.{ok}
use a2a_cpp.Core.Strings.{trim_ascii_whitespace, is_space}
use a2a_cpp.Core.Extensions.{
  is_valid_token, insert_sorted, sorted, unique, normalize, joined, format, pieces_of,
  parsed_pieces, parse,
}

sorted_once : format (codes "b" ∷ [] ∷ codes "a" ∷ codes "b" ∷ []) ≡ codes "a,b"
unfolding format normalize joined sorted unique insert_sorted bytes_eq bytes_lt
sorted_once = refl

spaces_and_gaps : parse (codes " b ,,a") ≡ ok (codes "a" ∷ codes "b" ∷ [])
unfolding parse parsed_pieces pieces_of is_valid_token normalize sorted unique insert_sorted
    bytes_eq bytes_lt trim_ascii_whitespace is_space
spaces_and_gaps = refl
