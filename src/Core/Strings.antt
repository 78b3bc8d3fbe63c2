-- ===== src/Core/Strings.antt =====
-- src/core/string_utils.cpp, in the "C" locale.
pub mod Folding
mod Examples
use mathlib.Core.List.{reverse}
use a2a_cpp.Base.{
  ℕ, ◌+◌, Bool, true, false, ◌&&◌, ◌||◌, [], ◌∷◌, map, leb, ◌==◌, if◌then◌else◌, Bytes, length,
}

-- `std::tolower`.
unfoldable pub to_lower : ℕ → ℕ
to_lower c = if leb b'A' c && leb c b'Z' then c + 32 else c

-- `std::isspace`: tab, line feed, vertical tab, form feed, carriage return and space.
unfoldable pub is_space : ℕ → Bool
is_space c = (leb 9 c && leb c 13) || c == b' '

unfoldable pub to_lower_ascii : Bytes → Bytes
unfolding to_lower
to_lower_ascii value = map to_lower value

-- The loop that moves `start`.
skip_spaces : Bytes → Bytes
skip_spaces [] = []
skip_spaces (c ∷ cs) = if is_space c then skip_spaces cs else c ∷ cs

-- The loop that moves `end` back is the same loop over the reversed text.
unfoldable pub trim_ascii_whitespace : Bytes → Bytes
unfolding skip_spaces is_space
trim_ascii_whitespace value = reverse (skip_spaces (reverse (skip_spaces value)))

-- The loop, after the test that the sizes agree.
same_ignoring_case : Bytes → Bytes → Bool
same_ignoring_case [] [] = true
same_ignoring_case (x ∷ xs) (y ∷ ys) =
    let rest = same_ignoring_case xs ys in if to_lower x == to_lower y then rest else false
same_ignoring_case _ _ = false

unfoldable pub equals_ascii_case_insensitive : Bytes → Bytes → Bool
unfolding same_ignoring_case to_lower
equals_ascii_case_insensitive lhs rhs =
    if length lhs == length rhs then same_ignoring_case lhs rhs else false
