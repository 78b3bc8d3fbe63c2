-- ===== src/Core/Strings/Folding.antt =====
-- Comparison without case in string_utils.cpp.
use a2a_cpp.Base.{◌≡◌, ◌↔◌, refl, true, [], ◌∷◌, map, arith, Bytes, length}
use a2a_cpp.Core.Strings.{
  to_lower, to_lower_ascii, same_ignoring_case, equals_ascii_case_insensitive,
}

same_ignoring_case_iff :
    (xs ys : Bytes) → (same_ignoring_case xs ys ≡ true) ↔ (map to_lower xs ≡ map to_lower ys)
unfolding same_ignoring_case
same_ignoring_case_iff [] [] = ground arith
same_ignoring_case_iff [] (y ∷ ys) = ground arith
same_ignoring_case_iff (x ∷ xs) [] = ground arith
same_ignoring_case_iff (x ∷ xs) (y ∷ ys) = ground (arith, same_ignoring_case_iff xs ys)

same_length : (xs ys : Bytes) → map to_lower xs ≡ map to_lower ys → length xs ≡ length ys
same_length [] [] h = refl
same_length [] (y ∷ ys) h = cc
same_length (x ∷ xs) [] h = cc
same_length (x ∷ xs) (y ∷ ys) h = ground (arith, same_length xs ys)

-- Two texts are equal without case exactly when their lower-case forms are one text.
pub equals_ascii_case_insensitive_iff :
    (lhs rhs : Bytes)
    → (equals_ascii_case_insensitive lhs rhs ≡ true) ↔ (to_lower_ascii lhs ≡ to_lower_ascii rhs)
unfolding equals_ascii_case_insensitive to_lower_ascii
equals_ascii_case_insensitive_iff lhs rhs =
    ground (arith, same_ignoring_case_iff lhs rhs, same_length lhs rhs)
