-- ===== src/Core/Strings/Examples.antt =====
-- A run of string_utils.cpp.
use a2a_cpp.Base.{◌≡◌, refl, true, codes}
use a2a_cpp.Core.Strings.{equals_ascii_case_insensitive}

names_fold : equals_ascii_case_insensitive (codes "Accept") (codes "aCCEPT") ≡ true
unfolding equals_ascii_case_insensitive
names_fold = refl
