-- ===== src/Core/Version/Examples.antt =====
-- Runs of src/core/version.cpp.
use a2a_cpp.Base.{◌≡◌, refl, true, false, some, codes, [], bytes_eq, split_at}
use a2a_cpp.Core.Version.{
  is_numeric_component, minor_checked, major_checked, major_minor, is_supported,
}

patch_supported : is_supported (codes "1.0.12") ≡ true
unfolding is_supported major_minor minor_checked major_checked is_numeric_component split_at
    bytes_eq
patch_supported = refl

leading_zero_refused : is_supported (codes "1.00") ≡ false
unfolding is_supported major_minor minor_checked major_checked is_numeric_component split_at
    bytes_eq
leading_zero_refused = refl

empty_falls_back : major_minor [] ≡ some (codes "0.3")
unfolding major_minor
empty_falls_back = refl
