-- ===== src/Core/Version/Supported.antt =====
-- The versions that src/core/version.cpp supports.
use a2a_cpp.Base.{
  ◌≡◌, ◌↔◌, ◌⊎◌, refl, sym, ap, subst, ◌∙◌, arith, true, false, not, Option, none, some, [], ◌∷◌,
  ◌++◌, append_assoc, if◌then◌else◌, Bytes, bytes_eq, bytes_eq_iff, split_at, split_at_sound,
  is_empty, inl, inr, if-cases,
}
use a2a_cpp.Core.Version.{
  protocol_version, empty_version_fallback, is_numeric_component, minor_checked, major_checked,
  is_protocol_version, major_minor, is_supported,
}

-- A version, or a version with a number for the patch behind it.
abbrev pub Extends : Bytes → Bytes → Type 0
Extends base version =
    (version ≡ base)
    ⊎ ((patch : Bytes) × (version ≡ base ++ b'.' ∷ patch) × (is_numeric_component patch ≡ true))

some_injective : (x y : Bytes) → some x ≡ some y → x ≡ y
some_injective x y h = cc h

minor_checked_sound :
    (major tail : Bytes) (o : Option (Bytes × Bytes))
    → split_at b'.' tail ≡ o
    → (base : Bytes) → minor_checked major tail o ≡ some base
    → Extends base (major ++ b'.' ∷ tail)
unfolding minor_checked
minor_checked_sound major tail none here base h =
    elim (if-cases (not (is_numeric_component tail)) h) [
      | inl bad ↦ absurd (cc (bad.1))
      | inr good ↦ inl (some_injective (major ++ b'.' ∷ tail) base good.1)
    ]
minor_checked_sound major tail (some (minor, patch)) here base h =
    elim (if-cases (not (is_numeric_component minor)) h) [
      | inl bad ↦ absurd (cc (bad.1))
      | inr good ↦ elim (if-cases (not (is_numeric_component patch)) good.1) [
        | inl bad ↦ absurd (cc (bad.1))
        | inr fine ↦
            let cut = (split_at_sound b'.' tail minor patch here).0 in
            let same = some_injective (major ++ b'.' ∷ minor) base fine.1 in
            inr (
              patch,
              ap (λ l. major ++ b'.' ∷ l) cut
                  ∙ sym (append_assoc major (b'.' ∷ minor) (b'.' ∷ patch))
                  ∙ ap (λ l. l ++ b'.' ∷ patch) same,
              ground (arith, fine.0),
            )
      ]
    ]

major_checked_sound :
    (version : Bytes) (o : Option (Bytes × Bytes))
    → split_at b'.' version ≡ o
    → (base : Bytes) → major_checked o ≡ some base
    → Extends base version
unfolding major_checked
major_checked_sound version none here base h = absurd (cc h)
major_checked_sound version (some (major, tail)) here base h =
    elim (if-cases (not (is_numeric_component major)) h) [
      | inl bad ↦ absurd (cc (bad.1))
      | inr good ↦
          subst (Extends base) (sym (split_at_sound b'.' version major tail here).0)
            (minor_checked_sound major tail (split_at b'.' tail) refl base good.1)
    ]

fallback_differs : empty_version_fallback ≡ protocol_version → ⊥
unfolding bytes_eq
fallback_differs e = absurd (cc ((bytes_eq_iff empty_version_fallback protocol_version).1 e))

supported_sound :
    (version : Bytes) (o : Option Bytes)
    → major_minor version ≡ o
    → is_protocol_version o ≡ true
    → Extends protocol_version version
unfolding major_minor
supported_sound version none here h = absurd (cc h)
supported_sound version (some base) here h =
    let same : base ≡ protocol_version = (bytes_eq_iff base protocol_version).0 h in
    elim (if-cases (is_empty version) here) [
      | inl empty ↦
          absurd (fallback_differs (some_injective empty_version_fallback base empty.1 ∙ same))
      | inr filled ↦
          subst (λ b. Extends b version) same
            (major_checked_sound version (split_at b'.' version) refl base filled.1)
    ]

supported_complete :
    (version : Bytes) → Extends protocol_version version → is_supported version ≡ true
unfolding is_supported major_minor major_checked minor_checked is_numeric_component split_at
    bytes_eq
supported_complete version (inl same) = ap is_supported same
supported_complete version (inr (patch, same, number)) =
    ap is_supported same
    ∙ ap (λ b. is_protocol_version (if not b then none else some protocol_version)) number

-- A version is supported exactly if it is the protocol version, or that with a number without leading
-- zeros as the patch; an empty one is not.
pub is_supported_iff :
    (version : Bytes) → (is_supported version ≡ true) ↔ Extends protocol_version version
unfolding is_supported
is_supported_iff version =
    (supported_sound version (major_minor version) refl, supported_complete version)

pub is_supported-empty : is_supported [] ≡ false
unfolding is_supported major_minor bytes_eq
is_supported-empty = refl
