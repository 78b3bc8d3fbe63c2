-- ===== src/Server/Validators.antt =====
-- src/server/version_header_validator.cpp and src/server/required_extensions_validator.cpp.
mod Examples
use a2a_cpp.Base.{
  Bool, true, false, ◌||◌, Option, none, some, List, [], ◌∷◌, if◌then◌else◌, Bytes, codes, bytes_eq,
  is_empty, any, not, Assoc, ◌⊎◌, Bool-cases, ◌≡◌, ◌↔◌, refl, ap, arith, ◌∙◌, All, if-cases, inl,
  inr, sym,
}
use a2a_cpp.Core.Error.{
  Result, ok, err, version_not_supported, extension_support_required, ◌>>=◌, >>=-eq-ok,
}
use a2a_cpp.Core.Strings.{to_lower_ascii, equals_ascii_case_insensitive}
use a2a_cpp.Core.Strings.Folding.{equals_ascii_case_insensitive_iff}
use a2a_cpp.Core.Version.{protocol_version, find_header_value, is_supported}
use a2a_cpp.Core.Version.Supported.{Extends, is_supported_iff, is_supported-empty}
use a2a_cpp.Core.Extensions.{parse}

abbrev pub version_header : Bytes
version_header = codes "A2A-Version"

abbrev pub extensions_header : Bytes
extensions_header = codes "A2A-Extensions"

ok_injective : {x y : List Bytes} → ok x ≡ ok y → x ≡ y
ok_injective h = cc h

-- VersionHeaderValidator::Validate on the header that was found.
validate_version_value : Bool → Option Bytes → Result (Unit {0})
validate_version_value required none =
    if required
    then err (version_not_supported "Missing required A2A-Version header")
    else err (version_not_supported "Unsupported A2A-Version header value")
validate_version_value required (some value) =
    if is_empty value
    then (if required
        then err (version_not_supported "Missing required A2A-Version header")
        else err (version_not_supported "Unsupported A2A-Version header value"))
    else if not (is_supported value)
    then err (version_not_supported "Unsupported A2A-Version header value")
    else ok tt

-- VersionHeaderValidator::Validate
pub validate_version_header : Bool → Assoc Bytes → Result (Unit {0})
unfolding validate_version_value
validate_version_header required headers =
    validate_version_value required (find_header_value headers version_header)

-- `std::ranges::find(...) != end()`
abbrev pub lists : List Bytes → Bytes → Bool
lists parsed extension = any (λ e. bytes_eq e extension) parsed

-- The loop over the required extensions; `all_required` is what is returned behind it.
require_each : List Bytes → List Bytes → List Bytes → Result (List Bytes)
require_each all_required parsed [] = ok all_required
require_each all_required parsed (e ∷ es) =
    let rest = require_each all_required parsed es in
    if lists parsed e
    then rest
    else err (extension_support_required "Missing required A2A extension support")

require_in : List Bytes → Option Bytes → Result (List Bytes)
unfolding require_each
require_in required none = err (extension_support_required "Missing required A2A extension support")
require_in required (some header) = parse header >>= λ parsed. require_each required parsed required

-- RequiredExtensionsValidator::Validate
pub validate_required_extensions : List Bytes → Assoc Bytes → Result (List Bytes)
unfolding require_in
validate_required_extensions required headers =
    if is_empty required
    then ok []
    else require_in required (find_header_value headers extensions_header)

no_version : (required : Bool) → validate_version_value required none ≡ ok tt → ⊥
unfolding validate_version_value
no_version true h = absurd (cc h)
no_version false h = absurd (cc h)

filled_version : (v : Bytes) → is_supported v ≡ true → is_empty v ≡ false
filled_version [] h = absurd (cc (h, is_supported-empty))
filled_version (c ∷ cs) h = refl

version_accepted :
    (required : Bool) (v : Bytes)
    → is_supported v ≡ true
    → validate_version_value required (some v) ≡ ok tt
unfolding validate_version_value
version_accepted required v h = rw (filled_version v h, h) refl

version_checked :
    (required : Bool) (v : Bytes)
    → validate_version_value required (some v) ≡ ok tt
    → is_supported v ≡ true
unfolding validate_version_value
version_checked required v h = elim (if-cases (is_empty v) h) [
  | inl empty ↦ absurd (no_version required empty.1)
  | inr filled ↦ elim (if-cases (not (is_supported v)) filled.1) [
    | inl bad ↦ absurd (cc (bad.1))
    | inr fine ↦ ground (arith, fine.0)
  ]
]

-- A name that is "a2a-version" in lower case.
abbrev NamesVersion : Bytes → Type 0
NamesVersion name = to_lower_ascii name ≡ codes "a2a-version"

-- The first header with such a name has this value.
abbrev pub IsVersionHeader : Assoc Bytes → Bytes → Type 0
IsVersionHeader [] version = ⊥
IsVersionHeader ((name, value) ∷ headers) version =
    (NamesVersion name × (value ≡ version))
    ⊎ ((NamesVersion name → ⊥) × IsVersionHeader headers version)

names_iff :
    (name : Bytes) → (equals_ascii_case_insensitive name version_header ≡ true) ↔ NamesVersion name
unfolding to_lower_ascii
names_iff name = equals_ascii_case_insensitive_iff name version_header

value_injective : (x y : Bytes) → some x ≡ some y → x ≡ y
value_injective x y h = cc h

found_iff :
    (headers : Assoc Bytes) (version : Bytes)
    → (find_header_value headers version_header ≡ some version) ↔ IsVersionHeader headers version
unfolding find_header_value
found_iff [] version = ((λ h. absurd (cc h)), (λ h. absurd h))
found_iff ((name, value) ∷ headers) version =
    let rest = found_iff headers version in
    let named = names_iff name in
    elim (Bool-cases (equals_ascii_case_insensitive name version_header)) [
      | inl here ↦ rw here (
        (λ h. inl (named.0 here, value_injective value version h)),
        (λ h. elim h [
          | inl (n, same) ↦ ap some same
          | inr (other, later) ↦ absurd (other (named.0 here))
        ]),
      )
      | inr elsewhere ↦ rw elsewhere (
        (λ h. inr ((λ n. absurd (cc (elsewhere, named.1 n))), rest.0 h)),
        (λ h. elim h [
          | inl (n, same) ↦ absurd (cc (elsewhere, named.1 n))
          | inr (other, later) ↦ rest.1 later
        ]),
      )
    ]

-- The headers are accepted exactly if there is a header whose name is "a2a-version" in lower case, and
-- the value of the first such header is the protocol version, or that with a number without leading
-- zeros as the patch, whether the header is required or not.
pub validate_version_header_iff :
    (required : Bool) (headers : Assoc Bytes)
    → (validate_version_header required headers ≡ ok tt)
      ↔ ((version : Bytes) × IsVersionHeader headers version × Extends protocol_version version)
unfolding validate_version_header
validate_version_header_iff required headers =
    let e = value_iff (find_header_value headers version_header) in
    (
      (λ h. let step = e.0 h in (step.0, (found_iff headers step.0).0 step.1, step.2)),
      (λ h. e.1 (h.0, (found_iff headers h.0).1 h.1, h.2)),
    )
  where
    value_iff :
        (o : Option Bytes)
        → (validate_version_value required o ≡ ok tt)
          ↔ ((version : Bytes) × (o ≡ some version) × Extends protocol_version version)
    value_iff none = ((λ h. absurd (no_version required h)), (λ h. absurd (cc (h.1))))
    value_iff (some v) = (
      (λ h. (v, refl, (is_supported_iff v).0 (version_checked required v h))),
      (λ h.
          ap (λ o. validate_version_value required o) h.1
          ∙ version_accepted required h.0 ((is_supported_iff h.0).1 h.2)),
    )

listed_each :
    (all_required parsed es : List Bytes) (result : List Bytes)
    → require_each all_required parsed es ≡ ok result
    → (result ≡ all_required) × All (λ e. lists parsed e ≡ true) es
unfolding require_each
listed_each all_required parsed [] result h = (sym (ok_injective h), tt)
listed_each all_required parsed (e ∷ es) result h = elim (if-cases (lists parsed e) h) [
  | inl there ↦
      let rest = listed_each all_required parsed es result there.1 in (rest.0, (there.0, rest.1))
  | inr missing ↦ absurd (cc (missing.1))
]

found_header :
    (required : List Bytes) (o : Option Bytes) (result : List Bytes)
    → require_in required o ≡ ok result
    → (header : Bytes) × (parsed : List Bytes) × (o ≡ some header)
      × (parse header ≡ ok parsed)
      × (result ≡ required)
      × All (λ e. lists parsed e ≡ true) required
unfolding require_in
found_header required none result h = absurd (cc h)
found_header required (some header) result h =
    let step = >>=-eq-ok (parse header) (λ parsed. require_each required parsed required) h in
    let all = listed_each required step.0 required result step.2 in
    (header, step.0, refl, step.1, all.0, all.1)

-- Where extensions are required, the headers are only accepted if an A2A-Extensions header is there and
-- can be parsed, and the parsed list holds every required extension; the result is the required ones.
pub validate_required_extensions_sound :
    (required : List Bytes) (headers : Assoc Bytes) (result : List Bytes)
    → is_empty required ≡ false
    → validate_required_extensions required headers ≡ ok result
    → (header : Bytes) × (parsed : List Bytes) × (find_header_value headers extensions_header
        ≡ some header)
      × (parse header ≡ ok parsed)
      × (result ≡ required)
      × All (λ e. lists parsed e ≡ true) required
unfolding validate_required_extensions
validate_required_extensions_sound required headers result some_required h =
    elim (if-cases (is_empty required) h) [
      | inl none_required ↦ absurd (cc (some_required, none_required.0))
      | inr asked ↦
          found_header required (find_header_value headers extensions_header) result asked.1
    ]
