-- ===== src/Server/Validators/Examples.antt =====
-- Runs of src/server/version_header_validator.cpp.
use a2a_cpp.Base.{◌≡◌, ◌↔◌, true, ◌∷◌, [], codes, Assoc, Bytes}
use a2a_cpp.Core.Error.{ok}
use a2a_cpp.Core.Version.{protocol_version}
use a2a_cpp.Core.Version.Supported.{Extends}
use a2a_cpp.Server.Validators.{
  IsVersionHeader, validate_version_header, validate_version_header_iff,
}

abbrev headers : Assoc Bytes
headers = (codes "a2a-version", codes "1.0.3") ∷ []

validate_version_header_iff_example :
    (validate_version_header true headers ≡ ok tt)
    ↔ ((version : Bytes) × IsVersionHeader headers version × Extends protocol_version version)
validate_version_header_iff_example = validate_version_header_iff true headers
