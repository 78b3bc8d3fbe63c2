-- ===== src/Core/Error.antt =====
-- include/a2a/core/error.h, src/core/error.cpp, include/a2a/core/result.h,
-- include/a2a/core/protocol_errors.h.
use a2a_cpp.Base.{ℕ, ◌≡◌, refl, String, Option, none, some, Bytes}

pub data ErrorCode : Type 0 where
  validation unsupported_version network remote_protocol serialization internal : ErrorCode

-- A message: a literal of the program, or a text of the input between two literals.
pub data Text : Type 0 where
  lit : String → Text
  around : String → Bytes → String → Text

pub record Error : Type 0 where
  pub code : ErrorCode
  pub message : Text
  pub transport : Option String
  pub protocol_code : Option String
  pub http_status : Option ℕ

-- `core::Result<T>`; `core::Result<void>` is `Result Unit`.
pub data Result {ℓ} (T : Type ℓ) : Type ℓ where
  err : Error → Result T
  ok : T → Result T

-- An early return with the error of a call, or what follows on its value.
abbrev pub ◌>>=◌ {ℓ κ} : {T : Type ℓ} {U : Type κ} → Result T → (T → Result U) → Result U
call >>= next = elim call [ err e ↦ err e | ok value ↦ next value ]

infixl 5 ◌>>=◌
abbrev pub make_error : ErrorCode → Text → Error
make_error code message = record {
  code = code;
  message = message;
  transport = none;
  protocol_code = none;
  http_status = none;
}

-- `Error::Validation` and its siblings, on a message that is a literal.
abbrev pub validation_error : String → Error
validation_error message = make_error validation (lit message)

abbrev pub serialization_error : Text → Error
serialization_error message = make_error serialization message

abbrev pub internal_error : String → Error
internal_error message = make_error internal (lit message)

abbrev pub remote_protocol_error : String → Error
remote_protocol_error message = make_error remote_protocol (lit message)

abbrev pub unsupported_version_error : String → Error
unsupported_version_error message = make_error unsupported_version (lit message)

abbrev pub with_transport : Error → String → Error
with_transport e t = record e { transport = some t }

abbrev pub with_protocol_code : Error → String → Error
with_protocol_code e c = record e { protocol_code = some c }

abbrev pub with_http_status : Error → ℕ → Error
with_http_status e s = record e { http_status = some s }

abbrev pub permission_denied : Error
permission_denied = with_http_status (remote_protocol_error "access is denied") 403

abbrev pub task_not_found : String → Error
task_not_found message =
    with_protocol_code (with_http_status (remote_protocol_error message) 404) "-32001"

abbrev pub task_not_cancelable : Error
task_not_cancelable =
    with_protocol_code (with_http_status (remote_protocol_error "task is already terminal") 409)
      "-32002"

abbrev pub unsupported_operation : String → Error
unsupported_operation message =
    with_protocol_code (with_http_status (remote_protocol_error message) 400) "-32004"

-- The message that `UnsupportedOperation()` has when it is given none.
abbrev pub unsupported_operation_default : Error
unsupported_operation_default = unsupported_operation "operation is not supported"

abbrev pub version_not_supported : String → Error
version_not_supported message =
    with_protocol_code (with_http_status (unsupported_version_error message) 400) "-32009"

abbrev pub extension_support_required : String → Error
extension_support_required message =
    with_protocol_code (with_http_status (remote_protocol_error message) 400) "-32008"

-- What a chain of calls that returned a value went through.
pub >>=-eq-ok {ℓ κ} :
    {T : Type ℓ} {U : Type κ} (call : Result T) (next : T → Result U) {last : U}
    → (call >>= next) ≡ ok last
    → (value : T) × (call ≡ ok value) × (next value ≡ ok last)
>>=-eq-ok (err e) next returned = cc
>>=-eq-ok (ok value) next returned = (value, refl, returned)
