-- ===== src/Tasks/Cursor.antt =====
-- src/server/tasks/list_tasks.cpp: the order of page cursors and their tokens.
pub mod RoundTrip
pub mod Canonical
pub mod Order
use a2a_cpp.Base.{
  ℕ, ◌+◌, ◌*◌, ◌/◌, ◌%◌, String, Bool, true, false, not, ◌||◌, Option, none, some, List, [], ◌∷◌,
  ◌++◌, ltb, ◌==◌, if◌then◌else◌, Bytes, codes, bytes_eq, bytes_lt, bytes_starts_with, split_at,
  length, get_elem?, drop, is_empty, ℤ, pos, negsuc, int64_max, to_decimal, from_chars_signed,
}
use a2a_cpp.Core.Error.{Result, ok, err, Error, validation_error, ◌>>=◌}

-- `updated_at` is an int64_t; the program only makes cursors where it is not negative.
pub record ListTaskCursor : Type 0 where
  pub updated_at : ℕ
  pub task_id : Bytes

-- ListCursorPrecedes
unfoldable pub list_cursor_precedes : ListTaskCursor → ListTaskCursor → Bool
list_cursor_precedes lhs rhs =
    if not (lhs.updated_at == rhs.updated_at)
    then ltb rhs.updated_at lhs.updated_at
    else bytes_lt rhs.task_id lhs.task_id

abbrev pub cursor_prefix : Bytes
cursor_prefix = codes "a2a1_"

abbrev hex_digits : Bytes
hex_digits = codes "0123456789abcdef"

abbrev pub cursor_separator : ℕ
cursor_separator = b':'

abbrev pub invalid_cursor : Error
invalid_cursor =
    validation_error "ListTasksRequest.page_token is not a valid v1 cursor; restart pagination"

-- kHexDigits[n], read only below 16.
hex_digit : ℕ → ℕ
hex_digit n = elim (get_elem? hex_digits n) [ none ↦ 0 | some c ↦ c ]

-- `std::string_view::find` of one character; `none` is `npos`.
position_of : ℕ → Bytes → Option ℕ
position_of c [] = none
position_of c (d ∷ ds) = elim (d == c) [
  | true ↦ some 0
  | false ↦ elim (position_of c ds) [ none ↦ none | some i ↦ some (i + 1) ]
]

hex_bytes : Bytes → Bytes
hex_bytes [] = []
hex_bytes (c ∷ cs) = hex_digit (c / 16) ∷ (hex_digit (c % 16) ∷ hex_bytes cs)

abbrev cursor_payload : ListTaskCursor → Bytes
cursor_payload cursor = to_decimal cursor.updated_at ++ cursor_separator ∷ cursor.task_id

-- EncodeListPageToken
pub encode_list_page_token : ListTaskCursor → Bytes
unfolding hex_bytes hex_digit
encode_list_page_token cursor = cursor_prefix ++ hex_bytes (cursor_payload cursor)

-- `(high << 4) | low`, where the two are hexadecimal digits.
byte_of_digits : Option ℕ → Option ℕ → Option ℕ
byte_of_digits none low = none
byte_of_digits (some high) none = none
byte_of_digits (some high) (some low) = some (high * 16 + low)

-- the decoding loop; the length is even
unhex_bytes : Bytes → Result Bytes
unhex_bytes [] = ok []
unhex_bytes (c ∷ []) = err invalid_cursor
unhex_bytes (h ∷ l ∷ cs) =
    let rest = unhex_bytes cs in
    elim (byte_of_digits (position_of h hex_digits) (position_of l hex_digits)) [
      | none ↦ err invalid_cursor
      | some byte ↦ rest >>= λ bytes. ok (byte ∷ bytes)
    ]

-- the test on what `from_chars` reported
cursor_time : Option (ℤ × Bytes) → Result ℕ
cursor_time none = err invalid_cursor
cursor_time (some (negsuc n, rest)) = err invalid_cursor
cursor_time (some (pos n, rest)) = if is_empty rest then ok n else err invalid_cursor

-- the text before the separator and the text after it
cursor_fields : Bytes → Result (Bytes × Bytes)
cursor_fields payload = elim (split_at cursor_separator payload) [
  | none ↦ err invalid_cursor
  | some (time, id) ↦ if is_empty id then err invalid_cursor else ok (time, id)
]

-- "Canonical encoding preserves every accepted task ID byte and rejects aliases."
canonical_cursor : Bytes → ListTaskCursor → Result (Option ListTaskCursor)
canonical_cursor digits cursor =
    if bytes_eq (encode_list_page_token cursor) (cursor_prefix ++ digits)
    then ok (some cursor)
    else err invalid_cursor

-- from the text around the separator to the cursor
cursor_of_fields : Bytes → Bytes × Bytes → Result (Option ListTaskCursor)
cursor_of_fields digits (time, id) = do
  updated_at ← cursor_time (from_chars_signed int64_max time)
  canonical_cursor digits (record { updated_at = updated_at; task_id = id })

-- the rest of ParseListPageToken, once the prefix is removed
cursor_of_digits : Bytes → Result (Option ListTaskCursor)
unfolding cursor_of_fields
cursor_of_digits digits = if not (length digits % 2 == 0) then err invalid_cursor else do
  payload ← unhex_bytes digits
  fields ← cursor_fields payload
  cursor_of_fields digits fields

-- ParseListPageToken
pub parse_list_page_token : Bytes → Result (Option ListTaskCursor)
unfolding cursor_of_digits
parse_list_page_token page_token =
    if is_empty page_token
    then ok none
    else if not (bytes_starts_with page_token cursor_prefix)
    then err invalid_cursor
    else cursor_of_digits (drop (length cursor_prefix) page_token)
