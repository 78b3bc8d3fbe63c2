-- ===== src/Tasks/Cursor/RoundTrip.antt =====
-- Page tokens of list_tasks.cpp, printed and read back.
use a2a_cpp.Base.{
  ℕ, zero, suc, ◌+◌, ◌*◌, ◌/◌, ◌%◌, ◌<◌, ◌≤◌, ◌≡◌, ◌≢◌, refl, ◌∙◌, Bool, true, false, Option, none,
  some, List, [], ◌∷◌, ◌++◌, arith, ◌==◌, if◌then◌else◌, Bytes, IsByte, bytes_eq_refl,
  bytes_starts_with, split_at-append, All, length, is_empty, is_empty_iff, int64_max, to_decimal,
  to_decimal-IsDigit, from_chars_signed, from_chars_signed-to_decimal,
}
use a2a_cpp.Core.Error.{ok, ◌>>=◌}
use a2a_cpp.Tasks.Cursor.{
  ListTaskCursor, cursor_prefix, cursor_separator, hex_digits, hex_digit, hex_bytes, position_of,
  byte_of_digits, unhex_bytes, cursor_of_digits, cursor_payload, cursor_time, cursor_fields,
  canonical_cursor, encode_list_page_token, parse_list_page_token,
}

holds_up_to : (ℕ → Bool) → ℕ → Bool
holds_up_to test zero = true
holds_up_to test (suc bound) =
    let smaller = holds_up_to test bound in if test bound then smaller else false

holds_up_to_sound :
    (test : ℕ → Bool) (bound digit : ℕ)
    → digit < bound
    → holds_up_to test bound ≡ true
    → test digit ≡ true
unfolding holds_up_to
holds_up_to_sound test (suc bound) digit under checked =
    ground (arith, holds_up_to_sound test bound digit)
holds_up_to_sound test zero digit under checked = absurd (omega arith)

same_position : Option ℕ → ℕ → Bool
same_position none n = false
same_position (some i) n = i == n

hex_table : holds_up_to (λ n. same_position (position_of (hex_digit n) hex_digits) n) 16 ≡ true
unfolding holds_up_to same_position position_of hex_digit
hex_table = refl

same_position_sound : (o : Option ℕ) (n : ℕ) → same_position o n ≡ true → o ≡ some n
unfolding same_position
same_position_sound none n h = cc
same_position_sound (some i) n h = ground arith

position_of-hex_digit : (n : ℕ) → n < 16 → position_of (hex_digit n) hex_digits ≡ some n
position_of-hex_digit n h =
    let tested = holds_up_to_sound (λ m. same_position (position_of (hex_digit m) hex_digits) m) in
    same_position_sound _ n (tested 16 n h hex_table)

unhex_bytes-pair :
    (h l : ℕ) (cs : Bytes) (i j : ℕ)
    → position_of h hex_digits ≡ some i
    → position_of l hex_digits ≡ some j
    → unhex_bytes (h ∷ l ∷ cs) ≡ (unhex_bytes cs >>= λ bytes. ok ((i * 16 + j) ∷ bytes))
unfolding unhex_bytes byte_of_digits
unhex_bytes-pair h l cs i j p q = rw (p, q, unhex_bytes, byte_of_digits)

unhex_bytes-hex_bytes : (bs : Bytes) → All IsByte bs → unhex_bytes (hex_bytes bs) ≡ ok bs
unfolding hex_bytes
unhex_bytes-hex_bytes [] h = unfold unhex_bytes in refl
unhex_bytes-hex_bytes (b ∷ bs) h =
    unhex_bytes-pair (hex_digit (b / 16)) (hex_digit (b % 16)) (hex_bytes bs) (b / 16) (b % 16)
      (position_of-hex_digit (b / 16) (omega arith)) (position_of-hex_digit (b % 16) (omega arith))
    ∙ rw (unhex_bytes-hex_bytes bs h.1)
        (let same : b / 16 * 16 + b % 16 ≡ b = omega arith in rw same refl)

length-hex_bytes : (bs : Bytes) → length (hex_bytes bs) ≡ 2 * length bs
unfolding hex_bytes
length-hex_bytes [] = refl
length-hex_bytes (b ∷ bs) = omega (arith, length-hex_bytes bs)

All-append {ℓ κ} :
    {A : Type ℓ} (P : A → Type κ) (xs ys : List A) → All P xs → All P ys → All P (xs ++ ys)
All-append P [] ys h k = k
All-append P (x ∷ xs) ys h k = (h.0, All-append P xs ys h.1 k)

All-map {ℓ κ} :
    {A : Type ℓ} {P Q : A → Type κ} (f : (a : A) → P a → Q a) (xs : List A) → All P xs → All Q xs
All-map f [] h = tt
All-map f (x ∷ xs) h = (f x h.0, All-map f xs h.1)

-- A cursor that the store can make: the time is an int64_t, the id a non-empty text.
pub record IsCursor (c : ListTaskCursor) : Type 0 where
  pub time : c.updated_at ≤ int64_max
  pub named : c.task_id ≢ []
  pub bytes : All IsByte c.task_id

payload-IsByte : (c : ListTaskCursor) → IsCursor c → All IsByte (cursor_payload c)
payload-IsByte c v =
    All-append IsByte (to_decimal c.updated_at) (cursor_separator ∷ c.task_id)
      (All-map (λ d h. omega arith) (to_decimal c.updated_at) (to_decimal-IsDigit c.updated_at))
      (omega arith, v.bytes)

cursor_fields-payload :
    (c : ListTaskCursor)
    → IsCursor c
    → cursor_fields (cursor_payload c) ≡ ok (to_decimal c.updated_at, c.task_id)
unfolding cursor_fields
cursor_fields-payload c v =
    let found =
      split_at-append cursor_separator (to_decimal c.updated_at) c.task_id (
        All-map (λ d h. omega arith) (to_decimal c.updated_at) (to_decimal-IsDigit c.updated_at)) in
    rw (found, cursor_fields) (ground (arith, is_empty_iff c.task_id, v.named))

cursor_time-decimal :
    (n : ℕ) → n ≤ int64_max → cursor_time (from_chars_signed int64_max (to_decimal n)) ≡ ok n
unfolding cursor_time
cursor_time-decimal n h = rw (from_chars_signed-to_decimal int64_max n h)

parse-prefix :
    (digits : Bytes) → parse_list_page_token (cursor_prefix ++ digits) ≡ cursor_of_digits digits
unfolding parse_list_page_token bytes_starts_with
parse-prefix digits = refl

canonical_cursor_self :
    (c : ListTaskCursor) → canonical_cursor (hex_bytes (cursor_payload c)) c ≡ ok (some c)
unfolding canonical_cursor encode_list_page_token
canonical_cursor_self c = rw (bytes_eq_refl (cursor_prefix ++ hex_bytes (cursor_payload c))) refl

cursor_of_digits-canonical :
    (c : ListTaskCursor)
    → IsCursor c
    → cursor_of_digits (hex_bytes (cursor_payload c)) ≡ ok (some c)
unfolding cursor_of_digits
cursor_of_digits-canonical c v =
    let even : length (hex_bytes (cursor_payload c)) % 2 ≡ 0 =
      omega (arith, length-hex_bytes (cursor_payload c)) in
    rw
      (
        even,
        unhex_bytes-hex_bytes (cursor_payload c) (payload-IsByte c v),
        cursor_fields-payload c v,
        cursor_time-decimal c.updated_at v.time,
        canonical_cursor_self c,
      )
      refl

-- The token of a cursor, whose time is an int64_t that is not negative and whose task id is a byte
-- string that is not empty, is read back as that cursor.
pub parse-encode :
    (c : ListTaskCursor)
    → IsCursor c
    → parse_list_page_token (encode_list_page_token c) ≡ ok (some c)
unfolding encode_list_page_token
parse-encode c v = parse-prefix (hex_bytes (cursor_payload c)) ∙ cursor_of_digits-canonical c v

-- A token is never empty, so it is never taken for the request of the first page.
pub encode-is_empty : (c : ListTaskCursor) → is_empty (encode_list_page_token c) ≡ false
unfolding encode_list_page_token
encode-is_empty c = refl

pub parse-empty : parse_list_page_token [] ≡ ok none
unfolding parse_list_page_token
parse-empty = refl
