-- ===== src/Tasks/Cursor/Canonical.antt =====
-- The page tokens that list_tasks.cpp accepts.
use a2a_cpp.Base.{
  ℕ, zero, suc, ◌%◌, ◌<◌, ◌≡◌, ◌≢◌, refl, sym, ap, ◌∙◌, ◌↔◌, true, Option, none, some, List, [],
  ◌∷◌, ◌++◌, arith, ◌==◌, Bool-cases, inl, inr, Bytes, IsByte, bytes_eq_iff, bytes_starts_with, All,
  length, drop, is_empty_iff, ℤ, pos, negsuc, int64_max, from_chars_signed, from_chars_signed-le,
  split_at_sound, subst,
}
use a2a_cpp.Core.Error.{ok, ◌>>=◌, >>=-eq-ok}
use a2a_cpp.Tasks.Cursor.{
  ListTaskCursor, cursor_prefix, cursor_separator, hex_digits, position_of, byte_of_digits,
  unhex_bytes, cursor_time, cursor_fields, canonical_cursor, cursor_of_digits, cursor_of_fields,
  encode_list_page_token, parse_list_page_token,
}
use a2a_cpp.Tasks.Cursor.RoundTrip.{IsCursor, parse-encode}

starts_with-eq : (xs ps : Bytes) → bytes_starts_with xs ps ≡ true → xs ≡ ps ++ drop (length ps) xs
unfolding bytes_starts_with
starts_with-eq xs [] h = refl
starts_with-eq [] (p ∷ ps) h = cc
starts_with-eq (x ∷ xs) (p ∷ ps) h = ground (arith, starts_with-eq xs ps)

position_of-lt : (c : ℕ) (ds : Bytes) (i : ℕ) → position_of c ds ≡ some i → i < length ds
unfolding position_of
position_of-lt c [] i h = cc
position_of-lt c (d ∷ ds) zero h = omega arith
position_of-lt c (d ∷ ds) (suc i) h = ground (arith, position_of-lt c ds i)

byte_of_digits-lt :
    (o p : Option ℕ) (b : ℕ)
    → byte_of_digits o p ≡ some b
    → ((i : ℕ) → o ≡ some i → i < 16)
    → ((j : ℕ) → p ≡ some j → j < 16)
    → IsByte b
unfolding byte_of_digits
byte_of_digits-lt none p b e f g = cc
byte_of_digits-lt (some i) none b e f g = cc
byte_of_digits-lt (some i) (some j) b e f g = ground (arith, f i refl, g j refl)

byte_of_digits-IsByte :
    (h l : ℕ) (b : ℕ)
    → byte_of_digits (position_of h hex_digits) (position_of l hex_digits) ≡ some b
    → IsByte b
byte_of_digits-IsByte h l b e =
    byte_of_digits-lt (position_of h hex_digits) (position_of l hex_digits) b e
      (position_of-lt h hex_digits) (position_of-lt l hex_digits)

unhex_bytes-IsByte : (ds bs : Bytes) → unhex_bytes ds ≡ ok bs → All IsByte bs
unfolding unhex_bytes
unhex_bytes-IsByte [] [] e = tt
unhex_bytes-IsByte [] (b ∷ bs) e = cc
unhex_bytes-IsByte (d ∷ []) bs e = cc
unhex_bytes-IsByte (h ∷ l ∷ ds) [] e = tt
unhex_bytes-IsByte (h ∷ l ∷ ds) (b ∷ bs) e =
    ground (arith, unhex_bytes-IsByte ds bs, byte_of_digits-IsByte h l b)

cursor_time-eq-ok : (o : Option (ℤ × Bytes)) (n : ℕ) → cursor_time o ≡ ok n → o ≡ some (pos n, [])
unfolding cursor_time
cursor_time-eq-ok none n e = cc
cursor_time-eq-ok (some (negsuc m, rest)) n e = cc
cursor_time-eq-ok (some (pos m, rest)) n e = ground (arith, is_empty_iff rest)

cursor_fields-eq-ok :
    (payload time id : Bytes)
    → cursor_fields payload ≡ ok (time, id)
    → (payload ≡ time ++ cursor_separator ∷ id) × (id ≢ [])
unfolding cursor_fields
cursor_fields-eq-ok payload time id e =
    ground (arith, is_empty_iff id, split_at_sound cursor_separator payload time id)

canonical_cursor-eq-ok :
    (digits : Bytes) (c : ListTaskCursor) {r : Option ListTaskCursor}
    → canonical_cursor digits c ≡ ok r
    → (r ≡ some c) × (encode_list_page_token c ≡ cursor_prefix ++ digits)
unfolding canonical_cursor
canonical_cursor-eq-ok digits c e =
    ground (arith, bytes_eq_iff (encode_list_page_token c) (cursor_prefix ++ digits))

All-after {ℓ κ} : {A : Type ℓ} (P : A → Type κ) (xs ys : List A) → All P (xs ++ ys) → All P ys
All-after P [] ys h = h
All-after P (x ∷ xs) ys h = All-after P xs ys h.1

abbrev Accepted : Bytes → Option ListTaskCursor → Type 0
Accepted digits r =
    (c : ListTaskCursor) × (r ≡ some c)
    × IsCursor c
    × (encode_list_page_token c ≡ cursor_prefix ++ digits)

cursor_of_fields_sound :
    (digits time id : Bytes) (r : Option ListTaskCursor)
    → id ≢ []
    → All IsByte id
    → cursor_of_fields digits (time, id) ≡ ok r
    → Accepted digits r
unfolding cursor_of_fields
cursor_of_fields_sound digits time id r named bytes e =
    let (n, timed, last) = >>=-eq-ok (cursor_time (from_chars_signed int64_max time)) _ e in
    let fits = from_chars_signed-le int64_max time n [] (cursor_time-eq-ok _ n timed) in
    let (same, printed) = canonical_cursor-eq-ok digits _ last in
    (_, same, record { time = fits; named = named; bytes = bytes }, printed)

cursor_of_payload_sound :
    (digits payload : Bytes) (r : Option ListTaskCursor)
    → All IsByte payload
    → (cursor_fields payload >>= cursor_of_fields digits) ≡ ok r
    → Accepted digits r
cursor_of_payload_sound digits payload r bytes e =
    let ((time, id), split, last) = >>=-eq-ok (cursor_fields payload) _ e in
    let (joined, named) = cursor_fields-eq-ok payload time id split in
    let after = All-after IsByte time (cursor_separator ∷ id) (rw joined at bytes) in
    cursor_of_fields_sound digits time id r named after.1 last

cursor_of_digits_sound :
    (digits : Bytes) (r : Option ListTaskCursor)
    → cursor_of_digits digits ≡ ok r
    → Accepted digits r
unfolding cursor_of_digits
cursor_of_digits_sound digits r e = elim (Bool-cases (length digits % 2 == 0)) [
  | inl even ↦
      let (payload, unhexed, last) =
        >>=-eq-ok (unhex_bytes digits) _ (rw (even, cursor_of_digits) at e) in
      cursor_of_payload_sound digits payload r (unhex_bytes-IsByte digits payload unhexed) last
  | inr odd ↦ absurd (ground arith)
]

parse_sound :
    (t : Bytes) (c : ListTaskCursor)
    → parse_list_page_token t ≡ ok (some c)
    → IsCursor c × (t ≡ encode_list_page_token c)
unfolding parse_list_page_token
parse_sound [] c e = cc
parse_sound (x ∷ t) c e = elim (Bool-cases (bytes_starts_with (x ∷ t) cursor_prefix)) [
  | inl prefixed ↦
      let accepted =
        cursor_of_digits_sound (drop 5 (x ∷ t)) (some c)
          (rw (prefixed, parse_list_page_token) at e) in
      let same : accepted.0 ≡ c = cc (accepted.1) in
      (
        subst IsCursor same accepted.2,
        starts_with-eq (x ∷ t) cursor_prefix prefixed
            ∙ sym accepted.3
            ∙ ap encode_list_page_token same,
      )
  | inr other ↦ absurd (ground arith)
]

-- A page token stands for a cursor exactly when it is the printed form of that cursor, whose time
-- is an int64_t that is not negative and whose task id is a text that is not empty. So a cursor has
-- one token only, and a token one cursor.
pub parse-eq-some_iff :
    (t : Bytes) (c : ListTaskCursor)
    → (parse_list_page_token t ≡ ok (some c)) ↔ (IsCursor c × (t ≡ encode_list_page_token c))
parse-eq-some_iff t c = (parse_sound t c, λ p. rw p.1 (parse-encode c p.0))
