-- ===== src/Server/SqlIdentifier.antt =====
-- src/server/stores/sql_identifier.cpp, in the "C" locale.
mod Examples
use a2a_cpp.Base.{
  ℕ, ◌≡◌, refl, sym, ap, ◌∙◌, arith, Bool, true, false, ◌&&◌, ◌||◌, Option, none, some, [], ◌∷◌,
  ◌++◌, append_assoc, append-nil, leb, ◌==◌, ==_iff, if◌then◌else◌, Bytes, all, Bool-cases, inl,
  inr,
}

-- `std::isalpha` and `std::isdigit`.
abbrev is_alpha : ℕ → Bool
is_alpha c = (leb b'A' c && leb c b'Z') || (leb b'a' c && leb c b'z')

abbrev is_decimal : ℕ → Bool
is_decimal c = leb b'0' c && leb c b'9'

pub is_alpha_or_underscore : ℕ → Bool
is_alpha_or_underscore c = is_alpha c || c == b'_'

pub is_alnum_or_underscore : ℕ → Bool
is_alnum_or_underscore c = (is_alpha c || is_decimal c) || c == b'_'

-- IsValidSqlIdentifier
pub is_valid_sql_identifier : Bytes → Bool
unfolding is_alpha_or_underscore is_alnum_or_underscore
is_valid_sql_identifier [] = false
is_valid_sql_identifier (c ∷ cs) = is_alpha_or_underscore c && all is_alnum_or_underscore cs

-- The loop of QuoteSqlIdentifier.
quoted_bytes : Bytes → Bytes
quoted_bytes [] = []
quoted_bytes (c ∷ cs) = if c == b'"' then b'"' ∷ c ∷ quoted_bytes cs else c ∷ quoted_bytes cs

pub quote_sql_identifier : Bytes → Bytes
unfolding quoted_bytes
quote_sql_identifier identifier = b'"' ∷ quoted_bytes identifier ++ b'"' ∷ []

pub qualified_sql_identifier : Bytes → Bytes → Bytes
unfolding quote_sql_identifier
qualified_sql_identifier schema identifier =
    quote_sql_identifier schema ++ b'.' ∷ quote_sql_identifier identifier

abbrev tail : Bytes → Bytes
tail [] = []
tail (c ∷ cs) = cs

-- The inverse of quoting, on the text behind the first quote: a doubled quote stands for a quote, and
-- what is left behind a single one is returned too.
abbrev put_first : Bytes → Option (Bytes × Bytes) → Option (Bytes × Bytes)
put_first prefix none = none
put_first prefix (some (name, rest)) = some (prefix ++ name, rest)

unquoted : Bool → Bytes → Option (Bytes × Bytes)
unquoted false [] = none
unquoted false (c ∷ cs) =
    let closed = unquoted true cs in
    let open_still = unquoted false cs in
    if c == b'"' then closed else put_first (c ∷ []) open_still
unquoted true [] = some ([], [])
unquoted true (c ∷ cs) =
    let open_still = unquoted false cs in
    if c == b'"' then put_first (b'"' ∷ []) open_still else some ([], c ∷ cs)

-- Text that does not go on with a quote.
abbrev ends_quote : Bytes → Bool
ends_quote [] = true
ends_quote (c ∷ cs) = if c == b'"' then false else true

unquoted-quoted_bytes :
    (name rest : Bytes)
    → ends_quote rest ≡ true
    → unquoted false (quoted_bytes name ++ b'"' ∷ rest) ≡ some (name, rest)
unfolding quoted_bytes unquoted
unquoted-quoted_bytes [] [] h = refl
unquoted-quoted_bytes [] (c ∷ cs) h = ground (arith, h)
unquoted-quoted_bytes (c ∷ cs) rest h =
    let ih = unquoted-quoted_bytes cs rest h in
    elim (Bool-cases (c == b'"')) [
      | inl quote ↦
          rw (quote, quoted_bytes, ih, quote)
            (ap (λ d. some (d ∷ cs, rest)) (sym ((==_iff c b'"').0 quote)))
      | inr plain ↦ rw (plain, quoted_bytes, plain, unquoted, ih) refl
    ]

unquoted-quote_sql_identifier :
    (identifier rest : Bytes)
    → ends_quote rest ≡ true
    → unquoted false (tail (quote_sql_identifier identifier ++ rest)) ≡ some (identifier, rest)
unfolding quote_sql_identifier
unquoted-quote_sql_identifier identifier rest h =
    ap (λ l. unquoted false l) (append_assoc (quoted_bytes identifier) (b'"' ∷ []) rest)
    ∙ unquoted-quoted_bytes identifier rest h

some_injective : (x y : Bytes × Bytes) → some x ≡ some y → x ≡ y
some_injective x y h = cc h

-- No two identifiers have one quoted form, whatever they hold and whatever follows that does not start
-- with a quote.
quote-tail_injective :
    (identifier other rest left : Bytes)
    → ends_quote rest ≡ true
    → ends_quote left ≡ true
    → quote_sql_identifier identifier ++ rest ≡ quote_sql_identifier other ++ left
    → ◌≡◌ {A = Bytes × Bytes} (identifier, rest) (other, left)
quote-tail_injective identifier other rest left h k same =
    some_injective (identifier, rest) (other, left)
      (sym (unquoted-quote_sql_identifier identifier rest h)
        ∙ ap (λ l. unquoted false (tail l)) same
        ∙ unquoted-quote_sql_identifier other left k)

-- Two qualified names are written in the same way only if their schemas are the same and their
-- identifiers are the same, whatever quotes and dots these hold.
pub qualified_sql_identifier-injective :
    (schema identifier other_schema other : Bytes)
    → qualified_sql_identifier schema identifier ≡ qualified_sql_identifier other_schema other
    → (schema ≡ other_schema) × (identifier ≡ other)
unfolding qualified_sql_identifier
qualified_sql_identifier-injective schema identifier other_schema other h =
    let first =
      quote-tail_injective schema other_schema (b'.' ∷ quote_sql_identifier identifier)
        (b'.' ∷ quote_sql_identifier other) refl refl h in
    let second : quote_sql_identifier identifier ++ [] ≡ quote_sql_identifier other ++ [] =
      append-nil (quote_sql_identifier identifier)
      ∙ ap (λ p. tail p.1) first
      ∙ sym (append-nil (quote_sql_identifier other)) in
    (
      ap (λ p. p.0) first,
      ap (λ p. p.0) (quote-tail_injective identifier other [] [] refl refl second),
    )
