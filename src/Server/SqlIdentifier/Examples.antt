-- ===== src/Server/SqlIdentifier/Examples.antt =====
-- Runs of src/server/stores/sql_identifier.cpp.
use a2a_cpp.Base.{◌≡◌, refl, false, codes}
use a2a_cpp.Server.SqlIdentifier.{
  is_alpha_or_underscore, is_alnum_or_underscore, is_valid_sql_identifier, quoted_bytes,
  quote_sql_identifier, qualified_sql_identifier, qualified_sql_identifier-injective,
}

starts_with_digit : is_valid_sql_identifier (codes "1a") ≡ false
unfolding is_valid_sql_identifier is_alpha_or_underscore is_alnum_or_underscore
starts_with_digit = refl

qualified : qualified_sql_identifier (codes "a") (codes "b") ≡ codes "\"a\".\"b\""
unfolding qualified_sql_identifier quote_sql_identifier quoted_bytes
qualified = refl

qualified_sql_identifier-injective_example :
    (codes "a\".\"b" ≡ codes "a\".\"b") × (codes "c" ≡ codes "c")
qualified_sql_identifier-injective_example =
    qualified_sql_identifier-injective (codes "a\".\"b") (codes "c") (codes "a\".\"b") (codes "c")
      refl
