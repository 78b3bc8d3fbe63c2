-- ===== src/Core/Extensions.antt =====
-- src/core/extensions.cpp, in the "C" locale.
mod Examples
use a2a_cpp.Base.{
  ℕ, Bool, true, false, not, ◌&&◌, List, [], ◌∷◌, ◌++◌, leb, ◌==◌, if◌then◌else◌, Bytes, codes,
  bytes_eq, bytes_lt, is_empty, all, keep,
}
use a2a_cpp.Core.Error.{Result, ok, err, Error, Text, around, validation, make_error, ◌>>=◌}
use a2a_cpp.Core.Strings.{trim_ascii_whitespace}

-- `std::isgraph`, without the comma.
abbrev pub is_token_byte : ℕ → Bool
is_token_byte c = (leb 33 c && leb c 126) && not (c == b',')

-- IsValidToken
pub is_valid_token : Bytes → Bool
is_valid_token token = if is_empty token then false else all is_token_byte token

-- The sort and the removal of equal neighbours in Normalize.
pub insert_sorted : Bytes → List Bytes → List Bytes
insert_sorted e [] = e ∷ []
insert_sorted e (d ∷ ds) =
    let rest = insert_sorted e ds in if bytes_lt d e then d ∷ rest else e ∷ d ∷ ds

pub sorted : List Bytes → List Bytes
unfolding insert_sorted
sorted [] = []
sorted (e ∷ es) = insert_sorted e (sorted es)

pub unique : List Bytes → List Bytes
unique [] = []
unique (e ∷ []) = e ∷ []
unique (e ∷ d ∷ ds) = let rest = unique (d ∷ ds) in if bytes_eq e d then rest else e ∷ rest

-- Normalize
pub normalize : List Bytes → List Bytes
unfolding sorted unique
normalize extensions = unique (sorted extensions)

-- The loop that joins with commas.
joined : List Bytes → Bytes
joined [] = []
joined (e ∷ []) = e
joined (e ∷ d ∷ ds) = e ++ b',' ∷ joined (d ∷ ds)

-- Extensions::Format
pub format : List Bytes → Bytes
unfolding normalize joined
format extensions = joined (normalize (keep (λ e. not (is_empty e)) extensions))

-- A byte in front of the first piece.
abbrev push : ℕ → List Bytes → List Bytes
push c [] = (c ∷ []) ∷ []
push c (piece ∷ pieces) = (c ∷ piece) ∷ pieces

-- The pieces between the commas: one more than there are commas.
pub pieces_of : Bytes → List Bytes
pieces_of [] = [] ∷ []
pieces_of (c ∷ cs) = let rest = pieces_of cs in if c == b',' then [] ∷ rest else push c rest

abbrev pub invalid_token : Bytes → Error
invalid_token token =
    make_error validation (around "A2A-Extensions header contains invalid token: " token "")

-- The loop of Parse over the pieces.
parsed_pieces : List Bytes → Result (List Bytes)
unfolding is_valid_token
parsed_pieces [] = ok []
parsed_pieces (piece ∷ pieces) =
    let token = trim_ascii_whitespace piece in
    let rest = parsed_pieces pieces in
    if is_empty token
    then rest
    else if not (is_valid_token token)
    then err (invalid_token token)
    else (rest >>= λ tokens. ok (token ∷ tokens))

-- Extensions::Parse
pub parse : Bytes → Result (List Bytes)
unfolding parsed_pieces pieces_of normalize
parse header_value = parsed_pieces (pieces_of header_value) >>= λ tokens. ok (normalize tokens)
