-- ===== src/Base/ByteStrings.antt =====
-- `std::string` as a list of bytes: equality, the order of `operator<`, literals, prefixes.
use Prim.Native.Nat.{ℕ, ◌<◌}
use Prim.Native.Char.{code}
use Prim.Native.String.{String}
use mathlib.Core.Path.{◌≡◌, refl, ap₂}
use mathlib.Core.Logic.{◌≢◌, ◌↔◌}
use mathlib.Core.Bool.{Bool, true, false, ◌&&◌, ◌||◌, and-eq-true_iff}
use mathlib.Core.List.{List, [], ◌∷◌, ◌++◌}
use mathlib.Core.Option.{Option, none, some}
use native.Mathlib.Omega.{arith}
use a2a_cpp.Base.Tests.{ltb, ◌==◌}
use a2a_cpp.Base.Lists.{All}

abbrev pub Bytes : Type 0
Bytes = List ℕ

-- The bytes of an ASCII literal.
abbrev pub codes : String → Bytes
codes String.[] = []
codes (String.◌∷◌ c s) = code c ∷ codes s

abbrev pub IsByte : ℕ → Type 0
IsByte c = c < 256

-- `==` of two strings.
unfoldable pub bytes_eq : Bytes → Bytes → Bool
bytes_eq [] [] = true
bytes_eq [] (y ∷ ys) = false
bytes_eq (x ∷ xs) [] = false
bytes_eq (x ∷ xs) (y ∷ ys) = x == y && bytes_eq xs ys

-- `<` of two strings: lexicographic, by unsigned bytes.
unfoldable pub bytes_lt : Bytes → Bytes → Bool
bytes_lt xs [] = false
bytes_lt [] (y ∷ ys) = true
bytes_lt (x ∷ xs) (y ∷ ys) = ltb x y || (x == y && bytes_lt xs ys)

-- `starts_with`.
unfoldable pub bytes_starts_with : Bytes → Bytes → Bool
bytes_starts_with xs [] = true
bytes_starts_with [] (p ∷ ps) = false
bytes_starts_with (x ∷ xs) (p ∷ ps) = x == p && bytes_starts_with xs ps

-- The text before the first occurrence of a byte, and the text after it; `none` for `npos`.
unfoldable pub split_at : ℕ → Bytes → Option (Bytes × Bytes)
split_at sep [] = none
split_at sep (c ∷ cs) = elim (c == sep) [
  | true ↦ some ([], cs)
  | false ↦ elim (split_at sep cs) [ none ↦ none | some (before, after) ↦ some (c ∷ before, after) ]
]

pub bytes_eq_refl : (xs : Bytes) → bytes_eq xs xs ≡ true
unfolding bytes_eq
bytes_eq_refl [] = refl
bytes_eq_refl (x ∷ xs) = ground (arith, bytes_eq_refl xs)

bytes_eq_sound : (xs ys : Bytes) → bytes_eq xs ys ≡ true → xs ≡ ys
unfolding bytes_eq
bytes_eq_sound [] [] h = refl
bytes_eq_sound [] (y ∷ ys) h = cc
bytes_eq_sound (x ∷ xs) [] h = cc
bytes_eq_sound (x ∷ xs) (y ∷ ys) h =
    let parts = (and-eq-true_iff (x == y) (bytes_eq xs ys)).0 h in
    let head : x ≡ y = ground arith in ap₂ (λ a as'. a ∷ as') head (bytes_eq_sound xs ys parts.1)

pub bytes_eq_iff : (xs ys : Bytes) → (bytes_eq xs ys ≡ true) ↔ (xs ≡ ys)
bytes_eq_iff xs ys = (bytes_eq_sound xs ys, λ e. rw e (bytes_eq_refl ys))

pub bytes_lt_irrefl : (xs : Bytes) → bytes_lt xs xs ≡ false
unfolding bytes_lt
bytes_lt_irrefl [] = refl
bytes_lt_irrefl (x ∷ xs) = ground (arith, bytes_lt_irrefl xs)

pub bytes_lt_trans :
    (xs ys zs : Bytes) → bytes_lt xs ys ≡ true → bytes_lt ys zs ≡ true → bytes_lt xs zs ≡ true
unfolding bytes_lt
bytes_lt_trans xs [] zs h k = cc
bytes_lt_trans xs (y ∷ ys) [] h k = cc
bytes_lt_trans [] (y ∷ ys) (z ∷ zs) h k = refl
bytes_lt_trans (x ∷ xs) (y ∷ ys) (z ∷ zs) h k = ground (arith, bytes_lt_trans xs ys zs)

-- Any two texts compare.
pub bytes_lt_total : (xs ys : Bytes) → bytes_lt xs ys ≡ false → bytes_lt ys xs ≡ false → xs ≡ ys
unfolding bytes_lt
bytes_lt_total [] [] h k = refl
bytes_lt_total [] (y ∷ ys) h k = cc
bytes_lt_total (x ∷ xs) [] h k = cc
bytes_lt_total (x ∷ xs) (y ∷ ys) h k = ground (arith, bytes_lt_total xs ys)

pub bytes_lt_asymm : (xs ys : Bytes) → bytes_lt xs ys ≡ true → bytes_lt ys xs ≡ false
unfolding bytes_lt
bytes_lt_asymm xs [] h = cc
bytes_lt_asymm [] (y ∷ ys) h = refl
bytes_lt_asymm (x ∷ xs) (y ∷ ys) h = ground (arith, bytes_lt_asymm xs ys)

pub split_at-append :
    (sep : ℕ) (before after : Bytes)
    → All (λ c. c ≢ sep) before
    → split_at sep (before ++ sep ∷ after) ≡ some (before, after)
unfolding split_at
split_at-append sep [] after h = ground arith
split_at-append sep (c ∷ before) after h = ground (arith, split_at-append sep before after)

pub split_at_sound :
    (sep : ℕ) (text before after : Bytes)
    → split_at sep text ≡ some (before, after)
    → (text ≡ before ++ sep ∷ after) × All (λ c. c ≢ sep) before
unfolding split_at
split_at_sound sep [] before after h = cc
split_at_sound sep (c ∷ cs) [] after h = ground (arith, split_at_sound sep cs)
split_at_sound sep (c ∷ cs) (b ∷ before) after h =
    ground (arith, split_at_sound sep cs before after)
