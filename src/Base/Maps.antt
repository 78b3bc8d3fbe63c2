-- ===== src/Base/Maps.antt =====
-- `std::unordered_map` with text keys: `find`, `insert_or_assign` (also `operator[]`) and `erase`.
-- The program never depends on the order of its entries.
use mathlib.Core.Path.{◌≡◌, refl}
use mathlib.Core.List.{List, [], ◌∷◌}
use mathlib.Core.Option.{Option, none, some}
use native.Mathlib.Omega.{arith}
use a2a_cpp.Base.Tests.{if◌then◌else◌}
use a2a_cpp.Base.ByteStrings.{Bytes, bytes_eq, bytes_eq_iff, bytes_eq_refl}

abbrev pub Assoc {ℓ} : Type ℓ → Type ℓ
Assoc V = List (Bytes × V)

module _ {ℓ} {V : Type ℓ} where
  unfoldable pub find : Bytes → Assoc V → Option V
  find k [] = none
  find k ((j, v) ∷ m) = if bytes_eq j k then some v else find k m

  unfoldable pub assign : Bytes → V → Assoc V → Assoc V
  assign k v [] = (k, v) ∷ []
  assign k v ((j, w) ∷ m) = if bytes_eq j k then (k, v) ∷ m else (j, w) ∷ assign k v m

  unfoldable pub erase : Bytes → Assoc V → Assoc V
  erase k [] = []
  erase k ((j, w) ∷ m) = let rest = erase k m in if bytes_eq j k then rest else (j, w) ∷ rest

  pub find-assign :
      (k j : Bytes) (v : V) (m : Assoc V)
      → find j (assign k v m) ≡ (if bytes_eq k j then some v else find j m)
  unfolding find assign
  find-assign k j v [] = refl
  find-assign k j v ((i, w) ∷ m) =
      ground (arith, bytes_eq_iff k j, bytes_eq_iff i k, bytes_eq_iff i j, find-assign k j v m)

  pub find-erase :
      (k j : Bytes) (m : Assoc V) → find j (erase k m) ≡ (if bytes_eq k j then none else find j m)
  unfolding find erase
  find-erase k j [] = ground arith
  find-erase k j ((i, w) ∷ m) =
      ground (arith, bytes_eq_iff k j, bytes_eq_iff i k, bytes_eq_iff i j, find-erase k j m)

  pub find-assign_self : (k : Bytes) (v : V) (m : Assoc V) → find k (assign k v m) ≡ some v
  find-assign_self k v m = simp (find-assign, bytes_eq_refl)

  pub find-erase_self : (k : Bytes) (m : Assoc V) → find k (erase k m) ≡ none
  find-erase_self k m = simp (find-erase, bytes_eq_refl)
