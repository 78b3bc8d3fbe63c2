-- ===== src/Base/Occurs.antt =====
-- Which numbers a list holds, and whether it holds each once.
use Prim.Native.Nat.{ℕ}
use mathlib.Core.Path.{◌≡◌, refl}
use mathlib.Core.Bool.{Bool, true, false, not, ◌&&◌, ◌||◌}
use mathlib.Core.List.{List, [], ◌∷◌, ◌++◌}
use native.Mathlib.Omega.{arith}
use a2a_cpp.Base.Tests.{◌==◌}
use a2a_cpp.Base.Lists.{keep}

abbrev pub occurs : ℕ → List ℕ → Bool
occurs j [] = false
occurs j (h ∷ hs) = (h == j) || occurs j hs

abbrev pub distinct : List ℕ → Bool
distinct [] = true
distinct (h ∷ hs) = not (occurs h hs) && distinct hs

pub occurs-keep : (p : ℕ → Bool) (j : ℕ) (hs : List ℕ) → occurs j (keep p hs) ≡ (occurs j hs && p j)
occurs-keep p j [] = refl
occurs-keep p j (h ∷ hs) = ground (arith, occurs-keep p j hs)

pub occurs-append : (j : ℕ) (gs hs : List ℕ) → occurs j (gs ++ hs) ≡ (occurs j gs || occurs j hs)
occurs-append j [] hs = refl
occurs-append j (g ∷ gs) hs = ground (arith, occurs-append j gs hs)

pub distinct-keep : (p : ℕ → Bool) (hs : List ℕ) → distinct hs ≡ true → distinct (keep p hs) ≡ true
distinct-keep p [] d = refl
distinct-keep p (h ∷ hs) d = ground (arith, distinct-keep p hs, occurs-keep p h hs)

pub distinct-snoc :
    (hs : List ℕ) (j : ℕ)
    → distinct hs ≡ true
    → occurs j hs ≡ false
    → distinct (hs ++ j ∷ []) ≡ true
distinct-snoc [] j d new = ground arith
distinct-snoc (h ∷ hs) j d new = ground (arith, distinct-snoc hs j, occurs-append h hs (j ∷ []))
