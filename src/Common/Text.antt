-- ===== src/Common/Text.antt =====
-- The order of texts, and `sorted` with a key.
use Prim.Native.Nat.{Ordering, ℕ, ◌<◌}
use Prim.Native.String.{String, compare, ◌++◌}
use Prim.Native.Char.{code}
use mathlib.Core.Path.{◌≡◌, ap}
use mathlib.Core.Logic.{◌≢◌}
use native.Mathlib.Omega.{arith}
use text.Mathlib.TextLemmas.{cons-append}
use mathlib.Core.Bool.{Bool, true, false}
use mathlib.Core.List.{List, [], ◌∷◌}
use sayfirst_control_plane.Common.Tests.{if◌then◌else◌}

-- Pairs of texts are ordered as Python orders tuples.
abbrev pub pair_le : String × String → String × String → Bool
pair_le (a, b) (c, d) = elim (compare a c) [
  | Ordering.lt ↦ true
  | Ordering.gt ↦ false
  | Ordering.eq ↦ elim (compare b d) [ Ordering.gt ↦ false | _ ↦ true ]
]

module _ {A : Type 0} (key : A → String × String) where
  unfoldable pub insert_sorted : A → List A → List A
  insert_sorted x [] = x ∷ []
  insert_sorted x (y ∷ ys) =
      let rest = insert_sorted x ys in if pair_le (key x) (key y) then x ∷ y ∷ ys else y ∷ rest

  -- `sorted(xs, key=key)`
  unfoldable pub sorted : List A → List A
  unfolding insert_sorted
  sorted [] = []
  sorted (x ∷ xs) = insert_sorted x (sorted xs)

-- The first code point of a text, 0 of the empty one.
abbrev pub head_code : String → ℕ
head_code String.[] = 0
head_code (String.◌∷◌ c s) = code c

head_code-append : (s t : String) → 0 < head_code s → head_code (s ++ t) ≡ head_code s
head_code-append String.[] t h = elim h [ ]
head_code-append (String.◌∷◌ c s) t h = ap head_code (cons-append c s t)

-- Texts that begin otherwise differ, whatever follows.
pub append-ne :
    (s t u v : String)
    → 0 < head_code s
    → 0 < head_code t
    → head_code s ≢ head_code t
    → s ++ u ≢ t ++ v
append-ne s t u v hs ht ne e =
    omega (arith, ap head_code e, head_code-append s u hs, head_code-append t v ht, ne)

-- The code points of a text.
abbrev pub codes : String → List ℕ
codes String.[] = []
codes (String.◌∷◌ c s) = code c ∷ codes s
