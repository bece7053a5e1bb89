-- ===== src/Common/Texts.antt =====
-- Texts as keys: membership of a text in a list, as the tests on Go maps and slices make it.
use Prim.Native.Nat.{ℕ}
use Prim.Native.Char.{code}
use Prim.Native.String.{String}
use mathlib.Core.Path.{◌≡◌}
use mathlib.Core.Bool.{Bool, true, false, ◌||◌}
use mathlib.Core.List.{List, [], ◌∷◌}
use native.Mathlib.Omega.{arith}
use text.Mathlib.Text.{◌==◌}
use text.Mathlib.TextEquality.{eq_iff}
use openjourney.Common.Lists.{In}

-- The code points of a text.
abbrev pub codes : String → List ℕ
codes String.[] = []
codes (String.◌∷◌ c s) = code c ∷ codes s

-- `s == ""` of a text.
abbrev pub is_empty : String → Bool
is_empty s = s == ""

-- `for _, x := range xs { if x == a { … } }`, and `xs[a]` of a set of texts.
unfoldable pub contains : List String → String → Bool
contains [] a = false
contains (x ∷ xs) a = x == a || contains xs a

pub contains-In : (xs : List String) (a : String) → contains xs a ≡ true → In a xs
unfolding contains
contains-In [] a h = cc
contains-In (x ∷ xs) a h = ground (arith, eq_iff x a, contains-In xs a)

pub In-contains : (xs : List String) (a : String) → In a xs → contains xs a ≡ true
unfolding contains
In-contains [] a m = absurd m
In-contains (x ∷ xs) a m = ground (arith, eq_iff x a, In-contains xs a)
