-- ===== src/Common/JsSet.antt =====
-- A JavaScript `Set` of texts: its elements in the order of insertion.
use Prim.Native.String.{String}
use mathlib.Core.Path.{◌≡◌, refl}
use mathlib.Core.Bool.{Bool, false, ◌||◌}
use mathlib.Core.List.{List, [], ◌∷◌, ◌++◌}
use native.Mathlib.Omega.{arith}
use text.Mathlib.Text.{◌==◌}
use text.Mathlib.TextEquality.{eq_iff}
use secure_openclaw_poc.Common.Tests.{if◌then◌else◌}

abbrev pub JsSet : Type 0
JsSet = List String

unfoldable pub has : String → JsSet → Bool
has k [] = false
has k (j ∷ s) = j == k || has k s

unfoldable pub add : String → JsSet → JsSet
unfolding has
add k s = if has k s then s else s ++ k ∷ []

unfoldable pub delete : String → JsSet → JsSet
delete k [] = []
delete k (j ∷ s) = if j == k then s else j ∷ delete k s

pub has-append : (k j : String) (s : JsSet) → has j (s ++ k ∷ []) ≡ (k == j || has j s)
unfolding has
has-append k j [] = refl
has-append k j (i ∷ s) = ground (arith, eq_iff i k, eq_iff i j, eq_iff k j, has-append k j s)

pub has-add : (k j : String) (s : JsSet) → has j (add k s) ≡ (k == j || has j s)
unfolding add
has-add k j s = ground (arith, has-append k j s, eq_iff k j)
