-- ===== src/Common/JsMap.antt =====
-- A JavaScript `Map` with text keys: its entries in the order in which their keys were inserted.
use Prim.Native.Nat.{ℕ, ◌+◌, ◌≤◌}
use Prim.Native.String.{String}
use mathlib.Core.Path.{◌≡◌, refl, subst}
use mathlib.Core.Logic.{inl, inr}
use mathlib.Core.Bool.{Bool, true, false, ◌||◌}
use mathlib.Core.Option.{Option, none, some}
use mathlib.Core.List.{List, [], ◌∷◌}
use native.Mathlib.Omega.{arith}
use text.Mathlib.Text.{◌==◌}
use text.Mathlib.TextEquality.{eq_iff}
use secure_openclaw_poc.Common.Tests.{if◌then◌else◌, Bool-cases}
use secure_openclaw_poc.Common.Lists.{length, All}

abbrev pub JsMap {ℓ} : Type ℓ → Type ℓ
JsMap V = List (String × V)

module _ {ℓ} {V : Type ℓ} where
  -- A write to a key that is present keeps its place; a new key goes to the end.
  unfoldable pub set : String → V → JsMap V → JsMap V
  set k v [] = (k, v) ∷ []
  set k v ((j, w) ∷ m) = if j == k then (k, v) ∷ m else (j, w) ∷ set k v m

  unfoldable pub get : String → JsMap V → Option V
  get k [] = none
  get k ((j, v) ∷ m) = if j == k then some v else get k m

  unfoldable pub delete : String → JsMap V → JsMap V
  delete k [] = []
  delete k ((j, v) ∷ m) = if j == k then m else (j, v) ∷ delete k m

  unfoldable pub has : String → JsMap V → Bool
  has k [] = false
  has k ((j, v) ∷ m) = j == k || has k m

  abbrev pub size : JsMap V → ℕ
  size m = length m

  -- No key stands twice.
  abbrev pub HasDistinctKeys : JsMap V → Type 0
  HasDistinctKeys [] = Unit
  HasDistinctKeys ((k, v) ∷ m) = (has k m ≡ false) × HasDistinctKeys m

  pub has-false : (k : String) (m : JsMap V) → has k m ≡ false → get k m ≡ none
  unfolding has get
  has-false k [] h = refl
  has-false k ((j, v) ∷ m) h = ground (arith, has-false k m)

  pub get-set :
      (k j : String) (v : V) (m : JsMap V)
      → get j (set k v m) ≡ (if k == j then some v else get j m)
  unfolding get set
  get-set k j v [] = refl
  get-set k j v ((i, w) ∷ m) = ground (arith, eq_iff k j, eq_iff i k, eq_iff i j, get-set k j v m)

  pub has-set : (k j : String) (v : V) (m : JsMap V) → has j (set k v m) ≡ (k == j || has j m)
  unfolding has set
  has-set k j v [] = refl
  has-set k j v ((i, w) ∷ m) = ground (arith, eq_iff k j, eq_iff i k, eq_iff i j, has-set k j v m)

  pub set-HasDistinctKeys :
      (k : String) (v : V) (m : JsMap V) → HasDistinctKeys m → HasDistinctKeys (set k v m)
  unfolding has set
  set-HasDistinctKeys k v [] h = (refl, tt)
  set-HasDistinctKeys k v ((i, w) ∷ m) h =
      ground (arith, eq_iff i k, eq_iff k i, has-set k i v m, set-HasDistinctKeys k v m h.1)

  pub get-delete :
      (k j : String) (m : JsMap V)
      → HasDistinctKeys m
      → get j (delete k m) ≡ (if k == j then none else get j m)
  unfolding get delete
  get-delete k j [] h = ground arith
  get-delete k j ((i, w) ∷ m) h =
      ground (arith, eq_iff k j, eq_iff i k, eq_iff i j, get-delete k j m h.1, has-false i m h.0)

  pub has-delete : (k j : String) (m : JsMap V) → has j m ≡ false → has j (delete k m) ≡ false
  unfolding has delete
  has-delete k j [] h = refl
  has-delete k j ((i, w) ∷ m) h = ground (arith, has-delete k j m)

  pub delete-HasDistinctKeys :
      (k : String) (m : JsMap V) → HasDistinctKeys m → HasDistinctKeys (delete k m)
  unfolding delete
  delete-HasDistinctKeys k [] h = tt
  delete-HasDistinctKeys k ((i, w) ∷ m) h =
      ground (arith, delete-HasDistinctKeys k m h.1, has-delete k i m h.0)

  -- A write adds an entry exactly when the key is new.
  pub size-set :
      (k : String) (v : V) (m : JsMap V) → size (set k v m) ≡ size m + (if has k m then 0 else 1)
  unfolding set has
  size-set k v [] = omega arith
  size-set k v ((j, w) ∷ m) = ground (arith, size-set k v m)

  pub size-delete : (k : String) (m : JsMap V) → has k m ≡ true → size (delete k m) + 1 ≡ size m
  unfolding delete has
  size-delete k [] h = cc
  size-delete k ((j, w) ∷ m) h = ground (arith, size-delete k m)

  pub size-delete-le : (k : String) (m : JsMap V) → size (delete k m) ≤ size m
  unfolding delete
  size-delete-le k [] = omega arith
  size-delete-le k ((j, w) ∷ m) = ground (arith, size-delete-le k m)

  -- A predicate on the stored values.
  abbrev pub AllValues {κ} : (V → Type κ) → JsMap V → Type κ
  AllValues P m = All (λ e. P e.1) m

  module _ {κ} (P : V → Type κ) where
    pub AllValues-set :
        (k : String) (v : V) (m : JsMap V) → P v → AllValues P m → AllValues P (set k v m)
    unfolding set
    AllValues-set k v [] p h = (p, tt)
    AllValues-set k v ((j, w) ∷ m) p h = ground (arith, AllValues-set k v m p h.1)

    pub AllValues-delete : (k : String) (m : JsMap V) → AllValues P m → AllValues P (delete k m)
    unfolding delete
    AllValues-delete k [] h = tt
    AllValues-delete k ((j, w) ∷ m) h = ground (arith, AllValues-delete k m h.1)

    pub AllValues-get : (k : String) (m : JsMap V) (v : V) → AllValues P m → get k m ≡ some v → P v
    unfolding get
    AllValues-get k [] v h e = cc
    AllValues-get k ((j, w) ∷ m) v h e = elim (Bool-cases (j == k)) [
      | inl same ↦ let e' : some w ≡ some v = rw same at e in subst P (cc) h.0
      | inr other ↦ AllValues-get k m v h.1 (rw other at e)
    ]

  pub AllValues-mono {κ} :
      (P Q : V → Type κ) (m : JsMap V) → ((v : V) → P v → Q v) → AllValues P m → AllValues Q m
  AllValues-mono P Q [] f h = tt
  AllValues-mono P Q ((k, v) ∷ m) f h = (f v h.0, AllValues-mono P Q m f h.1)
