-- ===== src/Base/Map.antt =====
-- Maps keyed by text (`HashMap<String, V>`, `BTreeMap<String, V>`), as lists of entries in which a
-- key that is written again takes the place of its older entry.
use Prim.Native.Nat.{suc, ◌≤◌}
use Prim.Native.String.{String}
use mathlib.Core.Path.{◌≡◌}
use mathlib.Core.Bool.{Bool, not}
use mathlib.Core.List.{List, [], ◌∷◌}
use mathlib.Core.Option.{Option, none, some}
use native.Mathlib.Omega.{arith}
use text.Mathlib.Text.{◌==◌}
use text.Mathlib.TextEquality.{eq_iff}
use free_llama.Base.Tests.{if◌then◌else◌}
use free_llama.Base.Lists.{retain, length, length-retain-le}

abbrev pub same_text : String → String → Bool
same_text a b = a == b

module _ {ℓ} {V : Type ℓ} where
  unfoldable pub lookup : String → List (String × V) → Option V
  lookup key [] = none
  lookup key (entry ∷ rest) =
      let later = lookup key rest in if entry.0 == key then some entry.1 else later

  unfoldable pub remove : String → List (String × V) → List (String × V)
  remove key entries = retain (λ entry. not (entry.0 == key)) entries

  unfoldable pub insert : String → V → List (String × V) → List (String × V)
  unfolding remove
  insert key value entries = (key, value) ∷ remove key entries

  pub lookup-remove :
      (key other : String) (entries : List (String × V))
      → lookup other (remove key entries) ≡ (if key == other then none else lookup other entries)
  unfolding lookup remove
  lookup-remove key other [] = ground arith
  lookup-remove key other (entry ∷ rest) = ground (
    arith,
    eq_iff key other,
    eq_iff entry.0 key,
    eq_iff entry.0 other,
    lookup-remove key other rest,
  )

  pub lookup-insert :
      (key other : String) (value : V) (entries : List (String × V))
      → lookup other (insert key value entries)
        ≡ (if key == other then some value else lookup other entries)
  unfolding lookup insert
  lookup-insert key other value entries = ground (arith, lookup-remove key other entries)

  pub length-insert-le :
      (key : String) (value : V) (entries : List (String × V))
      → length (insert key value entries) ≤ suc (length entries)
  unfolding insert remove
  length-insert-le key value entries =
      omega (arith, length-retain-le (λ entry. not (entry.0 == key)) entries)
