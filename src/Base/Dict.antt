-- ===== src/Base/Dict.antt =====
-- A JavaScript `Map<string, V>`: its entries in insertion order.
use Prim.Native.String.{String}
use mathlib.Core.Path.{◌≡◌, refl}
use mathlib.Core.Bool.{Bool}
use mathlib.Core.Option.{Option, none, some}
use mathlib.Core.List.{List, [], ◌∷◌}
use native.Mathlib.Omega.{arith}
use text.Mathlib.Text.{◌==◌ as str_eq}
use text.Mathlib.TextEquality.{eq_iff}
use vellar_facilitator.Base.Tests.{if◌then◌else◌}

module _ {ℓ} {V : Type ℓ} where
  -- `m.get(k)`.
  abbrev pub lookup : String → List (String × V) → Option V
  lookup k [] = none
  lookup k ((j, v) ∷ m) = if str_eq j k then some v else lookup k m

  -- `m.set(k, v)`: a known key keeps its place, a new one goes to the end.
  abbrev pub insert : String → V → List (String × V) → List (String × V)
  insert k v [] = (k, v) ∷ []
  insert k v ((j, w) ∷ m) =
      let rest = insert k v m in if str_eq j k then (j, v) ∷ m else (j, w) ∷ rest

  -- `o ?? d`.
  abbrev pub value_or : V → Option V → V
  value_or d none = d
  value_or d (some v) = v

  -- `m.get(k) ?? d`.
  abbrev pub get_or : String → V → List (String × V) → V
  get_or k d m = value_or d (lookup k m)

  -- `for (const [k, v] of m) if (drop(v)) m.delete(k)`.
  abbrev pub sweep : (V → Bool) → List (String × V) → List (String × V)
  sweep drop [] = []
  sweep drop ((j, v) ∷ m) = let rest = sweep drop m in if drop v then rest else (j, v) ∷ rest

  pub lookup-insert :
      (k j : String) (v : V) (m : List (String × V))
      → lookup j (insert k v m) ≡ (if str_eq k j then some v else lookup j m)
  lookup-insert k j v [] = refl
  lookup-insert k j v ((i, w) ∷ m) =
      ground (arith, eq_iff k j, eq_iff i k, eq_iff i j, lookup-insert k j v m)

  -- No key stands twice.
  abbrev pub IsMap : List (String × V) → Type ℓ
  IsMap [] = Unit {ℓ}
  IsMap ((j, v) ∷ m) = (lookup j m ≡ none) × IsMap m

  -- What is left of a value that is dropped if it passes the test.
  abbrev pub kept : (V → Bool) → Option V → Option V
  kept drop none = none
  kept drop (some v) = if drop v then none else some v

  pub lookup-sweep :
      (k : String) (drop : V → Bool) (m : List (String × V))
      → IsMap m
      → lookup k (sweep drop m) ≡ kept drop (lookup k m)
  lookup-sweep k drop [] d = refl
  lookup-sweep k drop ((j, v) ∷ m) (new, d) = ground (arith, lookup-sweep k drop m d, eq_iff j k)

  pub insert-IsMap : (k : String) (v : V) (m : List (String × V)) → IsMap m → IsMap (insert k v m)
  insert-IsMap k v [] d = (refl, tt)
  insert-IsMap k v ((j, w) ∷ m) (new, d) =
      ground (arith, insert-IsMap k v m d, lookup-insert k j v m, eq_iff j k, eq_iff k j)

  pub sweep-IsMap : (drop : V → Bool) (m : List (String × V)) → IsMap m → IsMap (sweep drop m)
  sweep-IsMap drop [] d = tt
  sweep-IsMap drop ((j, v) ∷ m) (new, d) =
      ground (arith, sweep-IsMap drop m d, lookup-sweep j drop m d)
