-- ===== src/Base/Table.antt =====
-- A JavaScript `Map` and `Set` whose keys are texts given by their characters.
use Prim.Native.Nat.{ℕ}
use mathlib.Core.Path.{◌≡◌, refl}
use mathlib.Core.Bool.{Bool, true, false, ◌||◌}
use mathlib.Core.Option.{Option, none, some}
use mathlib.Core.List.{List, [], ◌∷◌, ◌++◌}
use native.Mathlib.Omega.{arith}
use vellar_facilitator.Base.Tests.{if◌then◌else◌}
use vellar_facilitator.Base.Text.{same_text, same_text_iff}

abbrev pub Text : Type 0
Text = List ℕ

-- `texts.includes(t)`, `set.has(t)`.
abbrev pub member : Text → List Text → Bool
member t [] = false
member t (s ∷ ss) = same_text s t || member t ss

-- `set.add(t)`.
abbrev pub adjoin : Text → List Text → List Text
adjoin t ss = if member t ss then ss else ss ++ t ∷ []

-- `set.delete(t)`.
abbrev pub discard : Text → List Text → List Text
discard t [] = []
discard t (s ∷ ss) = let rest = discard t ss in if same_text s t then rest else s ∷ rest

pub member-append :
    (t : Text) (ss rs : List Text) → member t (ss ++ rs) ≡ (member t ss || member t rs)
member-append t [] rs = refl
member-append t (s ∷ ss) rs = ground (arith, member-append t ss rs)

pub member-adjoin :
    (t u : Text) (ss : List Text) → member t (adjoin u ss) ≡ (same_text u t || member t ss)
member-adjoin t u ss = ground (arith, member-append t ss (u ∷ []), same_text_iff u t)

module _ {ℓ} {V : Type ℓ} where
  -- `map.get(k)`.
  abbrev pub find : Text → List (Text × V) → Option V
  find k [] = none
  find k ((j, v) ∷ m) = if same_text j k then some v else find k m

  -- `map.set(k, v)`.
  abbrev pub put : Text → V → List (Text × V) → List (Text × V)
  put k v [] = (k, v) ∷ []
  put k v ((j, w) ∷ m) = let rest = put k v m in if same_text j k then (j, v) ∷ m else (j, w) ∷ rest

  -- `map.delete(k)`.
  abbrev pub drop_key : Text → List (Text × V) → List (Text × V)
  drop_key k [] = []
  drop_key k ((j, w) ∷ m) = let rest = drop_key k m in if same_text j k then rest else (j, w) ∷ rest

  -- A change of every value, in place.
  abbrev pub alter : (V → V) → List (Text × V) → List (Text × V)
  alter f [] = []
  alter f ((j, v) ∷ m) = (j, f v) ∷ alter f m

  abbrev pub is_some : Option V → Bool
  is_some none = false
  is_some (some v) = true

  pub find-put :
      (k j : Text) (v : V) (m : List (Text × V))
      → find j (put k v m) ≡ (if same_text k j then some v else find j m)
  find-put k j v [] = refl
  find-put k j v ((i, w) ∷ m) =
      ground (arith, same_text_iff k j, same_text_iff i k, same_text_iff i j, find-put k j v m)

  pub find-drop_key :
      (k j : Text) (m : List (Text × V))
      → find j (drop_key k m) ≡ (if same_text k j then none else find j m)
  find-drop_key k j [] = ground arith
  find-drop_key k j ((i, w) ∷ m) =
      ground (arith, same_text_iff k j, same_text_iff i k, same_text_iff i j, find-drop_key k j m)

  abbrev pub mapped : (V → V) → Option V → Option V
  mapped f none = none
  mapped f (some v) = some (f v)

  pub find-alter :
      (f : V → V) (k : Text) (m : List (Text × V)) → find k (alter f m) ≡ mapped f (find k m)
  find-alter f k [] = refl
  find-alter f k ((j, v) ∷ m) = ground (arith, find-alter f k m)
