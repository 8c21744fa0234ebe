-- ===== src/Base/KeySet.antt =====
-- A JavaScript `Set<string>`: its elements in insertion order.
use mathlib.Core.Path.{◌≡◌, refl}
use mathlib.Core.Bool.{Bool, false, not, ◌&&◌, ◌||◌}
use mathlib.Core.List.{List, [], ◌∷◌, ◌++◌}
use Prim.Native.String.{String}
use Prim.Native.Nat.{ℕ, suc, ◌+◌, ◌≤◌}
use native.Mathlib.Omega.{arith}
use text.Mathlib.Text.{◌==◌ as str_eq}
use text.Mathlib.TextEquality.{eq_iff}
use vellar_facilitator.Base.Tests.{if◌then◌else◌, ltb}
use vellar_facilitator.Base.Lists.{length, length-append}

-- `set.has(key)`.
unfoldable pub has : String → List String → Bool
has k [] = false
has k (x ∷ xs) = str_eq x k || has k xs

-- `set.add(key)`: a new key goes to the end.
unfoldable pub add : String → List String → List String
unfolding has
add k xs = if has k xs then xs else xs ++ k ∷ []

-- `set.delete(key)`.
unfoldable pub delete : String → List String → List String
delete k [] = []
delete k (x ∷ xs) = let rest = delete k xs in if str_eq x k then rest else x ∷ rest

-- `new Set(keys)`.
unfoldable pub add_all : List String → List String → List String
unfolding add
add_all s [] = s
add_all s (k ∷ ks) = add_all (add k s) ks

-- How often a key stands in a list.
unfoldable pub count : String → List String → ℕ
count k [] = 0
count k (x ∷ xs) = if str_eq x k then suc (count k xs) else count k xs

pub count-append : (k : String) (xs ys : List String) → count k (xs ++ ys) ≡ count k xs + count k ys
unfolding count
count-append k [] ys = omega arith
count-append k (x ∷ xs) ys = ground (arith, count-append k xs ys)

pub count-delete :
    (k j : String) (xs : List String)
    → count k (delete j xs) ≡ (if str_eq j k then 0 else count k xs)
unfolding count delete
count-delete k j [] = ground arith
count-delete k j (x ∷ xs) = ground (arith, count-delete k j xs, eq_iff x j, eq_iff x k, eq_iff j k)

pub has-count : (k : String) (xs : List String) → has k xs ≡ ltb 0 (count k xs)
unfolding has count
has-count k [] = refl
has-count k (x ∷ xs) = ground (arith, has-count k xs)

pub count-add :
    (k j : String) (xs : List String)
    → count k (add j xs) ≡ (if str_eq j k && not (has j xs) then suc (count k xs) else count k xs)
unfolding add count
count-add k j xs = ground (arith, count-append k xs (j ∷ []))

-- A set built from a list holds each of its elements once.
pub count-add_all :
    (k : String) (s ks : List String)
    → count k s ≤ 1
    → count k (add_all s ks) ≡ (if has k s || has k ks then 1 else 0)
unfolding add_all has
count-add_all k s [] h = ground (arith, has-count k s)
count-add_all k s (j ∷ ks) h = ground (
  arith,
  count-add_all k (add j s) ks,
  count-add k j s,
  has-count j s,
  has-count k s,
  has-count k (add j s),
  eq_iff j k,
)

pub count-cons_self : (k : String) (xs : List String) → count k (k ∷ xs) ≡ suc (count k xs)
unfolding count
count-cons_self k xs = ground (arith, eq_iff k k)

-- The number of keys, which is what `set.size` reads.
pub length-delete : (k : String) (xs : List String) → length (delete k xs) + count k xs ≡ length xs
unfolding delete count
length-delete k [] = refl
length-delete k (x ∷ xs) = ground (arith, length-delete k xs)

pub length-add :
    (k : String) (xs : List String)
    → length (add k xs) ≡ (if has k xs then length xs else suc (length xs))
unfolding add
length-add k xs = ground (arith, length-append xs (k ∷ []))

pub has-add : (k j : String) (xs : List String) → has k (add j xs) ≡ (str_eq j k || has k xs)
has-add k j xs =
    ground
      (arith, has-count k (add j xs), has-count k xs, has-count j xs, count-add k j xs, eq_iff j k)

pub has-delete :
    (k j : String) (xs : List String)
    → has k (delete j xs) ≡ (if str_eq j k then false else has k xs)
has-delete k j xs = ground (arith, has-count k (delete j xs), has-count k xs, count-delete k j xs)
