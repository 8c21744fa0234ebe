-- ===== src/Base/Text.antt =====
-- Texts as lists of code points, and the few operations of the JavaScript `String` on them.
use Prim.Native.Char.{code}
use Prim.Native.String.{String}
use Prim.Native.Nat.{ℕ, ◌+◌, ◌-◌, ◌*◌}
use mathlib.Core.Bool.{Bool, true, false, ◌&&◌, ◌||◌}
use mathlib.Core.Option.{Option, none, some}
use mathlib.Core.Path.{◌≡◌, refl}
use mathlib.Core.Logic.{◌↔◌}
use native.Mathlib.Omega.{arith}
use mathlib.Core.List.{List, [], ◌∷◌, reverse}
use vellar_facilitator.Base.Tests.{leb, ◌==◌, if◌then◌else◌}

abbrev pub codes : String → List ℕ
codes String.[] = []
codes (String.◌∷◌ c s) = code c ∷ codes s

-- `s === t` on code points.
unfoldable pub same_text : List ℕ → List ℕ → Bool
same_text [] [] = true
same_text [] (d ∷ ds) = false
same_text (c ∷ cs) [] = false
same_text (c ∷ cs) (d ∷ ds) = c == d && same_text cs ds

pub same_text_iff : (s t : List ℕ) → (same_text s t ≡ true) ↔ (s ≡ t)
unfolding same_text
same_text_iff [] [] = (λ _. refl, λ _. refl)
same_text_iff [] (d ∷ ds) = (λ e. cc, λ e. cc)
same_text_iff (c ∷ cs) [] = (λ e. cc, λ e. cc)
same_text_iff (c ∷ cs) (d ∷ ds) =
    let rest = same_text_iff cs ds in (λ e. ground (arith, rest), λ e. ground (arith, rest))

pub same_text_refl : (s : List ℕ) → same_text s s ≡ true
same_text_refl s = (same_text_iff s s).1 refl

-- `s.split(sep)` at one character: a text with no separator is one part.
split_from : ℕ → List ℕ → List ℕ → List (List ℕ)
split_from sep cur [] = reverse cur ∷ []
split_from sep cur (c ∷ cs) =
    let closed = split_from sep [] cs in
    let longer = split_from sep (c ∷ cur) cs in if c == sep then reverse cur ∷ closed else longer

unfoldable pub split : ℕ → List ℕ → List (List ℕ)
unfolding split_from
split sep s = split_from sep [] s

-- `s.trim()`, and the white space that it removes.
pub is_space : ℕ → Bool
is_space c =
    (leb 9 c && leb c 13)
    || c == 32
    || c == 160
    || c == 0x1680
    || (leb 0x2000 c && leb c 0x200a)
    || c == 0x2028
    || c == 0x2029
    || c == 0x202f
    || c == 0x205f
    || c == 0x3000
    || c == 0xfeff

trim_start : List ℕ → List ℕ
unfolding is_space
trim_start [] = []
trim_start (c ∷ cs) = let rest = trim_start cs in if is_space c then rest else c ∷ cs

unfoldable pub trim : List ℕ → List ℕ
unfolding trim_start
trim s = reverse (trim_start (reverse (trim_start s)))

-- `s.slice(0, s.indexOf(c))` if the character stands in the text, else the text.
unfoldable pub until : ℕ → List ℕ → List ℕ
until c [] = []
until c (x ∷ xs) = let rest = until c xs in if x == c then [] else x ∷ rest

-- `s.includes(c)`.
unfoldable pub includes : ℕ → List ℕ → Bool
includes c [] = false
includes c (x ∷ xs) = x == c || includes c xs

-- `s.endsWith(t)`.
unfoldable pub ends_with : List ℕ → List ℕ → Bool
unfolding same_text
ends_with [] t = same_text [] t
ends_with (c ∷ cs) t = same_text (c ∷ cs) t || ends_with cs t

abbrev pub is_digit : ℕ → Bool
is_digit c = leb b'0' c && leb c b'9'

-- `s.toLowerCase()` on ASCII.
abbrev pub lower : ℕ → ℕ
lower c = if leb b'A' c && leb c b'Z' then c + 32 else c

-- The number that a text of decimal digits denotes.
decimal_from : ℕ → List ℕ → Option ℕ
decimal_from n [] = some n
decimal_from n (c ∷ cs) =
    let rest = decimal_from (n * 10 + (c - b'0')) cs in if is_digit c then rest else none

unfoldable pub decimal : List ℕ → Option ℕ
unfolding decimal_from
decimal [] = none
decimal (c ∷ cs) = decimal_from 0 (c ∷ cs)
