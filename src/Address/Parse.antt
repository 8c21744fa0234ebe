-- ===== src/Address/Parse.antt =====
-- parseIpv6ToBytes. `toLowerCase` is taken on ASCII: no other character becomes one that an address
-- may hold. The text has no line break, which isIP does not accept either.
use vellar_facilitator.Base.{
  ℕ, suc, zero, ◌+◌, ◌*◌, ◌-◌, ◌/◌, ◌%◌, Bool, false, ◌&&◌, Option, none, some, List, [], ◌∷◌, ◌++◌,
  map, leb, ltb, ◌==◌, if◌then◌else◌, length, all,
}
use mathlib.Core.List.{reverse}
use vellar_facilitator.Base.Text.{trim, split, until, is_digit, lower, decimal}
use vellar_facilitator.Address.Ipv4.{all_octets}

-- A text cut behind its last colon: what the greedy `(.*:)` of the pattern takes, and the rest.
cut_last_colon : List ℕ → Option (List ℕ × List ℕ)
cut_last_colon [] = none
cut_last_colon (c ∷ cs) = elim (cut_last_colon cs) [
  | some (before, after) ↦ some (c ∷ before, after)
  | none ↦ (if c == b':' then some (c ∷ [], cs) else none)
]

-- `\d{1,3}`.
is_short_number : List ℕ → Bool
is_short_number [] = false
is_short_number (c ∷ cs) = all is_digit (c ∷ cs) && leb (length cs) 2

-- The four numbers of a dotted quad.
is_quad : List (List ℕ) → Bool
unfolding is_short_number
is_quad parts = length parts == 4 && all is_short_number parts

abbrev hex_digit : ℕ → ℕ
hex_digit d = if ltb d 10 then b'0' + d else b'a' + (d - 10)

-- `n.toString(16)`, for `n` of 16 bits.
to_hex : ℕ → List ℕ
to_hex n =
    if ltb n 16
    then hex_digit n ∷ []
    else if ltb n 256
    then hex_digit (n / 16) ∷ hex_digit (n % 16) ∷ []
    else if ltb n 4096
    then hex_digit (n / 256) ∷ hex_digit (n / 16 % 16) ∷ hex_digit (n % 16) ∷ []
    else hex_digit (n / 4096)
      ∷ hex_digit (n / 256 % 16)
      ∷ hex_digit (n / 16 % 16)
      ∷ hex_digit (n % 16)
      ∷ []

-- The embedded IPv4 address as two hextets.
quad_hextets : List ℕ → List ℕ → Option (List ℕ)
unfolding to_hex
quad_hextets before (a ∷ b ∷ c ∷ d ∷ []) =
    some (before ++ to_hex (a * 256 + b) ++ b':' ∷ to_hex (c * 256 + d))
quad_hextets before parts = none

-- `none` where an octet is above 255; a text that does not match the pattern stays as it is.
expand_quad : List ℕ → Option (List ℕ)
unfolding cut_last_colon is_quad quad_hextets
expand_quad s = elim (cut_last_colon s) [
  | none ↦ some s
  | some (before, after) ↦
      let octs : Option (List ℕ) = elim (all_octets (map decimal (split b'.' after))) [
        | none ↦ none
        | some ns ↦ quad_hextets before ns
      ] in
      (if is_quad (split b'.' after) then octs else some s)
]

-- `s.split("::")`.
split_double : List ℕ → List ℕ → List (List ℕ)
split_double cur [] = reverse cur ∷ []
split_double cur (c ∷ []) = reverse (c ∷ cur) ∷ []
split_double cur (c ∷ d ∷ cs) =
    let cut = split_double [] cs in
    let longer = split_double (c ∷ cur) (d ∷ cs) in
    if c == b':' && d == b':' then reverse cur ∷ cut else longer

-- `half ? half.split(":") : []`.
groups : List ℕ → List (List ℕ)
groups [] = []
groups (c ∷ cs) = split b':' (c ∷ cs)

-- `Array(n).fill("0")`.
zero_groups : ℕ → List (List ℕ)
zero_groups zero = []
zero_groups (suc n) = (b'0' ∷ []) ∷ zero_groups n

-- The groups of the two halves, or `none` where there are more. More groups than eight leave a
-- negative number to fill, at which `Array` throws; the result has then the wrong length.
hextets : List (List ℕ) → Option (List (List ℕ))
unfolding groups zero_groups
hextets [] = none
hextets (head ∷ []) = some (groups head)
hextets (head ∷ tail ∷ []) =
    some
      (groups head ++ zero_groups (8 - length (groups head) - length (groups tail)) ++ groups tail)
hextets (head ∷ tail ∷ more ∷ rest) = none

-- The value of a character of `[0-9a-f]`.
hex_value : ℕ → Option ℕ
hex_value c =
    if is_digit c
    then some (c - b'0')
    else if leb b'a' c && leb c b'f'
    then some (10 + (c - b'a'))
    else none

hex_from : ℕ → List ℕ → Option ℕ
unfolding hex_value
hex_from n [] = some n
hex_from n (c ∷ cs) = elim (hex_value c) [ none ↦ none | some v ↦ hex_from (n * 16 + v) cs ]

-- `parseInt(h, 16)` where `h` matches `^[0-9a-f]{1,4}$`.
hextet_value : List ℕ → Option ℕ
unfolding hex_from
hextet_value [] = none
hextet_value (c ∷ cs) = if leb (length cs) 3 then hex_from 0 (c ∷ cs) else none

bytes_of : List (List ℕ) → Option (List ℕ)
unfolding hextet_value
bytes_of [] = some []
bytes_of (h ∷ hs) = elim (hextet_value h) [
  | none ↦ none
  | some n ↦ elim (bytes_of hs) [
    | none ↦ none
    | some bytes ↦ some (n / 256 % 256 ∷ n % 256 ∷ bytes)
  ]
]

parse_hextets : Option (List (List ℕ)) → Option (List ℕ)
unfolding bytes_of
parse_hextets none = none
parse_hextets (some hs) = if length hs == 8 then bytes_of hs else none

unfoldable pub parse_ipv6_to_bytes : List ℕ → Option (List ℕ)
unfolding trim expand_quad split_double hextets parse_hextets until split decimal all_octets
parse_ipv6_to_bytes ip = elim (expand_quad (until b'%' (trim (map lower ip)))) [
  | none ↦ none
  | some s ↦ parse_hextets (hextets (split_double [] s))
]
