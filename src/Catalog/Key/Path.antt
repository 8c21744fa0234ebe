-- ===== src/Catalog/Key/Path.antt =====
-- src/catalog.ts: normalizePath.
use vellar_facilitator.Base.{
  ℕ, ◌+◌, ◌*◌, ◌-◌, Bool, ◌&&◌, ◌||◌, Option, none, some, [], ◌∷◌, leb, ◌==◌, if◌then◌else◌,
}
use vellar_facilitator.Base.Text.{is_digit}
use vellar_facilitator.Base.Table.{Text}

-- `UNRESERVED`.
unfoldable pub is_unreserved : ℕ → Bool
is_unreserved c =
    (leb b'A' c && leb c b'Z')
    || (leb b'a' c && leb c b'z')
    || is_digit c
    || c == b'-'
    || c == b'.'
    || c == b'_'
    || c == b'~'

-- The value of a character of `[0-9a-fA-F]`.
unfoldable pub hex_digit_value : ℕ → Option ℕ
hex_digit_value c =
    if is_digit c
    then some (c - b'0')
    else if leb b'a' c && leb c b'f'
    then some (10 + (c - b'a'))
    else if leb b'A' c && leb c b'F'
    then some (10 + (c - b'A'))
    else none

-- `toUpperCase` of a hexadecimal digit.
abbrev pub upper_hex : ℕ → ℕ
upper_hex c = if leb b'a' c && leb c b'f' then c - 32 else c

-- What an escape `%` `h` `l` is replaced by, or `none` where `h` and `l` are no digits.
unfoldable pub unescape : ℕ → ℕ → Option Text
unfolding is_unreserved hex_digit_value
unescape h l = elim (hex_digit_value h) [
  | none ↦ none
  | some high ↦ elim (hex_digit_value l) [
    | none ↦ none
    | some low ↦ some (
        if is_unreserved (high * 16 + low)
        then (high * 16 + low) ∷ []
        else b'%' ∷ upper_hex h ∷ upper_hex l ∷ [])
  ]
]

abbrev prepend : Text → Text → Text
prepend [] out = out
prepend (c ∷ cs) out = c ∷ prepend cs out

-- `pathname.replace(/%([0-9a-fA-F]{2})/g, …)`: matches do not overlap.
unfoldable pub decode_escapes : Text → Text
unfolding unescape
decode_escapes [] = []
decode_escapes (c ∷ []) = c ∷ []
decode_escapes (c ∷ d ∷ []) = c ∷ d ∷ []
decode_escapes (c ∷ h ∷ l ∷ cs) =
    let after = decode_escapes cs in
    let next = c ∷ decode_escapes (h ∷ l ∷ cs) in
    let replaced : Text = elim (unescape h l) [ none ↦ next | some out ↦ prepend out after ] in
    if c == b'%' then replaced else next

-- `out.replace(/\/{2,}/g, "/")`.
unfoldable pub collapse_slashes : Text → Text
collapse_slashes [] = []
collapse_slashes (c ∷ []) = c ∷ []
collapse_slashes (c ∷ d ∷ cs) =
    let rest = collapse_slashes (d ∷ cs) in if c == b'/' && d == b'/' then rest else c ∷ rest

-- `out.slice(0, -1)` where `out` is longer than one character and ends with a slash.
unfoldable pub strip_last_slash : Text → Text
strip_last_slash [] = []
strip_last_slash (c ∷ []) = c ∷ []
strip_last_slash (c ∷ d ∷ []) = if d == b'/' then c ∷ [] else c ∷ d ∷ []
strip_last_slash (c ∷ d ∷ e ∷ cs) = c ∷ strip_last_slash (d ∷ e ∷ cs)

abbrev or_root : Text → Text
or_root [] = b'/' ∷ []
or_root (c ∷ cs) = c ∷ cs

unfoldable pub normalize_path : Text → Text
unfolding decode_escapes collapse_slashes strip_last_slash
normalize_path pathname = or_root (strip_last_slash (collapse_slashes (decode_escapes pathname)))
