-- ===== src/Catalog/Key.antt =====
-- src/catalog.ts: the identities that the catalog keys on, canonicalResourceKey and canonicalPayTo,
-- and the normalisation of paths. `new URL()` is a parameter: what it reads off a text that it can
-- parse.
pub mod Path
pub mod Laws
use vellar_facilitator.Base.{
  ℕ, suc, ◌+◌, Bool, true, false, not, ◌&&◌, ◌||◌, Option, none, some, List, [], ◌∷◌, ◌++◌, ltb,
  leb, ◌==◌, length, filter, if◌then◌else◌,
}
use vellar_facilitator.Base.Text.{includes, trim, until}
use vellar_facilitator.Base.Table.{Text}
use Path.{normalize_path}

-- The parts of a parsed URL that the code reads.
pub record Url : Type 0 where
  pub protocol : Text
  pub origin : Text
  pub hostname : Text
  pub pathname : Text

abbrev pub UrlParser : Type 0
UrlParser = Text → Option Url

-- KEY_SEPARATOR, MAX_TOOL_NAME_LEN and MAX_PAYTO_LEN.
abbrev pub key_separator : ℕ
key_separator = 0x1f

abbrev pub max_tool_name_len : ℕ
max_tool_name_len = 256

abbrev pub max_payto_len : ℕ
max_payto_len = 128

-- `none` stands for a payTo that is no string, and for one that is no usable identity.
unfoldable pub canonical_pay_to : Option Text → Option Text
canonical_pay_to none = none
canonical_pay_to (some pay_to) =
    let trimmed = trim pay_to in
    if length trimmed == 0 || ltb max_payto_len (length trimmed) then none else some trimmed

-- What follows the first separator.
unfoldable pub after_separator : Text → Text
after_separator [] = []
after_separator (c ∷ cs) = let rest = after_separator cs in if c == key_separator then cs else rest

unfoldable pub split_resource_key : Text → Text × Option Text
unfolding after_separator
split_resource_key stored_key =
    if includes key_separator stored_key
    then (until key_separator stored_key, some (after_separator stored_key))
    else (stored_key, none)

-- The key of the URL alone; what `new URL()` rejects is its own key.
unfoldable pub base_key : UrlParser → Text → Text
base_key parse_url raw_url = elim (parse_url raw_url) [
  | none ↦ raw_url
  | some u ↦ u.origin ++ normalize_path u.pathname
]

unfoldable pub tool_key : Text → Text → Option Text
tool_key base tool_name =
    let sanitized = filter (λ c. not (c == key_separator)) tool_name in
    if length sanitized == 0 || ltb max_tool_name_len (length sanitized)
    then none
    else some (base ++ key_separator ∷ sanitized)

-- The key of the parts that split_resource_key yields.
unfoldable pub key_of_parts : UrlParser → Text × Option Text → Option Text
unfolding base_key tool_key
key_of_parts parse_url (url, none) = some (base_key parse_url url)
key_of_parts parse_url (url, some tool_name) = tool_key (base_key parse_url url) tool_name

unfoldable pub canonical_resource_key : UrlParser → Text → Option Text → Option Text
unfolding key_of_parts split_resource_key
canonical_resource_key parse_url raw_url none = key_of_parts parse_url (split_resource_key raw_url)
canonical_resource_key parse_url raw_url (some tool_name) =
    key_of_parts parse_url (raw_url, some tool_name)
