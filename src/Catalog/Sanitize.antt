-- ===== src/Catalog/Sanitize.antt =====
-- src/catalog.ts: the sanitisers of the free-text fields of a resource. A field that is absent or
-- is no string is `none`. Parameters: `strip`, which is `value.replace(/[\p{Cc}\p{Cf}]/gu, "")`,
-- and `new URL()`.
pub mod Laws
use vellar_facilitator.Base.{
  ℕ, zero, suc, Bool, true, false, not, ◌&&◌, ◌||◌, Option, none, some, List, [], ◌∷◌, ltb, leb,
  ◌==◌, length, all, if◌then◌else◌,
}
use vellar_facilitator.Base.Text.{codes, same_text, split, is_digit, includes, ends_with, lower}
use vellar_facilitator.Base.Table.{Text, member, find}
use vellar_facilitator.Catalog.Key.{UrlParser, Url}
use mathlib.Core.List.{map}

abbrev pub max_description_len : ℕ
max_description_len = 256

abbrev pub max_service_name_len : ℕ
max_service_name_len = 64

abbrev pub max_tag_len : ℕ
max_tag_len = 32

abbrev pub max_tags : ℕ
max_tags = 8

abbrev pub max_mime_type_len : ℕ
max_mime_type_len = 128

-- `s.slice(0, n)`.
unfoldable pub take : ℕ → Text → Text
take zero s = []
take (suc n) [] = []
take (suc n) (c ∷ cs) = c ∷ take n cs

-- PRINTABLE_ASCII, which wants one character at least.
abbrev pub is_printable : ℕ → Bool
is_printable c = leb 0x20 c && leb c 0x7e

unfoldable pub non_empty : Text → Option Text
non_empty [] = none
non_empty (c ∷ cs) = some (c ∷ cs)

unfoldable pub sanitize_description : (Text → Text) → Option Text → Option Text
unfolding non_empty
sanitize_description strip none = none
sanitize_description strip (some value) = non_empty (take max_description_len (strip value))

abbrev printable_only : Option Text → Option Text
printable_only none = none
printable_only (some cleaned) = if all is_printable cleaned then some cleaned else none

unfoldable pub sanitize_short_text : (Text → Text) → ℕ → Option Text → Option Text
unfolding non_empty
sanitize_short_text strip max_len none = none
sanitize_short_text strip max_len (some value) =
    printable_only (non_empty (take max_len (strip value)))

-- The loop of sanitizeTags, with room for `left` more tags; it stops when there is none.
unfoldable pub clean_tags : (Text → Text) → ℕ → List (Option Text) → List Text
clean_tags strip left [] = []
clean_tags strip zero (t ∷ ts) = []
clean_tags strip (suc left) (t ∷ ts) = elim (sanitize_short_text strip max_tag_len t) [
  | none ↦ clean_tags strip (suc left) ts
  | some clean ↦ clean ∷ clean_tags strip left ts
]

abbrev some_tags : List Text → Option (List Text)
some_tags [] = none
some_tags (t ∷ ts) = some (t ∷ ts)

unfoldable pub sanitize_tags : (Text → Text) → Option (List (Option Text)) → Option (List Text)
unfolding clean_tags
sanitize_tags strip none = none
sanitize_tags strip (some tags) = some_tags (clean_tags strip max_tags tags)

-- KNOWN_TYPES; `none` is a type that the code refuses.
unfoldable pub sanitize_type : Option Text → Option Text
sanitize_type none = none
sanitize_type (some t) = if member t (codes "http" ∷ codes "mcp" ∷ []) then some t else none

-- The object's keys with their values as JSON; only `bazaar` is kept.
unfoldable pub sanitize_extensions : Option (List (Text × Text)) → Option Text
sanitize_extensions none = none
sanitize_extensions (some extensions) = find (codes "bazaar") extensions

-- `replace(/^\[|\]$/g, "")`.
unfoldable pub strip_brackets : Text → Text
strip_brackets host = close (open_ host)
  where
    open_ : Text → Text
    open_ [] = []
    open_ (c ∷ cs) = if c == b'[' then cs else c ∷ cs

    close : Text → Text
    close [] = []
    close (c ∷ []) = if c == b']' then [] else c ∷ []
    close (c ∷ d ∷ cs) = c ∷ close (d ∷ cs)

-- `^\d{1,3}(\.\d{1,3}){3}$`.
abbrev is_octet_text : Text → Bool
is_octet_text t = all is_digit t && leb 1 (length t) && leb (length t) 3

abbrev is_dotted_quad : Text → Bool
is_dotted_quad host = length (split b'.' host) == 4 && all is_octet_text (split b'.' host)

abbrev is_hex_digit : ℕ → Bool
is_hex_digit c = is_digit c || (leb b'a' c && leb c b'f')

-- `^0x[0-9a-f]+$`, on a lower-case text.
is_hex_literal : Text → Bool
is_hex_literal [] = false
is_hex_literal (z ∷ []) = false
is_hex_literal (z ∷ x ∷ digits) =
    z == b'0' && x == b'x' && all is_hex_digit digits && leb 1 (length digits)

abbrev loopback_hosts : List Text
loopback_hosts =
    codes "localhost"
    ∷ codes "localhost.localdomain"
    ∷ codes "ip6-localhost"
    ∷ codes "ip6-loopback"
    ∷ []

unfoldable pub is_icon_host : Text → Bool
unfolding is_hex_literal
is_icon_host host =
    not (member host loopback_hosts || ends_with host (codes ".localhost"))
    && not
        (is_dotted_quad host || (all is_digit host && leb 1 (length host)) || is_hex_literal host)
    && not (includes b':' host)

-- The test of the parsed URL; `credentials` says that it has a username or a password.
unfoldable pub is_icon_url : (Url → Bool) → Url → Bool
unfolding is_icon_host strip_brackets
is_icon_url credentials u =
    (same_text u.protocol (codes "http:") || same_text u.protocol (codes "https:"))
    && not (credentials u)
    && is_icon_host (map lower (strip_brackets u.hostname))

unfoldable pub sanitize_icon_url :
    (Text → Text) → UrlParser → (Url → Bool) → Option Text → Option Text
unfolding is_icon_url
sanitize_icon_url strip parse_url credentials none = none
sanitize_icon_url strip parse_url credentials (some value) =
    let parsed : Option Text = elim (parse_url value) [
      | none ↦ none
      | some u ↦ (if is_icon_url credentials u then some value else none)
    ] in
    if ltb 2048 (length value) || not (same_text (strip value) value) then none else parsed

-- The free-text fields of a resource, as they arrive and as they are stored.
pub record RawMetadata : Type 0 where
  pub description : Option Text
  pub mime_type : Option Text
  pub service_name : Option Text
  pub tags : Option (List (Option Text))
  pub icon_url : Option Text
  pub extensions : Option (List (Text × Text))

pub record Metadata : Type 0 where
  pub description : Option Text
  pub mime_type : Option Text
  pub service_name : Option Text
  pub tags : Option (List Text)
  pub icon_url : Option Text
  pub extensions : Option Text

-- What the sanitisers take from outside.
pub record Platform : Type 0 where
  pub strip : Text → Text
  pub parse_url : UrlParser
  pub credentials : Url → Bool

-- sanitizeStoredResource, on the fields that it cleans.
unfoldable pub sanitize_stored_resource : Platform → RawMetadata → Metadata
sanitize_stored_resource env raw = record {
  description = sanitize_description env.strip raw.description;
  mime_type = sanitize_short_text env.strip max_mime_type_len raw.mime_type;
  service_name = sanitize_short_text env.strip max_service_name_len raw.service_name;
  tags = sanitize_tags env.strip raw.tags;
  icon_url = sanitize_icon_url env.strip env.parse_url env.credentials raw.icon_url;
  extensions = sanitize_extensions raw.extensions;
}
