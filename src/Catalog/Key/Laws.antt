-- ===== src/Catalog/Key/Laws.antt =====
-- src/catalog.ts: canonicalResourceKey against splitResourceKey.
use vellar_facilitator.Base.{
  ◌≡◌, refl, true, false, not, some, [], ◌∷◌, ◌++◌, arith, ◌==◌, filter, ap, ◌∙◌,
}
use vellar_facilitator.Base.Text.{includes, until}
use vellar_facilitator.Base.Table.{Text}
use vellar_facilitator.Catalog.Key.{
  UrlParser, key_separator, split_resource_key, after_separator, base_key, tool_key,
  canonical_resource_key,
}

-- A tool's name as the key holds it.
abbrev pub without_separators : Text → Text
without_separators tool_name = filter (λ c. not (c == key_separator)) tool_name

until-separator :
    (base rest : Text)
    → includes key_separator base ≡ false
    → until key_separator (base ++ key_separator ∷ rest) ≡ base
unfolding until includes
until-separator [] rest h = refl
until-separator (c ∷ base) rest h = ground (arith, h, until-separator base rest)

after-separator :
    (base rest : Text)
    → includes key_separator base ≡ false
    → after_separator (base ++ key_separator ∷ rest) ≡ rest
unfolding after_separator includes
after-separator [] rest h = refl
after-separator (c ∷ base) rest h = ground (arith, h, after-separator base rest)

includes-separator :
    (base rest : Text) → includes key_separator (base ++ key_separator ∷ rest) ≡ true
unfolding includes
includes-separator [] rest = refl
includes-separator (c ∷ base) rest = ground (arith, includes-separator base rest)

pub split-join :
    (base tool : Text)
    → includes key_separator base ≡ false
    → split_resource_key (base ++ key_separator ∷ tool) ≡ (base, some tool)
unfolding split_resource_key
split-join base tool h =
    rw (includes-separator base tool, until-separator base tool h, after-separator base tool h) refl

tool_key-join :
    (base tool_name key : Text)
    → tool_key base tool_name ≡ some key
    → key ≡ base ++ key_separator ∷ without_separators tool_name
unfolding tool_key
tool_key-join base tool_name key e = ground arith

-- A key that is made of a URL without a separator and a tool's name splits into the key of the URL
-- and the name less its separators, so that two resources share a key only if both parts agree.
pub split-canonical_resource_key :
    (parse_url : UrlParser) (raw_url tool_name key : Text)
    → includes key_separator (base_key parse_url raw_url) ≡ false
    → canonical_resource_key parse_url raw_url (some tool_name) ≡ some key
    → split_resource_key key ≡ (base_key parse_url raw_url, some (without_separators tool_name))
unfolding canonical_resource_key
split-canonical_resource_key parse_url raw_url tool_name key h e =
    let base = base_key parse_url raw_url in
    let joined = tool_key-join base tool_name key e in
    ap (λ k. split_resource_key k) joined ∙ split-join base (without_separators tool_name) h
