-- ===== src/Catalog/Browse/Tokens.antt =====
-- src/catalog.ts: the tokens of a query: tokenize, expandWithSynonyms and stem.
use vellar_facilitator.Base.{
  ℕ, ◌-◌, Bool, not, ◌&&◌, ◌||◌, List, [], ◌∷◌, ◌++◌, ltb, leb, length, filter, if◌then◌else◌,
}
use vellar_facilitator.Base.Text.{codes, same_text, ends_with, is_digit}
use vellar_facilitator.Base.Table.{Text, member, adjoin}
use vellar_facilitator.Catalog.Sanitize.{take}
use mathlib.Core.List.{reverse}

-- `[a-z0-9]`.
abbrev pub is_word_char : ℕ → Bool
is_word_char c = (leb b'a' c && leb c b'z') || is_digit c

-- `.split(/[^a-z0-9]+/)`, with the word that is being read, reversed; an empty word is dropped by the
-- filter that follows.
unfoldable pub split_words : Text → Text → List Text
split_words word [] = reverse word ∷ []
split_words word (c ∷ cs) =
    let longer = split_words (c ∷ word) cs in
    let closed = split_words [] cs in if is_word_char c then longer else reverse word ∷ closed

-- tokenize, of a text in lower case.
unfoldable pub tokenize : Text → List Text
tokenize lowered = filter (λ t. ltb 1 (length t)) (split_words [] lowered)

-- `[...new Set(texts)]`, added to a set.
unfoldable pub adjoin_all : List Text → List Text → List Text
adjoin_all set [] = set
adjoin_all set (t ∷ ts) = adjoin_all (adjoin t set) ts

-- SYNONYM_GROUPS.
abbrev pub synonym_groups : List (List Text)
synonym_groups =
    (codes "uuid" ∷ codes "identifier" ∷ codes "unique" ∷ codes "id" ∷ codes "guid" ∷ [])
    ∷ (codes "timestamp"
        ∷ codes "time"
        ∷ codes "clock"
        ∷ codes "date"
        ∷ codes "datetime"
        ∷ codes "ledger"
        ∷ [])
    ∷ (codes "hash"
        ∷ codes "sha256"
        ∷ codes "md5"
        ∷ codes "checksum"
        ∷ codes "fingerprint"
        ∷ codes "digest"
        ∷ codes "verify"
        ∷ [])
    ∷ (codes "base64" ∷ codes "encode" ∷ codes "decode" ∷ codes "encoding" ∷ codes "decoding" ∷ [])
    ∷ (codes "stroops" ∷ codes "xlm" ∷ codes "stellar" ∷ codes "convert" ∷ codes "conversion" ∷ [])
    ∷ (codes "quote"
        ∷ codes "motivation"
        ∷ codes "motivational"
        ∷ codes "saying"
        ∷ codes "inspiration"
        ∷ [])
    ∷ (codes "inspect"
        ∷ codes "lookup"
        ∷ codes "check"
        ∷ codes "balance"
        ∷ codes "account"
        ∷ codes "address"
        ∷ [])
    ∷ (codes "wordcount"
        ∷ codes "words"
        ∷ codes "characters"
        ∷ codes "count"
        ∷ codes "analyze"
        ∷ codes "analysis"
        ∷ codes "text"
        ∷ codes "reading"
        ∷ [])
    ∷ []

-- `SYNONYMS.get(token) ?? []`: the other terms of every group that the token is in.
unfoldable pub synonyms_of : Text → List (List Text) → List Text
synonyms_of token [] = []
synonyms_of token (group ∷ groups) =
    let rest = synonyms_of token groups in
    if member token group
    then adjoin_all (filter (λ t. not (same_text t token)) group) rest
    else rest

abbrev pub pieces : List Text → List Text
pieces [] = []
pieces (s ∷ ss) = tokenize s ++ pieces ss

unfoldable pub add_synonyms : List Text → List Text → List Text
add_synonyms set [] = set
add_synonyms set (t ∷ ts) = add_synonyms (adjoin_all set (pieces (synonyms_of t synonym_groups))) ts

unfoldable pub expand_with_synonyms : List Text → List Text
expand_with_synonyms tokens = add_synonyms (adjoin_all [] tokens) tokens

-- `word.slice(0, -n)`.
abbrev pub cut : ℕ → Text → Text
cut n word = take (length word - n) word

-- A suffix that leaves three letters at least.
unfoldable pub has_suffix : Text → Text → Bool
has_suffix word suffix = ends_with word suffix && leb 3 (length word - length suffix)

unfoldable pub stem : Text → Text
stem word =
    if has_suffix word (codes "tion") || has_suffix word (codes "sion")
    then cut 4 word ++ codes "t"
    else if has_suffix word (codes "ing")
    then cut 3 word
    else if has_suffix word (codes "ly")
        || has_suffix word (codes "ed")
        || has_suffix word (codes "er")
    then cut 2 word
    else if has_suffix word (codes "s") && not (ends_with word (codes "ss"))
    then cut 1 word
    else word
