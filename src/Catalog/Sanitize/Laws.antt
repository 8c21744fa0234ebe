-- ===== src/Catalog/Sanitize/Laws.antt =====
-- What a stored text can hold.
use vellar_facilitator.Base.{
  ℕ, zero, suc, ◌≤◌, ◌<◌, ◌≡◌, refl, true, Option, none, some, List, [], ◌∷◌, arith, length, all,
  All, ap, ◌∙◌, inl, inr, Option-cases,
}
use vellar_facilitator.Base.Table.{Text}
use vellar_facilitator.Catalog.Sanitize.{
  take, is_printable, non_empty, printable_only, sanitize_short_text, clean_tags, sanitize_tags,
  some_tags, max_tag_len, max_tags,
}

-- A text of at most `n` characters, all of them printable ASCII, and at least one.
pub record IsShort (n : ℕ) (t : Text) : Type 0 where
  pub some_text : 0 < length t
  pub bounded : length t ≤ n
  pub printable : all is_printable t ≡ true

length-take-le : (n : ℕ) (t : Text) → length (take n t) ≤ n
unfolding take
length-take-le zero t = omega arith
length-take-le (suc n) [] = omega arith
length-take-le (suc n) (c ∷ cs) = omega (arith, length-take-le n cs)

take-short : (n : ℕ) (t : Text) → length t ≤ n → take n t ≡ t
unfolding take
take-short zero [] h = refl
take-short zero (c ∷ cs) h = absurd (omega arith)
take-short (suc n) [] h = refl
take-short (suc n) (c ∷ cs) h = ap (◌∷◌ c) (take-short n cs (omega arith))

printable_only-IsShort :
    (n : ℕ) (t s : Text) → length t ≤ n → printable_only (non_empty t) ≡ some s → IsShort n s
unfolding non_empty
printable_only-IsShort n [] s h e = cc
printable_only-IsShort n (c ∷ cs) s h e = ground arith

-- Whatever the input and whatever the stripping leaves, a stored short text has one character at
-- least and at most as many as its field allows, all of them printable ASCII.
pub sanitize_short_text-IsShort :
    (strip : Text → Text) (n : ℕ) (value : Option Text) (s : Text)
    → sanitize_short_text strip n value ≡ some s
    → IsShort n s
unfolding sanitize_short_text
sanitize_short_text-IsShort strip n none s e = cc
sanitize_short_text-IsShort strip n (some value) s e =
    printable_only-IsShort n (take n (strip value)) s (length-take-le n (strip value)) e

IsShort-kept : (n : ℕ) (t : Text) → IsShort n t → printable_only (non_empty t) ≡ some t
unfolding non_empty
IsShort-kept n [] h = absurd (omega arith)
IsShort-kept n (c ∷ cs) h = ground arith

-- A stored short text passes the sanitiser again unchanged, if the stripping leaves printable ASCII
-- alone: loading what was stored loses nothing.
pub sanitize_short_text_idem :
    (strip : Text → Text) (n : ℕ) (value : Option Text) (s : Text)
    → ((t : Text) → all is_printable t ≡ true → strip t ≡ t)
    → sanitize_short_text strip n value ≡ some s
    → sanitize_short_text strip n (some s) ≡ some s
sanitize_short_text_idem strip n value s keeps e =
    let short = sanitize_short_text-IsShort strip n value s e in again short
  where
    again : IsShort n s → sanitize_short_text strip n (some s) ≡ some s
    again short =
        unfold sanitize_short_text in
        (ap (λ t. printable_only (non_empty (take n t))) (keeps s short.printable)
          ∙ ap (λ t. printable_only (non_empty t)) (take-short n s short.bounded)
          ∙ IsShort-kept n s short)

-- At most `left` tags, each one short.
clean_tags-bounded :
    (strip : Text → Text) (left : ℕ) (tags : List (Option Text))
    → (length (clean_tags strip left tags) ≤ left)
      × All (IsShort max_tag_len) (clean_tags strip left tags)
unfolding clean_tags
clean_tags-bounded strip left [] = (omega arith, tt)
clean_tags-bounded strip zero (t ∷ ts) = (omega arith, tt)
clean_tags-bounded strip (suc left) (t ∷ ts) =
    elim (Option-cases (sanitize_short_text strip max_tag_len t)) [
      | inl e ↦ rw (e, clean_tags) (clean_tags-bounded strip (suc left) ts)
      | inr (s, e) ↦
          let (count, short) = clean_tags-bounded strip left ts in
          rw (e, clean_tags)
            (omega (arith, count), (sanitize_short_text-IsShort strip max_tag_len t s e, short))
    ]

-- Stored tags are one to eight texts of one to 32 printable ASCII characters each.
pub sanitize_tags_bounded :
    (strip : Text → Text) (tags : Option (List (Option Text))) (ts : List Text)
    → sanitize_tags strip tags ≡ some ts
    → (0 < length ts) × (length ts ≤ max_tags) × All (IsShort max_tag_len) ts
unfolding sanitize_tags
sanitize_tags_bounded strip none ts e = cc
sanitize_tags_bounded strip (some tags) ts e =
    go (clean_tags strip max_tags tags) (clean_tags-bounded strip max_tags tags) e
  where
    go :
        (us : List Text)
        → (length us ≤ max_tags) × All (IsShort max_tag_len) us
        → some_tags us ≡ some ts
        → (0 < length ts) × (length ts ≤ max_tags) × All (IsShort max_tag_len) ts
    go [] b eq = cc
    go (u ∷ us) b eq = ground (arith, b)
