-- ===== src/Catalog/Browse/Pages.antt =====
-- src/catalog.ts: what a client sees that follows the cursors of a search.
use vellar_facilitator.Base.{
  ℕ, zero, suc, ◌+◌, ◌≤◌, ◌<◌, ◌≡◌, refl, sym, ◌∙◌, ap, Bool, true, false, Option, none, some, List,
  [], ◌∷◌, ◌++◌, arith, ltb, ltb→lt, length, if◌then◌else◌,
}
use vellar_facilitator.Base.Text.{same_text_refl}
use vellar_facilitator.Base.Table.{Text}
use vellar_facilitator.Catalog.State.{Catalog}
use vellar_facilitator.Catalog.Browse.{
  Wording, Params, slice, search_page, offset_of, clamp_limit, search_results, search,
}
use vellar_facilitator.Trust.Annotate.{Listing}

module _ {ℓ} {A : Type ℓ} where
  -- `xs.slice(n)`.
  abbrev pub drop : ℕ → List A → List A
  drop zero xs = xs
  drop (suc n) [] = []
  drop (suc n) (x ∷ xs) = drop n xs

  slice-drop :
      (offset limit n : ℕ) (xs : List A)
      → n ≡ offset + length (slice offset limit xs)
      → slice offset limit xs ++ drop n xs ≡ drop offset xs
  unfolding slice
  slice-drop offset zero n xs e = ap (λ m. drop m xs) (omega (arith, e))
  slice-drop zero (suc limit) zero [] e = refl
  slice-drop zero (suc limit) (suc n) [] e = refl
  slice-drop (suc offset) (suc limit) zero [] e = refl
  slice-drop (suc offset) (suc limit) (suc n) [] e = refl
  slice-drop zero (suc limit) zero (x ∷ xs) e = absurd (omega (arith, e))
  slice-drop zero (suc limit) (suc n) (x ∷ xs) e =
      ap (◌∷◌ x) (slice-drop zero limit n xs (omega (arith, e)))
  slice-drop (suc offset) (suc limit) zero (x ∷ xs) e = absurd (omega (arith, e))
  slice-drop (suc offset) (suc limit) (suc n) (x ∷ xs) e =
      slice-drop offset (suc limit) n xs (omega (arith, e))

  drop-end : (n : ℕ) (xs : List A) → length xs ≤ n → drop n xs ≡ []
  drop-end zero [] h = refl
  drop-end zero (x ∷ xs) h = absurd (omega (arith, h))
  drop-end (suc n) [] h = refl
  drop-end (suc n) (x ∷ xs) h = drop-end n xs (omega (arith, h))

  slice-progress :
      (offset limit : ℕ) (xs : List A)
      → 1 ≤ limit
      → offset < length xs
      → 1 ≤ length (slice offset limit xs)
  unfolding slice
  slice-progress offset zero xs l h = absurd (omega (arith, l))
  slice-progress zero (suc limit) [] l h = absurd (omega (arith, h))
  slice-progress (suc offset) (suc limit) [] l h = absurd (omega (arith, h))
  slice-progress zero (suc limit) (x ∷ xs) l h = omega arith
  slice-progress (suc offset) (suc limit) (x ∷ xs) l h =
      slice-progress offset (suc limit) xs l (omega (arith, h))

-- The rest of a walk, from a page's cursor on.
abbrev follow : Option ℕ → (ℕ → List Listing) → List Listing
follow none rest = []
follow (some o) rest = rest o

walk-page :
    (scored : List Listing) (limit offset n : ℕ) (rest : ℕ → List Listing)
    → 1 ≤ limit
    → length scored ≤ suc n + offset
    → ((m : ℕ) → length scored ≤ n + m → rest m ≡ drop m scored)
    → (search_page scored limit offset).resources
        ++ follow (search_page scored limit offset).next rest
      ≡ drop offset scored
unfolding search_page
walk-page scored limit offset n rest l h walked =
    paged (ltb (offset + length (slice offset limit scored)) (length scored)) refl
  where
    paged :
        (more : Bool)
        → ltb (offset + length (slice offset limit scored)) (length scored) ≡ more
        → slice offset limit scored
            ++ follow
                (if more then some (offset + length (slice offset limit scored)) else none)
                rest
          ≡ drop offset scored
    paged true m =
        let end = offset + length (slice offset limit scored) in
        let below = ltb→lt end (length scored) m in
        ap (◌++◌ (slice offset limit scored)) (
          walked end
            (omega (arith, h, below, slice-progress offset limit scored l (omega (arith, below)))))
        ∙ slice-drop offset limit end scored refl
    paged false m =
        let end = offset + length (slice offset limit scored) in
        ap (◌++◌ (slice offset limit scored)) (sym (drop-end end scored (ground (arith, m))))
        ∙ slice-drop offset limit end scored refl

-- What a client gets that asks for the page of a cursor, then for that of the cursor it is given, and
-- so on, at most `n` times.
module _ (w : Wording) (p : Params) (query : Text) (limit : Option ℕ) (filter_key : Text) where
  abbrev cursor_of : ℕ → Option (ℕ × Text)
  cursor_of offset = some (offset, filter_key)

  unfoldable pub browse : ℕ → Option (ℕ × Text) → Catalog → List Listing
  browse zero cursor c = []
  browse (suc n) cursor c =
      let page = search w p query limit filter_key cursor c in
      page.resources ++ follow page.next (λ o. browse n (some (o, filter_key)) c)

  clamp-pos : 1 ≤ clamp_limit limit
  unfolding clamp_limit
  clamp-pos = positive limit
    where
      positive : (l : Option ℕ) → 1 ≤ clamp_limit l
      positive none = omega arith
      positive (some n) = ground arith

  offset_of_own : (o : ℕ) → offset_of filter_key (cursor_of o) ≡ o
  unfolding offset_of
  offset_of_own o = ground (arith, same_text_refl filter_key)

  browse-drop :
      (n offset : ℕ) (cursor : Option (ℕ × Text)) (c : Catalog)
      → offset_of filter_key cursor ≡ offset
      → length (search_results w p query c) ≤ n + offset
      → browse n cursor c ≡ drop offset (search_results w p query c)
  unfolding browse search
  browse-drop zero offset cursor c e h =
      sym (drop-end offset (search_results w p query c) (omega (arith, h)))
  browse-drop (suc n) offset cursor c e h =
      walk-page (search_results w p query c) (clamp_limit limit) (offset_of filter_key cursor) n
        (λ o. browse n (cursor_of o) c) clamp-pos (omega (arith, h, e))
        (λ m fits. browse-drop n m (cursor_of m) c (offset_of_own m) fits)
      ∙ ap (λ o. drop o (search_results w p query c)) e

  -- While neither the catalog nor the vectors at hand change from one page to the next, a client that
  -- follows the cursors of a search from its first page gets the whole fused ranking, in order and with
  -- nothing twice, within as many pages as it has results; whatever the query, the filters and the
  -- limit are.
  pub browse_complete :
      (c : Catalog)
      → browse (length (search_results w p query c)) none c ≡ search_results w p query c
  unfolding offset_of
  browse_complete c = browse-drop (length (search_results w p query c)) 0 none c refl (omega arith)
