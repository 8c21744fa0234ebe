-- ===== src/Trust/Newest.antt =====
-- src/trust.ts: which record newestRecord picks, described without the sort.
use vellar_facilitator.Base.{
  All, All-imp, if_cases, ℕ, zero, suc, ◌≤◌, ◌≡◌, ◌≢◌, ◌⊎◌, inl, inr, refl, Option, none, some,
  List, [], ◌∷◌, arith, length, get_elem?, ltb, ap, sym, ◌∙◌, subst, Option-cases, Bool-cases, ◌==◌,
  ==_iff,
}
use vellar_facilitator.Base.Table.{Text}
use vellar_facilitator.Trust.History.{
  HistoryRecord, record_timestamp, stamped, insert_newest, newest_first, first_record, first_of,
  newest_record,
}

-- The element stands somewhere in the list.
abbrev pub IsIn {ℓ} : {A : Type ℓ} → A → List A → Type ℓ
IsIn x xs = (i : ℕ) × (get_elem? xs i ≡ some x)

module _ (date_parse : Text → Option ℕ) where
  -- Every record has a time, and the record's is the latest; or some record has none, and the record is
  -- the first.
  pub data IsNewest (records : List HistoryRecord) (r : HistoryRecord) : Type 0 where
    latest :
        (t : ℕ)
        → record_timestamp date_parse r ≡ some t
        → All (λ x. (u : ℕ) × (record_timestamp date_parse x ≡ some u) × (u ≤ t)) records
        → IsNewest records r
    leading :
        (x : HistoryRecord)
        → IsIn x records
        → record_timestamp date_parse x ≡ none
        → first_of records ≡ some r
        → IsNewest records r

  stamped-cons-none :
      (r : HistoryRecord) (rs : List HistoryRecord)
      → record_timestamp date_parse r ≡ none
      → stamped date_parse (r ∷ rs) ≡ stamped date_parse rs
  unfolding stamped
  stamped-cons-none r rs h = rw h refl

  stamped-cons-some :
      (r : HistoryRecord) (rs : List HistoryRecord) (t : ℕ)
      → record_timestamp date_parse r ≡ some t
      → stamped date_parse (r ∷ rs) ≡ (r, t) ∷ stamped date_parse rs
  unfolding stamped
  stamped-cons-some r rs t h = rw h refl

  stamped-length : (rs : List HistoryRecord) → length (stamped date_parse rs) ≤ length rs
  unfolding stamped
  stamped-length [] = omega arith
  stamped-length (r ∷ rs) =
      let rest = stamped-length rs in
      elim (Option-cases (record_timestamp date_parse r)) [
        | inl undated ↦ ground (arith, rest, stamped-cons-none r rs undated)
        | inr (t, dated) ↦ ground (arith, rest, stamped-cons-some r rs t dated)
      ]

  stamped-IsIn :
      (rs : List HistoryRecord) (r : HistoryRecord) (t : ℕ)
      → IsIn (r, t) (stamped date_parse rs)
      → IsIn r rs × (record_timestamp date_parse r ≡ some t)
  unfolding stamped
  stamped-IsIn [] r t (i, p) = cc
  stamped-IsIn (x ∷ rs) r t m = elim (Option-cases (record_timestamp date_parse x)) [
    | inl undated ↦
        later (stamped-IsIn rs r t (subst (λ l. IsIn (r, t) l) (stamped-cons-none x rs undated) m))
    | inr (u, dated) ↦
        at u dated (stamped-IsIn rs r t)
          (subst (λ l. IsIn (r, t) l) (stamped-cons-some x rs u dated) m)
  ]
    where
      later :
          IsIn r rs × (record_timestamp date_parse r ≡ some t)
          → IsIn r (x ∷ rs) × (record_timestamp date_parse r ≡ some t)
      later ((i, p), e) = ((suc i, p), e)

      at :
          (u : ℕ)
          → record_timestamp date_parse x ≡ some u
          → (IsIn (r, t) (stamped date_parse rs)
              → IsIn r rs × (record_timestamp date_parse r ≡ some t))
          → IsIn (r, t) ((x, u) ∷ stamped date_parse rs)
          → IsIn r (x ∷ rs) × (record_timestamp date_parse r ≡ some t)
      at u dated rest (zero, p) = ((0, cc), cc)
      at u dated rest (suc i, p) = later (rest (i, p))

  All-dated :
      (rs : List HistoryRecord) (t : ℕ)
      → All (λ (y : HistoryRecord × ℕ). y.1 ≤ t) (stamped date_parse rs)
      → length (stamped date_parse rs) ≡ length rs
      → All (λ x. (u : ℕ) × (record_timestamp date_parse x ≡ some u) × (u ≤ t)) rs
  All-dated [] t h e = tt
  All-dated (x ∷ rs) t h e = elim (Option-cases (record_timestamp date_parse x)) [
    | inl undated ↦
        absurd
          (omega (arith, e, stamped-length rs, ap (λ l. length l) (stamped-cons-none x rs undated)))
    | inr (u, dated) ↦
        let stamp = stamped-cons-some x rs u dated in
        let bounds = subst (λ l. All (λ (y : HistoryRecord × ℕ). y.1 ≤ t) l) stamp h in
        ((u, dated, bounds.0), All-dated rs t bounds.1 (omega (arith, e, ap (λ l. length l) stamp)))
  ]

  some_undated :
      (rs : List HistoryRecord)
      → length (stamped date_parse rs) ≢ length rs
      → (x : HistoryRecord) × IsIn x rs × (record_timestamp date_parse x ≡ none)
  unfolding stamped
  some_undated [] n = absurd (n refl)
  some_undated (x ∷ rs) n = elim (Option-cases (record_timestamp date_parse x)) [
    | inl undated ↦ (x, (0, refl), undated)
    | inr (u, dated) ↦
        let (y, (i, p), e) =
          some_undated rs
            (λ q. n (ap (λ l. length l) (stamped-cons-some x rs u dated) ∙ ap (λ k. suc k) q)) in
        (y, (suc i, p), e)
  ]

-- The first of the sorted, if there is one.
IsTop : List (HistoryRecord × ℕ) → List (HistoryRecord × ℕ) → Type 0
IsTop sorted ds =
    ((sorted ≡ []) × (ds ≡ []))
    ⊎ ((d : HistoryRecord × ℕ) × (rest : List (HistoryRecord × ℕ)) × (sorted ≡ d ∷ rest)
        × IsIn d ds
        × All (λ (y : HistoryRecord × ℕ). y.1 ≤ d.1) ds)

insert_newest-IsTop :
    (x : HistoryRecord × ℕ) (sorted ds : List (HistoryRecord × ℕ))
    → IsTop sorted ds
    → IsTop (insert_newest x sorted) (x ∷ ds)
unfolding insert_newest IsTop
insert_newest-IsTop x [] ds (inl (e, none_left)) = inr (
  x,
  [],
  refl,
  (0, refl),
  (omega arith, subst (λ l. All (λ (y : HistoryRecord × ℕ). y.1 ≤ x.1) l) (sym none_left) tt),
)
insert_newest-IsTop x (y ∷ ys) ds (inl (e, none_left)) = cc
insert_newest-IsTop x [] ds (inr (d, rest, e, m, bounds)) = cc
insert_newest-IsTop x (y ∷ ys) ds (inr (d, rest, e, (i, p), bounds)) =
    let top : y ≡ d = cc in
    if_cases (λ l. IsTop l (x ∷ ds)) (ltb x.1 y.1)
      (λ earlier. inr (
        y,
        insert_newest x ys,
        refl,
        (suc i, p ∙ ap (λ z. some z) (sym top)),
        (
          ground (arith, earlier),
          subst (λ z. All (λ (w : HistoryRecord × ℕ). w.1 ≤ z.1) ds) (sym top) bounds,
        ),
      ))
      (λ late. inr (
        x,
        y ∷ ys,
        refl,
        (0, refl),
        (
          omega arith,
          All-imp (λ (w : HistoryRecord × ℕ). w.1 ≤ d.1) (λ w. w.1 ≤ x.1) ds
              (λ w k. ground (arith, k, late, top)) bounds,
        ),
      ))

newest_first-IsTop : (ds : List (HistoryRecord × ℕ)) → IsTop (newest_first ds) ds
unfolding newest_first IsTop
newest_first-IsTop [] = inl (refl, refl)
newest_first-IsTop (x ∷ ds) = insert_newest-IsTop x (newest_first ds) ds (newest_first-IsTop ds)

first_of-IsIn :
    (records : List HistoryRecord) (r : HistoryRecord) → first_of records ≡ some r → IsIn r records
first_of-IsIn [] r e = cc
first_of-IsIn (x ∷ xs) r e = (0, e)

-- The sort and its first element yield a newest record.
pub newest_record-IsNewest :
    (date_parse : Text → Option ℕ) (records : List HistoryRecord) (r : HistoryRecord)
    → newest_record date_parse records ≡ some r
    → IsIn r records × IsNewest date_parse records r
unfolding newest_record IsTop
newest_record-IsNewest date_parse records r e =
    elim (Bool-cases (length (stamped date_parse records) == length records)) [
      | inl all ↦
          sorted ((==_iff (length (stamped date_parse records)) (length records)).0 all)
            (newest_first-IsTop (stamped date_parse records)) (ground (arith, e, all))
      | inr some_not ↦
          let leads : first_of records ≡ some r = ground (arith, e, some_not) in
          let (x, read, undated) = some_undated date_parse records (λ q. ground (
            arith,
            some_not,
            (==_iff (length (stamped date_parse records)) (length records)).1 q,
          )) in
          (first_of-IsIn records r leads, leading x read undated leads)
    ]
  where
    first_empty : {l : List (HistoryRecord × ℕ)} → l ≡ [] → first_record l ≡ some r → ⊥
    first_empty {l} empty f = ground (arith, f, ap (λ k. first_record k) empty)

    first_is :
        {l rest : List (HistoryRecord × ℕ)} {d : HistoryRecord × ℕ}
        → l ≡ d ∷ rest
        → first_record l ≡ some r
        → d.0 ≡ r
    first_is {l} {rest} {d} top f = cc

    sorted :
        length (stamped date_parse records) ≡ length records
        → IsTop (newest_first (stamped date_parse records)) (stamped date_parse records)
        → first_record (newest_first (stamped date_parse records)) ≡ some r
        → IsIn r records × IsNewest date_parse records r
    sorted all (inl (empty, none_left)) f = absurd (first_empty empty f)
    sorted all (inr (d, rest, top, m, bounds)) f =
        let is_r : d.0 ≡ r = first_is top f in
        let (read, time) = stamped-IsIn date_parse records d.0 d.1 m in
        (
          subst (λ x. IsIn x records) is_r read,
          latest d.1 (ap (λ x. record_timestamp date_parse x) (sym is_r) ∙ time)
              (All-dated date_parse records d.1 bounds all),
        )
