-- ===== src/Catalog/Load/Winner.antt =====
-- src/catalog.ts: which of the stored bindings of one resource is in force after the load.
use vellar_facilitator.Base.{
  ◌≡◌, inl, inr, refl, Bool, true, false, not, ◌||◌, some, List, [], ◌∷◌, arith, Bool-cases, ap,
  ◌∙◌, subst, if_cases, sym,
}
use vellar_facilitator.Base.Text.{same_text, same_text_iff, same_text_refl}
use vellar_facilitator.Base.Table.{Text, member, find, is_some}
use vellar_facilitator.Catalog.State.{Env}
use vellar_facilitator.Catalog.Load.{
  OwnershipRow, Bindings, row_key, incoming_wins, take_row, latch_row, merge_row, merge_rows,
  no_bindings,
}
use vellar_facilitator.Catalog.Load.Row.{
  IsRow, IsRow-cases, here, there, reversed_onto, IsWinner, IsInForce, AreWinners,
  latch_row-ownership, latch_row-member, take_row-find, wins-verified, loses-unverified,
}

-- The state after the row took the key, or not.
module _ (env : Env) (b : OwnershipRow) (rows : List OwnershipRow) (s : Bindings)
    (w : AreWinners env rows s) where
  abbrev after : Bindings
  after = merge_row env b s

  -- A row that was read before is read still.
  older :
      (key : Text) (bound : List Text)
      → IsWinner env rows s key bound
      → (member key after.ever_verified ≡ true → member key s.ever_verified ≡ true)
      → IsWinner env (b ∷ rows) after key bound
  older key bound won earlier = record {
    row = won.row;
    read = there b rows won.read;
    of_key = won.of_key;
    whole = won.whole;
    proof_wins = λ m. won.proof_wins (earlier m);
  }

  other-latched :
      (key : Text)
      → same_text (row_key env b) key ≡ false
      → member key after.ever_verified ≡ member key s.ever_verified
  unfolding merge_row take_row
  other-latched key other =
      if_cases
        (λ (t : Bindings).
          member key (latch_row (row_key env b) b t).ever_verified ≡ member key s.ever_verified)
        (not (is_some (find (row_key env b) s.ownership)) || incoming_wins (row_key env b) b s)
        (λ h. ground (
          arith,
          other,
          latch_row-member env b rows s w (row_key env b) key (take_row (row_key env b) b s),
        ))
        (λ h. ground (arith, other, latch_row-member env b rows s w (row_key env b) key s))

  other-owner :
      (key : Text)
      → same_text (row_key env b) key ≡ false
      → find key after.ownership ≡ find key s.ownership
  unfolding merge_row
  other-owner key other =
      if_cases
        (λ (t : Bindings).
          find key (latch_row (row_key env b) b t).ownership ≡ find key s.ownership)
        (not (is_some (find (row_key env b) s.ownership)) || incoming_wins (row_key env b) b s)
        (λ h. ground (
          arith,
          other,
          take_row-find env b rows s w (row_key env b) key,
          ap (λ o. find key o)
              (latch_row-ownership env b rows s w (row_key env b) (take_row (row_key env b) b s)),
        ))
        (λ h. ap (λ o. find key o) (latch_row-ownership env b rows s w (row_key env b) s))

  abbrev own : Text
  own = row_key env b

  abbrev takes : Bool
  takes = not (is_some (find own s.ownership)) || incoming_wins own b s

  merge_row-takes : takes ≡ true → after ≡ latch_row own b (take_row own b s)
  unfolding merge_row
  merge_row-takes h = rw h refl

  merge_row-leaves : takes ≡ false → after ≡ latch_row own b s
  unfolding merge_row
  merge_row-leaves h = rw h refl

  takes-owner : takes ≡ true → find own after.ownership ≡ some b.bound_pay_to
  takes-owner h =
      ap (λ t. find own t.ownership) (merge_row-takes h)
      ∙ ap (λ o. find own o) (latch_row-ownership env b rows s w own (take_row own b s))
      ∙ ground (arith, take_row-find env b rows s w own own, same_text_refl own)

  leaves-owner : takes ≡ false → find own after.ownership ≡ find own s.ownership
  leaves-owner h =
      ap (λ t. find own t.ownership) (merge_row-leaves h)
      ∙ ap (λ o. find own o) (latch_row-ownership env b rows s w own s)

  own-latched : member own after.ever_verified ≡ (b.ever_verified || member own s.ever_verified)
  unfolding take_row
  own-latched = elim (Bool-cases takes) [
    | inl h ↦
        ap (λ t. member own t.ever_verified) (merge_row-takes h)
        ∙ ground
            (arith, latch_row-member env b rows s w own own (take_row own b s), same_text_refl own)
    | inr h ↦
        ap (λ t. member own t.ever_verified) (merge_row-leaves h)
        ∙ ground (arith, latch_row-member env b rows s w own own s, same_text_refl own)
  ]

  takes-verified : takes ≡ true → member own after.ever_verified ≡ true → b.ever_verified ≡ true
  takes-verified h m = elim (Bool-cases (member own s.ever_verified)) [
    | inl before ↦
        wins-verified env b rows s w own (ground (arith, h, w.latched_bound own before)) before
    | inr fresh ↦ ground (arith, fresh, m, own-latched)
  ]

  leaves-earlier :
      takes ≡ false → member own after.ever_verified ≡ true → member own s.ever_verified ≡ true
  leaves-earlier h m = elim (Bool-cases (member own s.ever_verified)) [
    | inl before ↦ before
    | inr fresh ↦ ground (
      arith,
      m,
      own-latched,
      fresh,
      loses-unverified env b rows s w own (ground (arith, h)) fresh,
    )
  ]

  own-IsWinner :
      (bound : List Text)
      → find own after.ownership ≡ some bound
      → IsWinner env (b ∷ rows) after own bound
  own-IsWinner bound f = elim (Bool-cases takes) [
    | inl h ↦ record {
      row = b;
      read = here rows;
      of_key = refl;
      whole = ground (arith, f, takes-owner h);
      proof_wins = takes-verified h;
    }
    | inr h ↦
        older own bound (w.winner own bound (ground (arith, f, leaves-owner h))) (leaves-earlier h)
  ]

  own-bound : is_some (find own after.ownership) ≡ true
  own-bound = elim (Bool-cases takes) [
    | inl h ↦ ground (arith, takes-owner h)
    | inr h ↦ ground (arith, h, leaves-owner h)
  ]

  stays-latched :
      (key : Text) → member key s.ever_verified ≡ true → member key after.ever_verified ≡ true
  stays-latched key m = elim (Bool-cases (same_text own key)) [
    | inl same ↦ ground (arith, own-latched, m, (same_text_iff own key).0 same)
    | inr other ↦ ground (arith, m, other-latched key other)
  ]

  row-latched :
      (c : OwnershipRow)
      → IsRow c (b ∷ rows)
      → c.ever_verified ≡ true
      → member (row_key env c) after.ever_verified ≡ true
  row-latched c read verified = elim (IsRow-cases c b rows read) [
    | inl same ↦
        ap (λ k. member k after.ever_verified) (sym (ap (λ x. row_key env x) same))
        ∙ ground (arith, own-latched, verified, ap (λ x. x.ever_verified) same)
    | inr before ↦ stays-latched (row_key env c) (w.proof_latches c before verified)
  ]

  merge_row-AreWinners : AreWinners env (b ∷ rows) after
  merge_row-AreWinners = record {
    winner = λ key bound f. elim (Bool-cases (same_text own key)) [
      | inl same ↦
          subst (λ k. IsWinner env (b ∷ rows) after k bound) ((same_text_iff own key).0 same)
            (own-IsWinner bound (ground (arith, f, (same_text_iff own key).0 same)))
      | inr other ↦
          older key bound (w.winner key bound (ground (arith, f, other-owner key other)))
            (λ m. ground (arith, m, other-latched key other))
    ];
    latched_bound = λ key m. elim (Bool-cases (same_text own key)) [
      | inl same ↦ ground (arith, own-bound, (same_text_iff own key).0 same)
      | inr other ↦ ground (
        arith,
        other-owner key other,
        w.latched_bound key (ground (arith, m, other-latched key other)),
      )
    ];
    proof_latches = row-latched;
  }

merge_rows-AreWinners :
    (env : Env) (rows earlier : List OwnershipRow) (s : Bindings)
    → AreWinners env earlier s
    → AreWinners env (reversed_onto rows earlier) (merge_rows env rows s)
unfolding merge_rows
merge_rows-AreWinners env [] earlier s w = w
merge_rows-AreWinners env (b ∷ rows) earlier s w =
    merge_rows-AreWinners env rows (b ∷ earlier) (merge_row env b s)
      (merge_row-AreWinners env b earlier s w)

-- After the load of any rows, in whatever order, each bound key has the addresses of one row of that
-- key, whole and not joined with another's. If any row of the key was verified, that row is a verified
-- one and the key is latched, so that an unverified row never displaces a proven one; and where the
-- key is latched, that row was verified.
pub loaded-IsInForce :
    (env : Env) (rows : List OwnershipRow) (key : Text) (bound : List Text)
    → find key (merge_rows env rows no_bindings).ownership ≡ some bound
    → IsInForce env (reversed_onto rows []) (merge_rows env rows no_bindings) key bound
loaded-IsInForce env rows key bound f =
    let all = merge_rows-AreWinners env rows [] no_bindings (record {
      winner = λ k b e. cc;
      latched_bound = λ k m. cc;
      proof_latches = λ b read verified. absurd (no_row b read);
    }) in
    let won = all.winner key bound f in
    let latched : (b : OwnershipRow)
        → IsRow b (reversed_onto rows [])
        → row_key env b ≡ key
        → b.ever_verified ≡ true
        → member key (merge_rows env rows no_bindings).ever_verified ≡ true =
      λ b read of_key verified.
        ap (λ k. member k (merge_rows env rows no_bindings).ever_verified) (sym of_key)
        ∙ all.proof_latches b read verified in
    record {
      row = won.row;
      read = won.read;
      of_key = won.of_key;
      whole = won.whole;
      proof_wins = λ b read of_key verified.
          (won.proof_wins (latched b read of_key verified), latched b read of_key verified);
      latch_is_proof = won.proof_wins;
    }
  where
    no_row : (b : OwnershipRow) → IsRow b [] → ⊥
    no_row b read = elim read [ ]
