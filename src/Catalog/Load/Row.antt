-- ===== src/Catalog/Load/Row.antt =====
-- src/catalog.ts: one row of the load.
use vellar_facilitator.Base.{
  ◌≡◌, ◌⊎◌, inl, inr, refl, true, false, ◌&&◌, ◌||◌, some, List, [], ◌∷◌, arith, if◌then◌else◌,
}
use vellar_facilitator.Base.Text.{same_text}
use vellar_facilitator.Base.Table.{Text, member, find, is_some, find-put, member-adjoin}
use vellar_facilitator.Catalog.State.{Env}
use vellar_facilitator.Catalog.Load.{
  OwnershipRow, Bindings, row_key, incoming_wins, take_row, latch_row,
}

-- The row is among those read.
pub data IsRow (b : OwnershipRow) : List OwnershipRow → Type 0 where
  here : (rows : List OwnershipRow) → IsRow b (b ∷ rows)
  there : (c : OwnershipRow) (rows : List OwnershipRow) → IsRow b rows → IsRow b (c ∷ rows)

-- A row of a longer list is its first or one of the others.
pub IsRow-cases :
    (b c : OwnershipRow) (rows : List OwnershipRow) → IsRow b (c ∷ rows) → (c ≡ b) ⊎ IsRow b rows
IsRow-cases b c rows (here _) = inl refl
IsRow-cases b c rows (there _ _ m) = inr m

-- The rows as they were read, the latest first.
abbrev pub reversed_onto : List OwnershipRow → List OwnershipRow → List OwnershipRow
reversed_onto [] earlier = earlier
reversed_onto (b ∷ rows) earlier = reversed_onto rows (b ∷ earlier)

-- A key that is bound has the addresses of one of the rows, whole; if the key is latched, that row was
-- verified.
pub record IsWinner (env : Env) (rows : List OwnershipRow) (s : Bindings) (key : Text)
    (bound : List Text) : Type 0 where
  pub row : OwnershipRow
  pub read : IsRow row rows
  pub of_key : row_key env row ≡ key
  pub whole : row.bound_pay_to ≡ bound
  pub proof_wins : member key s.ever_verified ≡ true → row.ever_verified ≡ true

-- The rows are given with the latest first, a latched key is bound, and the key of a verified row is
-- latched.
pub record AreWinners (env : Env) (rows : List OwnershipRow) (s : Bindings) : Type 0 where
  pub winner :
      (key : Text) (bound : List Text)
      → find key s.ownership ≡ some bound
      → IsWinner env rows s key bound
  pub latched_bound :
      (key : Text) → member key s.ever_verified ≡ true → is_some (find key s.ownership) ≡ true
  pub proof_latches :
      (b : OwnershipRow)
      → IsRow b rows
      → b.ever_verified ≡ true
      → member (row_key env b) s.ever_verified ≡ true

-- The row in force for a bound key: one of the key's rows, whole, and a verified one if any row of the
-- key was verified, in which case the key is latched; a latched key has a verified row.
pub record IsInForce (env : Env) (rows : List OwnershipRow) (s : Bindings) (key : Text)
    (bound : List Text) : Type 0 where
  pub row : OwnershipRow
  pub read : IsRow row rows
  pub of_key : row_key env row ≡ key
  pub whole : row.bound_pay_to ≡ bound
  pub proof_wins :
      (b : OwnershipRow)
      → IsRow b rows
      → row_key env b ≡ key
      → b.ever_verified ≡ true
      → (row.ever_verified ≡ true) × (member key s.ever_verified ≡ true)
  pub latch_is_proof : member key s.ever_verified ≡ true → row.ever_verified ≡ true

module _ (env : Env) (b : OwnershipRow) (rows : List OwnershipRow) (s : Bindings)
    (w : AreWinners env rows s) where
  pub latch_row-ownership : (k : Text) (t : Bindings) → (latch_row k b t).ownership ≡ t.ownership
  unfolding latch_row
  latch_row-ownership k t = ground arith

  pub latch_row-member :
      (k j : Text) (t : Bindings)
      → member j (latch_row k b t).ever_verified
        ≡ ((b.ever_verified && same_text k j) || member j t.ever_verified)
  unfolding latch_row
  latch_row-member k j t = ground (arith, member-adjoin j k t.ever_verified)

  pub take_row-find :
      (k j : Text)
      → find j (take_row k b s).ownership
        ≡ (if same_text k j then some b.bound_pay_to else find j s.ownership)
  unfolding take_row
  take_row-find k j = find-put k j b.bound_pay_to s.ownership

  -- A row that wins over a latched key was verified.
  pub wins-verified :
      (k : Text)
      → incoming_wins k b s ≡ true
      → member k s.ever_verified ≡ true
      → b.ever_verified ≡ true
  unfolding incoming_wins
  wins-verified k h m = ground (arith, h, m)

  -- A row that loses to a key that is not latched was not verified.
  pub loses-unverified :
      (k : Text)
      → incoming_wins k b s ≡ false
      → member k s.ever_verified ≡ false
      → b.ever_verified ≡ false
  unfolding incoming_wins
  loses-unverified k h m = ground (arith, h, m)
