-- ===== src/Admin/Switch.antt =====
-- src/admin.ts: the kill switch over interleavings of toggles. An event is what a call of toggle does up
-- to its wait for the store, or after it.
use vellar_facilitator.Base.{
  ℕ, zero, suc, get_elem?, ◌≡◌, refl, sym, subst, Bool, true, false, Option, none, some, List, [],
  ◌∷◌, All,
}
use vellar_facilitator.Base.Table.{Text}
use vellar_facilitator.Admin.{
  KillSwitchState, KillSwitch, existing_or, seed, hydrate, begin_toggle, drop_at, cache_at,
  end_toggle,
}

pub data Event : Type 0 where
  begins : KillSwitchState → Bool → Event
  ends : ℕ → Event

unfoldable pub step : Event → KillSwitch → KillSwitch
step (begins next written) k = begin_toggle next written k
step (ends i) k = end_toggle i k

unfoldable pub run : List Event → KillSwitch → KillSwitch
run [] k = k
run (e ∷ es) k = run es (step e k)

module _ {κ} (P : KillSwitchState → Type κ) where
  -- The states that the store has taken.
  abbrev pub AllWritten : List Event → Type κ
  AllWritten [] = Unit
  AllWritten (begins next true ∷ es) = P next × AllWritten es
  AllWritten (begins next false ∷ es) = AllWritten es
  AllWritten (ends i ∷ es) = AllWritten es

  drop_at-All : (i : ℕ) (xs : List KillSwitchState) → All P xs → All P (drop_at i xs)
  drop_at-All i [] h = tt
  drop_at-All zero (x ∷ xs) h = h.1
  drop_at-All (suc i) (x ∷ xs) h = (h.0, drop_at-All i xs h.1)

  get_elem?-All :
      (i : ℕ) (xs : List KillSwitchState) (x : KillSwitchState)
      → All P xs
      → get_elem? xs i ≡ some x
      → P x
  get_elem?-All i [] x h e = cc
  get_elem?-All zero (y ∷ xs) x h e = subst P (some_eq e) h.0
    where
      some_eq : some y ≡ some x → y ≡ x
      some_eq q = cc
  get_elem?-All (suc i) (y ∷ xs) x h e = get_elem?-All i xs x h.1 e

  cache_at-holds :
      (i : ℕ) (m : Option KillSwitchState) (k : KillSwitch)
      → get_elem? k.awaiting i ≡ m
      → P k.state
      → All P k.awaiting
      → P (cache_at i m k).state × All P (cache_at i m k).awaiting
  cache_at-holds i none k e held waiting = (held, waiting)
  cache_at-holds i (some next) k e held waiting =
      (get_elem?-All i k.awaiting next waiting e, drop_at-All i k.awaiting waiting)

  run-holds :
      (es : List Event) (k : KillSwitch)
      → P k.state
      → All P k.awaiting
      → AllWritten es
      → P (run es k).state
  unfolding run step begin_toggle end_toggle
  run-holds [] k held waiting written = held
  run-holds (begins next true ∷ es) k held waiting written =
      run-holds es (step (begins next true) k) held (written.0, waiting) written.1
  run-holds (begins next false ∷ es) k held waiting written =
      run-holds es (step (begins next false) k) held waiting written
  run-holds (ends i ∷ es) k held waiting written =
      let after = cache_at-holds i (get_elem? k.awaiting i) k refl held waiting in
      run-holds es (step (ends i) k) after.0 after.1 written

  -- Over any interleaving of toggles, some of whose writes fail, the state that get() reads is the stored
  -- one at boot, or the seed if there was none, or one that the store has taken since: what holds of all
  -- of these holds of it.
  pub hydrate-run_holds :
      (stored : Option KillSwitchState) (default_enabled : Bool) (note : Text) (now : ℕ)
      (es : List Event)
      → P (existing_or stored (seed default_enabled note now))
      → AllWritten es
      → P (run es (hydrate stored default_enabled note now)).state
  unfolding hydrate
  hydrate-run_holds stored default_enabled note now es held written =
      run-holds es (hydrate stored default_enabled note now) held tt written

-- Toggles one after the other: each ends before the next begins.
unfoldable pub toggle_all : List (KillSwitchState × Bool) → KillSwitch → KillSwitch
toggle_all [] k = k
toggle_all ((next, written) ∷ calls) k =
    toggle_all calls (end_toggle 0 (begin_toggle next written k))

-- The cache is the row of the store, and no call waits.
abbrev pub IsSettled : KillSwitch → Type 0
IsSettled k = (k.stored ≡ some k.state) × (k.awaiting ≡ [])

toggle-IsSettled :
    (next : KillSwitchState) (written : Bool) (k : KillSwitch)
    → IsSettled k
    → IsSettled (end_toggle 0 (begin_toggle next written k))
unfolding end_toggle begin_toggle
toggle-IsSettled next true k h = (refl, h.1)
toggle-IsSettled next false k h =
    subst (λ xs. IsSettled (cache_at 0 (get_elem? xs 0) k)) (sym h.1) h

-- Toggles that do not overlap leave the cache equal to the stored row, also where writes fail, if it was
-- equal before.
pub toggle_all-IsSettled :
    (calls : List (KillSwitchState × Bool)) (k : KillSwitch)
    → IsSettled k
    → IsSettled (toggle_all calls k)
unfolding toggle_all
toggle_all-IsSettled [] k h = h
toggle_all-IsSettled ((next, written) ∷ calls) k h =
    toggle_all-IsSettled calls (end_toggle 0 (begin_toggle next written k))
      (toggle-IsSettled next written k h)
