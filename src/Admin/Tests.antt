-- ===== src/Admin/Tests.antt =====
-- The theorems on src/admin.ts at concrete toggles and credentials.
use vellar_facilitator.Base.{
  ℕ, ◌≡◌, refl, Bool, true, false, none, some, List, [], ◌∷◌, ◌⊎◌, ◌<◌, ◌↔◌, length,
}
use vellar_facilitator.Base.Text.{codes}
use vellar_facilitator.Admin.{
  KillSwitchState, KillSwitch, hydrate, begin_toggle, end_toggle, has_valid_admin_credential,
}
use vellar_facilitator.Admin.Credential.{has_valid_admin_credential_iff}
use vellar_facilitator.Admin.Switch.{
  Event, begins, ends, step, run, hydrate-run_holds, toggle_all, IsSettled, toggle_all-IsSettled,
}

abbrev by_alice : Bool → ℕ → KillSwitchState
by_alice enabled at = record {
  enabled = enabled;
  reason = none;
  actor = some (codes "alice");
  updated_at = at;
}

abbrev booted : KillSwitch
booted = record { state = by_alice false 1; stored = some (by_alice false 1); awaiting = [] }

-- Two toggles whose calls overlap: the pause is written last, and goes on first.
abbrev overlapping : List Event
overlapping = begins (by_alice false 2) true ∷ begins (by_alice true 3) true ∷ ends 0 ∷ ends 0 ∷ []

-- The store holds the pause, and the cache does not.
overlap_splits :
    ((run overlapping booted).state ≡ by_alice false 2)
    × ((run overlapping booted).stored ≡ some (by_alice true 3))
unfolding run step end_toggle begin_toggle
overlap_splits = (refl, refl)

-- Everything that was written is alice's.
abbrev IsByAlice : KillSwitchState → Type 0
IsByAlice s = s.actor ≡ some (codes "alice")

hydrate-run_holds_example :
    IsByAlice (run overlapping (hydrate (some (by_alice true 1)) false (codes "seed") 9)).state
hydrate-run_holds_example =
    hydrate-run_holds IsByAlice (some (by_alice true 1)) false (codes "seed") 9 overlapping refl
      (refl, (refl, tt))

toggle_all-IsSettled_example :
    IsSettled (toggle_all ((by_alice true 2, true) ∷ (by_alice false 3, false) ∷ []) booted)
toggle_all-IsSettled_example =
    toggle_all-IsSettled ((by_alice true 2, true) ∷ (by_alice false 3, false) ∷ []) booted
      (refl, refl)

has_valid_admin_credential_iff_example :
    (has_valid_admin_credential (codes "s3") (some (codes "s3")) none ≡ true) ↔ (
      ((some (codes "s3") ≡ some (codes "s3")) × (0 < length (codes "s3")))
      ⊎ (none ≡ some (codes "s3")))
has_valid_admin_credential_iff_example =
    has_valid_admin_credential_iff (codes "s3") (some (codes "s3")) none
