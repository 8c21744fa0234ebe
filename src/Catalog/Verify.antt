-- ===== src/Catalog/Verify.antt =====
-- src/catalog.ts: reverify and reverifyLatchedAtBoot, each split at the probe that it awaits. A
-- probe's outcome is `none` where it throws.
use vellar_facilitator.Base.{
  ℕ, ◌+◌, Bool, true, false, not, ◌&&◌, ◌||◌, Option, none, some, List, [], ◌∷◌, ltb, length,
  if◌then◌else◌, ◌==◌,
}
use vellar_facilitator.Base.Table.{Text, member, adjoin, discard, find, put}
use vellar_facilitator.Ownership.{OwnershipVerdict, matched, mismatch, unverifiable, timeout}
use vellar_facilitator.Catalog.State.{
  Env, StoredEntry, Catalog, cooldown_for, is_templated_key, key_of, entry_at, set_verified_owner,
}
use vellar_facilitator.Catalog.Settlement.{is_bound_owner}

-- `now - last.at < cooldownFor(last.verdict)`.
unfoldable pub cooling_down : ℕ → Option (OwnershipVerdict × ℕ) → Bool
cooling_down now none = false
cooling_down now (some (verdict, at)) = ltb now (at + cooldown_for verdict)

unfoldable pub may_reverify : Env → ℕ → Text → Text → StoredEntry → Catalog → Bool
may_reverify env now key settling_pay_to entry c =
    not entry.verified_owner
    && not (length entry.bound_pay_to == 0)
    && is_bound_owner entry settling_pay_to
    && not (is_templated_key env key)
    && not (member key c.verify_in_flight)
    && not (cooling_down now (find key c.verify_state))

-- A probe that is to be made: the key, and the addresses that it asks for.
pub record Probe : Type 0 where
  pub key : Text
  pub pay_tos : List Text

unfoldable pub start_probe : Text → StoredEntry → Catalog → Catalog × Option Probe
start_probe key entry c = (
  record c { verify_in_flight = adjoin key c.verify_in_flight },
  some (record { key = key; pay_tos = entry.bound_pay_to }),
)

unfoldable pub reverify_found :
    Env → ℕ → Text → Option Text → Option StoredEntry → Catalog → Catalog × Option Probe
reverify_found env now settling_pay_to none found c = (c, none)
reverify_found env now settling_pay_to (some key) none c = (c, none)
reverify_found env now settling_pay_to (some key) (some entry) c =
    if may_reverify env now key settling_pay_to entry c then start_probe key entry c else (c, none)

-- `none` is "skipped".
unfoldable pub begin_reverify : Env → ℕ → Text → Text → Catalog → Catalog × Option Probe
begin_reverify env now raw_url settling_pay_to c =
    let key = key_of env raw_url none in
    reverify_found env now settling_pay_to key (entry_at c key) c

unfoldable pub note_verdict : Text → OwnershipVerdict → ℕ → Catalog → Catalog
note_verdict key verdict now c = record c { verify_state = put key (verdict, now) c.verify_state }

-- latchVerified; the write to the store changes nothing here.
unfoldable pub latch_verified : Text → Catalog → Catalog
latch_verified key c = record c { ever_verified = adjoin key c.ever_verified }

unfoldable pub land : Text → Catalog → Catalog
land key c = record c { verify_in_flight = discard key c.verify_in_flight }

unfoldable pub settle_verdict : Env → Text → OwnershipVerdict → Catalog → Catalog
settle_verdict env key matched c = latch_verified key (set_verified_owner env key true c)
settle_verdict env key mismatch c = c
settle_verdict env key unverifiable c = c
settle_verdict env key timeout c = c

unfoldable pub verdict_or_unverifiable : Option OwnershipVerdict → OwnershipVerdict
verdict_or_unverifiable none = unverifiable
verdict_or_unverifiable (some verdict) = verdict

-- From the probe's outcome on; `now` is the time at which the method was called.
unfoldable pub end_reverify : Env → ℕ → Text → Option OwnershipVerdict → Catalog → Catalog
end_reverify env now key outcome c =
    let verdict = verdict_or_unverifiable outcome in
    land key (settle_verdict env key verdict (note_verdict key verdict now c))

-- reverifyLatchedAtBoot: its candidates, and its work on one of them.
unfoldable pub boot_candidates : Env → Catalog → List (Text × StoredEntry) → List Text
boot_candidates env c [] = []
boot_candidates env c ((key, entry) ∷ entries) =
    let rest = boot_candidates env c entries in
    if member key c.ever_verified
      && not entry.verified_owner
      && not (length entry.bound_pay_to == 0)
      && not (is_templated_key env key)
      && not (member key c.verify_in_flight)
    then key ∷ rest
    else rest

unfoldable pub boot_probe_of : Text → Option StoredEntry → Catalog → Catalog × Option Probe
boot_probe_of key none c = (c, none)
boot_probe_of key (some entry) c =
    if entry.verified_owner || member key c.verify_in_flight
    then (c, none)
    else start_probe key entry c

unfoldable pub begin_boot_probe : Text → Catalog → Catalog × Option Probe
begin_boot_probe key c = boot_probe_of key (find key c.entries) c

unfoldable pub boot_verdict : Env → Text → OwnershipVerdict → Catalog → Catalog
boot_verdict env key matched c = set_verified_owner env key true c
boot_verdict env key mismatch c = c
boot_verdict env key unverifiable c = c
boot_verdict env key timeout c = c

-- A probe that throws leaves no verdict.
unfoldable pub end_boot_probe : Env → ℕ → Text → Option OwnershipVerdict → Catalog → Catalog
end_boot_probe env now key none c = land key c
end_boot_probe env now key (some verdict) c =
    land key (boot_verdict env key verdict (note_verdict key verdict now c))
