-- ===== src/Retry.antt =====
-- src/retry.ts: the one verify/settle rejection that is worth a retry. An operation is a script of
-- the results that its successive calls would give; the number of calls made is returned too.
pub mod Laws
mod Tests
use vellar_facilitator.Base.{
  ℕ, zero, suc, ◌+◌, String, Bool, true, false, Option, none, some, List, [], ◌∷◌, str_eq,
  if◌then◌else◌,
}

abbrev pub ledger_skew_reason : String
ledger_skew_reason = "invalid_exact_stellar_signature_expiration_too_far"

-- SKEW_RETRY_MAX as clamped from the environment: `min(1, max(0, n))`, and 1 with no setting.
pub skew_retry_max : Option ℕ → ℕ
skew_retry_max none = 1
skew_retry_max (some zero) = 0
skew_retry_max (some (suc n)) = 1

abbrev pub is_skew : Option String → Bool
is_skew none = false
is_skew (some reason) = str_eq reason ledger_skew_reason

module _ {ℓ} {T : Type ℓ} (op : ℕ → T) (reason_of : T → Option String) where
  -- The loop, with `left` retries to go and `calls` calls made, the last of which gave `result`.
  unfoldable pub retry_loop : ℕ → ℕ → T → T × ℕ
  retry_loop zero calls result = (result, calls)
  retry_loop (suc left) calls result =
      let next = retry_loop left (suc calls) (op calls) in
      if is_skew (reason_of result) then next else (result, calls)

  unfoldable pub with_skew_retry : ℕ → T × ℕ
  with_skew_retry retry_max = retry_loop retry_max 1 (op 0)
