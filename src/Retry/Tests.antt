-- ===== src/Retry/Tests.antt =====
-- The retry at an operation that is turned down once.
use vellar_facilitator.Base.{ℕ, zero, suc, String, Option, none, some, ◌≡◌, refl}
use vellar_facilitator.Retry.{retry_loop, with_skew_retry, skew_retry_max, ledger_skew_reason}

abbrev answers : ℕ → Option String
answers zero = some ledger_skew_reason
answers (suc n) = none

abbrev reason_of : Option String → Option String
reason_of r = r

retried : with_skew_retry answers reason_of (skew_retry_max none) ≡ (none, 2)
unfolding with_skew_retry skew_retry_max retry_loop
retried = refl
