-- ===== src/Submit.antt =====
-- src/rpcstatus.ts: the wrapped `sendTransaction`, which resubmits after TRY_AGAIN_LATER and looks
-- first whether the transaction has landed. The RPC is a script: what its `i`-th submission
-- answers and what the look before the `i`-th resubmission finds.
pub mod Laws
mod Tests
use vellar_facilitator.Base.{
  ℕ, zero, suc, ◌+◌, ◌-◌, String, Bool, true, false, not, Option, none, some, List, [], ◌∷◌, str_eq,
  if◌then◌else◌, ltb,
}

-- The `status` of a submission's answer; `other` is any other text.
pub data SendStatus : Type 0 where
  pending try_again_later duplicate error : SendStatus
  other : String → SendStatus

-- The outcome of checkAlreadyLanded's getTransaction: a status, or a failure to look at all (a
-- throw, or a transaction with no hash).
pub data TxStatus : Type 0 where
  success failed not_found unrecognised : TxStatus
  unchecked : TxStatus

pub record SendResult : Type 0 where
  pub status : SendStatus
  pub hash : String

pub record Rpc : Type 0 where
  pub send : ℕ → SendResult
  pub look : ℕ → TxStatus

-- SUBMIT_RETRY_MAX as clamped from the environment: `min(2, max(0, n))`, and 2 with no setting.
pub submit_retry_max : Option ℕ → ℕ
submit_retry_max none = 2
submit_retry_max (some n) = if ltb 2 n then 2 else n

-- checkAlreadyLanded: the answer that stands for a transaction that landed.
pub check_already_landed : TxStatus → String → Option SendResult
check_already_landed success hash = some (record { status = pending; hash = hash })
check_already_landed failed hash = some (record { status = pending; hash = hash })
check_already_landed not_found hash = none
check_already_landed unrecognised hash = none
check_already_landed unchecked hash = none

abbrev pub is_try_again : SendStatus → Bool
is_try_again try_again_later = true
is_try_again _ = false

abbrev pub is_duplicate : SendStatus → Bool
is_duplicate duplicate = true
is_duplicate _ = false

-- The retry loop of `patched`, with `left` retries to go after `sent` submissions, the last of which
-- answered `result`. It returns the answer and the number of submissions.
submit_loop : Rpc → String → ℕ → ℕ → SendResult → SendResult × ℕ
submit_loop rpc hash zero sent result = (result, sent)
submit_loop rpc hash (suc left) sent result =
    let again = rpc.send sent in
    let more = submit_loop rpc hash left (suc sent) again in
    let resubmitted = if is_duplicate again.status then (again, suc sent) else more in
    let verified : SendResult × ℕ = elim (check_already_landed (rpc.look sent) hash) [
      | some landed ↦ (landed, sent)
      | none ↦ resubmitted
    ] in
    if is_try_again result.status then verified else (result, sent)

-- `patched`: the first submission and the loop.
pub send_transaction : Rpc → String → ℕ → SendResult × ℕ
send_transaction rpc hash retry_max = submit_loop rpc hash retry_max 1 (rpc.send 0)

-- What is recorded for the request: the status, unless it is PENDING.
pub captured_status : SendResult → Option SendStatus
captured_status r = elim r.status [ pending ↦ none | s ↦ some s ]
