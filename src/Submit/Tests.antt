-- ===== src/Submit/Tests.antt =====
-- The submission at an RPC that answers TRY_AGAIN_LATER and then takes the transaction.
use vellar_facilitator.Base.{ℕ, zero, suc, none, ◌≡◌, refl}
use vellar_facilitator.Submit.{
  Rpc, SendResult, pending, try_again_later, TxStatus, success, not_found, send_transaction,
  submit_retry_max, submit_loop, check_already_landed,
}
use vellar_facilitator.Submit.Laws.{IsOutcomeOf, send_transaction-IsOutcomeOf}

abbrev busy_once : ℕ → SendResult
busy_once zero = record { status = try_again_later; hash = "h" }
busy_once (suc n) = record { status = pending; hash = "h" }

abbrev busy : ℕ → SendResult
busy n = record { status = try_again_later; hash = "h" }

abbrev lost : ℕ → TxStatus
lost n = not_found

-- The transaction shows up on the ledger at the second look.
abbrev landing : ℕ → TxStatus
landing zero = not_found
landing (suc zero) = not_found
landing (suc (suc n)) = success

abbrev rpc : Rpc
rpc = record { send = busy_once; look = lost }

resent : send_transaction rpc "h" (submit_retry_max none) ≡ (busy_once 1, 2)
unfolding send_transaction submit_retry_max submit_loop check_already_landed
resent = refl

-- Two submissions, and then the look finds it.
landed :
    send_transaction (record { send = busy; look = landing }) "h" (submit_retry_max none)
    ≡ (record { status = pending; hash = "h" }, 2)
unfolding send_transaction submit_retry_max submit_loop check_already_landed
landed = refl

send_transaction_example : let out = send_transaction rpc "h" 2 in IsOutcomeOf rpc "h" 2 out.0 out.1
send_transaction_example = send_transaction-IsOutcomeOf rpc "h" 2
