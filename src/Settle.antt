-- ===== src/Settle.antt =====
-- src/server.ts: POST /settle, with the capture of src/facilitator.ts. One request from its guards to
-- its response, with the shared state that it changes: the pool of src/channelPool.ts and the policy of
-- src/policy.ts. What x402's settle() does and answers, and how the bond registration ends, are values.
-- Headers, log lines, metrics and the background reconciliation have no part here.
pub mod Money
pub mod Slots
pub mod Success
pub mod Duplicates
pub mod Retries
mod Tests
use vellar_facilitator.Base.{
  ℕ, zero, suc, ◌+◌, ◌*◌, String, Bool, true, false, not, ◌&&◌, ◌||◌, Option, none, some, List, [],
  ◌∷◌, ltb, ◌==◌, str_eq, if◌then◌else◌,
}
use vellar_facilitator.Base.Dict
use vellar_facilitator.Pool.{ChannelPool, acquire, release}
use vellar_facilitator.Policy.{
  SpendPolicy, SettleIdentity, SettleVerdict, SettleRejectReason, Status, opened, check_settle,
}
use vellar_facilitator.Policy.Adjust.{refund_unspent, adjust_reservation}
use vellar_facilitator.Retry.{is_skew}

-- What settle() answers. An empty `transaction` is one that was never submitted.
pub record Result : Type 0 where
  pub success : Bool
  pub transaction : String
  pub error_reason : Option String
  pub payer : Option String
  pub has_rpc_status : Bool
  pub submitted_fee : Option ℕ

-- One call of settle(): whether it came to selectSigner, and its result, or `none` if it threw.
pub record Attempt : Type 0 where
  pub selects_signer : Bool
  pub result : Option Result

-- What the capture of one call yields.
pub record Captured : Type 0 where
  pub acquired_address : Option String
  pub pool_exhausted : Bool
  pub result : Option Result

-- How the registration of the bond ends.
pub data Registration : Type 0 where
  registered : Registration
  rejected : Option ℕ → Registration
  infrastructure_error : Registration
  threw : Registration

pub data Reason : Type 0 where
  invalid_body invalid_payload service_paused sponsor_balance_low pool_exhausted : Reason
  spend_policy : Option SettleRejectReason → Reason
  bond_registration_unavailable bond_registration_rejected : Reason

-- A response; `raised` is the exception that the handler passes on.
pub data Response : Type 0 where
  refused : ℕ → Reason → Response
  answered : Result → Response
  raised : Response

-- A request; its `seller` is what canonicalPayTo makes of its payTo.
pub record Request : Type 0 where
  pub has_body : Bool
  pub is_parseable : Bool
  pub identity : SettleIdentity
  pub seller : Option String

-- The rest of the deployment: a kill switch or a balance guard that is absent is `false` and `true`.
pub record Deployment : Type 0 where
  pub is_paused : Bool
  pub settle_allowed : Bool
  pub has_bond_escrow : Bool
  pub registration : Registration

-- The state that requests share; without a policy nothing is limited.
pub record Shared : Type 0 where
  pub pool : ChannelPool
  pub policy : Option SpendPolicy

-- selectSigner. If settle() throws, the capture is lost with it, an address that was acquired included.
abbrev pub signed :
    Option Result → ChannelPool → Option (String × ChannelPool) → ChannelPool × Captured
signed result p none =
    (p, record { acquired_address = none; pool_exhausted = true; result = result })
signed none p (some (address, q)) =
    (q, record { acquired_address = none; pool_exhausted = false; result = none })
signed (some r) p (some (address, q)) =
    (q, record { acquired_address = some address; pool_exhausted = false; result = some r })

-- withChannelAcquisitionCapture around one call of settle().
unfoldable pub capture : Attempt → ChannelPool → ChannelPool × Captured
capture a p =
    if a.selects_signer
    then signed a.result p (acquire p)
    else (p, record { acquired_address = none; pool_exhausted = false; result = a.result })

-- Whether withSkewRetry calls once more; an exception is passed on.
abbrev pub wants_retry : Option Result → Bool
wants_retry none = false
wants_retry (some r) = is_skew r.error_reason

-- withSkewRetry, over the calls that there would be; with `left` retries to go.
unfoldable pub attempt_settle : ℕ → (ℕ → Attempt) → ChannelPool → ChannelPool × Captured
attempt_settle zero script p = capture (script 0) p
attempt_settle (suc left) script p =
    let (q, c) = capture (script 0) p in
    let again = attempt_settle left (λ n. script (suc n)) q in
    if wants_retry c.result then again else (q, c)

-- The `finally` that gives the address back.
abbrev pub give_back : Option String → ChannelPool → ChannelPool
give_back none p = p
give_back (some address) p = release address p

abbrev pub on_policy : (SpendPolicy → SpendPolicy) → Option SpendPolicy → Option SpendPolicy
on_policy f none = none
on_policy f (some p) = some (f p)

abbrev pub is_unsubmitted : Result → Bool
is_unsubmitted r = not r.success && str_eq r.transaction ""

abbrev pub correct : Option ℕ → Bool → Option ℕ → SpendPolicy → SpendPolicy
correct reservation true (some fee) p = (adjust_reservation reservation fee opened p).1
correct reservation true none p = p
correct reservation false fee p = p

-- What the policy learns of a result: a refund if nothing was submitted, and the fee of what was.
unfoldable pub account : Option ℕ → Result → SpendPolicy → SpendPolicy
account reservation r p =
    correct reservation (not (str_eq r.transaction "")) r.submitted_fee
      (if is_unsubmitted r then refund_unspent reservation p else p)

abbrev pub is_already_registered : Option ℕ → Bool
is_already_registered none = false
is_already_registered (some code) = code == 3

abbrev pub answer_registration : Result → Registration → Response
answer_registration r registered = answered r
answer_registration r (rejected code) =
    if is_already_registered code then answered r else refused 500 bond_registration_rejected
answer_registration r infrastructure_error = refused 503 bond_registration_unavailable
answer_registration r threw = refused 503 bond_registration_unavailable

-- The registration, which wants a seller and a payer.
unfoldable pub register_bond : Option String → Option String → Result → Registration → Response
register_bond none payer r reg = refused 503 bond_registration_unavailable
register_bond (some seller) none r reg = refused 503 bond_registration_unavailable
register_bond (some seller) (some payer) r reg =
    if str_eq payer "" then refused 503 bond_registration_unavailable else answer_registration r reg

unfoldable pub respond : Deployment → Request → Result → Response
respond d req r =
    if not r.success && r.has_rpc_status
    then answered r
    else if d.has_bond_escrow && r.success
    then register_bond req.seller r.payer r d.registration
    else answered r

-- After the calls of settle(): an exception, an exhausted pool, a result.
abbrev pub conclude :
    Deployment → Request → Option ℕ → Bool → Shared → Option Result → Shared × Response
conclude d req reservation exhausted s none =
    (record s { policy = on_policy (refund_unspent reservation) s.policy }, raised)
conclude d req reservation exhausted s (some r) =
    if exhausted
    then (s, refused 503 pool_exhausted)
    else (record s { policy = on_policy (account reservation r) s.policy }, respond d req r)

-- The calls of settle() and what follows.
unfoldable pub perform :
    Deployment → ℕ → (ℕ → Attempt) → Request → Option ℕ → Shared → Shared × Response
perform d retry_max script req reservation s =
    let (p, c) = attempt_settle retry_max script s.pool in
    conclude d req reservation c.pool_exhausted (record s { pool = give_back c.acquired_address p })
      c.result

abbrev pub consult :
    Deployment → ℕ → (ℕ → Attempt) → Request → ℕ → Shared → Option SpendPolicy → Shared × Response
consult d retry_max script req now s none = perform d retry_max script req none s
consult d retry_max script req now s (some policy) =
    let checked = check_settle req.identity now policy in
    let booked : Shared = record s { policy = some checked.1 } in
    let performed = perform d retry_max script req checked.0.reservation booked in
    if checked.0.allowed then performed else (booked, refused 503 (spend_policy checked.0.reason))

-- runSettlePipelineInner.
unfoldable pub run_settle_pipeline :
    Deployment → ℕ → (ℕ → Attempt) → Request → ℕ → Shared → Shared × Response
run_settle_pipeline d retry_max script req now s =
    if not req.has_body
    then (s, refused 400 invalid_body)
    else if not req.is_parseable
    then (s, refused 400 invalid_payload)
    else if d.is_paused
    then (s, refused 503 service_paused)
    else if not d.settle_allowed
    then (s, refused 503 sponsor_balance_low)
    else consult d retry_max script req now s s.policy

-- SETTLE_DEDUP_TTL_MS.
abbrev pub settle_dedup_ttl_ms : ℕ
settle_dedup_ttl_ms = 10 * 60 * 1000

-- settleDedup: when the result kept for a transaction expires.
abbrev pub DedupTable : Type 0
DedupTable = List (String × ℕ)

abbrev pub is_held : ℕ → Option ℕ → Bool
is_held now none = false
is_held now (some expires_at) = ltb now expires_at

-- The handler's choice: whether it runs the pipeline, or waits for the result that is kept. A payload
-- with no hash (`none`) always runs it.
unfoldable pub admit_settle : ℕ → Option String → DedupTable → DedupTable × Bool
admit_settle now none table = (table, true)
admit_settle now (some hash) table =
    if is_held now (Dict.lookup hash table)
    then (table, false)
    else (Dict.insert hash (now + settle_dedup_ttl_ms) table, true)
