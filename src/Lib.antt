-- ===== src/Lib.antt =====
-- A model of the Vellar x402 facilitator, the service that settles Stellar payments for HTTP and MCP
-- resources and keeps a catalog of the resources that were paid for.
--
-- The parts, and how they interact. A /settle request is admitted by the spend policy, borrows a channel
-- account from the pool, is submitted through two retry wrappers, and on success reaches the catalog,
-- which binds the resource to the address paid and has the binding verified against the resource's own
-- 402 challenge. The probe of that verification may only connect to public addresses. A monitor
-- withdraws underfunded accounts from the pool. What the catalog serves is annotated with trust verdicts
-- and with payability, and any text of a seller that reaches an agent is fenced.
--
--   Settle      src/server.ts, POST /settle: run_settle_pipeline is runSettlePipelineInner, attempt_settle
--               the calls of settle() within withSkewRetry and withChannelAcquisitionCapture
--               (src/facilitator.ts, capture), conclude what follows them, register_bond the registration
--               of the bond, and admit_settle the guard against duplicates.
--   Bond        src/bond.ts: register_settlement is registerSettlement, parse_contract_error
--               parseContractError; Bond/Standing joins it to Settle.
--   Balance     src/balance.ts, the class BalanceGuard.
--   Admin       src/admin.ts, the class KillSwitch (hydrate, and toggle before and after its wait),
--               timingSafeEqual and hasValidAdminCredential.
--   Discovery   src/server.ts, GET /discovery/resources and GET /discovery/search: list_route and
--               search_route join Catalog/Browse, Trust/Annotate and Payability/Page.
--   Pool        src/channelPool.ts, the class ChannelPool: Pool.create is the constructor, acquire,
--               release, disable, enable and Pool.status are its methods. A JavaScript Set is a list in
--               insertion order (Base/KeySet).
--   Monitor     src/channelMonitor.ts, ChannelMonitor: check_one with the outcome of the balance query,
--               check_all, start and stop.
--   Policy      src/policy.ts, SpendPolicy and createSpendPolicy: evaluate, reserve, check_settle,
--               refund_unspent (Policy/Refund), adjust_reservation (Policy/Adjust), evict_elapsed, boot.
--               Calls of the store are recorded in the state.
--   Retry       src/retry.ts, withSkewRetry.
--   Submit      src/rpcstatus.ts, the wrapper of sendTransaction with checkAlreadyLanded.
--   Address     src/ownership.ts, isBlockedAddress: the IPv4 and IPv6 range checks and parseIpv6ToBytes.
--   Ownership   src/ownership.ts, verifyResourceOwnership, probeOnce and assertPublicHttpsUrl;
--               Ownership/Routable has assertRoutableResourceUrl.
--   Catalog     src/catalog.ts, BazaarCatalog. Catalog/Key: canonicalResourceKey, canonicalPayTo and
--               splitResourceKey; Catalog/Key/Path: normalizePath; Catalog/Sanitize: the sanitisers of
--               free text; Catalog/State: the fields of the class; Catalog/Settlement: recordSettlement;
--               Catalog/Upsert: upsertFromPayment with bindOwnership and evictToCap; Catalog/Verify:
--               reverify and reverifyLatchedAtBoot; Catalog/Displace: tryDisplace; Catalog/Rotation:
--               authorizeRotation; Catalog/Load: the merge of stored bindings in create, and
--               bindLoadedEntry. Catalog/Events has the histories: an event is what the code does
--               between two waits, so that a list of events is an interleaving, and what an event
--               carries over a wait (an entry captured, a binding to be written, a verdict) may be
--               anything.
--               Catalog/Browse has list and search with the fusion of its two rankings; Catalog/Hook the
--               onAfterSettle hook of src/bazaar.ts, which calls the catalog's operations in turn.
--   Trust       src/trust.ts: assetStatus is known_verdict, verdict_of_body and settle_verdict,
--               readBoundedText is read_bounded; Trust/Annotate has annotateTrust, filterVerifiedOnly and
--               rerankVerifiedFirst.
--   Payability  src/payability.ts: resolve with the two Horizon requests, the class ConcurrencyLimiter
--               (Payability/Limiter: call, finish and the continuation of a waiter are events), the
--               resolver (Payability/Resolver: check, the answer of a lookup, its failure), and the page
--               (Payability/Page): annotatePayability and filterPayableOnly.
--   Fence       src/fence.ts: sanitizeUntrusted and fenceUntrusted, with FENCE_SHAPED as a matcher.
--   Upto        src/upto.ts, UptoStellarScheme: parse_and_validate, actual_for, build_and_simulate, verify
--               and settle.
--
-- State and objects. A class is a record of its fields and a method a function to the next state. A
-- catalog entry carries the identity of its JavaScript object, since tryDisplace writes to an object
-- that it captured before a wait. The wait for the write of the latch at the end of reverify, whose
-- outcome nothing depends on, is no stop of its own.
--
-- Numbers. Times, counters and the policy's amounts are natural numbers: that code has no negative ones,
-- and its counters stay below 2^53. The amounts of src/upto.ts, which the client names, are integers.
-- A comparison with a time in the past is written as a sum. Code that compares ISO texts of times
-- compares the times.
--
-- Termination. Every loop is structural: the retries run over the list of delays or over the number of
-- retries left, or the 20 looks at a submitted transaction (Upto, Bond), and need no fuel. Only the
-- replacement of fence markers (Fence, scrub_from) runs on fuel, the length of the text: each match takes
-- at least one character.
--
-- Outside. Parameters of the model: new URL(), isIP, the DNS lookup, the fetch and the decoding of a
-- challenge, the removal of control and format characters, toLowerCase, JSON.parse with the zod schemas,
-- the key checks of the Stellar SDK, the answers of the RPC server and of Horizon, the balances, what
-- x402's settle() does and answers, whether a write to the store succeeded, and the similarities and
-- scores of the vector ranking, floating-point numbers of which only the order counts.
--
-- Not modelled: the load of the catalog's entries and the making of vectors; the rotation
-- extension and the audit log in the hook of src/bazaar.ts; the audit log and the alert lines of
-- src/admin.ts; the SQL of src/store.ts; the routes of src/server.ts other than /settle and the
-- discovery ones; the configuration, metrics, the MCP endpoint and the maintenance scripts, which are
-- input and output; the Soroban contracts under contracts/.
pub mod Base
pub mod Pool
pub mod Monitor
pub mod Policy
pub mod Retry
pub mod Submit
pub mod Address
pub mod Ownership
pub mod Catalog
pub mod Settle
pub mod Bond
pub mod Balance
pub mod Admin
pub mod Trust
pub mod Payability
pub mod Discovery
pub mod Fence
pub mod Upto
