-- ===== src/Trust.antt =====
-- src/trust.ts: the verification verdicts of listings. Parameters: the verification API's responses,
-- `JSON.parse` with the zod schema, `Date.parse`, and the contract's executable that the RPC server
-- gives. Times are milliseconds; a timestamp is a whole number, not negative.
pub mod History
pub mod Newest
pub mod Annotate
pub mod Rollup
pub mod Provenance
pub mod Rerank
mod Tests
use vellar_facilitator.Base.{
  ℕ, ◌+◌, ◌-◌, Bool, true, false, not, ◌&&◌, Option, none, some, List, [], ◌∷◌, ◌++◌, ltb, length,
  if◌then◌else◌,
}
use vellar_facilitator.Base.Text.{codes, same_text, lower}
use vellar_facilitator.Base.Table.{Text, find, put}
use vellar_facilitator.Trust.History.{HistoryRecord, newest_record}
use mathlib.Core.List.{map}

-- The type `TrustVerification`.
pub data Verdict : Type 0 where
  verified unverified unknown : Verdict

-- readBoundedText, over the chunks of the stream; `none` is the exception.
unfoldable pub read_bounded : ℕ → Text → List Text → Option Text
read_bounded max_bytes got [] = some got
read_bounded max_bytes got (chunk ∷ chunks) =
    let rest = read_bounded max_bytes (got ++ chunk) chunks in
    if ltb max_bytes (length got + length chunk) then none else rest

-- The verification API's answer: an exception of the fetch, its abort included, or a response.
pub record Response : Type 0 where
  pub ok : Bool
  pub declared_len : Option ℕ
  pub chunks : List Text

-- `Number.isFinite(declaredLen) && declaredLen > maxResponseBytes`.
abbrev pub is_over : ℕ → Option ℕ → Bool
is_over max_bytes none = false
is_over max_bytes (some n) = ltb max_bytes n

unfoldable pub body_of : ℕ → Option Response → Option Text
body_of max_bytes none = none
body_of max_bytes (some r) =
    if r.ok && not (is_over max_bytes r.declared_len)
    then read_bounded max_bytes [] r.chunks
    else none

-- The RPC's answer for the executable: no RPC or no wasm, an exception, or the hash of the wasm.
pub data LiveHash : Type 0 where
  undefined : LiveHash
  failed : LiveHash
  hash : Text → LiveHash

-- The cross-check with the live hash; an `outputHash` that is absent or empty is not checked.
unfoldable pub cross_check : Option Text → LiveHash → Verdict
cross_check none live = verified
cross_check (some []) live = verified
cross_check (some (c ∷ cs)) undefined = verified
cross_check (some (c ∷ cs)) failed = verified
cross_check (some (c ∷ cs)) (hash h) =
    if same_text h (map lower (c ∷ cs)) then verified else unverified

unfoldable pub is_verified_status : Option Text → Bool
is_verified_status none = false
is_verified_status (some t) = same_text t (codes "verified")

unfoldable pub verdict_of_record : LiveHash → Option HistoryRecord → Verdict
verdict_of_record live none = unverified
verdict_of_record live (some r) =
    let checked = cross_check r.output_hash live in
    if is_verified_status r.status then checked else unverified

unfoldable pub verdict_of_records :
    (Text → Option ℕ) → LiveHash → Option (List HistoryRecord) → Verdict
verdict_of_records date_parse live none = unknown
verdict_of_records date_parse live (some records) =
    verdict_of_record live (newest_record date_parse records)

-- What a text that was read says; `parse` is `JSON.parse` and the schema.
unfoldable pub verdict_of_body :
    (Text → Option (List HistoryRecord)) → (Text → Option ℕ) → LiveHash → Option Text → Verdict
verdict_of_body parse date_parse live none = unknown
verdict_of_body parse date_parse live (some text) = verdict_of_records date_parse live (parse text)

-- The resolver: its options and its cache.
pub record Options : Type 0 where
  pub has_verdict_source : Bool
  pub cache_ttl_ms : ℕ
  pub max_response_bytes : ℕ

pub record Cached : Type 0 where
  pub verdict : Verdict
  pub at : ℕ

-- The beginning of assetStatus: a verdict that needs no request.
unfoldable pub held_verdict : Options → ℕ → Option Cached → Option Verdict
held_verdict o now none = none
held_verdict o now (some c) = if ltb (now - c.at) o.cache_ttl_ms then some c.verdict else none

unfoldable pub known_verdict : Options → ℕ → Text → List (Text × Cached) → Option Verdict
known_verdict o now contract_id cache =
    if o.has_verdict_source then held_verdict o now (find contract_id cache) else some unknown

-- Its end, `now` milliseconds after the epoch.
unfoldable pub settle_verdict : ℕ → Text → Verdict → List (Text × Cached) → List (Text × Cached)
settle_verdict now contract_id v cache = put contract_id (record { verdict = v; at = now }) cache
