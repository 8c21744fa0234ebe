-- ===== src/Catalog/Upsert/Accepts.antt =====
-- src/catalog.ts: the payment options of an entry, and the entry that upsertFromPayment builds.
use vellar_facilitator.Base.{
  ℕ, Bool, false, ◌&&◌, ◌||◌, Option, none, some, List, [], ◌∷◌, ◌++◌, leb, ◌==◌, length,
  if◌then◌else◌,
}
use vellar_facilitator.Base.Text.{same_text}
use vellar_facilitator.Base.Table.{Text}
use vellar_facilitator.Catalog.Sanitize.{sanitize_stored_resource, sanitize_type}
use vellar_facilitator.Catalog.State.{
  Env, PaymentRequirements, Accept, DiscoveredResource, DiscoveryResource, max_accepts,
}

infixl 10 ◌>>=◌
abbrev ◌>>=◌ {ℓ κ} : {A : Type ℓ} {B : Type κ} → Option A → (A → Option B) → Option B
none >>= f = none
(some a) >>= f = f a

-- pickAcceptFields, then what acceptSchema makes of it: `none` is a field of another type.
abbrev timeout_field : Option (Option ℕ) → Option (Option ℕ)
timeout_field none = some none
timeout_field (some none) = none
timeout_field (some (some n)) = some (some n)

unfoldable pub pick_accept_fields : PaymentRequirements → Option Accept
pick_accept_fields r = do
  scheme ← r.scheme
  network ← r.network
  asset ← r.asset
  amount ← r.amount
  pay_to ← r.pay_to
  max_timeout_seconds ← timeout_field r.max_timeout_seconds
  some (record {
    scheme = scheme;
    network = network;
    asset = asset;
    amount = amount;
    pay_to = pay_to;
    max_timeout_seconds = max_timeout_seconds;
    extra = r.extra;
  })

abbrev is_field : Option Text → Text → Bool
is_field none stored = false
is_field (some t) stored = same_text t stored

-- Whether the same requirement is stored: `accepts.some(…)`.
unfoldable pub seen : PaymentRequirements → List Accept → Bool
seen r [] = false
seen r (a ∷ accepts) =
    (is_field r.scheme a.scheme
      && is_field r.network a.network
      && is_field r.asset a.asset
      && is_field r.pay_to a.pay_to
      && is_field r.amount a.amount)
    || seen r accepts

abbrev pub pushed : List Accept → Option Accept → Option (List Accept)
pushed accepts none = none
pushed accepts (some a) = some (accepts ++ a ∷ [])

-- The accepts after the settlement; `none` where the schema rejects the new one.
unfoldable pub add_accept : PaymentRequirements → List Accept → Option (List Accept)
add_accept r accepts =
    if seen r accepts || leb max_accepts (length accepts)
    then some accepts
    else pushed accepts (pick_accept_fields r)

-- storedResourceSchema on the entry that is built, and sanitizeStoredResource on what it lets pass.
unfoldable pub build_resource :
    Env → ℕ → DiscoveredResource → Option (List Accept) → Option DiscoveryResource
build_resource env now discovered accepts = do
  stored ← accepts
  type ← sanitize_type discovered.input_type
  version ← discovered.x402_version
  if length discovered.resource_url == 0
      then none
      else some (record {
        resource = discovered.resource_url;
        type = type;
        x402_version = version;
        accepts = stored;
        last_updated = now;
        metadata = sanitize_stored_resource env.platform discovered.metadata;
      })
