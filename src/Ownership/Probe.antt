-- ===== src/Ownership/Probe.antt =====
-- src/ownership.ts: what a verification connects to.
use vellar_facilitator.Base.{
  ℕ, suc, ◌≡◌, inl, inr, refl, Bool, true, false, not, ◌&&◌, Option, none, some, List, [], ◌∷◌,
  ◌++◌, arith, Option-cases, all, filter,
}
use vellar_facilitator.Base.Table.{Text}
use vellar_facilitator.Address.{is_blocked_address}
use vellar_facilitator.Catalog.Sanitize.{strip_brackets}
use vellar_facilitator.Ownership.{
  Net, VerifyOptions, resolve, vet_address, assert_public_https_url, probe_vetted, probe_once,
  probe_with_retries, is_non_empty, verify_resource_ownership,
}

all-append {ℓ} :
    {A : Type ℓ} (p : A → Bool) (xs ys : List A) → all p (xs ++ ys) ≡ (all p xs && all p ys)
all-append p [] ys = refl
all-append p (x ∷ xs) ys = ground (arith, all-append p xs ys)

module _ (net : Net) where
  abbrev pub is_public : Text → Bool
  is_public address = not (is_blocked_address net.is_ip address)

  vet_address-public :
      (found : Option Text) (address : Text)
      → vet_address net false found ≡ some address
      → is_public address ≡ true
  unfolding vet_address
  vet_address-public none address e = cc
  vet_address-public (some a) address e = ground arith

  -- An address that the guard lets through is public.
  pub assert_public_https_url-public :
      (attempt : ℕ) (url address : Text)
      → assert_public_https_url net false attempt url ≡ some address
      → is_public address ≡ true
  unfolding assert_public_https_url
  assert_public_https_url-public attempt url address e = elim (Option-cases (net.parse_url url)) [
    | inl n ↦ ground (arith, n)
    | inr (u, h) ↦
        ground
          (arith, h, vet_address-public (resolve net attempt (strip_brackets u.hostname)) address)
  ]

  module _ (opts : VerifyOptions) (guarded : opts.insecure_test_transport ≡ false) where
    probe_vetted-public :
        (attempt : ℕ) (claims : List Text) (vetted : Option Text)
        → ((address : Text) → vetted ≡ some address → is_public address ≡ true)
        → all is_public (probe_vetted net opts attempt claims vetted).pinned ≡ true
    unfolding probe_vetted
    probe_vetted-public attempt claims none public = refl
    probe_vetted-public attempt claims (some a) public = ground (arith, public a refl)

    probe_once-public :
        (attempt : ℕ) (url : Text) (claims : List Text)
        → all is_public (probe_once net opts attempt url claims).pinned ≡ true
    unfolding probe_once
    probe_once-public attempt url claims =
        probe_vetted-public attempt claims
          (assert_public_https_url net opts.insecure_test_transport attempt url)
          (rw guarded (assert_public_https_url-public attempt url))

    probe_with_retries-public :
        (attempt : ℕ) (url : Text) (claims : List Text) (delays : List ℕ)
        → all is_public (probe_with_retries net opts attempt url claims delays).pinned ≡ true
    unfolding probe_with_retries
    probe_with_retries-public attempt url claims [] = probe_once-public attempt url claims
    probe_with_retries-public attempt url claims (d ∷ delays) = ground (
      arith,
      probe_once-public attempt url claims,
      probe_with_retries-public (suc attempt) url claims delays,
      all-append is_public (probe_once net opts attempt url claims).pinned
          (probe_with_retries net opts (suc attempt) url claims delays).pinned,
    )

-- With the guard on, an address that a verification connects to, at whichever of its attempts, is
-- not one that the SSRF guard blocks.
pub connects_to_public :
    (net : Net) (opts : VerifyOptions) (url : Text) (settled_pay_to : List Text)
    → opts.insecure_test_transport ≡ false
    → all (is_public net) (verify_resource_ownership net opts url settled_pay_to).pinned ≡ true
unfolding verify_resource_ownership
connects_to_public net opts url settled_pay_to guarded = ground (
  arith,
  probe_with_retries-public net opts guarded 0 url (filter is_non_empty settled_pay_to)
      opts.cold_start_retry_delays_ms,
)
