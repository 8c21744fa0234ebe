-- ===== src/Ownership/Match.antt =====
-- src/ownership.ts: what a verdict of `match` rests on.
use vellar_facilitator.Base.{
  ℕ, suc, ◌+◌, ◌≤◌, ◌<◌, ◌≡◌, inl, inr, refl, true, ◌||◌, Option, none, some, List, [], ◌∷◌, arith,
  Bool-cases, length, filter, ◌==◌, ap, ◌∙◌, ltb,
}
use vellar_facilitator.Base.Table.{Text, member}
use vellar_facilitator.Base.Text.{same_text_iff, same_text_refl}
use vellar_facilitator.Ownership.{
  matched, Fetched, answered, aborted, failed, Net, VerifyOptions, assert_public_https_url,
  named_pay_tos, any_named, verdict_on, verdict_of_challenge, verdict_of_response, probe_vetted,
  probe_once, is_timeout, probe_with_retries, is_non_empty, verify_resource_ownership,
}

any_named-witness :
    (claims pay_tos : List Text)
    → any_named claims pay_tos ≡ true
    → (claim : Text) × ((member claim claims ≡ true) × (member claim pay_tos ≡ true))
unfolding any_named
any_named-witness [] pay_tos h = cc
any_named-witness (c ∷ claims) pay_tos h = elim (Bool-cases (member c pay_tos)) [
  | inl named ↦ (c, (ground (arith, same_text_refl c), named))
  | inr other ↦
      let found = any_named-witness claims pay_tos (ground (arith, other)) in
      (found.0, (ground (arith, found.1.0), found.1.1))
]

member-filter :
    (claim : Text) (texts : List Text)
    → member claim (filter is_non_empty texts) ≡ true
    → (member claim texts ≡ true) × (0 < length claim)
member-filter claim [] h = cc
member-filter claim (t ∷ texts) h = ground (arith, member-filter claim texts, same_text_iff t claim)

-- What stands behind a match: an attempt whose connection was to an address that the guard let
-- through and that was answered with status 402 and a challenge naming a claim that is not empty.
pub record MatchEvidence (net : Net) (opts : VerifyOptions) (url : Text)
    (settled_pay_to : List Text) : Type 0 where
  pub attempt : ℕ
  pub address : Text
  pub header : Text
  pub accepts : List (Option Text)
  pub claim : Text
  pub in_time : attempt ≤ length opts.cold_start_retry_delays_ms
  pub vetted : assert_public_https_url net opts.insecure_test_transport attempt url ≡ some address
  pub challenged : net.fetch attempt address ≡ answered 402 (some header)
  pub short_enough : length header ≤ opts.max_bytes
  pub decoded : net.decode_challenge header ≡ some accepts
  pub claimed : member claim settled_pay_to ≡ true
  pub not_empty : 0 < length claim
  pub named : member claim (named_pay_tos accepts) ≡ true

verdict_on-matched :
    (claims pay_tos : List Text)
    → verdict_on claims pay_tos ≡ matched
    → any_named claims pay_tos ≡ true
unfolding verdict_on
verdict_on-matched claims [] e = cc
verdict_on-matched claims (p ∷ pay_tos) e = ground arith

module _ (net : Net) (opts : VerifyOptions) (url : Text) (settled_pay_to : List Text) where
  abbrev wanted : List Text
  wanted = filter is_non_empty settled_pay_to

  challenge-evidence :
      (attempt : ℕ) (address header : Text) (decoded : Option (List (Option Text)))
      → attempt ≤ length opts.cold_start_retry_delays_ms
      → assert_public_https_url net opts.insecure_test_transport attempt url ≡ some address
      → net.fetch attempt address ≡ answered 402 (some header)
      → length header ≤ opts.max_bytes
      → net.decode_challenge header ≡ decoded
      → verdict_of_challenge wanted decoded ≡ matched
      → MatchEvidence net opts url settled_pay_to
  unfolding verdict_of_challenge
  challenge-evidence attempt address header none t v f l d e = cc
  challenge-evidence attempt address header (some accepts) t v f l d e =
      let found =
        any_named-witness wanted (named_pay_tos accepts)
          (verdict_on-matched wanted (named_pay_tos accepts) e) in
      let own = member-filter found.0 settled_pay_to found.1.0 in
      record {
        attempt = attempt;
        address = address;
        header = header;
        accepts = accepts;
        claim = found.0;
        in_time = t;
        vetted = v;
        challenged = f;
        short_enough = l;
        decoded = d;
        claimed = own.0;
        not_empty = own.1;
        named = found.1.1;
      }

  response-evidence :
      (attempt : ℕ) (address : Text) (fetched : Fetched)
      → attempt ≤ length opts.cold_start_retry_delays_ms
      → assert_public_https_url net opts.insecure_test_transport attempt url ≡ some address
      → net.fetch attempt address ≡ fetched
      → verdict_of_response net opts.max_bytes wanted fetched ≡ matched
      → MatchEvidence net opts url settled_pay_to
  unfolding verdict_of_response
  response-evidence attempt address aborted t v f e = cc
  response-evidence attempt address failed t v f e = cc
  response-evidence attempt address (answered status none) t v f e = cc
  response-evidence attempt address (answered status (some header)) t v f e =
      elim (Bool-cases (status == 402)) [
        | inr other ↦ ground (arith, other)
        | inl is_402 ↦
            elim (Bool-cases (length header == 0 || ltb opts.max_bytes (length header))) [
              | inl refused ↦ ground (arith, is_402, refused)
              | inr fits ↦
                  let code : status ≡ 402 = ground (arith, is_402) in
                  challenge-evidence attempt address header (net.decode_challenge header) t v
                    (f ∙ ap (λ s. answered s (some header)) code) (ground (arith, fits)) refl
                    (ground (arith, is_402, fits))
            ]
      ]

  probe_vetted-evidence :
      (attempt : ℕ) (vetted : Option Text)
      → attempt ≤ length opts.cold_start_retry_delays_ms
      → assert_public_https_url net opts.insecure_test_transport attempt url ≡ vetted
      → (probe_vetted net opts attempt wanted vetted).verdict ≡ matched
      → MatchEvidence net opts url settled_pay_to
  unfolding probe_vetted
  probe_vetted-evidence attempt none t v e = cc
  probe_vetted-evidence attempt (some address) t v e =
      response-evidence attempt address (net.fetch attempt address) t v refl e

  retries-evidence :
      (delays : List ℕ) (attempt : ℕ)
      → attempt + length delays ≤ length opts.cold_start_retry_delays_ms
      → (probe_with_retries net opts attempt url wanted delays).verdict ≡ matched
      → MatchEvidence net opts url settled_pay_to
  unfolding probe_with_retries probe_once
  retries-evidence [] attempt t e =
      probe_vetted-evidence attempt
        (assert_public_https_url net opts.insecure_test_transport attempt url) (omega (arith, t))
        refl e
  retries-evidence (d ∷ delays) attempt t e =
      let now =
        probe_vetted-evidence attempt
          (assert_public_https_url net opts.insecure_test_transport attempt url) (omega (arith, t))
          refl in
      let later = retries-evidence delays (suc attempt) (omega (arith, t)) in
      elim (Bool-cases (is_timeout (probe_once net opts attempt url wanted).verdict)) [
        | inl again ↦ later (ground (arith, again))
        | inr final ↦ now (ground (arith, final))
      ]

-- A match is never given without evidence: some attempt within the retries was answered, at an
-- address that the guard let through, with status 402 and a challenge of bounded length that names
-- one of the given payTos, which is not empty.
pub matched-MatchEvidence :
    (net : Net) (opts : VerifyOptions) (url : Text) (settled_pay_to : List Text)
    → (verify_resource_ownership net opts url settled_pay_to).verdict ≡ matched
    → MatchEvidence net opts url settled_pay_to
unfolding verify_resource_ownership
matched-MatchEvidence net opts url settled_pay_to e =
    elim (Bool-cases (length (filter is_non_empty settled_pay_to) == 0)) [
      | inl empty ↦ ground (arith, empty)
      | inr some_claim ↦
          retries-evidence net opts url settled_pay_to opts.cold_start_retry_delays_ms 0
            (omega arith) (ground (arith, some_claim))
    ]
