-- ===== src/Trust/Tests.antt =====
-- src/trust.ts at concrete inputs, and the page that src/payability.ts prunes.
use vellar_facilitator.Base.{
  ℕ, ◌≡◌, refl, Bool, true, false, ◌&&◌, Option, none, some, List, [], ◌∷◌, all,
}
use vellar_facilitator.Base.Text.{codes, same_text}
use vellar_facilitator.Base.Table.{Text}
use vellar_facilitator.Catalog.State.{Accept}
use vellar_facilitator.Trust.{
  Verdict, verified, unverified, unknown, hash, verdict_of_body, cross_check, verdict_of_records,
  verdict_of_record, is_verified_status,
}
use vellar_facilitator.Trust.History.{
  HistoryRecord, number, newest_record, stamped, newest_first, insert_newest, record_timestamp,
}
use vellar_facilitator.Trust.Annotate.{Listing, annotate_trust, is_verified, verification_of}
use vellar_facilitator.Trust.Rollup.{annotate_trust-verified, has_some, pays_verified}
use vellar_facilitator.Trust.Provenance.{verdict_of_body-IsSourced, IsSourced}
use vellar_facilitator.Payability.{Verdict as Payability, payable, not_payable}

abbrev no_date : Text → Option ℕ
no_date t = none

abbrev run_of : Text → ℕ → HistoryRecord
run_of status t = record {
  status = some status;
  output_hash = some (codes "AB");
  timestamp = some (number t);
  verified_at = none;
  created_at = none;
}

abbrev history : List HistoryRecord
history = run_of (codes "failed") 1 ∷ run_of (codes "verified") 2 ∷ []

newest_run : newest_record no_date history ≡ some (run_of (codes "verified") 2)
unfolding newest_record stamped record_timestamp newest_first insert_newest
newest_run = refl

abbrev parse : Text → Option (List HistoryRecord)
parse t = some history

live_hash : verdict_of_body parse no_date (hash (codes "ab")) (some (codes "{}")) ≡ verified
unfolding verdict_of_body verdict_of_records verdict_of_record newest_record stamped
    record_timestamp newest_first insert_newest is_verified_status same_text cross_check
live_hash = refl

drifted_hash : verdict_of_body parse no_date (hash (codes "cd")) (some (codes "{}")) ≡ unverified
unfolding verdict_of_body verdict_of_records verdict_of_record newest_record stamped
    record_timestamp newest_first insert_newest is_verified_status same_text cross_check
drifted_hash = refl

abbrev chunks : List Text
chunks = codes "ab" ∷ codes "c" ∷ []

verdict_of_body-IsSourced_example :
    ((some (codes "{}") ≡ none)
      → verdict_of_body parse no_date (hash (codes "ab")) (some (codes "{}")) ≡ unknown)
    × (verdict_of_body parse no_date (hash (codes "ab")) (some (codes "{}")) ≡ verified
        → IsSourced parse no_date (hash (codes "ab")) (some (codes "{}")))
verdict_of_body-IsSourced_example =
    verdict_of_body-IsSourced parse no_date (hash (codes "ab")) (some (codes "{}"))

abbrev pays : Text → Accept
pays pay_to = record {
  scheme = codes "exact";
  network = codes "stellar:testnet";
  asset = codes "C1";
  amount = codes "1";
  pay_to = pay_to;
  max_timeout_seconds = none;
  extra = none;
}

abbrev listing : Text → Listing
listing url = record {
  resource = record {
    resource = url;
    type = codes "http";
    x402_version = 2;
    accepts = pays (codes "GA") ∷ pays (codes "GB") ∷ [];
    last_updated = 0;
    metadata = record {
      description = none;
      mime_type = none;
      service_name = none;
      tags = none;
      icon_url = none;
      extensions = none;
    };
  };
  trust = none;
}

abbrev asset_status : Text → Verdict
asset_status asset = verified

abbrev owns : Text → Bool
owns url = same_text url (codes "a")

annotate_trust-verified_example :
    is_verified
      (verification_of (annotate_trust asset_status owns owns (listing (codes "a"))).trust)
    ≡ (has_some (listing (codes "a")).resource.accepts
        && all
            (λ a. owns (listing (codes "a")).resource.resource && pays_verified asset_status a)
            (listing (codes "a")).resource.accepts)
annotate_trust-verified_example =
    annotate_trust-verified asset_status owns owns (listing (codes "a"))

abbrev page : List Listing
page =
    annotate_trust asset_status owns owns (listing (codes "b"))
    ∷ annotate_trust asset_status owns owns (listing (codes "a"))
    ∷ []

abbrev pays_a : Text → Text → Option Payability
pays_a pay_to asset =
    some (elim (same_text pay_to (codes "GA")) [ true ↦ payable | false ↦ not_payable ])
