-- ===== src/Trust/Provenance.antt =====
-- src/trust.ts: where a verified verdict comes from.
use vellar_facilitator.Base.{
  ℕ, ◌≡◌, refl, true, Option, none, some, List, [], ◌∷◌, ◌++◌, arith, ◌≢◌, map, ap, sym, ◌∙◌,
}
use vellar_facilitator.Base.Text.{codes, same_text_iff, lower}
use vellar_facilitator.Base.Table.{Text}
use vellar_facilitator.Trust.{
  verified, unknown, LiveHash, hash, undefined, failed, cross_check, is_verified_status,
  verdict_of_record, verdict_of_records, verdict_of_body,
}
use vellar_facilitator.Trust.Newest.{IsIn, IsNewest, newest_record-IsNewest}
use vellar_facilitator.Trust.History.{HistoryRecord, newest_record}

-- The chunks, put together.
abbrev pub joined : List Text → Text
joined [] = []
joined (c ∷ cs) = c ++ joined cs

-- What a verified verdict says of a record: its status is the text `verified`, and a hash that it has
-- and that is not empty is, in lower case, the one that the RPC gave, if that gave one.
pub record IsProven (live : LiveHash) (r : HistoryRecord) : Type 0 where
  pub status : r.status ≡ some (codes "verified")
  pub same_hash :
      (given noted : Text)
      → live ≡ hash given
      → r.output_hash ≡ some noted
      → noted ≢ []
      → given ≡ map lower noted

status-verified :
    (status : Option Text) → is_verified_status status ≡ true → status ≡ some (codes "verified")
unfolding is_verified_status
status-verified none h = cc
status-verified (some t) h = ap (λ x. some x) ((same_text_iff t (codes "verified")).0 h)

cross_check-same :
    (output : Option Text) (live : LiveHash) (given noted : Text)
    → cross_check output live ≡ verified
    → live ≡ hash given
    → output ≡ some noted
    → noted ≢ []
    → given ≡ map lower noted
unfolding cross_check
cross_check-same none live given noted v e o n = cc
cross_check-same (some []) live given noted v e o n = absurd (n cc)
cross_check-same (some (c ∷ cs)) undefined given noted v e o n = cc
cross_check-same (some (c ∷ cs)) failed given noted v e o n = cc
cross_check-same (some (c ∷ cs)) (hash h) given noted v e o n =
    let same : h ≡ map lower (c ∷ cs) =
      (same_text_iff h (map lower (c ∷ cs))).0 (ground (arith, v)) in
    let is_given : h ≡ given = cc in
    let is_noted : c ∷ cs ≡ noted = cc in sym is_given ∙ (same ∙ ap (λ t. map lower t) is_noted)

verdict_of_record-IsProven :
    (live : LiveHash) (m : Option HistoryRecord)
    → verdict_of_record live m ≡ verified
    → (r : HistoryRecord) × (m ≡ some r) × IsProven live r
unfolding verdict_of_record
verdict_of_record-IsProven live none e = cc
verdict_of_record-IsProven live (some r) e = (
  r,
  refl,
  record {
    status = status-verified r.status (ground (arith, e));
    same_hash = λ given noted. cross_check-same r.output_hash live given noted (ground (arith, e));
  },
)

-- What a verified verdict of an answer rests on.
abbrev pub IsSourced :
    (Text → Option (List HistoryRecord)) → (Text → Option ℕ) → LiveHash → Option Text → Type 0
IsSourced parse date_parse live contents =
    (t : Text) × (records : List HistoryRecord) × (r : HistoryRecord) × (contents ≡ some t)
    × (parse t ≡ some records)
    × IsIn r records
    × IsNewest date_parse records r
    × IsProven live r

verdict_of_records-IsSourced :
    (parse : Text → Option (List HistoryRecord)) (date_parse : Text → Option ℕ) (live : LiveHash)
    (t : Text) (m : Option (List HistoryRecord))
    → parse t ≡ m
    → verdict_of_records date_parse live m ≡ verified
    → IsSourced parse date_parse live (some t)
unfolding verdict_of_records
verdict_of_records-IsSourced parse date_parse live t none h e = cc
verdict_of_records-IsSourced parse date_parse live t (some records) h e =
    let (r, is_newest, proven) =
      verdict_of_record-IsProven live (newest_record date_parse records) e in
    let picked = newest_record-IsNewest date_parse records r is_newest in
    (t, records, r, refl, h, picked.0, picked.1, proven)

-- A verdict is verified only if the API answered with a history, whose newest record has the status
-- `verified`, and whose hash, where it has one that is not empty and the RPC gives the live one, is
-- that one in lower case. The newest record is one with the latest time, or, if some record has no
-- time, the first. An answer that could not be had is never a negative: the verdict is unknown.
pub verdict_of_body-IsSourced :
    (parse : Text → Option (List HistoryRecord)) (date_parse : Text → Option ℕ) (live : LiveHash)
    (contents : Option Text)
    → ((contents ≡ none) → verdict_of_body parse date_parse live contents ≡ unknown)
      × (verdict_of_body parse date_parse live contents ≡ verified
          → IsSourced parse date_parse live contents)
unfolding verdict_of_body
verdict_of_body-IsSourced parse date_parse live none = (λ _. refl, λ e. cc)
verdict_of_body-IsSourced parse date_parse live (some t) =
    (λ e. cc, verdict_of_records-IsSourced parse date_parse live t (parse t) refl)
