-- ===== src/Settle/Duplicates.antt =====
-- src/server.ts: duplicate calls of /settle.
use vellar_facilitator.Base.{
  ℕ, ◌+◌, ◌<◌, ◌≡◌, String, true, false, Option, none, some, List, [], ◌∷◌, arith, All, eq_iff,
}
use vellar_facilitator.Base.Dict
use vellar_facilitator.Settle.{admit_settle, settle_dedup_ttl_ms, DedupTable}

-- Calls of the handler, each at a time and with a payload's hash.
unfoldable pub admit_all : List (ℕ × Option String) → DedupTable → DedupTable
admit_all [] table = table
admit_all ((now, hash) ∷ calls) table = admit_all calls (admit_settle now hash table).0

admit-keeps :
    (h : String) (e now : ℕ) (hash : Option String) (table : DedupTable)
    → now < e
    → Dict.lookup h table ≡ some e
    → Dict.lookup h (admit_settle now hash table).0 ≡ some e
unfolding admit_settle
admit-keeps h e now none table lt held = held
admit-keeps h e now (some g) table lt held =
    ground (arith, held, lt, eq_iff g h, Dict.lookup-insert g h (now + settle_dedup_ttl_ms) table)

admit_all-keeps :
    (h : String) (e : ℕ) (calls : List (ℕ × Option String)) (table : DedupTable)
    → All (λ (c : ℕ × Option String). c.0 < e) calls
    → Dict.lookup h table ≡ some e
    → Dict.lookup h (admit_all calls table) ≡ some e
unfolding admit_all
admit_all-keeps h e [] table early held = held
admit_all-keeps h e ((now, hash) ∷ calls) table early held =
    admit_all-keeps h e calls (admit_settle now hash table).0 early.1
      (admit-keeps h e now hash table early.0 held)

admit-books :
    (h : String) (now : ℕ) (table : DedupTable)
    → (admit_settle now (some h) table).1 ≡ true
    → Dict.lookup h (admit_settle now (some h) table).0 ≡ some (now + settle_dedup_ttl_ms)
unfolding admit_settle
admit-books h now table e =
    ground (arith, e, Dict.lookup-insert h h (now + settle_dedup_ttl_ms) table, eq_iff h h)

-- After a call has run the pipeline for a transaction, no call for the same transaction runs it again in
-- the next ten minutes, whatever calls come in between: it waits for the result that is kept.
pub admit_settle-once :
    (h : String) (now later : ℕ) (calls : List (ℕ × Option String)) (table : DedupTable)
    → (admit_settle now (some h) table).1 ≡ true
    → All (λ (c : ℕ × Option String). c.0 < now + settle_dedup_ttl_ms) calls
    → later < now + settle_dedup_ttl_ms
    → (admit_settle later (some h) (admit_all calls (admit_settle now (some h) table).0)).1 ≡ false
unfolding admit_settle
admit_settle-once h now later calls table runs early soon = ground (
  arith,
  soon,
  admit_all-keeps h (now + settle_dedup_ttl_ms) calls (admit_settle now (some h) table).0 early
      (admit-books h now table runs),
)
