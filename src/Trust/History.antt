-- ===== src/Trust/History.antt =====
-- src/trust.ts: the records of a verification history, and the newest of them.
use vellar_facilitator.Base.{ℕ, Option, none, some, List, [], ◌∷◌, ltb, ◌==◌, length, if◌then◌else◌}
use vellar_facilitator.Base.Table.{Text}

-- A timestamp is a text or a number.
pub data Stamp : Type 0 where
  text : Text → Stamp
  number : ℕ → Stamp

pub record HistoryRecord : Type 0 where
  pub status : Option Text
  pub output_hash : Option Text
  pub timestamp : Option Stamp
  pub verified_at : Option Stamp
  pub created_at : Option Stamp

-- `a ?? b`.
abbrev pub or_else {ℓ} : {A : Type ℓ} → Option A → Option A → Option A
or_else none b = b
or_else (some a) b = some a

abbrev pub time_of : (Text → Option ℕ) → Option Stamp → Option ℕ
time_of date_parse none = none
time_of date_parse (some (text t)) = date_parse t
time_of date_parse (some (number n)) = some n

unfoldable pub record_timestamp : (Text → Option ℕ) → HistoryRecord → Option ℕ
record_timestamp date_parse r =
    time_of date_parse (or_else r.timestamp (or_else r.verified_at r.created_at))

abbrev cons_stamped : HistoryRecord → Option ℕ → List (HistoryRecord × ℕ) → List (HistoryRecord × ℕ)
cons_stamped r none rest = rest
cons_stamped r (some t) rest = (r, t) ∷ rest

-- The records that have a timestamp, with it.
unfoldable pub stamped : (Text → Option ℕ) → List HistoryRecord → List (HistoryRecord × ℕ)
stamped date_parse [] = []
stamped date_parse (r ∷ rs) = cons_stamped r (record_timestamp date_parse r) (stamped date_parse rs)

-- `.sort((a, b) => b.t - a.t)`, which keeps the order of equal ones.
unfoldable pub insert_newest :
    HistoryRecord × ℕ → List (HistoryRecord × ℕ) → List (HistoryRecord × ℕ)
insert_newest x [] = x ∷ []
insert_newest x (y ∷ ys) =
    let rest = insert_newest x ys in if ltb x.1 y.1 then y ∷ rest else x ∷ y ∷ ys

unfoldable pub newest_first : List (HistoryRecord × ℕ) → List (HistoryRecord × ℕ)
newest_first [] = []
newest_first (x ∷ xs) = insert_newest x (newest_first xs)

abbrev pub first_of {ℓ} : {A : Type ℓ} → List A → Option A
first_of [] = none
first_of (x ∷ xs) = some x

abbrev pub first_record : List (HistoryRecord × ℕ) → Option HistoryRecord
first_record [] = none
first_record (x ∷ xs) = some x.0

unfoldable pub newest_record : (Text → Option ℕ) → List HistoryRecord → Option HistoryRecord
newest_record date_parse records =
    let dated = stamped date_parse records in
    if length dated == length records then first_record (newest_first dated) else first_of records
