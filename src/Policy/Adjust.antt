-- ===== src/Policy/Adjust.antt =====
-- src/policy.ts: releasing and correcting a reservation, and reading it.
use vellar_facilitator.Base.{
  ℕ, suc, Bool, true, false, Option, none, some, List, [], ◌∷◌, ◌==◌, if◌then◌else◌, length,
}
use vellar_facilitator.Policy.{SpendPolicy, Entry, Status, reconciled, unreconcilable, persist}

-- `globalSpend.splice(idx, 1)` at the first entry with the id, if there is one.
unfoldable pub splice_out : ℕ → List Entry → List Entry
splice_out token [] = []
splice_out token (e ∷ es) = let rest = splice_out token es in if e.id == token then es else e ∷ rest

unfoldable pub refund_unspent : Option ℕ → SpendPolicy → SpendPolicy
refund_unspent none p = p
refund_unspent (some token) p =
    persist token 0 0 reconciled (record p { global_spend = splice_out token p.global_spend })

-- `globalSpend.find(e => e.id === token)`.
unfoldable pub find_entry : ℕ → List Entry → Option Entry
find_entry token [] = none
find_entry token (e ∷ es) = if e.id == token then some e else find_entry token es

-- `entry.stroops = newStroops` at the entry that `find` yields.
unfoldable pub set_stroops : ℕ → ℕ → List Entry → List Entry
set_stroops token new_stroops [] = []
set_stroops token new_stroops (e ∷ es) =
    let rest = set_stroops token new_stroops es in
    if e.id == token then record e { stroops = new_stroops } ∷ es else e ∷ rest

abbrev pub is_unreconcilable : Status → Bool
is_unreconcilable unreconcilable = true
is_unreconcilable _ = false

unfoldable pub adjust_found : ℕ → ℕ → Status → Option Entry → SpendPolicy → Bool × SpendPolicy
adjust_found token new_stroops status none p = (false, p)
adjust_found token new_stroops status (some entry) p =
    let q =
      persist token entry.at new_stroops status
        (record p { global_spend = set_stroops token new_stroops p.global_spend }) in
    (
      true,
      (if is_unreconcilable status
          then record q { spend_unreconcilable_total = suc q.spend_unreconcilable_total }
          else q),
    )

unfoldable pub adjust_reservation : Option ℕ → ℕ → Status → SpendPolicy → Bool × SpendPolicy
adjust_reservation none new_stroops status p = (false, p)
adjust_reservation (some token) new_stroops status p =
    adjust_found token new_stroops status (find_entry token p.global_spend) p

unfoldable pub reserved_stroops : Option ℕ → SpendPolicy → Option ℕ
reserved_stroops none p = none
reserved_stroops (some token) p = elim (find_entry token p.global_spend) [
  | none ↦ none
  | some e ↦ some e.stroops
]

pub tracked_pay_tos : SpendPolicy → ℕ
tracked_pay_tos p = length p.per_pay_to
