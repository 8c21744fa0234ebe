-- ===== src/Balance.antt =====
-- src/balance.ts: the class BalanceGuard. A check is an event when its answer comes in, so that checks
-- that overlap are any order of such events; the interval's ticks begin checks and change nothing.
pub mod Critical
mod Tests
use vellar_facilitator.Base.{
  ℕ, Bool, true, false, not, Option, none, some, List, [], ◌∷◌, ltb, if◌then◌else◌,
}

pub data BalanceStatus : Type 0 where
  ok low critical unknown : BalanceStatus

-- The answer of fetchBalanceStroops: an exception, a value that is no finite number, or a balance.
pub data Fetched : Type 0 where
  threw not_finite : Fetched
  balance : ℕ → Fetched

pub record Floors : Type 0 where
  pub soft : ℕ
  pub hard : ℕ

pub record BalanceGuard : Type 0 where
  pub current_status : BalanceStatus
  pub has_timer : Bool

abbrev pub create : BalanceGuard
create = record { current_status = unknown; has_timer = false }

abbrev pub allows : BalanceStatus → Bool
allows ok = true
allows low = true
allows critical = false
allows unknown = true

unfoldable pub settle_allowed : BalanceGuard → Bool
settle_allowed g = allows g.current_status

unfoldable pub status_of : Floors → Fetched → BalanceStatus
status_of f threw = unknown
status_of f not_finite = unknown
status_of f (balance n) = if ltb n f.hard then critical else if ltb n f.soft then low else ok

pub data Event : Type 0 where
  starts stops : Event
  refreshed : Fetched → Event

unfoldable pub step : Floors → Event → BalanceGuard → BalanceGuard
step f starts g = record g { has_timer = true }
step f stops g = record g { has_timer = false }
step f (refreshed r) g = record g { current_status = status_of f r }

unfoldable pub run : Floors → List Event → BalanceGuard → BalanceGuard
run f [] g = g
run f (e ∷ es) g = run f es (step f e g)
