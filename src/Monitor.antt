-- ===== src/Monitor.antt =====
-- src/channelMonitor.ts: the channel-account balance monitor, which drives the pool. A balance
-- check's outcome is a value: what `fetchBalanceStroops` yields is the environment's choice.
-- Balances are whole non-negative numbers of stroops. Log lines and intervals have no part here.
pub mod Agreement
pub mod Failures
mod Tests
use vellar_facilitator.Base.{
  ℕ, suc, String, Bool, true, false, Option, none, some, List, [], ◌∷◌, not, ◌&&◌, ltb, leb,
  if◌then◌else◌,
}
use vellar_facilitator.Base.KeySet
use vellar_facilitator.Base.Dict
use vellar_facilitator.Pool
use vellar_facilitator.Pool.{ChannelPool}

-- CONSECUTIVE_FAILURE_LIMIT.
abbrev pub consecutive_failure_limit : ℕ
consecutive_failure_limit = 5

-- The outcome of one `await fetchBalanceStroops(address)`: a finite number, a non-finite one, or a
-- rejected promise.
pub data Reading : Type 0 where
  balance : ℕ → Reading
  not_finite : Reading
  rejected : Reading

pub record ChannelMonitor : Type 0 where
  pub pool : ChannelPool
  pub failures : List (String × ℕ)
  pub last_balance : List (String × ℕ)
  pub disabled_by_monitor : List String
  pub stopped : Bool
  pub timer : Bool

pub create : ChannelPool → ChannelMonitor
create p = record {
  pool = p;
  failures = [];
  last_balance = [];
  disabled_by_monitor = [];
  stopped = false;
  timer = false;
}

abbrev pub failure_count : String → ChannelMonitor → ℕ
failure_count a m = Dict.get_or a 0 m.failures

abbrev pub last_known_balance : String → ChannelMonitor → Option ℕ
last_known_balance a m = Dict.lookup a m.last_balance

-- `pool.disable(address)` and the note that this monitor did it.
withdraw : String → ChannelMonitor → ChannelMonitor
withdraw a m = record m {
  pool = Pool.disable a m.pool;
  disabled_by_monitor = KeySet.add a m.disabled_by_monitor;
}

restore : String → ChannelMonitor → ChannelMonitor
restore a m = record m {
  pool = Pool.enable a m.pool;
  disabled_by_monitor = KeySet.delete a m.disabled_by_monitor;
}

record_failure : String → ChannelMonitor → ChannelMonitor
unfolding withdraw
record_failure a m =
    let count = suc (failure_count a m) in
    let counted : ChannelMonitor = record m { failures = Dict.insert a count m.failures } in
    if leb consecutive_failure_limit count
    then (if KeySet.has a m.disabled_by_monitor then counted else withdraw a counted)
    else counted

record_success : ℕ → String → ℕ → ChannelMonitor → ChannelMonitor
unfolding withdraw restore
record_success floor a stroops m =
    let seen : ChannelMonitor = record m {
      failures = Dict.insert a 0 m.failures;
      last_balance = Dict.insert a stroops m.last_balance;
    } in
    let below_floor = ltb stroops floor in
    let is_disabled = KeySet.has a m.disabled_by_monitor in
    if below_floor && not is_disabled
    then withdraw a seen
    else if not below_floor && is_disabled
    then restore a seen
    else seen

-- `floor` is opts.floorStroops.
pub check_one : ℕ → String → Reading → ChannelMonitor → ChannelMonitor
unfolding record_failure record_success
check_one floor a (balance stroops) m = record_success floor a stroops m
check_one floor a not_finite m = record_failure a m
check_one floor a rejected m = record_failure a m

-- One pass over the addresses in order; the readings are the environment's, one for each account.
pub check_all : ℕ → (String → Reading) → List String → ChannelMonitor → ChannelMonitor
check_all floor read [] m = m
check_all floor read (a ∷ rest) m =
    let next = check_all floor read rest (check_one floor a (read a) m) in
    if m.stopped then m else next

-- The first pass that `start` begins is a `check_all` of the caller's.
pub start : ChannelMonitor → ChannelMonitor
start m = if m.timer then m else record m { stopped = false; timer = true }

pub stop : ChannelMonitor → ChannelMonitor
stop m = record m { stopped = true; timer = false }

-- What can happen to the monitor and its pool. Passes of two ticks may overlap, and settlements
-- take and return addresses between two checks: any list of events is a history.
pub data Event : Type 0 where
  checks : String → Reading → Event
  acquires : Event
  releases : String → Event

pub step : ℕ → ChannelMonitor → Event → ChannelMonitor
step floor m (checks a r) = check_one floor a r m
step floor m acquires = record m { pool = Pool.step m.pool Pool.acquires }
step floor m (releases a) = record m { pool = Pool.step m.pool (Pool.releases a) }

pub run : ℕ → ChannelMonitor → List Event → ChannelMonitor
run floor m [] = m
run floor m (e ∷ es) = run floor (step floor m e) es
