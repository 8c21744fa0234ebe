-- ===== src/Monitor/Agreement.antt =====
-- The monitor's own record of what it withdrew, and the pool's disabled set.
use vellar_facilitator.Base.{
  ℕ, suc, ◌≡◌, String, List, [], ◌∷◌, arith, ltb, eq_iff, str_eq, if◌then◌else◌,
}
use vellar_facilitator.Base.Dict
use vellar_facilitator.Base.KeySet.{has, has-add, has-delete}
use vellar_facilitator.Pool
use vellar_facilitator.Pool.Lease.{step-acquires-disabled, step-releases-disabled}
use vellar_facilitator.Monitor.{
  ChannelMonitor, balance, not_finite, rejected, Event, checks, acquires, releases, failure_count,
  withdraw, restore, record_failure, record_success, check_one, step, run, create,
}

-- The monitor believes to have disabled exactly the addresses that the pool has disabled.
abbrev pub Agrees : ChannelMonitor → Type 0
Agrees m = (k : String) → has k m.disabled_by_monitor ≡ has k m.pool.disabled

withdraw-Agrees : (a : String) (m : ChannelMonitor) → Agrees m → Agrees (withdraw a m)
unfolding withdraw Pool.disable
withdraw-Agrees a m h k =
    ground (arith, h k, has-add k a m.disabled_by_monitor, has-add k a m.pool.disabled)

restore-Agrees : (a : String) (m : ChannelMonitor) → Agrees m → Agrees (restore a m)
unfolding restore Pool.enable
restore-Agrees a m h k = ground (
  arith,
  h k,
  h a,
  has-delete k a m.disabled_by_monitor,
  has-delete k a m.pool.disabled,
  eq_iff a k,
)

record_failure-Agrees : (a : String) (m : ChannelMonitor) → Agrees m → Agrees (record_failure a m)
unfolding record_failure
record_failure-Agrees a m h k =
    let counted : ChannelMonitor = record m {
      failures = Dict.insert a (suc (failure_count a m)) m.failures;
    } in
    ground (arith, h k, withdraw-Agrees a counted h k)

record_success-Agrees :
    (floor : ℕ) (a : String) (stroops : ℕ) (m : ChannelMonitor)
    → Agrees m
    → Agrees (record_success floor a stroops m)
unfolding record_success
record_success-Agrees floor a stroops m h k =
    let seen : ChannelMonitor = record m {
      failures = Dict.insert a 0 m.failures;
      last_balance = Dict.insert a stroops m.last_balance;
    } in
    ground (arith, h k, withdraw-Agrees a seen h k, restore-Agrees a seen h k)

pub step-Agrees : (floor : ℕ) (m : ChannelMonitor) (e : Event) → Agrees m → Agrees (step floor m e)
unfolding step check_one
step-Agrees floor m (checks a (balance n)) h k = record_success-Agrees floor a n m h k
step-Agrees floor m (checks a not_finite) h k = record_failure-Agrees a m h k
step-Agrees floor m (checks a rejected) h k = record_failure-Agrees a m h k
step-Agrees floor m acquires h k = rw (step-acquires-disabled m.pool) (h k)
step-Agrees floor m (releases a) h k = rw (step-releases-disabled a m.pool) (h k)

-- Whatever the readings are, and however checks of overlapping passes and settlements interleave,
-- the monitor's record of what it disabled stays equal to the pool's disabled set.
pub run-Agrees :
    (floor : ℕ) (m : ChannelMonitor) (es : List Event) → Agrees m → Agrees (run floor m es)
unfolding run
run-Agrees floor m [] h = h
run-Agrees floor m (e ∷ es) h = run-Agrees floor (step floor m e) es (step-Agrees floor m e h)

-- After a check that read a balance the account is disabled exactly when the balance is below the
-- floor, however it was before, and every other account is as it was.
pub check_balance_verdict :
    (floor stroops : ℕ) (a k : String) (m : ChannelMonitor)
    → Agrees m
    → has k (check_one floor a (balance stroops) m).pool.disabled
      ≡ (if str_eq a k then ltb stroops floor else has k m.pool.disabled)
unfolding check_one record_success withdraw restore Pool.disable Pool.enable
check_balance_verdict floor stroops a k m h =
    ground (arith, h a, has-add k a m.pool.disabled, has-delete k a m.pool.disabled, eq_iff a k)

pub create-Agrees : (p : Pool.ChannelPool) → p.disabled ≡ [] → Agrees (create p)
unfolding create
create-Agrees p e k = rw e
