-- ===== src/Monitor/Failures.antt =====
-- src/channelMonitor.ts: what failed balance checks do to an account.
use vellar_facilitator.Base.{
  ℕ, suc, ◌≤◌, ◌<◌, ◌≡◌, ◌∙◌, ap, refl, String, List, [], ◌∷◌, arith, eq_iff, str_eq, true,
  if◌then◌else◌,
}
use vellar_facilitator.Base.KeySet.{has, has-add}
use vellar_facilitator.Base.Dict.{lookup-insert}
use vellar_facilitator.Pool
use vellar_facilitator.Pool.Lease.{step-acquires-disabled, step-releases-disabled}
use vellar_facilitator.Monitor.{
  ChannelMonitor, balance, not_finite, rejected, Event, checks, acquires, releases,
  consecutive_failure_limit, failure_count, withdraw, restore, record_failure, record_success,
  check_one, step, run, create,
}
use vellar_facilitator.Monitor.Agreement.{Agrees, step-Agrees, check_balance_verdict, create-Agrees}

-- The length of the run of failures that a check of `k` ends, from `n` failures before it.
abbrev pub failures_after : String → Event → ℕ → ℕ
failures_after k (checks a (balance _)) n = if str_eq a k then 0 else n
failures_after k (checks a not_finite) n = if str_eq a k then suc n else n
failures_after k (checks a rejected) n = if str_eq a k then suc n else n
failures_after k acquires n = n
failures_after k (releases a) n = n

-- The failed checks of `k` since its last successful one, read off the history alone.
abbrev pub trailing_failures : String → ℕ → List Event → ℕ
trailing_failures k n [] = n
trailing_failures k n (e ∷ es) = trailing_failures k (failures_after k e n) es

pub step-failure_count :
    (floor : ℕ) (m : ChannelMonitor) (e : Event) (k : String)
    → failure_count k (step floor m e) ≡ failures_after k e (failure_count k m)
unfolding step check_one record_success record_failure withdraw restore
step-failure_count floor m (checks a (balance n)) k =
    ground (arith, lookup-insert a k 0 m.failures, eq_iff a k)
step-failure_count floor m (checks a not_finite) k =
    ground (arith, lookup-insert a k (suc (failure_count a m)) m.failures, eq_iff a k)
step-failure_count floor m (checks a rejected) k =
    ground (arith, lookup-insert a k (suc (failure_count a m)) m.failures, eq_iff a k)
step-failure_count floor m acquires k = refl
step-failure_count floor m (releases a) k = refl

-- The count kept for an account is the length of its current run of failed checks: any success
-- starts it again, and no other account's check touches it.
pub run-failure_count :
    (floor : ℕ) (m : ChannelMonitor) (es : List Event) (k : String)
    → failure_count k (run floor m es) ≡ trailing_failures k (failure_count k m) es
unfolding run
run-failure_count floor m [] k = refl
run-failure_count floor m (e ∷ es) k =
    run-failure_count floor (step floor m e) es k
    ∙ ap (λ n. trailing_failures k n es) (step-failure_count floor m e k)

-- An event that is no successful balance check.
abbrev pub IsBlind : Event → Type 0
IsBlind (checks a (balance _)) = ⊥
IsBlind e = Unit {0}

step-blind_disabled :
    (floor : ℕ) (m : ChannelMonitor) (e : Event)
    → IsBlind e
    → ((k : String) → failures_after k e (failure_count k m) < consecutive_failure_limit)
    → (step floor m e).pool.disabled ≡ m.pool.disabled
unfolding step check_one record_failure
step-blind_disabled floor m (checks a (balance n)) b h = absurd b
step-blind_disabled floor m (checks a not_finite) b h = ground (arith, h a, eq_iff a a)
step-blind_disabled floor m (checks a rejected) b h = ground (arith, h a, eq_iff a a)
step-blind_disabled floor m acquires b h = step-acquires-disabled m.pool
step-blind_disabled floor m (releases a) b h = step-releases-disabled a m.pool

-- Every account with five failures in a row is out of the pool.
abbrev pub WithdrawsUnreachable : ChannelMonitor → Type 0
WithdrawsUnreachable m =
    (k : String) → consecutive_failure_limit ≤ failure_count k m → has k m.pool.disabled ≡ true

checks-WithdrawsUnreachable :
    (floor n : ℕ) (a : String) (m : ChannelMonitor)
    → Agrees m
    → WithdrawsUnreachable m
    → WithdrawsUnreachable (step floor m (checks a (balance n)))
unfolding step
checks-WithdrawsUnreachable floor n a m g h k f = ground (
  arith,
  h k,
  check_balance_verdict floor n a k m g,
  step-failure_count floor m (checks a (balance n)) k,
)

failure-WithdrawsUnreachable :
    (a : String) (m : ChannelMonitor)
    → Agrees m
    → WithdrawsUnreachable m
    → WithdrawsUnreachable (record_failure a m)
unfolding record_failure withdraw Pool.disable
failure-WithdrawsUnreachable a m g h k f = ground (
  arith,
  g a,
  h k,
  lookup-insert a k (suc (failure_count a m)) m.failures,
  eq_iff a k,
  has-add k a m.pool.disabled,
)

step-WithdrawsUnreachable :
    (floor : ℕ) (m : ChannelMonitor) (e : Event)
    → Agrees m
    → WithdrawsUnreachable m
    → WithdrawsUnreachable (step floor m e)
unfolding step check_one
step-WithdrawsUnreachable floor m (checks a (balance n)) g h k f =
    checks-WithdrawsUnreachable floor n a m g h k f
step-WithdrawsUnreachable floor m (checks a not_finite) g h k f =
    failure-WithdrawsUnreachable a m g h k f
step-WithdrawsUnreachable floor m (checks a rejected) g h k f =
    failure-WithdrawsUnreachable a m g h k f
step-WithdrawsUnreachable floor m acquires g h k f = rw (step-acquires-disabled m.pool) (h k f)
step-WithdrawsUnreachable floor m (releases a) g h k f =
    rw (step-releases-disabled a m.pool) (h k f)

run-WithdrawsUnreachable :
    (floor : ℕ) (m : ChannelMonitor) (es : List Event)
    → Agrees m
    → WithdrawsUnreachable m
    → WithdrawsUnreachable (run floor m es)
unfolding run
run-WithdrawsUnreachable floor m [] g h = h
run-WithdrawsUnreachable floor m (e ∷ es) g h =
    run-WithdrawsUnreachable floor (step floor m e) es (step-Agrees floor m e g)
      (step-WithdrawsUnreachable floor m e g h)

create-failure_count : (p : Pool.ChannelPool) (k : String) → failure_count k (create p) ≡ 0
unfolding create
create-failure_count p k = refl

-- In any history of a fresh monitor over a pool that nobody else disables, an account whose last
-- five or more checks all failed is in the pool's disabled set.
pub unreachable_withdrawn :
    (floor : ℕ) (p : Pool.ChannelPool) (es : List Event) (k : String)
    → p.disabled ≡ []
    → consecutive_failure_limit ≤ trailing_failures k 0 es
    → has k (run floor (create p) es).pool.disabled ≡ true
unreachable_withdrawn floor p es k e f =
    run-WithdrawsUnreachable floor (create p) es (create-Agrees p e)
      (λ j g. absurd (omega (arith, create-failure_count p j))) k
      (omega (
        arith,
        run-failure_count floor (create p) es k,
        ap (λ n. trailing_failures k n es) (create-failure_count p k),
      ))
