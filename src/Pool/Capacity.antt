-- ===== src/Pool/Capacity.antt =====
-- src/channelPool.ts: the size of the pool.
use vellar_facilitator.Base.{
  ℕ, suc, ◌+◌, ◌-◌, ◌≡◌, refl, String, List, [], ◌∷◌, arith, eq_iff, length, ◌∙◌,
}
use vellar_facilitator.Base.KeySet
use vellar_facilitator.Base.KeySet.{
  count, count-add, count-delete, has-count, count-cons_self, length-add, length-delete,
}
use vellar_facilitator.Pool.{
  ChannelPool, Call, acquires, releases, disables, enables, acquire, after, acquire_from, release,
  disable, enable, status, step, run,
}
use vellar_facilitator.Pool.Partition.{
  states, IsExclusive, IsKnown, AreKnown, step-Keeps, IsExclusive-of_Keeps, AreKnown-of_Keeps,
}

-- The sum of the three counts that `status` reports.
abbrev pub total : ChannelPool → ℕ
total p = (status p).available + (status p).in_use + (status p).disabled

acquire_from-total :
    (av : List String) (p : ChannelPool)
    → p.available ≡ av
    → IsExclusive p
    → (total (after p (acquire_from av p)) ≡ total p)
      × (length (after p (acquire_from av p)).available ≡ length av - 1)
unfolding acquire_from status
acquire_from-total [] p e h = (refl, ground arith)
acquire_from-total (a ∷ av) p e h =
    let one = count-cons_self a av in
    let out = length-delete a p.available in
    let into = length-add a p.in_use in
    let held = has-count a p.in_use in
    (ground (arith, h a, one, out, into, held), ground (arith, h a, one, out))

step-total : (p : ChannelPool) (c : Call) → IsExclusive p → IsKnown p c → total (step p c) ≡ total p
unfolding step acquire release disable enable status
step-total p acquires h m = (acquire_from-total p.available p refl h).0
step-total p (releases a) h m = ground (
  arith,
  h a,
  has-count a p.available,
  has-count a p.in_use,
  length-delete a p.in_use,
  length-add a p.available,
)
step-total p (disables a) h m = ground (
  arith,
  h a,
  has-count a p.disabled,
  length-delete a p.available,
  length-delete a p.in_use,
  length-add a p.disabled,
)
step-total p (enables a) h m = ground (
  arith,
  h a,
  has-count a p.available,
  has-count a p.disabled,
  length-delete a p.disabled,
  length-add a p.available,
)

-- Whatever calls are made, as long as `disable` is given addresses of the pool, the three counts of
-- `status` add up to the same number.
pub run-total :
    (p : ChannelPool) (cs : List Call) → IsExclusive p → AreKnown p cs → total (run p cs) ≡ total p
unfolding run
run-total p [] h m = refl
run-total p (c ∷ cs) h m =
    let e = step-Keeps p c h m.0 in
    run-total (step p c) cs (IsExclusive-of_Keeps p (step p c) e h)
      (AreKnown-of_Keeps p (step p c) cs e m.1)
    ∙ step-total p c h m.0

-- Withdrawing a string that is not one of the pool's addresses, and then enabling it, adds it to
-- the pool as an address that `acquire` can hand out, and the pool counts one address more.
pub enable-disable_admits :
    (p : ChannelPool) (a : String)
    → states a p ≡ 0
    → (count a (enable a (disable a p)).available ≡ 1)
      × (total (enable a (disable a p)) ≡ suc (total p))
unfolding enable disable status
enable-disable_admits p a h =
    let gone = KeySet.delete a p.available in
    let held = KeySet.add a p.disabled in
    ground (
      arith,
      eq_iff a a,
      has-count a p.disabled,
      has-count a held,
      has-count a gone,
      count-add a a p.disabled,
      count-delete a a p.available,
      count-add a a gone,
      length-delete a p.available,
      length-delete a p.in_use,
      length-add a p.disabled,
      length-delete a held,
      length-add a gone,
    )
