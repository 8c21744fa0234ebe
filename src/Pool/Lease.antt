-- ===== src/Pool/Lease.antt =====
-- src/channelPool.ts: who may be handed an address: one holder at a time.
use vellar_facilitator.Base.{
  ◌<◌, ◌≡◌, ◌≢◌, refl, String, some, List, [], ◌∷◌, arith, eq_iff, All, ap,
}
use vellar_facilitator.Base.KeySet
use vellar_facilitator.Base.KeySet.{count, count-add, count-delete, has-count, count-cons_self}
use vellar_facilitator.Pool.{
  ChannelPool, Call, acquires, releases, disables, enables, acquire, after, acquire_from, release,
  disable, enable, step, run,
}

-- A call that neither releases nor enables `a`.
abbrev pub Spares : String → Call → Type 0
Spares a c = (c ≢ releases a) × (c ≢ enables a)

acquire_from_lem :
    (av : List String) (p : ChannelPool) (a : String) (q : ChannelPool)
    → p.available ≡ av
    → acquire_from av p ≡ some (a, q)
    → (0 < count a p.available)
      × (q.available ≡ KeySet.delete a p.available)
      × (q.in_use ≡ KeySet.add a p.in_use)
      × (q.disabled ≡ p.disabled)
unfolding acquire_from
acquire_from_lem [] p a q h e = cc
acquire_from_lem (b ∷ av) p a q h e =
    (ground (arith, count-cons_self b av), ground arith, ground arith, ground arith)

pub acquire_lem :
    (p : ChannelPool) (a : String) (q : ChannelPool)
    → acquire p ≡ some (a, q)
    → (0 < count a p.available)
      × (q.available ≡ KeySet.delete a p.available)
      × (q.in_use ≡ KeySet.add a p.in_use)
      × (q.disabled ≡ p.disabled)
unfolding acquire
acquire_lem p a q e = acquire_from_lem p.available p a q refl e

acquire_from-unavailable :
    (a : String) (av : List String) (p : ChannelPool)
    → count a p.available ≡ 0
    → count a (after p (acquire_from av p)).available ≡ 0
unfolding acquire_from
acquire_from-unavailable a [] p h = h
acquire_from-unavailable a (b ∷ av) p h = ground (arith, count-delete a b p.available)

step-unavailable :
    (a : String) (p : ChannelPool) (c : Call)
    → Spares a c
    → count a p.available ≡ 0
    → count a (step p c).available ≡ 0
unfolding step release disable enable acquire
step-unavailable a p acquires s h = acquire_from-unavailable a p.available p h
step-unavailable a p (releases b) s h =
    ground (arith, count-add a b p.available, eq_iff b a, λ (e : b ≡ a). s.0 (ap releases e))
step-unavailable a p (disables b) s h = ground (arith, count-delete a b p.available)
step-unavailable a p (enables b) s h =
    ground (arith, count-add a b p.available, eq_iff b a, λ (e : b ≡ a). s.1 (ap enables e))

run-unavailable :
    (a : String) (p : ChannelPool) (cs : List Call)
    → All (Spares a) cs
    → count a p.available ≡ 0
    → count a (run p cs).available ≡ 0
unfolding run
run-unavailable a p [] s h = h
run-unavailable a p (c ∷ cs) s h =
    run-unavailable a (step p c) cs s.1 (step-unavailable a p c s.0 h)

-- Until it is released or enabled, an address that `acquire` handed out is not handed out again,
-- whatever other calls are made in between.
pub acquire_exclusive :
    (p q t : ChannelPool) (a b : String) (cs : List Call)
    → acquire p ≡ some (a, q)
    → All (Spares a) cs
    → acquire (run q cs) ≡ some (b, t)
    → b ≢ a
acquire_exclusive p q t a b cs e s e' same = ground (
  arith,
  acquire_lem p a q e,
  acquire_lem (run q cs) b t e',
  run-unavailable a q cs s,
  count-delete a a p.available,
  eq_iff a a,
)

acquire_from-disabled :
    (av : List String) (p : ChannelPool) → (after p (acquire_from av p)).disabled ≡ p.disabled
unfolding acquire_from
acquire_from-disabled [] p = refl
acquire_from-disabled (a ∷ av) p = refl

-- Settlements come and go without touching the disabled set.
pub step-acquires-disabled : (p : ChannelPool) → (step p acquires).disabled ≡ p.disabled
unfolding step acquire
step-acquires-disabled p = acquire_from-disabled p.available p

pub step-releases-disabled :
    (a : String) (p : ChannelPool) → (step p (releases a)).disabled ≡ p.disabled
unfolding step release
step-releases-disabled a p = ground arith
