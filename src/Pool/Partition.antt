-- ===== src/Pool/Partition.antt =====
-- The three sets of a pool partition the addresses that it was constructed with.
use vellar_facilitator.Base.{
  ℕ, ◌+◌, ◌≤◌, ◌≡◌, refl, ◌∙◌, String, List, [], ◌∷◌, arith, eq_iff, if◌then◌else◌,
}
use vellar_facilitator.Base.KeySet
use vellar_facilitator.Base.KeySet.{
  count, count-add, count-delete, has-count, count-cons_self, count-add_all, length-add,
  length-delete,
}
use vellar_facilitator.Pool.{
  ChannelPool, Call, acquires, releases, disables, enables, create, acquire, after, acquire_from,
  release, disable, enable, step, run,
}

-- In how many of the three states an address is.
abbrev pub states : String → ChannelPool → ℕ
states k p = count k p.available + count k p.in_use + count k p.disabled

-- No address is in two states at once.
abbrev pub IsExclusive : ChannelPool → Type 0
IsExclusive p = (k : String) → states k p ≤ 1

-- The pool holds the same addresses as before, each as often.
abbrev pub Keeps : ChannelPool → ChannelPool → Type 0
Keeps p q = (k : String) → states k q ≡ states k p

-- A call that withdraws an address names one of the pool's.
abbrev pub IsKnown : ChannelPool → Call → Type 0
IsKnown p (disables a) = states a p ≡ 1
IsKnown p c = Unit {0}

abbrev pub AreKnown : ChannelPool → List Call → Type 0
AreKnown p [] = Unit {0}
AreKnown p (c ∷ cs) = IsKnown p c × AreKnown p cs

acquire_from-Keeps :
    (k : String) (av : List String) (p : ChannelPool)
    → p.available ≡ av
    → IsExclusive p
    → states k (after p (acquire_from av p)) ≡ states k p
unfolding acquire_from
acquire_from-Keeps k [] p e h = refl
acquire_from-Keeps k (a ∷ av) p e h = ground (
  arith,
  h a,
  count-cons_self a av,
  count-delete k a p.available,
  count-add k a p.in_use,
  has-count a p.in_use,
  eq_iff a k,
)

release-Keeps :
    (k a : String) (p : ChannelPool) → IsExclusive p → states k (release a p) ≡ states k p
unfolding release
release-Keeps k a p h = ground (
  arith,
  h a,
  count-delete k a p.in_use,
  count-add k a p.available,
  eq_iff a k,
  has-count a p.available,
  has-count a p.in_use,
  has-count a p.disabled,
)

disable-Keeps :
    (k a : String) (p : ChannelPool)
    → IsExclusive p
    → states a p ≡ 1
    → states k (disable a p) ≡ states k p
unfolding disable
disable-Keeps k a p h m = ground (
  arith,
  h a,
  count-delete k a p.available,
  count-delete k a p.in_use,
  count-add k a p.disabled,
  eq_iff a k,
  has-count a p.disabled,
)

enable-Keeps : (k a : String) (p : ChannelPool) → IsExclusive p → states k (enable a p) ≡ states k p
unfolding enable
enable-Keeps k a p h = ground (
  arith,
  h a,
  count-delete k a p.disabled,
  count-add k a p.available,
  eq_iff a k,
  has-count a p.available,
  has-count a p.disabled,
)

pub step-Keeps : (p : ChannelPool) (c : Call) → IsExclusive p → IsKnown p c → Keeps p (step p c)
unfolding step acquire
step-Keeps p acquires h m k = acquire_from-Keeps k p.available p refl h
step-Keeps p (releases a) h m k = release-Keeps k a p h
step-Keeps p (disables a) h m k = disable-Keeps k a p h m
step-Keeps p (enables a) h m k = enable-Keeps k a p h

pub IsExclusive-of_Keeps : (p q : ChannelPool) → Keeps p q → IsExclusive p → IsExclusive q
IsExclusive-of_Keeps p q e h k = omega (arith, e k, h k)

IsKnown-of_Keeps : (p q : ChannelPool) (c : Call) → Keeps p q → IsKnown p c → IsKnown q c
IsKnown-of_Keeps p q acquires e m = tt
IsKnown-of_Keeps p q (releases a) e m = tt
IsKnown-of_Keeps p q (disables a) e m = e a ∙ m
IsKnown-of_Keeps p q (enables a) e m = tt

pub AreKnown-of_Keeps :
    (p q : ChannelPool) (cs : List Call) → Keeps p q → AreKnown p cs → AreKnown q cs
AreKnown-of_Keeps p q [] e m = tt
AreKnown-of_Keeps p q (c ∷ cs) e m = (IsKnown-of_Keeps p q c e m.0, AreKnown-of_Keeps p q cs e m.1)

run-Keeps : (p : ChannelPool) (cs : List Call) → IsExclusive p → AreKnown p cs → Keeps p (run p cs)
unfolding run
run-Keeps p [] h m k = refl
run-Keeps p (c ∷ cs) h m k =
    let e = step-Keeps p c h m.0 in
    run-Keeps (step p c) cs (IsExclusive-of_Keeps p (step p c) e h)
      (AreKnown-of_Keeps p (step p c) cs e m.1) k
    ∙ e k

create-states :
    (k : String) (addresses : List String)
    → states k (create addresses) ≡ (if KeySet.has k addresses then 1 else 0)
unfolding create count KeySet.has
create-states k addresses = ground (arith, count-add_all k [] addresses)

pub create-IsExclusive : (addresses : List String) → IsExclusive (create addresses)
create-IsExclusive addresses k = ground (arith, create-states k addresses)

-- After any calls whose `disable` names an address of the pool, an address that was given to the
-- constructor is in exactly one of the three states, and any other string is in none.
pub run-create-states :
    (addresses : List String) (cs : List Call)
    → AreKnown (create addresses) cs
    → (k : String)
    → states k (run (create addresses) cs) ≡ (if KeySet.has k addresses then 1 else 0)
run-create-states addresses cs m k =
    run-Keeps (create addresses) cs (create-IsExclusive addresses) m k ∙ create-states k addresses
