-- ===== src/Settle/Slots.antt =====
-- src/server.ts: /settle gives its channel account back.
use vellar_facilitator.Base.{
  ℕ, zero, suc, ◌≡◌, ◌⊎◌, inl, inr, refl, sym, ◌∙◌, ap, subst, String, List, true, false, Option,
  none, some, arith, eq_iff, if_cases, if◌then◌else◌,
}
use vellar_facilitator.Base.KeySet
use vellar_facilitator.Base.KeySet.{count, count-add, count-delete, has-count}
use vellar_facilitator.Pool.{ChannelPool, acquire, release}
use vellar_facilitator.Pool.Lease.{acquire_lem}
use vellar_facilitator.Pool.Partition.{IsExclusive}
use vellar_facilitator.Retry.{is_skew}
use vellar_facilitator.Settle.{
  Result, Attempt, Captured, signed, capture, wants_retry, attempt_settle, give_back,
}

-- Each set of the pool holds the same addresses, each as often.
abbrev pub SameSets : ChannelPool → ChannelPool → Type 0
SameSets p q =
    (k : String)
    → (count k q.available ≡ count k p.available)
      × (count k q.in_use ≡ count k p.in_use)
      × (count k q.disabled ≡ count k p.disabled)

-- A release of an address that is in use and not disabled.
release_used :
    (a : String) (q : ChannelPool)
    → KeySet.has a q.in_use ≡ true
    → KeySet.has a q.disabled ≡ false
    → release a q
      ≡ record q { in_use = KeySet.delete a q.in_use; available = KeySet.add a q.available }
unfolding release
release_used a q used enabled = ground (arith, used, enabled)

taken_back :
    (k a : String) (xs : List String)
    → count a xs ≡ 1
    → count k (KeySet.add a (KeySet.delete a xs)) ≡ count k xs
taken_back k a xs once = ground (
  arith,
  once,
  count-add k a (KeySet.delete a xs),
  has-count a (KeySet.delete a xs),
  count-delete a a xs,
  count-delete k a xs,
  eq_iff a k,
  eq_iff a a,
)

given_up :
    (k a : String) (xs : List String)
    → count a xs ≡ 0
    → count k (KeySet.delete a (KeySet.add a xs)) ≡ count k xs
given_up k a xs absent =
    ground (arith, absent, count-delete k a (KeySet.add a xs), count-add k a xs, eq_iff a k)

release-SameSets :
    (p q : ChannelPool) (a : String)
    → IsExclusive p
    → acquire p ≡ some (a, q)
    → SameSets p (release a q)
release-SameSets p q a ex e k =
    let l = acquire_lem p a q e in
    let once = ex a in
    let used : KeySet.has a q.in_use ≡ true = ground (
      arith,
      has-count a q.in_use,
      ap (count a) l.2,
      count-add a a p.in_use,
      eq_iff a a,
      has-count a p.in_use,
    ) in
    let enabled : KeySet.has a q.disabled ≡ false =
      ground (arith, has-count a q.disabled, ap (count a) l.3, once, l.0) in
    let out = release_used a q used enabled in
    (
      ap (λ r. count k r.available) out
          ∙ ap (λ xs. count k (KeySet.add a xs)) l.1
          ∙ taken_back k a p.available (omega (arith, once, l.0)),
      ap (λ r. count k r.in_use) out
          ∙ ap (λ xs. count k (KeySet.delete a xs)) l.2
          ∙ given_up k a p.in_use (omega (arith, once, l.0)),
      ap (λ r. count k r.disabled) out ∙ ap (count k) l.3,
    )

-- A call of settle() that does not throw once it has come to selectSigner, and does not end with the
-- rejection that is worth a retry then.
abbrev pub IsTame : Attempt → Type 0
IsTame a =
    (a.selects_signer ≡ false)
    ⊎ ((r : Result) × (a.result ≡ some r) × (is_skew r.error_reason ≡ false))

SameSets-refl : (p : ChannelPool) → SameSets p p
SameSets-refl p k = (refl, refl, refl)

-- The capture of one call, and what is left to give back.
signed-SameSets :
    (p : ChannelPool) (r : Result) (m : Option (String × ChannelPool))
    → IsExclusive p
    → acquire p ≡ m
    → SameSets p (give_back (signed (some r) p m).1.acquired_address (signed (some r) p m).0)
signed-SameSets p r none ex e = SameSets-refl p
signed-SameSets p r (some (a, q)) ex e = release-SameSets p q a ex e

-- What a call leaves: the pool as it was, with nothing to give back; or the last call.
data Left (p : ChannelPool) (out : ChannelPool × Captured) : Type 0 where
  untouched : out.0 ≡ p → out.1.acquired_address ≡ none → Left p out
  final :
      wants_retry out.1.result ≡ false
      → SameSets p (give_back out.1.acquired_address out.0)
      → Left p out

signed-Left :
    (p : ChannelPool) (r : Result) (m : Option (String × ChannelPool))
    → IsExclusive p
    → is_skew r.error_reason ≡ false
    → acquire p ≡ m
    → Left p (signed (some r) p m)
signed-Left p r none ex calm e = final calm (SameSets-refl p)
signed-Left p r (some (a, q)) ex calm e = final calm (release-SameSets p q a ex e)

capture-Left : (a : Attempt) (p : ChannelPool) → IsExclusive p → IsTame a → Left p (capture a p)
unfolding capture
capture-Left a p ex (inl bare) =
    if_cases (Left p) a.selects_signer (λ signs. absurd (ground (arith, bare, signs)))
      (λ _. untouched refl refl)
capture-Left a p ex (inr (r, ends, calm)) =
    if_cases (Left p) a.selects_signer
      (λ _.
        subst (λ m. Left p (signed m p (acquire p))) (sym ends)
          (signed-Left p r (acquire p) ex calm refl))
      (λ _. untouched refl refl)

Left-SameSets :
    (p : ChannelPool) (out : ChannelPool × Captured)
    → Left p out
    → SameSets p (give_back out.1.acquired_address out.0)
Left-SameSets p out (untouched same bare) =
    subst (λ m. SameSets p (give_back m out.0)) (sym bare)
      (subst (λ q. SameSets p q) (sym same) (SameSets-refl p))
Left-SameSets p out (final calm kept) = kept

-- The calls of settle() for one request, and the return of the channel account, leave the pool's three
-- sets as they were, for any number of retries, if the pool holds no address twice and each call, once
-- it has come to selectSigner, neither throws nor ends with the rejection that is worth a retry.
pub attempt_settle-SameSets :
    (left : ℕ) (script : ℕ → Attempt) (p : ChannelPool)
    → IsExclusive p
    → ((n : ℕ) → IsTame (script n))
    → SameSets p (
        give_back
          (attempt_settle left script p).1.acquired_address
          (attempt_settle left script p).0)
unfolding attempt_settle
attempt_settle-SameSets zero script p ex tame =
    Left-SameSets p (capture (script 0) p) (capture-Left (script 0) p ex (tame 0))
attempt_settle-SameSets (suc left) script p ex tame =
    tried (capture (script 0) p) (capture-Left (script 0) p ex (tame 0))
      (attempt_settle-SameSets left (λ n. script (suc n)) p ex (λ n. tame (suc n)))
  where
    again : ChannelPool → ChannelPool × Captured
    again q = attempt_settle left (λ n. script (suc n)) q

    Restores : ChannelPool × Captured → Type 0
    Restores o = SameSets p (give_back o.1.acquired_address o.0)

    tried :
        (out : ChannelPool × Captured)
        → Left p out
        → SameSets p (give_back (again p).1.acquired_address (again p).0)
        → SameSets p (
            give_back
              (if wants_retry out.1.result then again out.0 else out).1.acquired_address
              (if wants_retry out.1.result then again out.0 else out).0)
    tried out (untouched same bare) rest =
        if_cases Restores (wants_retry out.1.result)
          (λ _. subst (λ q. Restores (again q)) (sym same) rest)
          (λ _. Left-SameSets p out (untouched same bare))
    tried out (final calm kept) rest =
        if_cases Restores (wants_retry out.1.result) (λ wants. absurd (ground (arith, calm, wants)))
          (λ _. kept)
