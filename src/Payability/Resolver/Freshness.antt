-- ===== src/Payability/Resolver/Freshness.antt =====
-- src/payability.ts: what the caches of the resolver hold.
use vellar_facilitator.Base.{
  ℕ, ◌-◌, ◌<◌, ◌≡◌, ◌≢◌, refl, sym, ◌∙◌, ap, Bool, true, false, Option, none, some, List, [], ◌∷◌,
  arith, ltb, ltb→lt, subst, if◌then◌else◌,
}
use vellar_facilitator.Base.Text.{same_text}
use vellar_facilitator.Base.Table.{Text, find, find-put}
use vellar_facilitator.Payability.{
  Verdict, ClassicIdentity, native, classic, non_sac, transient_error, StrKey,
  resolve_classic_identity,
}
use vellar_facilitator.Payability.Resolver.{
  Options, Cached, Resolver, create, pair_key, ttl_of, cached, look_up, serve, check, learn,
  complete, abandon, Event, checks, learns, completes, abandons, step, run,
}

-- The last end of a lookup of the key in a history, after `before`.
abbrev pub last_completed : Text → Option Cached → List Event → Option Cached
last_completed k before [] = before
last_completed k before (checks now pay_to asset ∷ es) = last_completed k before es
last_completed k before (learns asset sim ∷ es) = last_completed k before es
last_completed k before (completes now key v ∷ es) =
    last_completed k (if same_text key k then some (record { verdict = v; at = now }) else before)
      es
last_completed k before (abandons key ∷ es) = last_completed k before es

look_up-verdicts : (key : Text) (s : Resolver) → (look_up key s).0.verdict_cache ≡ s.verdict_cache
unfolding look_up
look_up-verdicts key s = ground arith

serve-verdicts :
    (o : Options) (now : ℕ) (key : Text) (m : Option Cached) (s : Resolver)
    → (serve o now key m s).0.verdict_cache ≡ s.verdict_cache
unfolding serve
serve-verdicts o now key none s = look_up-verdicts key s
serve-verdicts o now key (some c) s = ground (arith, look_up-verdicts key s)

learn-verdicts :
    (asset : Text) (i : ClassicIdentity) (s : Resolver)
    → (learn asset i s).verdict_cache ≡ s.verdict_cache
unfolding learn
learn-verdicts asset native s = refl
learn-verdicts asset (classic code issuer) s = refl
learn-verdicts asset non_sac s = refl
learn-verdicts asset transient_error s = refl

pub run-verdicts :
    (keys : StrKey) (o : Options) (k : Text) (s : Resolver) (es : List Event)
    → find k (run keys o s es).verdict_cache ≡ last_completed k (find k s.verdict_cache) es
unfolding run step complete abandon check
run-verdicts keys o k s [] = refl
run-verdicts keys o k s (checks now pay_to asset ∷ es) =
    run-verdicts keys o k (step keys o s (checks now pay_to asset)) es
    ∙ ap (λ m. last_completed k (find k m) es)
        (serve-verdicts o now (pair_key pay_to asset) (find (pair_key pay_to asset) s.verdict_cache)
          s)
run-verdicts keys o k s (learns asset sim ∷ es) =
    run-verdicts keys o k (step keys o s (learns asset sim)) es
    ∙ ap (λ m. last_completed k (find k m) es)
        (learn-verdicts asset (resolve_classic_identity keys sim) s)
run-verdicts keys o k s (completes now key v ∷ es) =
    run-verdicts keys o k (complete now key v s) es
    ∙ ap (λ m. last_completed k m es)
        (find-put key k (record { verdict = v; at = now }) s.verdict_cache)
run-verdicts keys o k s (abandons key ∷ es) = run-verdicts keys o k (abandon key s) es

look_up-uncached : (key : Text) (s : Resolver) (v : Verdict) → (look_up key s).1 ≢ cached v
unfolding look_up
look_up-uncached key s v = grind arith

serve-cached :
    (o : Options) (now : ℕ) (key : Text) (m : Option Cached) (s : Resolver) (v : Verdict)
    → (serve o now key m s).1 ≡ cached v
    → (c : Cached) × (m ≡ some c) × (c.verdict ≡ v) × (now - c.at < ttl_of o v)
unfolding serve
serve-cached o now key none s v e = absurd (look_up-uncached key s v e)
serve-cached o now key (some c) s v e = served (ltb (now - c.at) (ttl_of o c.verdict)) refl e
  where
    served :
        (b : Bool)
        → ltb (now - c.at) (ttl_of o c.verdict) ≡ b
        → (if b then (s, cached c.verdict) else look_up key s).1 ≡ cached v
        → (d : Cached) × (some c ≡ some d) × (d.verdict ≡ v) × (now - d.at < ttl_of o v)
    served true fresh e =
        let same : c.verdict ≡ v = cc in
        (
          c,
          refl,
          same,
          subst (λ w. now - c.at < ttl_of o w) same
              (ltb→lt (now - c.at) (ttl_of o c.verdict) fresh),
        )
    served false fresh e = absurd (look_up-uncached key s v e)

-- A verdict that `check` serves from its cache is that of the last lookup of the pair that ended, less
-- than its time to live ago: the short one if the verdict is unknown.
pub check-fresh :
    (keys : StrKey) (o : Options) (es : List Event) (now : ℕ) (pay_to asset : Text) (v : Verdict)
    → (check o now pay_to asset (run keys o create es)).1 ≡ cached v
    → (c : Cached) × (last_completed (pair_key pay_to asset) none es ≡ some c)
      × (c.verdict ≡ v)
      × (now - c.at < ttl_of o v)
unfolding check
check-fresh keys o es now pay_to asset v e =
    let key = pair_key pay_to asset in
    let c =
      serve-cached o now key (find key (run keys o create es).verdict_cache) (run keys o create es)
        v e in
    (c.0, sym (run-verdicts keys o key create es) ∙ c.1, c.2, c.3)
