-- ===== src/Payability/Resolver.antt =====
-- src/payability.ts: createPayabilityResolver, with its caches and the lookups in flight. A lookup that
-- `check` starts ends later, with a verdict or with an exception. Times are milliseconds.
pub mod Freshness
use vellar_facilitator.Base.{
  ℕ, ◌-◌, ◌*◌, Bool, Option, none, some, List, [], ◌∷◌, ◌++◌, ltb, if◌then◌else◌,
}
use vellar_facilitator.Base.Table.{Text, member, adjoin, discard, find, put}
use vellar_facilitator.Payability.{
  Verdict, payable, not_payable, unknown, ClassicIdentity, native, classic, non_sac,
  transient_error, StrKey, Simulation, resolve_classic_identity,
}

abbrev pub default_cache_ttl_ms : ℕ
default_cache_ttl_ms = 5 * 60_000

abbrev pub default_unknown_cache_ttl_ms : ℕ
default_unknown_cache_ttl_ms = 30_000

-- The options that the caches read.
pub record Options : Type 0 where
  pub cache_ttl_ms : ℕ
  pub unknown_cache_ttl_ms : ℕ

-- `?? PAYABILITY_LIMITS.…`.
abbrev or_default : ℕ → Option ℕ → ℕ
or_default n none = n
or_default n (some m) = m

unfoldable pub options_of : Option ℕ → Option ℕ → Options
options_of cache_ttl unknown_ttl = record {
  cache_ttl_ms = or_default default_cache_ttl_ms cache_ttl;
  unknown_cache_ttl_ms = or_default default_unknown_cache_ttl_ms unknown_ttl;
}

pub record Cached : Type 0 where
  pub verdict : Verdict
  pub at : ℕ

pub record Resolver : Type 0 where
  pub identity_cache : List (Text × ClassicIdentity)
  pub verdict_cache : List (Text × Cached)
  pub in_flight : List Text

abbrev pub create : Resolver
create = record { identity_cache = []; verdict_cache = []; in_flight = [] }

-- `${payTo}\u0000${asset}`.
unfoldable pub pair_key : Text → Text → Text
pair_key pay_to asset = pay_to ++ 0 ∷ asset

abbrev pub is_unknown : Verdict → Bool
is_unknown payable = Bool.false
is_unknown not_payable = Bool.false
is_unknown unknown = Bool.true

unfoldable pub ttl_of : Options → Verdict → ℕ
ttl_of o v = if is_unknown v then o.unknown_cache_ttl_ms else o.cache_ttl_ms

-- What `check` gives: a cached verdict, the promise of a lookup in flight, or that of a new one.
pub data Answer : Type 0 where
  cached : Verdict → Answer
  joined : Answer
  started : Answer

unfoldable pub look_up : Text → Resolver → Resolver × Answer
look_up key s =
    if member key s.in_flight
    then (s, joined)
    else (record s { in_flight = adjoin key s.in_flight }, started)

-- `Date.now() - cached.at < ttl`, where a difference below 0 counts as 0.
unfoldable pub serve : Options → ℕ → Text → Option Cached → Resolver → Resolver × Answer
serve o now key none s = look_up key s
serve o now key (some c) s =
    let other = look_up key s in
    if ltb (now - c.at) (ttl_of o c.verdict) then (s, cached c.verdict) else other

unfoldable pub check : Options → ℕ → Text → Text → Resolver → Resolver × Answer
check o now pay_to asset s =
    let key = pair_key pay_to asset in serve o now key (find key s.verdict_cache) s

-- classicIdentityFor: after the cache, and from the outcome of the simulation on.
unfoldable pub learn : Text → ClassicIdentity → Resolver → Resolver
learn asset transient_error s = s
learn asset native s = record s { identity_cache = put asset native s.identity_cache }
learn asset (classic code issuer) s = record s {
  identity_cache = put asset (classic code issuer) s.identity_cache;
}
learn asset non_sac s = record s { identity_cache = put asset non_sac s.identity_cache }

abbrev pub identity_or : Option ClassicIdentity → ClassicIdentity → ClassicIdentity
identity_or none fresh = fresh
identity_or (some i) fresh = i

-- The identity that a lookup goes on with, of what the cache held when it began.
unfoldable pub classic_identity_for : StrKey → Option ClassicIdentity → Simulation → ClassicIdentity
classic_identity_for keys held sim = identity_or held (resolve_classic_identity keys sim)

-- The end of a lookup: `.then`, and `.finally` in any case.
unfoldable pub complete : ℕ → Text → Verdict → Resolver → Resolver
complete now key v s = record s {
  verdict_cache = put key (record { verdict = v; at = now }) s.verdict_cache;
  in_flight = discard key s.in_flight;
}

unfoldable pub abandon : Text → Resolver → Resolver
abandon key s = record s { in_flight = discard key s.in_flight }

-- What can happen, in any order: checks, answers to simulations, ends of lookups.
pub data Event : Type 0 where
  checks : ℕ → Text → Text → Event
  learns : Text → Simulation → Event
  completes : ℕ → Text → Verdict → Event
  abandons : Text → Event

unfoldable pub step : StrKey → Options → Resolver → Event → Resolver
step keys o s (checks now pay_to asset) = (check o now pay_to asset s).0
step keys o s (learns asset sim) = learn asset (resolve_classic_identity keys sim) s
step keys o s (completes now key v) = complete now key v s
step keys o s (abandons key) = abandon key s

unfoldable pub run : StrKey → Options → Resolver → List Event → Resolver
run keys o s [] = s
run keys o s (e ∷ es) = run keys o (step keys o s e) es
