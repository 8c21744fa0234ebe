-- ===== src/Pool.antt =====
-- src/channelPool.ts: the channel-account pool. Each of its three sets is a `Set<string>`, held in
-- insertion order; a call returns the pool after it. `acquire` is `none` where the source throws
-- PoolExhaustedError, its only error.
pub mod Partition
pub mod Lease
pub mod Capacity
mod Tests
use vellar_facilitator.Base.{
  ℕ, String, Bool, Option, none, some, List, [], ◌∷◌, ◌++◌, not, ◌&&◌, length, if◌then◌else◌,
}
use vellar_facilitator.Base.KeySet

pub record ChannelPool : Type 0 where
  pub available : List String
  pub in_use : List String
  pub disabled : List String

pub record ChannelPoolStatus : Type 0 where
  pub available : ℕ
  pub in_use : ℕ
  pub disabled : ℕ

-- The constructor.
unfoldable pub create : List String → ChannelPool
create addresses = record { available = KeySet.add_all [] addresses; in_use = []; disabled = [] }

-- The body of `acquire`, on what the iterator over `available` yields.
unfoldable pub acquire_from : List String → ChannelPool → Option (String × ChannelPool)
acquire_from [] p = none
acquire_from (address ∷ _) p = some (
  address,
  record p { available = KeySet.delete address p.available; in_use = KeySet.add address p.in_use },
)

unfoldable pub acquire : ChannelPool → Option (String × ChannelPool)
unfolding acquire_from
acquire p = acquire_from p.available p

unfoldable pub release : String → ChannelPool → ChannelPool
release a p =
    if not (KeySet.has a p.available)
      && not (KeySet.has a p.in_use)
      && not (KeySet.has a p.disabled)
    then p
    else if KeySet.has a p.disabled
    then p
    else record p { in_use = KeySet.delete a p.in_use; available = KeySet.add a p.available }

unfoldable pub disable : String → ChannelPool → ChannelPool
disable a p = record {
  available = KeySet.delete a p.available;
  in_use = KeySet.delete a p.in_use;
  disabled = KeySet.add a p.disabled;
}

unfoldable pub enable : String → ChannelPool → ChannelPool
enable a p =
    if not (KeySet.has a p.disabled)
    then p
    else record p { disabled = KeySet.delete a p.disabled; available = KeySet.add a p.available }

pub status : ChannelPool → ChannelPoolStatus
status p = record {
  available = length p.available;
  in_use = length p.in_use;
  disabled = length p.disabled;
}

-- The public calls, as data.
pub data Call : Type 0 where
  acquires : Call
  releases disables enables : String → Call

-- The pool after a call; a call that throws leaves it as it was.
abbrev pub after : ChannelPool → Option (String × ChannelPool) → ChannelPool
after p none = p
after p (some (_, q)) = q

unfoldable pub step : ChannelPool → Call → ChannelPool
step p acquires = after p (acquire p)
step p (releases a) = release a p
step p (disables a) = disable a p
step p (enables a) = enable a p

unfoldable pub run : ChannelPool → List Call → ChannelPool
run p [] = p
run p (c ∷ cs) = run (step p c) cs
