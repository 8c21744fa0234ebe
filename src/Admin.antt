-- ===== src/Admin.antt =====
-- src/admin.ts: the KillSwitch, timingSafeEqual and hasValidAdminCredential. The audit log's writes and
-- the alert lines have no part here.
pub mod Credential
pub mod Switch
mod Tests
use vellar_facilitator.Base.{
  ℕ, zero, suc, get_elem?, Bool, true, false, not, ◌&&◌, ◌||◌, Option, none, some, List, [], ◌∷◌,
  ltb, length, ◌==◌, if◌then◌else◌,
}
use vellar_facilitator.Base.Table.{Text}
use Prim.Native.Nat.{bit_or, bit_xor}

pub record KillSwitchState : Type 0 where
  pub enabled : Bool
  pub reason : Option Text
  pub actor : Option Text
  pub updated_at : ℕ

-- The cache, the row of the store, and the states of the calls of toggle that have written their row and
-- have not gone on yet.
pub record KillSwitch : Type 0 where
  pub state : KillSwitchState
  pub stored : Option KillSwitchState
  pub awaiting : List KillSwitchState

abbrev pub seed : Bool → Text → ℕ → KillSwitchState
seed default_enabled note now = record {
  enabled = default_enabled;
  reason = if default_enabled then some note else none;
  actor = none;
  updated_at = now;
}

abbrev pub existing_or : Option KillSwitchState → KillSwitchState → KillSwitchState
existing_or none initial = initial
existing_or (some existing) initial = existing

-- hydrate, with the text of the reason that a seed gives.
unfoldable pub hydrate : Option KillSwitchState → Bool → Text → ℕ → KillSwitch
hydrate stored default_enabled note now = record {
  state = existing_or stored (seed default_enabled note now);
  stored = stored;
  awaiting = [];
}

-- toggle up to its wait: the write of the row, which may fail, and then the call throws.
unfoldable pub begin_toggle : KillSwitchState → Bool → KillSwitch → KillSwitch
begin_toggle next true k = record k { stored = some next; awaiting = next ∷ k.awaiting }
begin_toggle next false k = k

abbrev pub drop_at {ℓ} : {A : Type ℓ} → ℕ → List A → List A
drop_at i [] = []
drop_at zero (x ∷ xs) = xs
drop_at (suc i) (x ∷ xs) = x ∷ drop_at i xs

abbrev pub cache_at : ℕ → Option KillSwitchState → KillSwitch → KillSwitch
cache_at i none k = k
cache_at i (some next) k = record k { state = next; awaiting = drop_at i k.awaiting }

-- toggle after its wait, of any of the calls that wait.
unfoldable pub end_toggle : ℕ → KillSwitch → KillSwitch
end_toggle i k = cache_at i (get_elem? k.awaiting i) k

-- The loop of timingSafeEqual.
unfoldable pub diff_from : ℕ → Text → Text → ℕ
diff_from diff [] b = diff
diff_from diff (x ∷ a) [] = diff
diff_from diff (x ∷ a) (y ∷ b) = diff_from (bit_or diff (bit_xor x y)) a b

unfoldable pub timing_safe_equal : Text → Text → Bool
timing_safe_equal a b = if not (length a == length b) then false else diff_from 0 a b == 0

-- The header, of which an array counts by its first, and the cookie as it was signed.
unfoldable pub header_matches : Text → Option Text → Bool
header_matches secret none = false
header_matches secret (some header) = ltb 0 (length header) && timing_safe_equal header secret

unfoldable pub cookie_matches : Text → Option Text → Bool
cookie_matches secret none = false
cookie_matches secret (some cookie) = timing_safe_equal cookie secret

unfoldable pub has_valid_admin_credential : Text → Option Text → Option Text → Bool
has_valid_admin_credential secret header cookie =
    if header_matches secret header then true else cookie_matches secret cookie
