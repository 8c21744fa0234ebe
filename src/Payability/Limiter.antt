-- ===== src/Payability/Limiter.antt =====
-- src/payability.ts: ConcurrencyLimiter. A call of `run` is a number. A waiter whose promise was
-- resolved goes on in a later microtask: until then it is `woken`, and other calls may come between.
pub mod Order
pub mod Drain
pub mod Overrun
use vellar_facilitator.Base.{ℕ, suc, ◌-◌, Bool, List, [], ◌∷◌, ◌++◌, leb, ◌==◌, if◌then◌else◌}

-- `started` lists the calls whose `fn` was called.
pub record Limiter : Type 0 where
  pub active : ℕ
  pub queue : List ℕ
  pub woken : List ℕ
  pub started : List ℕ

abbrev pub idle : Limiter
idle = record { active = 0; queue = []; woken = []; started = [] }

-- `this.active++`, and the call of `fn`.
unfoldable pub enter : ℕ → Limiter → Limiter
enter i l = record l { active = suc l.active; started = l.started ++ i ∷ [] }

unfoldable pub call : ℕ → ℕ → Limiter → Limiter
call max i l = if leb max l.active then record l { queue = l.queue ++ i ∷ [] } else enter i l

-- `this.queue.shift()`.
unfoldable pub wake : List ℕ → Limiter → Limiter
wake [] l = l
wake (i ∷ rest) l = record l { queue = rest; woken = l.woken ++ i ∷ [] }

-- The `finally` block, of a call that is running.
unfoldable pub finish : Limiter → Limiter
finish l = if l.active == 0 then l else wake l.queue (record l { active = l.active - 1 })

-- The first waiter that was woken goes on.
unfoldable pub go_on : List ℕ → Limiter → Limiter
go_on [] l = l
go_on (i ∷ rest) l = enter i (record l { woken = rest })

unfoldable pub continue : Limiter → Limiter
continue l = go_on l.woken l

pub data Event : Type 0 where
  calls : ℕ → Event
  finishes continues : Event

unfoldable pub step : ℕ → Limiter → Event → Limiter
step max l (calls i) = call max i l
step max l finishes = finish l
step max l continues = continue l

unfoldable pub run : ℕ → Limiter → List Event → Limiter
run max l [] = l
run max l (e ∷ es) = run max (step max l e) es
