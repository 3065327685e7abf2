-- ===== src/Core/SymbolLocks.antt =====
-- include/core/rate_limiter.hpp: classes SymbolLockManager and SymbolLockGuard. The state is the
-- set `m_locked`; every method body is one critical section under `m_mtx`, and a blocked `wait_lock`
-- is a sequence of rounds, as for the signal queue.
pub mod Exclusion
use tv_webhook_trader.Shared.{
  Bool, true, false, List, [], ◌∷◌, Option, none, some, Text, contains, text_eq, if◌then◌else◌,
}
use tv_webhook_trader.Core.SignalQueue.{Wake, notified, timed_out}

abbrev pub Locked : Type 0
Locked = List Text

-- m_locked.erase(symbol)
unfoldable pub remove : Text → Locked → Locked
remove s [] = []
remove s (t ∷ ts) = if text_eq t s then ts else t ∷ remove s ts

-- `insert(symbol).second` says whether the symbol was new.
unfoldable pub try_lock : Text → Locked → Locked × Bool
try_lock s l = if contains l s then (l, false) else (s ∷ l, true)

unfoldable pub unlock : Text → Locked → Locked
unfolding remove
unlock s l = remove s l

-- The first look of `wait_lock`, before it waits: `none` when it has to wait.
unfoldable pub wait_lock_enter : Text → Locked → Locked × Option Bool
wait_lock_enter s l = if contains l s then (l, none) else (s ∷ l, some true)

-- A round of the wait: the predicate is read under the lock. `none` when it goes on waiting.
unfoldable pub wait_lock_round : Text → Wake → Locked → Locked × Option Bool
wait_lock_round s notified l = if contains l s then (l, none) else (s ∷ l, some true)
wait_lock_round s timed_out l = if contains l s then (l, some false) else (s ∷ l, some true)

-- ~SymbolLockGuard: the guard locks nothing when it is made.
unfoldable pub guard_end : Text → Locked → Locked
unfolding unlock
guard_end s l = unlock s l
