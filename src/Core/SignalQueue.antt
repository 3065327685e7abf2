-- ===== src/Core/SignalQueue.antt =====
-- include/core/spsc_queue.hpp: class MPSCQueue. Each method body is one critical section under
-- `m_mtx`, so a method is a function on the state; a blocked `wait_pop` is a sequence of rounds, one
-- for each time that the condition variable wakes it or lets its timeout pass.
pub mod Schedule
pub mod Draining
use tv_webhook_trader.Shared.{
  ℕ, ◌≡◌, Bool, true, false, ◌||◌, not, Option, none, some, List, [], ◌∷◌, ◌++◌, leb, length,
  if◌then◌else◌,
}

pub record SignalQueue {ℓ} (A : Type ℓ) : Type ℓ where
  pub items : List A
  pub max_cap : ℕ
  pub is_shutdown : Bool

-- What one round of a waiting consumer comes to: it goes on waiting, or the call returns.
pub data Round {ℓ} (A : Type ℓ) : Type ℓ where
  blocked : Round A
  returned : Option A → Round A

-- Why the consumer woke up: a notification or a spurious wake-up, or the end of its timeout.
pub data Wake : Type 0 where
  notified timed_out : Wake

module _ {ℓ} {A : Type ℓ} where
  pub empty_queue : ℕ → SignalQueue A
  empty_queue cap = record { items = []; max_cap = cap; is_shutdown = false }

  pub try_push : A → SignalQueue A → SignalQueue A × Bool
  try_push x q =
      if leb q.max_cap (length q.items)
      then (q, false)
      else (record q { items = q.items ++ x ∷ [] }, true)

  take_front : SignalQueue A → List A → SignalQueue A × Option A
  take_front q [] = (q, none)
  take_front q (x ∷ xs) = (record q { items = xs }, some x)

  pub try_pop : SignalQueue A → SignalQueue A × Option A
  unfolding take_front
  try_pop q = take_front q q.items

  -- !m_queue.empty() || m_shutdown
  abbrev pub is_ready : List A → Bool → Bool
  is_ready [] s = s
  is_ready (x ∷ xs) s = true

  wait_round_on : SignalQueue A → Bool → Wake → SignalQueue A × Round A
  unfolding take_front
  wait_round_on q true w = let r = take_front q q.items in (r.0, returned r.1)
  wait_round_on q false notified = (q, blocked)
  wait_round_on q false timed_out = (q, returned none)

  pub wait_round : Wake → SignalQueue A → SignalQueue A × Round A
  unfolding wait_round_on
  wait_round w q = wait_round_on q (is_ready q.items q.is_shutdown) w

  pub shutdown : SignalQueue A → SignalQueue A
  shutdown q = record q { is_shutdown = true }

  pub empty : SignalQueue A → Bool
  empty q = not (is_ready q.items false)

  pub size : SignalQueue A → ℕ
  size q = length q.items
