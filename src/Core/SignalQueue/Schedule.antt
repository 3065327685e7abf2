-- ===== src/Core/SignalQueue/Schedule.antt =====
-- Any number of producers and consumers: an interleaving is the list of their critical sections.
use tv_webhook_trader.Shared.{
  ℕ, ◌≤◌, ◌≡◌, refl, Option, none, some, List, [], ◌∷◌, ◌++◌, arith, length, length-append,
  if◌then◌else◌,
}
use mathlib.Core.List.{append-nil, append_assoc}
use tv_webhook_trader.Core.SignalQueue.{
  SignalQueue, Round, blocked, returned, Wake, empty_queue, try_push, try_pop, wait_round, shutdown,
}

pub data Event {ℓ} (A : Type ℓ) : Type ℓ where
  pushes : A → Event A
  pops : Event A
  waits : Wake → Event A
  shuts : Event A

-- The queue with the items that producers were told are in, and those that consumers got.
pub record History {ℓ} (A : Type ℓ) : Type ℓ where
  pub queue : SignalQueue A
  pub accepted : List A
  pub delivered : List A

module _ {ℓ} {A : Type ℓ} where
  abbrev pub kept : Option A → List A
  kept none = []
  kept (some x) = x ∷ []

  abbrev pub got : Round A → List A
  got blocked = []
  got (returned r) = kept r

  pub step : History A → Event A → History A
  step h (pushes x) =
      let r = try_push x h.queue in
      record {
        queue = r.0;
        accepted = if r.1 then h.accepted ++ x ∷ [] else h.accepted;
        delivered = h.delivered;
      }
  step h pops =
      let r = try_pop h.queue in
      record { queue = r.0; accepted = h.accepted; delivered = h.delivered ++ kept r.1 }
  step h (waits w) =
      let r = wait_round w h.queue in
      record { queue = r.0; accepted = h.accepted; delivered = h.delivered ++ got r.1 }
  step h shuts = record h { queue = shutdown h.queue }

  pub run : History A → List (Event A) → History A
  run h [] = h
  run h (e ∷ es) = run (step h e) es

  abbrev pub start : ℕ → History A
  start cap = record { queue = empty_queue cap; accepted = []; delivered = [] }

  pub record IsFifo (h : History A) : Type ℓ where
    pub order : h.accepted ≡ h.delivered ++ h.queue.items
    pub bounded : length h.queue.items ≤ h.queue.max_cap

  step_pops : (h : History A) → IsFifo h → (xs : List A) → h.queue.items ≡ xs → IsFifo (step h pops)
  unfolding step try_pop
  step_pops h v [] e = ground (arith, append-nil h.delivered)
  step_pops h v (x ∷ xs) e = ground (arith, append_assoc h.delivered (x ∷ []) xs)

  step_waits :
      (h : History A) (w : Wake)
      → IsFifo h
      → (xs : List A) → h.queue.items ≡ xs
      → IsFifo (step h (waits w))
  unfolding step wait_round
  step_waits h w v [] e = ground (arith, append-nil h.delivered)
  step_waits h w v (x ∷ xs) e = ground (arith, append_assoc h.delivered (x ∷ []) xs)

  -- Every critical section keeps the order of the items and the bound.
  pub step-IsFifo : (h : History A) (e : Event A) → IsFifo h → IsFifo (step h e)
  unfolding step try_push try_pop wait_round shutdown
  step-IsFifo h (pushes x) v =
      ground (
        arith,
        length-append h.queue.items (x ∷ []),
        append_assoc h.delivered h.queue.items (x ∷ []),
      )
  step-IsFifo h pops v = step_pops h v h.queue.items refl
  step-IsFifo h (waits w) v = step_waits h w v h.queue.items refl
  step-IsFifo h shuts v = ground arith

  pub run-IsFifo : (h : History A) (es : List (Event A)) → IsFifo h → IsFifo (run h es)
  unfolding run
  run-IsFifo h [] v = v
  run-IsFifo h (e ∷ es) v = run-IsFifo (step h e) es (step-IsFifo h e v)

  -- In every interleaving that starts with an empty queue, the items that consumers got are the
  -- first of the accepted ones, in order, and the rest are in the queue, within its capacity.
  pub run-start-IsFifo :
      (cap : ℕ) (es : List (Event A))
      → let h = run (start cap) es in
        (h.accepted ≡ h.delivered ++ h.queue.items) × (length h.queue.items ≤ h.queue.max_cap)
  unfolding empty_queue
  run-start-IsFifo cap es =
      let v = run-IsFifo (start cap) es (record { order = refl; bounded = omega arith }) in
      (v.order, v.bounded)
