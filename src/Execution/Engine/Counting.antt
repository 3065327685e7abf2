-- ===== src/Execution/Engine/Counting.antt =====
-- What becomes of an entry is counted once.
use tv_webhook_trader.Shared.{ℕ, ◌+◌, ◌≡◌, ◌⊎◌, Bool, true, false, arith}
use tv_webhook_trader.Shared.Double.{Double}
use tv_webhook_trader.Shared.Sorter.{Sorter}
use tv_webhook_trader.Webhook.Signal.{WebhookSignal, SignalType}
use tv_webhook_trader.Execution.Engine.{Engine, EngineConfig, Moment}
use tv_webhook_trader.Execution.Engine.Gates.{Stop, skip, risk_skip, learner_skip}
use tv_webhook_trader.Execution.Engine.Entry.{
  stopped, conclude_order, numbered, ordered, place_entry, handle_entry,
}
use tv_webhook_trader.Execution.Engine.Signals.{
  is_spot, by_type, route, routed, tracked, process_signal,
}
use tv_webhook_trader.Execution.Engine.Paths.{handle_entry-cases, place_entry-cases}

abbrev pub IsEntry : SignalType → Type 0
IsEntry t = (t ≡ SignalType.entry) ⊎ (t ≡ SignalType.re_entry)

module _ {F : Type 0} where
  -- The entries that were executed, rejected, skipped or stopped as a risk.
  abbrev pub outcomes : Engine F → ℕ
  outcomes e = e.orders_executed + e.orders_rejected + e.orders_skipped + e.risk_skips

  outcomes-stopped :
      (m : Moment F) (stop : Stop) (sig : WebhookSignal F) (e : Engine F)
      → outcomes (stopped m stop sig e) ≡ outcomes e + 1
  unfolding stopped
  outcomes-stopped m skip sig e = omega arith
  outcomes-stopped m risk_skip sig e = omega arith
  outcomes-stopped m learner_skip sig e = omega arith

module _ {F : Type 0} ⦃d : Double F⦄ where
  outcomes-conclude_order :
      (c : EngineConfig F) (m : Moment F) (sig : WebhookSignal F) (e0 e : Engine F) (b : Bool)
      → outcomes (conclude_order c m sig e0 e b) ≡ outcomes e + 1
  unfolding conclude_order
  outcomes-conclude_order c m sig e0 e false = omega arith
  outcomes-conclude_order c m sig e0 e true = omega arith

  outcomes-place_entry :
      (c : EngineConfig F) (m : Moment F) (sig : WebhookSignal F) (e0 e : Engine F)
      → outcomes (place_entry c m sig e0 e).0 ≡ outcomes e + 1
  unfolding numbered ordered
  outcomes-place_entry c m sig e0 e =
      place_entry-cases (λ r. outcomes r.0 ≡ outcomes e + 1) c m sig e0 e (omega arith)
        (omega arith) (λ _ _. outcomes-conclude_order c m sig e0 _ _)

  module _ ⦃s : Sorter⦄ where
    outcomes-handle_entry :
        (c : EngineConfig F) (m : Moment F) (sig : WebhookSignal F) (e : Engine F)
        → outcomes (handle_entry c m sig e).0 ≡ outcomes e + 1
    outcomes-handle_entry c m sig e =
        handle_entry-cases (λ r. outcomes r.0 ≡ outcomes e + 1) c m sig e
          (λ stop. outcomes-stopped m stop sig e) (omega arith)
          (λ _ _. outcomes-place_entry c m sig e _)

    outcomes-by_type :
        (t : SignalType) (c : EngineConfig F) (m : Moment F) (sig : WebhookSignal F) (e : Engine F)
        → IsEntry t
        → outcomes (by_type t c m sig e).0 ≡ outcomes e + 1
    unfolding by_type
    outcomes-by_type SignalType.entry c m sig e t = outcomes-handle_entry c m sig e
    outcomes-by_type SignalType.re_entry c m sig e t = outcomes-handle_entry c m sig e
    outcomes-by_type SignalType.tp c m sig e t = absurd (ground arith)
    outcomes-by_type SignalType.sl c m sig e t = absurd (ground arith)
    outcomes-by_type SignalType.unknown c m sig e t = absurd (ground arith)

    -- Every futures signal that enters, whatever it holds and whatever the state of the engine and the
    -- answers of the exchange, is counted once: as executed, as rejected, as skipped or as a risk skip.
    pub process_signal-outcomes :
        (c : EngineConfig F) (m : Moment F) (fp : ℕ) (sig : WebhookSignal F) (e : Engine F)
        → IsEntry sig.sig_type
        → is_spot sig ≡ false
        → outcomes (process_signal c m fp sig e).0 ≡ outcomes e + 1
    unfolding process_signal route routed tracked
    process_signal-outcomes c m fp sig e t futures =
        ground (arith, outcomes-by_type sig.sig_type c m sig (routed m fp sig e) t)
