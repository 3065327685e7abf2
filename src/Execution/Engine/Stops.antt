-- ===== src/Execution/Engine/Stops.antt =====
-- include/execution/execution_engine.hpp: what handle_sl does, on every branch.
use tv_webhook_trader.Shared.{
  ◌≡◌, ◌⊎◌, Bool, true, false, if◌then◌else◌, ◌++◌, ℕ, Text, codes, text_eq,
}
use tv_webhook_trader.Shared.Double.{Double, nought}
use tv_webhook_trader.Webhook.Signal.{WebhookSignal}
use tv_webhook_trader.Risk.Position.{Positions}
use tv_webhook_trader.Execution.Trades.{record_close}
use tv_webhook_trader.Execution.Positions.First.{NoneHeld, FirstOf}
use tv_webhook_trader.Execution.Engine.{Engine, Moment}

module _ {F : Type 0} ⦃d : Double F⦄ where
  -- Neither the positions nor the trades, the balance or the scores have changed.
  abbrev pub IsUntouched : Engine F → Engine F → Type 0
  IsUntouched e e' =
      (e'.positions ≡ e.positions) × (e'.recorder ≡ e.recorder) × (e'.scorer ≡ e.scorer)

  -- The side that a stop-loss of this direction closes.
  abbrev pub stopped_side : WebhookSignal F → Text
  stopped_side sig =
      if text_eq sig.signal_direction (codes "bull") then codes "long" else codes "short"

  -- The exchange's answer to the k-th request to close.
  abbrev pub close_answer : Moment F → WebhookSignal F → ℕ → Bool
  close_answer m sig k = m.flash_close_position sig.symbol (stopped_side sig) k

  -- No lock, or nothing to stop.
  abbrev pub IsIdle : Moment F → WebhookSignal F → Positions F → Type 0
  IsIdle m sig ps = (m.has_lock ≡ false) ⊎ NoneHeld sig.symbol (stopped_side sig) ps

  -- The first position of the symbol and the side is real, and the exchange refuses three times.
  pub record IsRefused (m : Moment F) (sig : WebhookSignal F) (ps : Positions F) : Type 0 where
    pub first : FirstOf sig.symbol (stopped_side sig) ps
    pub is_real : first.position.is_real ≡ true
    pub answers :
        (close_answer m sig 1 ≡ false)
        × (close_answer m sig 2 ≡ false)
        × (close_answer m sig 3 ≡ false)

  -- The first position of the symbol and the side is on paper, or the exchange agrees to close it in
  -- one of three attempts: it alone goes, and its close is recorded at the signal's price, or at its own
  -- stop-loss where the signal has none.
  pub record IsStopped (m : Moment F) (sig : WebhookSignal F) (e e' : Engine F) : Type 0 where
    pub first : FirstOf sig.symbol (stopped_side sig) e.positions
    pub settled :
        (first.position.is_real ≡ false)
        ⊎ (close_answer m sig 1 ≡ true)
        ⊎ (close_answer m sig 2 ≡ true)
        ⊎ (close_answer m sig 3 ≡ true)
    pub left : e'.positions ≡ first.before ++ first.behind
    pub recorded :
        e'.recorder
        ≡ (record_close first.position
            (if d.lt nought sig.price then sig.price else first.position.sl_price)
            (codes "SL")
            nought
            e.recorder).0

  abbrev pub Verdict : Moment F → WebhookSignal F → Engine F → Engine F → Type 0
  Verdict m sig e e' =
      (IsIdle m sig e.positions × IsUntouched e e')
      ⊎ (IsRefused m sig e.positions × IsUntouched e e')
      ⊎ IsStopped m sig e e'
