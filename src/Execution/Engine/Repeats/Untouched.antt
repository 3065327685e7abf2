-- ===== src/Execution/Engine/Repeats/Untouched.antt =====
-- What leaves the fingerprints as they are: every handler, the rescoring and the import of trades.
use tv_webhook_trader.Shared.{
  ℕ, ◌≡◌, refl, Bool, true, false, List, Option, none, some, Text, arith,
}
use tv_webhook_trader.Shared.Double.{Double}
use tv_webhook_trader.Shared.Sorter.{Sorter}
use tv_webhook_trader.Webhook.Signal.{WebhookSignal, SignalType}
use tv_webhook_trader.Risk.Position.{ManagedPosition}
use tv_webhook_trader.Execution.Trades.{TradeRecord}
use tv_webhook_trader.Execution.Positions.{find_and_prepare_ws_close}
use tv_webhook_trader.Execution.Engine.{Engine, EngineConfig, Moment}
use tv_webhook_trader.Execution.Engine.Gates.{Stop, skip, risk_skip, learner_skip}
use tv_webhook_trader.Execution.Engine.Entry.{
  handle_entry, stopped, conclude_order, ordered, numbered,
}
use tv_webhook_trader.Execution.Engine.Closing.{
  WsPositionUpdate, book_tp, book_sl, handle_tp, handle_sl, on_ws_position, score_close,
  book_ws_close,
}
use tv_webhook_trader.Execution.Engine.Manual.{import_trades}
use tv_webhook_trader.Execution.Engine.Spot.{
  handle_spot_signal, spot_by_type, handle_spot_entry, handle_spot_exit,
}
use tv_webhook_trader.Execution.Engine.Signals.{route, rescored}
use tv_webhook_trader.Execution.Engine.Paths.{
  handle_entry-cases, place_entry-cases, handle_tp-cases, handle_sl-cases, by_type-cases,
}

module _ {F : Type 0} where
  unfoldable pub AreSame : Engine F → Engine F → Type 0
  AreSame e e' = e'.recent_fingerprints ≡ e.recent_fingerprints

  stopped-AreSame :
      (m : Moment F) (stop : Stop) (sig : WebhookSignal F) (e : Engine F)
      → AreSame e (stopped m stop sig e)
  unfolding AreSame stopped
  stopped-AreSame m skip sig e = refl
  stopped-AreSame m risk_skip sig e = refl
  stopped-AreSame m learner_skip sig e = refl

module _ {F : Type 0} ⦃d : Double F⦄ where
  spot_by_type-AreSame :
      (t : SignalType) (m : Moment F) (sig : WebhookSignal F) (e : Engine F)
      → AreSame e (spot_by_type t m sig e)
  unfolding AreSame spot_by_type handle_spot_entry handle_spot_exit
  spot_by_type-AreSame SignalType.entry m sig e = ground arith
  spot_by_type-AreSame SignalType.re_entry m sig e = ground arith
  spot_by_type-AreSame SignalType.tp m sig e = ground arith
  spot_by_type-AreSame SignalType.sl m sig e = ground arith
  spot_by_type-AreSame SignalType.unknown m sig e = refl

  handle_tp-AreSame :
      (m : Moment F) (sig : WebhookSignal F) (e : Engine F) → AreSame e (handle_tp m sig e)
  unfolding AreSame book_tp score_close
  handle_tp-AreSame m sig e =
      handle_tp-cases (AreSame e) m sig e refl (λ a. refl) (λ p _ _. ground arith)
        (λ p _ _. ground arith)

  handle_sl-AreSame :
      (m : Moment F) (sig : WebhookSignal F) (e : Engine F) → AreSame e (handle_sl m sig e)
  unfolding AreSame book_sl score_close
  handle_sl-AreSame m sig e =
      handle_sl-cases (AreSame e) m sig e refl (λ a. refl) (λ p _ _. refl) (λ p _ _. refl)

  book_ws_close-AreSame :
      (m : Moment F) (upd : WsPositionUpdate F) (o : Option (Text × ManagedPosition F))
      (e : Engine F)
      → AreSame e (book_ws_close m upd o e)
  unfolding AreSame score_close
  book_ws_close-AreSame m upd none e = refl
  book_ws_close-AreSame m upd (some (key, p)) e = refl

  pub on_ws_position-AreSame :
      (m : Moment F) (upd : WsPositionUpdate F) (e : Engine F) → AreSame e (on_ws_position m upd e)
  unfolding AreSame on_ws_position
  on_ws_position-AreSame m upd e =
      let r = find_and_prepare_ws_close upd.symbol upd.hold_side e.positions in
      ground (arith, book_ws_close-AreSame m upd r.0 (record e { positions = r.1 }))

  pub import_trades-AreSame :
      (now : ℕ) (time : Text) (ts : List (TradeRecord F)) (e : Engine F)
      → AreSame e (import_trades now time ts e).0
  unfolding AreSame import_trades
  import_trades-AreSame now time ts e = ground arith

  conclude_order-AreSame :
      (c : EngineConfig F) (m : Moment F) (sig : WebhookSignal F) (e0 e : Engine F) (b : Bool)
      → AreSame e (conclude_order c m sig e0 e b)
  unfolding AreSame conclude_order
  conclude_order-AreSame c m sig e0 e false = refl
  conclude_order-AreSame c m sig e0 e true = refl

  module _ ⦃s : Sorter⦄ (c : EngineConfig F) where
    handle_entry-AreSame :
        (m : Moment F) (sig : WebhookSignal F) (e : Engine F) → AreSame e (handle_entry c m sig e).0
    unfolding AreSame numbered ordered
    handle_entry-AreSame m sig e =
        handle_entry-cases (λ r. AreSame e r.0) c m sig e (λ stop. stopped-AreSame m stop sig e)
          refl
          λ _ _.
            place_entry-cases (λ r. AreSame e r.0) c m sig e _ refl refl
              (λ _ _. conclude_order-AreSame c m sig e _ _)

    pub rescored-AreSame : (now : ℕ) (time : Text) (e : Engine F) → AreSame e (rescored now time e)
    unfolding AreSame rescored
    rescored-AreSame now time e = ground arith

    pub route-AreSame :
        (m : Moment F) (sig : WebhookSignal F) (e : Engine F) → AreSame e (route c m sig e).0
    unfolding AreSame route handle_spot_signal
    route-AreSame m sig e =
        let spot = spot_by_type-AreSame sig.sig_type m sig e in
        let futures =
          by_type-cases (λ r. AreSame e r.0) sig.sig_type c m sig e (handle_entry-AreSame m sig e)
            (handle_tp-AreSame m sig e) (handle_sl-AreSame m sig e) refl in
        ground (arith, spot, futures)
