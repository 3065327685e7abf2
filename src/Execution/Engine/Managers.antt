-- ===== src/Execution/Engine/Managers.antt =====
-- The calls that leave the risk managers alone.
use tv_webhook_trader.Shared.{ℕ, ◌≡◌, refl, List, Option, none, some, Text, arith}
use tv_webhook_trader.Shared.Double.{Double}
use tv_webhook_trader.Webhook.Signal.{WebhookSignal, SignalType}
use tv_webhook_trader.Risk.Position.{ManagedPosition}
use tv_webhook_trader.Execution.Positions.{find_and_prepare_ws_close}
use tv_webhook_trader.Execution.Trades.{TradeRecord}
use tv_webhook_trader.Execution.Engine.{Engine, Moment}
use tv_webhook_trader.Execution.Engine.Manual.{import_trades}
use tv_webhook_trader.Execution.Engine.Gates.{Stop, skip, risk_skip, learner_skip}
use tv_webhook_trader.Execution.Engine.Entry.{stopped}
use tv_webhook_trader.Execution.Engine.Closing.{
  WsPositionUpdate, book_tp, book_sl, handle_tp, handle_sl, book_ws_close, on_ws_position,
  score_close,
}
use tv_webhook_trader.Execution.Engine.Spot.{spot_by_type, handle_spot_entry, handle_spot_exit}
use tv_webhook_trader.Execution.Engine.Paths.{handle_tp-cases, handle_sl-cases}

module _ {F : Type 0} where
  pub stopped-managers :
      (m : Moment F) (stop : Stop) (sig : WebhookSignal F) (e : Engine F)
      → ((stopped m stop sig e).auto ≡ e.auto) × ((stopped m stop sig e).risk ≡ e.risk)
  unfolding stopped
  stopped-managers m skip sig e = (refl, refl)
  stopped-managers m risk_skip sig e = (refl, refl)
  stopped-managers m learner_skip sig e = (refl, refl)

module _ {F : Type 0} ⦃d : Double F⦄ where
  pub import_trades-managers :
      (now : ℕ) (time : Text) (ts : List (TradeRecord F)) (e : Engine F)
      → let e' = (import_trades now time ts e).0 in
        (e'.auto ≡ e.auto) × (e'.risk ≡ e.risk) × (e'.positions ≡ e.positions)
  unfolding import_trades
  import_trades-managers now time ts e = (ground arith, ground arith, ground arith)

  pub spot_by_type-managers :
      (t : SignalType) (m : Moment F) (sig : WebhookSignal F) (e : Engine F)
      → ((spot_by_type t m sig e).auto ≡ e.auto) × ((spot_by_type t m sig e).risk ≡ e.risk)
  unfolding spot_by_type handle_spot_entry handle_spot_exit
  spot_by_type-managers SignalType.entry m sig e = (ground arith, ground arith)
  spot_by_type-managers SignalType.re_entry m sig e = (ground arith, ground arith)
  spot_by_type-managers SignalType.tp m sig e = (ground arith, ground arith)
  spot_by_type-managers SignalType.sl m sig e = (ground arith, ground arith)
  spot_by_type-managers SignalType.unknown m sig e = (refl, refl)

  pub handle_tp-managers :
      (m : Moment F) (sig : WebhookSignal F) (e : Engine F)
      → ((handle_tp m sig e).auto ≡ e.auto) × ((handle_tp m sig e).risk ≡ e.risk)
  unfolding book_tp score_close
  handle_tp-managers m sig e =
      handle_tp-cases (λ e'. (e'.auto ≡ e.auto) × (e'.risk ≡ e.risk)) m sig e (refl, refl)
        (λ a. (refl, refl)) (λ p _ _. (ground arith, ground arith))
        (λ p _ _. (ground arith, ground arith))

  pub handle_sl-managers :
      (m : Moment F) (sig : WebhookSignal F) (e : Engine F)
      → ((handle_sl m sig e).auto ≡ e.auto) × ((handle_sl m sig e).risk ≡ e.risk)
  unfolding book_sl score_close
  handle_sl-managers m sig e =
      handle_sl-cases (λ e'. (e'.auto ≡ e.auto) × (e'.risk ≡ e.risk)) m sig e (refl, refl)
        (λ a. (refl, refl)) (λ p _ _. (refl, refl)) (λ p _ _. (refl, refl))

  book_ws_close-managers :
      (m : Moment F) (upd : WsPositionUpdate F) (o : Option (Text × ManagedPosition F))
      (e : Engine F)
      → ((book_ws_close m upd o e).auto ≡ e.auto) × ((book_ws_close m upd o e).risk ≡ e.risk)
  unfolding score_close
  book_ws_close-managers m upd none e = (refl, refl)
  book_ws_close-managers m upd (some (key, p)) e = (refl, refl)

  pub on_ws_position-managers :
      (m : Moment F) (upd : WsPositionUpdate F) (e : Engine F)
      → ((on_ws_position m upd e).auto ≡ e.auto) × ((on_ws_position m upd e).risk ≡ e.risk)
  unfolding on_ws_position
  on_ws_position-managers m upd e =
      let r = find_and_prepare_ws_close upd.symbol upd.hold_side e.positions in
      let same = book_ws_close-managers m upd r.0 (record e { positions = r.1 }) in
      (ground (arith, same.0), ground (arith, same.1))
