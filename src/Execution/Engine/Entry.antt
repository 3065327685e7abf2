-- ===== src/Execution/Engine/Entry.antt =====
-- include/execution/execution_engine.hpp: handle_entry. It answers with the orders that went out.
use tv_webhook_trader.Shared.{
  ◌+◌, Bool, true, false, not, ◌&&◌, if◌then◌else◌, List, [], ◌∷◌, ◌++◌, Option, none, some, Text,
  codes, text_eq, take, ℤ, pos, leb_ℤ,
}
use tv_webhook_trader.Shared.Decimal.{show_int}
use tv_webhook_trader.Shared.Double.{Double, nought}
use tv_webhook_trader.Shared.Sorter.{Sorter}
use tv_webhook_trader.Core.Alerts.{AlertLevel}
use tv_webhook_trader.Core.Alerts
use tv_webhook_trader.Core.Types.{OrderRequest, OrderResponse, OrderStatus}
use tv_webhook_trader.Webhook.Signal.{WebhookSignal, SignalType, has_tp1, has_sl, to_order_request}
use tv_webhook_trader.Risk.Portfolio.{PortfolioRisk}
use tv_webhook_trader.Risk.Portfolio.Entry.{Proposal, check_entry}
use tv_webhook_trader.Risk.Orders.{
  RiskManager, validate, on_order_placed, on_order_done, on_position_opened,
}
use tv_webhook_trader.Execution.Shadow.{mark_live_equivalent}
use tv_webhook_trader.Execution.Positions.{NewPosition, register_position}
use tv_webhook_trader.Execution.AutoLive.{force_shadow}
use tv_webhook_trader.Execution.Engine.{
  Engine, EngineConfig, Moment, Sent, entry_side, count_skip, count_risk_skip, count_rejected,
  count_executed,
}
use tv_webhook_trader.Execution.Engine.Gates.{
  Stop, skip, risk_skip, learner_skip, timeframe_of, sl_price_of, entry_tier, entry_size,
  final_size, entry_gate,
}

abbrev pub is_new : OrderStatus → Bool
is_new OrderStatus.new = true
is_new _ = false

-- A rejection for a network or server error, which is tried once more.
abbrev pub is_unreached : OrderStatus → ℤ → Bool
is_unreached OrderStatus.rejected code = leb_ℤ code (pos 99999) && leb_ℤ (pos 99999) code
is_unreached _ code = false

abbrev entry_type : SignalType → Text
entry_type SignalType.re_entry = codes "REENTRY"
entry_type _ = codes "ENTRY"

module _ {F : Type 0} where
  abbrev pub with_port_risk : Engine F → PortfolioRisk F → Engine F
  with_port_risk e p = record e { auto = record e.auto { port_risk = p } }

  unfoldable pub stopped : Moment F → Stop → WebhookSignal F → Engine F → Engine F
  stopped m skip sig e = count_skip e
  stopped m risk_skip sig e = count_risk_skip e
  stopped m learner_skip sig e = count_risk_skip (record e {
    alerts =
        Alerts.add m.time AlertLevel.warn (codes "RISK")
          (codes "LEARN_SKIP " ++ sig.symbol ++ codes " " ++ m.learn.skip_reason) sig.symbol
          e.alerts;
  })

module _ {F : Type 0} ⦃d : Double F⦄ where
  abbrev pub preset_tp : WebhookSignal F → F
  preset_tp sig = if has_tp1 sig then sig.tp1 else nought

  -- The signal's stop-loss, or the backup's distance from the price.
  unfoldable pub preset_sl : EngineConfig F → WebhookSignal F → F
  preset_sl c sig =
      let given = if has_sl sig then sig.sl else nought in
      let one = d.decimal 1 0 in
      let sl = if d.is_finite given then given else nought in
      if (d.le sl nought && d.lt nought c.backup_sl_pct) && d.lt nought sig.price
      then (if text_eq sig.action (codes "buy")
          then d.mul sig.price (d.sub one c.backup_sl_pct)
          else d.mul sig.price (d.add one c.backup_sl_pct))
      else sl

  abbrev pub entry_request : EngineConfig F → Moment F → WebhookSignal F → Engine F → OrderRequest F
  entry_request c m sig e =
      to_order_request e.next_oid (record sig { size = (final_size c m sig e).0 })

  abbrev pub entry_order : EngineConfig F → Moment F → WebhookSignal F → Engine F → Sent F
  entry_order c m sig e = record {
    request = entry_request c m sig e;
    preset_tp = preset_tp sig;
    preset_sl = preset_sl c sig;
  }

  unfoldable pub entry_proposal :
      EngineConfig F → Moment F → WebhookSignal F → Engine F → Proposal F
  entry_proposal c m sig e = record {
    symbol = sig.symbol;
    timeframe = timeframe_of sig;
    price = sig.price;
    qty = (final_size c m sig e).0;
    leverage = (entry_size c sig e).leverage;
    balance = e.recorder.balance;
    positions = e.positions;
    sl_price = sl_price_of sig;
    side = entry_side sig;
  }

  abbrev pub entry_position :
      EngineConfig F → Moment F → WebhookSignal F → Engine F → Bool → NewPosition F
  entry_position c m sig e is_real = record {
    side = entry_side sig;
    entry_price = sig.price;
    quantity = (final_size c m sig e).0;
    leverage = (entry_size c sig e).leverage;
    sl_price = sl_price_of sig;
    tp1_price = preset_tp sig;
    tier = entry_tier sig e.scorer;
    strategy = sig.strategy_name;
    is_real = is_real;
  }

  -- The last answer of the exchange, and the orders that went out.
  unfoldable pub send_order : Moment F → Sent F → OrderResponse F × List (Sent F)
  send_order m o =
      let first = m.place_futures_order o.request o.preset_tp o.preset_sl 1 in
      if is_unreached first.status first.error_code
      then (m.place_futures_order o.request o.preset_tp o.preset_sl 2, o ∷ o ∷ [])
      else (first, o ∷ [])

  abbrev pub registered :
      EngineConfig F → Moment F → WebhookSignal F → Bool → Engine F → Engine F → Engine F
  registered c m sig is_real e0 e = count_executed (record e {
    positions =
        register_position m.now_ms sig.symbol (timeframe_of sig) (entry_position c m sig e0 is_real)
          e0.next_oid e.positions;
  })

  -- std::to_string(x).substr(0, 8)
  abbrev pub short_text : F → Text
  short_text x = take 8 (d.fixed 6 x)

  abbrev entry_message : EngineConfig F → Moment F → WebhookSignal F → Engine F → Text
  entry_message c m sig e =
      entry_type sig.sig_type
      ++ codes " "
      ++ sig.action
      ++ codes " "
      ++ sig.symbol
      ++ codes " sz="
      ++ short_text (final_size c m sig e).0
      ++ codes " lev="
      ++ show_int (entry_size c sig e).leverage
      ++ codes "x"

  unfoldable pub conclude_order :
      EngineConfig F → Moment F → WebhookSignal F → Engine F → Engine F → Bool → Engine F
  conclude_order c m sig e0 e false = count_rejected e
  conclude_order c m sig e0 e true =
      let e1 = registered c m sig true e0 e in
      record e1 {
        risk = on_position_opened sig.symbol (final_size c m sig e0).0 (entry_side sig) e1.risk;
        alerts =
            Alerts.add m.time AlertLevel.info (codes "TRADE") (entry_message c m sig e0) sig.symbol
              e1.alerts;
      }

  -- Each attempt is counted as an open order until its answer comes.
  abbrev pub order_round : RiskManager F → RiskManager F
  order_round r = on_order_done (on_order_placed r)

  unfoldable pub order_rounds : List (Sent F) → RiskManager F → RiskManager F
  order_rounds [] r = r
  order_rounds (o ∷ os) r = order_rounds os (order_round r)

  -- The order has its number, and the shadow tracker knows that it would have been live.
  unfoldable pub numbered : WebhookSignal F → Engine F → Engine F
  numbered sig e =
      let key = sig.symbol ++ b':' ∷ (timeframe_of sig ++ b':' ∷ entry_side sig) in
      record e {
        next_oid = e.next_oid + 1;
        trackers = record {
          futures = mark_live_equivalent key e.trackers.futures;
          spot = e.trackers.spot;
        };
      }

  -- The real order.
  unfoldable pub ordered :
      EngineConfig F → Moment F → WebhookSignal F → Engine F → Engine F → Engine F × List (Sent F)
  ordered c m sig e0 e1 =
      let e = numbered sig e1 in
      let answer = send_order m (entry_order c m sig e0) in
      (
        conclude_order c m sig e0 (record e { risk = order_rounds answer.1 e.risk })
            (is_new answer.0.status),
        answer.1,
      )

  -- Behind all the checks: a paper position, or a real order. `e0` is the engine before the entry.
  unfoldable pub place_entry :
      EngineConfig F → Moment F → WebhookSignal F → Engine F → Engine F → Engine F × List (Sent F)
  place_entry c m sig e0 e1 =
      if not (validate (entry_request c m sig e0) e1.risk)
      then (count_rejected (record e1 { next_oid = e1.next_oid + 1 }), [])
      else if force_shadow (timeframe_of sig) sig e1.auto
      then (registered c m sig false e0 (numbered sig e1), [])
      else ordered c m sig e0 e1

  module _ ⦃s : Sorter⦄ where
    unfoldable pub after_gate :
        EngineConfig F
        → Moment F
        → WebhookSignal F
        → Engine F
        → Option Stop
        → Engine F × List (Sent F)
    after_gate c m sig e (some stop) = (stopped m stop sig e, [])
    after_gate c m sig e none =
        let r = check_entry m.clock (entry_proposal c m sig e) e.auto.port_risk in
        if r.1.allowed
        then place_entry c m sig e (with_port_risk e r.0)
        else (count_risk_skip (with_port_risk e r.0), [])

    unfoldable pub handle_entry :
        EngineConfig F → Moment F → WebhookSignal F → Engine F → Engine F × List (Sent F)
    handle_entry c m sig e = after_gate c m sig e (entry_gate c m sig e)
