-- ===== src/Execution/Engine/Spot.antt =====
-- include/execution/execution_engine.hpp: spot signals, which are traded on paper in an account of their
-- own: handle_spot_signal, handle_spot_entry, handle_spot_tp and handle_spot_sl.
use tv_webhook_trader.Shared.{
  ◌+◌, Bool, false, not, ◌&&◌, ◌||◌, if◌then◌else◌, [], ◌∷◌, ◌++◌, Option, none, some, Text, codes,
  text_eq, pos, insert, erase,
}
use tv_webhook_trader.Shared.Double.{Double, nought}
use tv_webhook_trader.Webhook.Signal.{WebhookSignal, SignalType, has_tp1}
use tv_webhook_trader.Risk.Position.{ManagedPosition, Positions}
use tv_webhook_trader.Execution.Trades.{trade_record}
use tv_webhook_trader.Execution.Positions.{position_key}
use tv_webhook_trader.Execution.SpotShadow.{spot_quote_currency, get_grade}
use tv_webhook_trader.Execution.Engine.{Engine, Moment, SpotAccount, count_skip, count_risk_skip}
use tv_webhook_trader.Execution.Engine.Gates.{timeframe_of, sl_price_of}
use tv_webhook_trader.Execution.Engine.Closing.{close_ratio, closes_all}

module _ {F : Type 0} where
  abbrev pub is_held : WebhookSignal F → ManagedPosition F → Bool
  is_held sig p =
      text_eq p.symbol sig.symbol
      && text_eq p.exchange sig.exchange
      && text_eq p.side (codes "long")

  unfoldable pub holds_spot : WebhookSignal F → Positions F → Bool
  holds_spot sig [] = false
  holds_spot sig ((_, p) ∷ ps) = is_held sig p || holds_spot sig ps

  -- The first position of the signal's symbol at its exchange, with its key.
  unfoldable pub find_spot : WebhookSignal F → Positions F → Option (Text × ManagedPosition F)
  find_spot sig [] = none
  find_spot sig ((key, p) ∷ ps) =
      if is_held sig p && text_eq p.market_type (codes "spot")
      then some (key, p)
      else find_spot sig ps

  unfoldable pub passes_spot_grade : WebhookSignal F → Engine F → Bool
  passes_spot_grade sig e =
      let key = sig.symbol ++ b':' ∷ (timeframe_of sig ++ b':' ∷ sig.exchange) in
      let grade = get_grade key e.trackers.spot in
      not (text_eq grade (codes "F") || text_eq grade (codes "D"))

module _ {F : Type 0} ⦃d : Double F⦄ where
  abbrev pub trade_krw : F
  trade_krw = d.decimal 5000 0

  unfoldable pub spot_qty : WebhookSignal F → F
  spot_qty sig = if d.lt nought sig.price then d.div trade_krw sig.price else nought

  abbrev pub spot_position : Moment F → WebhookSignal F → ManagedPosition F
  spot_position m sig = record {
    symbol = sig.symbol;
    timeframe = timeframe_of sig;
    side = codes "long";
    entry_price = sig.price;
    quantity = spot_qty sig;
    leverage = pos 1;
    sl_price = sl_price_of sig;
    tp1_price = if has_tp1 sig then sig.tp1 else nought;
    tier = codes "C";
    strategy = sig.strategy_name;
    opened_at = m.now_ms;
    is_real = false;
    exchange = sig.exchange;
    market_type = codes "spot";
  }

  unfoldable pub buy_spot : Moment F → WebhookSignal F → Engine F → SpotAccount F
  buy_spot m sig e =
      let a = e.spot_account in
      record a {
        positions =
            insert (position_key sig.symbol (timeframe_of sig) e.next_oid) (spot_position m sig)
              a.positions;
        balance = d.sub a.balance trade_krw;
      }

  unfoldable pub handle_spot_entry : Moment F → WebhookSignal F → Engine F → Engine F
  handle_spot_entry m sig e =
      let numbered = record e { next_oid = e.next_oid + 1 } in
      if text_eq sig.action (codes "sell")
      then count_skip e
      else if not (text_eq (spot_quote_currency sig.symbol) (codes "KRW")) || not m.has_lock
      then count_skip e
      else if not (passes_spot_grade sig e)
      then count_risk_skip e
      else if d.le (spot_qty sig) nought
      then count_skip e
      else if holds_spot sig e.spot_account.positions
      then count_skip numbered
      else record numbered { spot_account = buy_spot m sig e }

  -- What a sale of so much makes of the account, but for its positions.
  unfoldable pub sell_spot :
      Text → WebhookSignal F → ManagedPosition F → F → F → SpotAccount F → SpotAccount F
  sell_spot reason sig p exit qty a =
      let fee = d.mul (d.mul exit qty) (d.decimal 1 3) in
      let pnl = d.sub (d.mul (d.sub exit p.entry_price) qty) fee in
      let t = trade_record p.symbol p.timeframe reason p.entry_price exit qty pnl fee p.strategy in
      let balance = d.add a.balance (d.mul exit qty) in
      record a {
        trades = a.trades ++ record t { exchange = sig.exchange; market_type = codes "spot" } ∷ [];
        balance = balance;
        peak_balance = if d.lt a.peak_balance balance then balance else a.peak_balance;
      }

  unfoldable pub tp_spot :
      WebhookSignal F → Option (Text × ManagedPosition F) → SpotAccount F → SpotAccount F
  tp_spot sig none a = a
  tp_spot sig (some (key, p)) a =
      let qty = d.mul p.quantity (close_ratio sig) in
      let exit = if d.lt nought sig.price then sig.price else p.entry_price in
      let left = d.sub p.quantity qty in
      let sold = sell_spot (codes "SPOT_" ++ sig.tp_level) sig p exit qty a in
      record sold {
        positions =
            if closes_all sig || d.le left nought
            then erase key a.positions
            else insert key (record p { quantity = left }) a.positions;
      }

  unfoldable pub sl_spot :
      WebhookSignal F → Option (Text × ManagedPosition F) → SpotAccount F → SpotAccount F
  sl_spot sig none a = a
  sl_spot sig (some (key, p)) a =
      let exit =
        if d.lt nought sig.price
        then sig.price
        else if d.lt nought p.sl_price
        then p.sl_price
        else p.entry_price in
      let sold = sell_spot (codes "SPOT_SL") sig p exit p.quantity a in
      record sold { positions = erase key a.positions }

  unfoldable pub handle_spot_exit :
      (WebhookSignal F → Option (Text × ManagedPosition F) → SpotAccount F → SpotAccount F)
      → Moment F
      → WebhookSignal F
      → Engine F
      → Engine F
  handle_spot_exit sell m sig e =
      let a = e.spot_account in
      if not m.has_lock
      then e
      else record e { spot_account = sell sig (find_spot sig a.positions) a }

  unfoldable pub spot_by_type : SignalType → Moment F → WebhookSignal F → Engine F → Engine F
  spot_by_type SignalType.entry m sig e = handle_spot_entry m sig e
  spot_by_type SignalType.re_entry m sig e = handle_spot_entry m sig e
  spot_by_type SignalType.tp m sig e = handle_spot_exit tp_spot m sig e
  spot_by_type SignalType.sl m sig e = handle_spot_exit sl_spot m sig e
  spot_by_type SignalType.unknown m sig e = e

  unfoldable pub handle_spot_signal : Moment F → WebhookSignal F → Engine F → Engine F
  handle_spot_signal m sig e = spot_by_type sig.sig_type m sig e
