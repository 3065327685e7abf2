-- ===== src/Execution/Trades.antt =====
-- include/execution/trade_recorder.hpp: class TradeRecorder, with the balance and the trades that it
-- shares with the engine, and TradeRecord of include/risk/symbol_scorer.hpp. What is handed to the
-- learner is kept as a list. The callers hold `m_pos_mtx`.
pub mod Accounts
pub mod Figures
use tv_webhook_trader.Shared.{
  ℕ, ◌+◌, ◌-◌, Bool, true, false, if◌then◌else◌, List, [], ◌∷◌, ◌++◌, Option, none, some, Text,
  codes, text_eq, ltb, length, cap_to, ◌-ℤ◌, drop, ℤ, pos, group,
}
use tv_webhook_trader.Shared.Double.{Double, nought}
use tv_webhook_trader.Core.Alerts.{Alert, AlertLevel}
use tv_webhook_trader.Core.Alerts
use tv_webhook_trader.Risk.Position.{ManagedPosition}

pub record TradeRecord (F : Type 0) : Type 0 where
  pub symbol : Text
  pub timeframe : Text
  pub exit_reason : Text
  pub pnl : F
  pub fee : F
  pub entry_price : F
  pub exit_price : F
  pub quantity : F
  pub strategy : Text
  pub exchange : Text
  pub market_type : Text
  pub gross_pnl : F
  pub net_pnl : F
  pub fee_cost : F
  pub realized_rr : F

pub record Recorder (F : Type 0) : Type 0 where
  pub balance : F
  pub peak_balance : F
  pub trades : List (TradeRecord F)
  pub learned : List (TradeRecord F)

abbrev pub max_trades : ℕ
max_trades = 2000

unfoldable pub cap_trades : {F : Type 0} → List (TradeRecord F) → List (TradeRecord F)
cap_trades l = cap_to max_trades l

pub record TradeStats (F : Type 0) : Type 0 where
  pub total_trades : ℕ
  pub wins : ℕ
  pub losses : ℤ
  pub win_rate : F
  pub total_pnl : F
  pub balance : F
  pub peak_balance : F

pub record StratStats (F : Type 0) : Type 0 where
  pub total : ℕ
  pub wins : ℕ
  pub total_pnl : F
  pub total_fee : F

module _ {F : Type 0} ⦃d : Double F⦄ where
  unfoldable pub calc_pnl : Text → F → F → F → ℤ → F
  calc_pnl side entry exit qty leverage =
      let direction =
        if text_eq side (codes "long") then d.decimal 1 0 else d.neg (d.decimal 1 0) in
      if d.le entry nought
      then nought
      else if d.le qty nought
      then nought
      else d.mul (d.mul direction (d.sub exit entry)) qty

  unfoldable pub calc_fee : F → F → F
  calc_fee price qty = d.mul (d.mul (d.mul price qty) (d.decimal 6 4)) (d.decimal 2 0)

  unfoldable pub record_trade : TradeRecord F → Recorder F → Recorder F
  record_trade tr r =
      let balance = d.add r.balance tr.pnl in
      record {
        trades = cap_trades (r.trades ++ tr ∷ []);
        learned = r.learned ++ tr ∷ [];
        balance = balance;
        peak_balance = if d.lt r.peak_balance balance then balance else r.peak_balance;
      }

  -- The record that record_trade builds from its arguments.
  unfoldable pub trade_record : Text → Text → Text → F → F → F → F → F → Text → TradeRecord F
  trade_record symbol timeframe reason entry exit quantity pnl fee strategy = record {
    symbol = symbol;
    timeframe = timeframe;
    exit_reason = reason;
    pnl = pnl;
    fee = fee;
    entry_price = entry;
    exit_price = exit;
    quantity = quantity;
    strategy = strategy;
    exchange = codes "bitget";
    market_type = codes "futures";
    gross_pnl = nought;
    net_pnl = nought;
    fee_cost = nought;
    realized_rr = nought;
  }

  unfoldable pub closing_trade : ManagedPosition F → F → Text → F → TradeRecord F
  closing_trade p exit reason qty =
      let fee = calc_fee exit qty in
      let pnl = d.sub (calc_pnl p.side p.entry_price exit qty p.leverage) fee in
      trade_record p.symbol p.timeframe reason p.entry_price exit qty pnl fee p.strategy

  unfoldable pub record_close : ManagedPosition F → F → Text → F → Recorder F → Recorder F × F
  record_close p exit reason close_qty r =
      let tr =
        closing_trade p exit reason (if d.le close_qty nought then p.quantity else close_qty) in
      (record_trade tr r, tr.pnl)

  -- The exchange's own figure, less the fee, where it gives one.
  unfoldable pub ws_trade : ManagedPosition F → F → F → TradeRecord F
  ws_trade p exit realized =
      let tr = closing_trade p exit (codes "WS_CLOSE") p.quantity in
      if d.lt (d.decimal 1 4) (d.abs realized)
      then record tr { pnl = d.sub realized tr.fee }
      else tr

  unfoldable pub record_ws_close : ManagedPosition F → F → F → Recorder F → Recorder F × F
  record_ws_close p exit realized r =
      let tr = ws_trade p exit realized in (record_trade tr r, tr.pnl)

  unfoldable pub count_wins : List (TradeRecord F) → ℕ
  count_wins [] = 0
  count_wins (t ∷ ts) = (if d.lt nought t.pnl then 1 else 0) + count_wins ts

  unfoldable pub sum_pnl : F → List (TradeRecord F) → F
  sum_pnl total [] = total
  sum_pnl total (t ∷ ts) = sum_pnl (d.add total t.pnl) ts

  -- std::round(wins / total * 10000) / 100
  abbrev pub win_rate_of : ℕ → ℕ → F
  win_rate_of wins total =
      if ltb 0 total
      then d.div
          (d.round (d.mul (d.div (d.of_int (pos wins)) (d.of_int (pos total))) (d.decimal 10000 0)))
          (d.decimal 100 0)
      else nought

  -- The figures of get_stats that come from the recorder.
  unfoldable pub get_stats : Recorder F → TradeStats F
  get_stats r =
      let total = length r.trades in
      let wins = count_wins r.trades in
      record {
        total_trades = total;
        wins = wins;
        losses = pos total -ℤ pos wins;
        win_rate = win_rate_of wins total;
        total_pnl =
            d.div (d.round (d.mul (sum_pnl nought r.trades) (d.decimal 10000 0)))
              (d.decimal 10000 0);
        balance = r.balance;
        peak_balance = r.peak_balance;
      }

  abbrev pub new_stats : StratStats F
  new_stats = record { total = 0; wins = 0; total_pnl = nought; total_fee = nought }

  abbrev pub with_trade : TradeRecord F → StratStats F → StratStats F
  with_trade t s = record {
    total = s.total + 1;
    wins = s.wins + (if d.lt nought t.pnl then 1 else 0);
    total_pnl = d.add s.total_pnl t.pnl;
    total_fee = d.add s.total_fee t.fee;
  }

  -- The loop of get_strategy_stats.
  unfoldable pub by_strategy : List (TradeRecord F) → List (Text × StratStats F)
  by_strategy ts = group (λ t. t.strategy) with_trade new_stats [] ts

-- Levels other than these three are dropped.
unfoldable pub alert_trade : Text → Text → Text → Text → List Alert → List Alert
alert_trade now level msg symbol l =
    if text_eq level (codes "info")
    then Alerts.add now AlertLevel.info (codes "TRADE") msg symbol l
    else if text_eq level (codes "warn")
    then Alerts.add now AlertLevel.warn (codes "TRADE") msg symbol l
    else if text_eq level (codes "critical")
    then Alerts.add now AlertLevel.critical (codes "TRADE") msg symbol l
    else l
