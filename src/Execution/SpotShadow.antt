-- ===== src/Execution/SpotShadow.antt =====
-- include/execution/spot_shadow_tracker.hpp: class SpotShadowTracker, which follows the spot signals
-- with paper positions that are only bought. The callers of the private methods hold `m_mtx`; `now`
-- is a reading of the system clock in milliseconds, and the state file what was last written to it.
-- Logging is left out.
use tv_webhook_trader.Shared.{
  ℕ, ◌+◌, ◌/◌, ◌*◌, Bool, true, false, not, ◌&&◌, ◌||◌, if◌then◌else◌, List, [], ◌∷◌, ◌++◌, Option,
  none, some, Text, codes, text_eq, is_empty, last_n, ltb, leb, length, cap_to, latest, map, select,
  fold, has_text, get_or, lookup, insert, erase, has_key, pos,
}
use tv_webhook_trader.Shared.Double.{Double, nought, min_of}
use tv_webhook_trader.Webhook.Signal.{WebhookSignal, SignalType, entry, tp, sl, re_entry, unknown}
use tv_webhook_trader.Execution.Trades.{TradeRecord, StratStats, new_stats, with_trade, win_rate_of}
mod State
unfoldable pub use State.*
pub mod Calls
pub mod Report
pub mod Grades
pub mod Runs

module _ {F : Type 0} ⦃d : Double F⦄ where
  abbrev pub fresh_tracker : SpotShadowTracker F
  fresh_tracker = record {
    positions = [];
    trades = [];
    symbol_grades = [];
    total_entries = 0;
    total_closes = 0;
    wins = 0;
    losses = 0;
    total_pnl = nought;
    ops_since_save = 0;
    file = none;
  }

  abbrev pub get_notional : Text → F
  get_notional exchange =
      if text_eq exchange (codes "upbit") then d.decimal 50000 0 else d.decimal 100 0

  abbrev pub get_fee_rate : Text → F
  get_fee_rate exchange = if text_eq exchange (codes "upbit") then d.decimal 5 4 else d.decimal 1 3

  abbrev pub tp_close_pct : Text → F
  tp_close_pct level =
      if text_eq level (codes "TP1")
      then d.decimal 33 0
      else if text_eq level (codes "TP2")
      then d.decimal 50 0
      else d.decimal 100 0

  -- The number of wins is not looked at.
  unfoldable pub compute_grade : ℕ → F → F → Text
  compute_grade total pnl wr =
      if ltb total 5
      then codes "?"
      else if d.le (d.decimal 65 0) wr && d.lt nought pnl
      then codes "A+"
      else if d.le (d.decimal 55 0) wr && d.lt nought pnl
      then codes "A"
      else if d.le (d.decimal 50 0) wr && d.lt nought pnl
      then codes "B"
      else if d.le (d.decimal 45 0) wr
      then codes "C"
      else if d.le (d.decimal 35 0) wr
      then codes "D"
      else codes "F"

  -- The grade of the trades of a key, from the loop of refresh_grade.
  unfoldable pub grade_of_key : Text → List (TradeRecord F) → Text
  grade_of_key key ts =
      let s = fold with_trade new_stats (select (has_text trade_key key) ts) in
      compute_grade s.total s.total_pnl (win_rate_of s.wins s.total)

  unfoldable pub refresh_grade : Text → SpotShadowTracker F → SpotShadowTracker F
  refresh_grade key t = record t {
    symbol_grades = insert key (grade_of_key key t.trades) t.symbol_grades;
  }

  -- The members that load_state restores of a trade.
  abbrev pub file_trade : TradeRecord F → TradeRecord F
  file_trade t = record t {
    market_type = codes "spot";
    gross_pnl = nought;
    net_pnl = nought;
    fee_cost = nought;
    realized_rr = nought;
  }

  -- save_state_locked
  unfoldable pub state_file : SpotShadowTracker F → SpotFile F
  state_file t = record {
    positions = map (λ kp. (kp.0, record kp.1 { opened_at = kp.1.opened_at / 1000 })) t.positions;
    trades = map file_trade (latest 1000 t.trades);
    total_entries = t.total_entries;
    total_closes = t.total_closes;
    wins = t.wins;
    losses = t.losses;
    total_pnl = t.total_pnl;
    grades = t.symbol_grades;
  }

  unfoldable pub save_state : SpotShadowTracker F → SpotShadowTracker F
  save_state t = record t { file = some (state_file t) }

  unfoldable pub maybe_save : SpotShadowTracker F → SpotShadowTracker F
  maybe_save t =
      let counted = record t { ops_since_save = t.ops_since_save + 1 } in
      if leb 10 counted.ops_since_save
      then record (save_state counted) { ops_since_save = 0 }
      else counted

  -- The quantity that the standard size buys.
  abbrev pub total_qty : VirtualPosition F → F
  total_qty vp =
      if d.lt nought vp.entry_price then d.div (get_notional vp.exchange) vp.entry_price else nought

  unfoldable pub spot_trade : VirtualPosition F → F → Text → F → TradeRecord F
  spot_trade vp exit reason qty =
      let raw = d.mul (d.sub exit vp.entry_price) qty in
      let fee =
        d.mul (d.add (d.mul vp.entry_price qty) (d.mul exit qty)) (get_fee_rate vp.exchange) in
      record {
        symbol = vp.symbol;
        timeframe = vp.timeframe;
        exit_reason = codes "SPOT_SHADOW_" ++ reason;
        pnl = d.sub raw fee;
        fee = fee;
        entry_price = vp.entry_price;
        exit_price = exit;
        quantity = qty;
        strategy = vp.strategy;
        exchange = vp.exchange;
        market_type = codes "spot";
        gross_pnl = nought;
        net_pnl = nought;
        fee_cost = nought;
        realized_rr = nought;
      }

  -- What partial_close and close_position do with their trade, up to the grade.
  unfoldable pub book_trade : TradeRecord F → SpotShadowTracker F → SpotShadowTracker F
  book_trade tr t =
      let won = d.lt nought tr.pnl in
      refresh_grade (trade_key tr) (record t {
        wins = t.wins + (if won then 1 else 0);
        losses = t.losses + (if won then 0 else 1);
        total_pnl = d.add t.total_pnl tr.pnl;
        total_closes = t.total_closes + 1;
        trades = cap_to 5000 (t.trades ++ tr ∷ []);
      })

  abbrev pub with_positions : SpotBook F → SpotShadowTracker F → SpotShadowTracker F
  with_positions ps t = record t { positions = ps }

  -- The iterator is the entry's key with the position.
  unfoldable pub partial_close :
      Text → VirtualPosition F → F → Text → F → SpotShadowTracker F → SpotShadowTracker F
  partial_close key vp exit reason pct t =
      let hundred = d.decimal 100 0 in
      let ratio = d.mul (d.div pct hundred) (d.div vp.remaining_pct hundred) in
      let remaining = d.mul vp.remaining_pct (d.sub (d.decimal 1 0) (d.div pct hundred)) in
      let booked = book_trade (spot_trade vp exit reason (d.mul (total_qty vp) ratio)) t in
      maybe_save (
        with_positions
          (if d.lt remaining (d.decimal 1 0)
            then erase key booked.positions
            else insert key (record vp { remaining_pct = remaining }) booked.positions)
          booked)

  unfoldable pub close_position :
      Text → VirtualPosition F → F → Text → SpotShadowTracker F → SpotShadowTracker F
  close_position key vp exit reason t =
      let qty = d.mul (total_qty vp) (d.div vp.remaining_pct (d.decimal 100 0)) in
      let booked = book_trade (spot_trade vp exit reason qty) t in
      maybe_save (with_positions (erase key booked.positions) booked)
