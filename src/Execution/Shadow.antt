-- ===== src/Execution/Shadow.antt =====
-- include/execution/shadow_tracker.hpp: class ShadowTracker, which follows every signal with a paper
-- position. The callers of the private methods hold `m_mtx`. `now` is a reading of the system clock in
-- milliseconds; what is handed to the learner is kept as a list, and the state file as what was last
-- written to it. Logging is left out.
use tv_webhook_trader.Shared.{
  ℕ, ◌+◌, ◌/◌, ◌*◌, Bool, true, false, not, ◌&&◌, if◌then◌else◌, List, [], ◌∷◌, ◌++◌, Option, none,
  some, Text, codes, text_eq, is_empty, leb, length, cap_to, latest, map, lookup, insert, erase,
  has_key, contains, put, take_out,
}
use tv_webhook_trader.Shared.Double.{Double, nought}
use tv_webhook_trader.Webhook.Signal.{WebhookSignal, SignalType, entry, tp, sl, re_entry, unknown}
use tv_webhook_trader.Execution.Trades.{TradeRecord, win_rate_of}
mod State
unfoldable pub use State.*
pub mod Sides
pub mod Books
pub mod Runs
pub mod Report
pub mod Restart

module _ {F : Type 0} ⦃d : Double F⦄ where
  abbrev pub no_stats : ShadowStats F
  no_stats = record {
    total_entries = 0;
    total_closes = 0;
    open_positions = 0;
    wins = 0;
    losses = 0;
    total_pnl = nought;
    win_rate = nought;
  }

  -- The member initialisers, when there is no file.
  abbrev pub fresh_tracker : ShadowTracker F
  fresh_tracker = record {
    positions = [];
    trades = [];
    learned = [];
    total_entries = 0;
    total_closes = 0;
    wins = 0;
    losses = 0;
    total_pnl = nought;
    ops_since_save = 0;
    live_equiv_keys = [];
    live_equiv_stats = no_stats;
    live_equiv_trades = [];
    file = none;
  }

  unfoldable pub get_stats : ShadowTracker F → ShadowStats F
  get_stats t = record {
    total_entries = t.total_entries;
    total_closes = t.total_closes;
    open_positions = length t.positions;
    wins = t.wins;
    losses = t.losses;
    total_pnl = t.total_pnl;
    win_rate = win_rate_of t.wins t.total_closes;
  }

  -- The result of a closed position as a share of the risk, or of the position without a stop.
  unfoldable pub realized_rr_of : VirtualPosition F → F → F → F
  realized_rr_of vp qty net =
      let risk = d.mul (d.abs (d.sub vp.entry_price vp.sl_price)) qty in
      let notional = d.mul vp.entry_price qty in
      if d.lt nought vp.sl_price && d.lt nought vp.entry_price
      then (if d.lt (d.decimal 1 4) risk then d.div net risk else nought)
      else if d.lt nought vp.entry_price
      then (if d.lt (d.decimal 1 4) notional then d.div net notional else nought)
      else nought

  -- The trade of a closed position of 100 USDT, the taker's fee paid on both ends.
  unfoldable pub shadow_trade : VirtualPosition F → F → Text → TradeRecord F
  shadow_trade vp exit reason =
      let qty =
        if d.lt nought vp.entry_price then d.div (d.decimal 100 0) vp.entry_price else nought in
      let direction =
        if text_eq vp.side (codes "long") then d.decimal 1 0 else d.neg (d.decimal 1 0) in
      let gross = d.mul (d.mul direction (d.sub exit vp.entry_price)) qty in
      let fee =
        d.add (d.mul (d.mul vp.entry_price qty) (d.decimal 6 4))
          (d.mul (d.mul exit qty) (d.decimal 6 4)) in
      let net = d.sub gross fee in
      record {
        symbol = vp.symbol;
        timeframe = vp.timeframe;
        exit_reason = codes "SHADOW_" ++ reason;
        pnl = net;
        fee = fee;
        entry_price = vp.entry_price;
        exit_price = exit;
        quantity = qty;
        strategy = vp.strategy;
        exchange = codes "bitget";
        market_type = vp.side;
        gross_pnl = gross;
        net_pnl = net;
        fee_cost = fee;
        realized_rr = realized_rr_of vp qty net;
      }

  -- The figures with one more trade.
  unfoldable pub with_result : F → ShadowStats F → ShadowStats F
  with_result net s =
      let won = d.lt nought net in
      let wins = s.wins + (if won then 1 else 0) in
      let closes = s.total_closes + 1 in
      record s {
        wins = wins;
        losses = s.losses + (if won then 0 else 1);
        total_pnl = d.add s.total_pnl net;
        total_closes = closes;
        win_rate = win_rate_of wins closes;
      }

  unfoldable pub note_live_equiv : Text → TradeRecord F → ShadowTracker F → ShadowTracker F
  note_live_equiv key tr t =
      if contains t.live_equiv_keys key
      then record t {
        live_equiv_stats = with_result tr.pnl t.live_equiv_stats;
        live_equiv_trades = cap_to 2000 (t.live_equiv_trades ++ tr ∷ []);
        live_equiv_keys = take_out key t.live_equiv_keys;
      }
      else t

  -- save_state_locked
  unfoldable pub state_file : ShadowTracker F → ShadowFile F
  state_file t = record {
    positions = map (λ kp. (kp.0, record kp.1 { opened_at = kp.1.opened_at / 1000 })) t.positions;
    trades = map file_trade (latest 1000 t.trades);
    stats = get_stats t;
    live_equiv_stats = t.live_equiv_stats;
    live_equiv_keys = t.live_equiv_keys;
    live_equiv_trades = map file_trade (latest 500 t.live_equiv_trades);
  }

  unfoldable pub save_state : ShadowTracker F → ShadowTracker F
  save_state t = record t { file = some (state_file t) }

  unfoldable pub maybe_save : ShadowTracker F → ShadowTracker F
  maybe_save t =
      let counted = record t { ops_since_save = t.ops_since_save + 1 } in
      if leb 10 counted.ops_since_save
      then record (save_state counted) { ops_since_save = 0 }
      else counted

  -- The iterator is the entry's key with the position.
  unfoldable pub close_position :
      Text → VirtualPosition F → F → Text → ShadowTracker F → ShadowTracker F
  close_position key vp exit reason t =
      let tr = shadow_trade vp exit reason in
      let won = d.lt nought tr.net_pnl in
      let noted = note_live_equiv (make_key vp.symbol vp.timeframe vp.side) tr (record t {
        wins = t.wins + (if won then 1 else 0);
        losses = t.losses + (if won then 0 else 1);
        total_pnl = d.add t.total_pnl tr.net_pnl;
        total_closes = t.total_closes + 1;
        trades = cap_to 5000 (t.trades ++ tr ∷ []);
        learned = t.learned ++ tr ∷ [];
      }) in
      maybe_save (record noted { positions = erase key noted.positions })

  abbrev pub close_found :
      Text → F → Text → Option (VirtualPosition F) → ShadowTracker F → ShadowTracker F
  close_found key exit reason none t = t
  close_found key exit reason (some vp) t = close_position key vp exit reason t

  unfoldable pub close_opposite : Text → F → ShadowTracker F → ShadowTracker F
  close_opposite key exit t = close_found key exit (codes "REVERSAL") (lookup key t.positions) t

  unfoldable pub open_position : Text → VirtualPosition F → ShadowTracker F → ShadowTracker F
  open_position key vp t =
      maybe_save
        (record t { positions = insert key vp t.positions; total_entries = t.total_entries + 1 })

  abbrev pub virtual_position : ℕ → WebhookSignal F → Bool → VirtualPosition F
  virtual_position now sig long = record {
    symbol = sig.symbol;
    timeframe = timeframe_of sig;
    side = side_text long;
    strategy = sig.strategy_name;
    entry_price = sig.price;
    sl_price = sig.sl;
    tp1_price = sig.tp1;
    opened_at = now;
  }

  -- A position on the same side stays; one on the other side is closed first.
  unfoldable pub track_entry : ℕ → WebhookSignal F → ShadowTracker F → ShadowTracker F
  track_entry now sig t =
      let tf = timeframe_of sig in
      let long = is_long_signal sig.sig_type sig in
      let key = make_key sig.symbol tf (side_text long) in
      let opposite = make_key sig.symbol tf (side_text (not long)) in
      if has_key key t.positions
      then t
      else open_position key (virtual_position now sig long) (close_opposite opposite sig.price t)

  abbrev pub close_entry :
      F → Text → Option (Text × VirtualPosition F) → ShadowTracker F → ShadowTracker F
  close_entry exit reason none t = t
  close_entry exit reason (some (k, vp)) t = close_position k vp exit reason t

  abbrev pub or_search :
      Text
      → Option (VirtualPosition F)
      → Option (Text × VirtualPosition F)
      → Option (Text × VirtualPosition F)
  or_search key none found = found
  or_search key (some vp) found = some (key, vp)

  -- track_tp and track_sl: the position of the timeframe, or else any one of the symbol and side.
  unfoldable pub track_exit : Text → WebhookSignal F → ShadowTracker F → ShadowTracker F
  track_exit reason sig t =
      let side = dir_to_side sig in
      let key = make_key sig.symbol (timeframe_of sig) side in
      close_entry sig.price reason
        (or_search key (lookup key t.positions) (find_by_symbol_side sig.symbol side t.positions)) t

  unfoldable pub track_type : SignalType → ℕ → WebhookSignal F → ShadowTracker F → ShadowTracker F
  track_type entry now sig t = track_entry now sig t
  track_type re_entry now sig t = track_entry now sig t
  track_type tp now sig t = track_exit (codes "TP") sig t
  track_type sl now sig t = track_exit (codes "SL") sig t
  track_type unknown now sig t = t

  unfoldable pub track : ℕ → WebhookSignal F → ShadowTracker F → ShadowTracker F
  track now sig t =
      if text_eq sig.market_type (codes "spot")
      then t
      else if is_empty sig.symbol
      then t
      else track_type sig.sig_type now sig t

  unfoldable pub mark_live_equivalent : Text → ShadowTracker F → ShadowTracker F
  mark_live_equivalent key t =
      let s = t.live_equiv_stats in
      record t {
        live_equiv_keys = put key t.live_equiv_keys;
        live_equiv_stats = record s { total_entries = s.total_entries + 1 };
      }
