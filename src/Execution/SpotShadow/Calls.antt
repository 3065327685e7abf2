-- ===== src/Execution/SpotShadow/Calls.antt =====
-- include/execution/spot_shadow_tracker.hpp: what a signal does to the spot tracker, and load_state. The
-- JSON library is a parameter.
use tv_webhook_trader.Shared.{
  ℕ, ◌+◌, ◌*◌, Bool, not, ◌&&◌, ◌||◌, if◌then◌else◌, List, [], ◌∷◌, ◌++◌, Option, none, some, Text,
  codes, text_eq, is_empty, insert, has_key,
}
use tv_webhook_trader.Shared.Double.{Double, min_of}
use tv_webhook_trader.Webhook.Signal.{WebhookSignal, SignalType, entry, tp, sl, re_entry, unknown}
use tv_webhook_trader.Execution.SpotShadow.{
  VirtualPosition, SpotBook, SpotFile, SpotShadowTracker, spot_quote_currency, is_followed, tf_of,
  key_of, find_position, fresh_tracker, tp_close_pct, maybe_save, partial_close, close_position,
}

-- The pairs that a restart keeps.
abbrev pub is_restored : Text → Text → Bool
is_restored symbol exchange =
    let quote = spot_quote_currency symbol in
    (text_eq exchange (codes "upbit") && text_eq quote (codes "KRW"))
    || (text_eq exchange (codes "bitget") && text_eq quote (codes "USDT"))
    || (text_eq quote (codes "KRW") || text_eq quote (codes "USDT"))

unfoldable pub restore_positions : {F : Type 0} → SpotBook F → SpotBook F → SpotBook F
restore_positions [] m = m
restore_positions ((key, vp) ∷ ps) m = restore_positions ps (
    if not (is_empty vp.symbol) && is_restored vp.symbol vp.exchange
    then insert key (record vp { opened_at = vp.opened_at * 1000 }) m
    else m)

unfoldable pub restore_grades : List (Text × Text) → List (Text × Text) → List (Text × Text)
restore_grades [] m = m
restore_grades ((key, grade) ∷ gs) m = restore_grades gs (insert key grade m)

module _ {F : Type 0} ⦃d : Double F⦄ where
  -- `parse` is what load_state takes out of a file, a B, before it is through or something throws; what it
  -- does not reach, and what it does not find, is as in a fresh tracker.
  unfoldable pub load_state : {B : Type 0} → (B → SpotFile F) → Option B → SpotShadowTracker F
  load_state parse none = fresh_tracker
  load_state parse (some body) =
      let f = parse body in
      record fresh_tracker {
        positions = restore_positions f.positions [];
        trades = f.trades;
        symbol_grades = restore_grades f.grades [];
        total_entries = f.total_entries;
        total_closes = f.total_closes;
        wins = f.wins;
        losses = f.losses;
        total_pnl = f.total_pnl;
        file = some f;
      }

  abbrev pub bought : ℕ → WebhookSignal F → VirtualPosition F
  bought now sig = record {
    symbol = sig.symbol;
    timeframe = tf_of sig;
    exchange = sig.exchange;
    strategy = sig.strategy_name;
    entry_price = sig.price;
    sl_price = sig.sl;
    tp1_price = sig.tp1;
    remaining_pct = d.decimal 100 0;
    opened_at = now;
  }

  unfoldable pub track_entry : ℕ → WebhookSignal F → SpotShadowTracker F → SpotShadowTracker F
  track_entry now sig t =
      if not (text_eq sig.action (codes "buy"))
      then t
      else if not (is_followed sig.symbol sig.exchange)
      then t
      else if has_key (key_of sig) t.positions
      then t
      else maybe_save (record t {
        positions = insert (key_of sig) (bought now sig) t.positions;
        total_entries = t.total_entries + 1;
      })

  -- A target closes a third, a half or the whole of what is left.
  abbrev pub take_profit :
      WebhookSignal F
      → Option (Text × VirtualPosition F)
      → SpotShadowTracker F
      → SpotShadowTracker F
  take_profit sig none t = t
  take_profit sig (some (key, vp)) t =
      let pct = min_of (tp_close_pct sig.tp_level) vp.remaining_pct in
      let reason = codes "TP_" ++ sig.tp_level in
      if d.le vp.remaining_pct pct
      then close_position key vp sig.price reason t
      else partial_close key vp sig.price reason pct t

  abbrev pub stop_out :
      WebhookSignal F
      → Option (Text × VirtualPosition F)
      → SpotShadowTracker F
      → SpotShadowTracker F
  stop_out sig none t = t
  stop_out sig (some (key, vp)) t = close_position key vp sig.price (codes "SL") t

  unfoldable pub track_tp : WebhookSignal F → SpotShadowTracker F → SpotShadowTracker F
  track_tp sig t =
      if text_eq sig.signal_direction (codes "bull")
      then take_profit sig (find_position sig t.positions) t
      else t

  unfoldable pub track_sl : WebhookSignal F → SpotShadowTracker F → SpotShadowTracker F
  track_sl sig t =
      if text_eq sig.signal_direction (codes "bull")
      then stop_out sig (find_position sig t.positions) t
      else t

  unfoldable pub track_type :
      SignalType → ℕ → WebhookSignal F → SpotShadowTracker F → SpotShadowTracker F
  track_type entry now sig t = track_entry now sig t
  track_type re_entry now sig t = track_entry now sig t
  track_type tp now sig t = track_tp sig t
  track_type sl now sig t = track_sl sig t
  track_type unknown now sig t = t

  unfoldable pub track : ℕ → WebhookSignal F → SpotShadowTracker F → SpotShadowTracker F
  track now sig t =
      if not (text_eq sig.market_type (codes "spot"))
      then t
      else if is_empty sig.symbol
      then t
      else track_type sig.sig_type now sig t
