-- ===== src/Execution/Shadow/State.antt =====
-- include/execution/shadow_tracker.hpp: the members of ShadowTracker, its file and the keys of its map.
use tv_webhook_trader.Shared.{
  ℕ, Bool, ◌&&◌, if◌then◌else◌, List, [], ◌∷◌, ◌++◌, Option, none, some, Text, codes, text_eq,
  is_empty,
}
use tv_webhook_trader.Webhook.Signal.{WebhookSignal, SignalType, entry, tp, sl, re_entry, unknown}
use tv_webhook_trader.Execution.Trades.{TradeRecord}

pub record VirtualPosition (F : Type 0) : Type 0 where
  pub symbol : Text
  pub timeframe : Text
  pub side : Text
  pub strategy : Text
  pub entry_price : F
  pub sl_price : F
  pub tp1_price : F
  pub opened_at : ℕ

abbrev pub VirtualBook : Type 0 → Type 0
VirtualBook F = List (Text × VirtualPosition F)

-- The figures of m_live_equiv_stats, and of get_stats.
pub record ShadowStats (F : Type 0) : Type 0 where
  pub total_entries : ℕ
  pub total_closes : ℕ
  pub open_positions : ℕ
  pub wins : ℕ
  pub losses : ℕ
  pub total_pnl : F
  pub win_rate : F

-- What data/shadow_state.json holds. Times are in seconds.
pub record ShadowFile (F : Type 0) : Type 0 where
  pub positions : VirtualBook F
  pub trades : List (TradeRecord F)
  pub stats : ShadowStats F
  pub live_equiv_stats : ShadowStats F
  pub live_equiv_keys : List Text
  pub live_equiv_trades : List (TradeRecord F)

-- `file` are the values that were last handed to the JSON library to be written.
pub record ShadowTracker (F : Type 0) : Type 0 where
  pub positions : VirtualBook F
  pub trades : List (TradeRecord F)
  pub learned : List (TradeRecord F)
  pub total_entries : ℕ
  pub total_closes : ℕ
  pub wins : ℕ
  pub losses : ℕ
  pub total_pnl : F
  pub ops_since_save : ℕ
  pub live_equiv_keys : List Text
  pub live_equiv_stats : ShadowStats F
  pub live_equiv_trades : List (TradeRecord F)
  pub file : Option (ShadowFile F)

unfoldable pub make_key : Text → Text → Text → Text
make_key symbol tf side = symbol ++ b':' ∷ (tf ++ b':' ∷ side)

-- An entry that buys opens a long position; other signals name the direction of the position.
unfoldable pub is_long_signal : {F : Type 0} → SignalType → WebhookSignal F → Bool
is_long_signal entry sig = text_eq sig.action (codes "buy")
is_long_signal re_entry sig = text_eq sig.action (codes "buy")
is_long_signal tp sig = text_eq sig.signal_direction (codes "bull")
is_long_signal sl sig = text_eq sig.signal_direction (codes "bull")
is_long_signal unknown sig = text_eq sig.signal_direction (codes "bull")

abbrev pub side_text : Bool → Text
side_text long = if long then codes "long" else codes "short"

unfoldable pub dir_to_side : {F : Type 0} → WebhookSignal F → Text
dir_to_side sig = side_text (is_long_signal sig.sig_type sig)

abbrev pub timeframe_or_nought : Text → Text
timeframe_or_nought tf = if is_empty tf then codes "0" else tf

abbrev pub timeframe_of : {F : Type 0} → WebhookSignal F → Text
timeframe_of sig = timeframe_or_nought sig.timeframe

unfoldable pub find_by_symbol_side :
    {F : Type 0} → Text → Text → VirtualBook F → Option (Text × VirtualPosition F)
find_by_symbol_side symbol side [] = none
find_by_symbol_side symbol side ((k, p) ∷ ps) =
    if text_eq p.symbol symbol && text_eq p.side side
    then some (k, p)
    else find_by_symbol_side symbol side ps

-- The members that load_state restores of a trade; the exchange is not written.
unfoldable pub file_trade : {F : Type 0} → TradeRecord F → TradeRecord F
file_trade t = record t { exchange = codes "bitget" }
