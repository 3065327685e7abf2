-- ===== src/Execution/SpotShadow/State.antt =====
-- include/execution/spot_shadow_tracker.hpp: the members of SpotShadowTracker, its file, the keys of
-- its map and the pairs that it follows.
use tv_webhook_trader.Shared.{
  ℕ, Bool, not, ◌&&◌, if◌then◌else◌, List, [], ◌∷◌, ◌++◌, Option, none, some, Text, codes, text_eq,
  is_empty, last_n, ltb, length, get_or, lookup,
}
use tv_webhook_trader.Webhook.Signal.{WebhookSignal}
use tv_webhook_trader.Execution.Trades.{TradeRecord}

pub record VirtualPosition (F : Type 0) : Type 0 where
  pub symbol : Text
  pub timeframe : Text
  pub exchange : Text
  pub strategy : Text
  pub entry_price : F
  pub sl_price : F
  pub tp1_price : F
  pub remaining_pct : F
  pub opened_at : ℕ

abbrev pub SpotBook : Type 0 → Type 0
SpotBook F = List (Text × VirtualPosition F)

-- What data/spot_shadow_state.json holds. Times are in seconds.
pub record SpotFile (F : Type 0) : Type 0 where
  pub positions : SpotBook F
  pub trades : List (TradeRecord F)
  pub total_entries : ℕ
  pub total_closes : ℕ
  pub wins : ℕ
  pub losses : ℕ
  pub total_pnl : F
  pub grades : List (Text × Text)

pub record SpotShadowTracker (F : Type 0) : Type 0 where
  pub positions : SpotBook F
  pub trades : List (TradeRecord F)
  pub symbol_grades : List (Text × Text)
  pub total_entries : ℕ
  pub total_closes : ℕ
  pub wins : ℕ
  pub losses : ℕ
  pub total_pnl : F
  pub ops_since_save : ℕ
  pub file : Option (SpotFile F)

unfoldable pub make_key : Text → Text → Text → Text
make_key symbol tf exchange = symbol ++ b':' ∷ (tf ++ b':' ∷ exchange)

abbrev pub trade_key : {F : Type 0} → TradeRecord F → Text
trade_key t = make_key t.symbol t.timeframe t.exchange

abbrev pub spot_quote_currency : Text → Text
spot_quote_currency symbol =
    if ltb 3 (length symbol) && text_eq (last_n 3 symbol) (codes "KRW")
    then codes "KRW"
    else if ltb 4 (length symbol) && text_eq (last_n 4 symbol) (codes "USDT")
    then codes "USDT"
    else if ltb 3 (length symbol) && text_eq (last_n 3 symbol) (codes "BTC")
    then codes "BTC"
    else codes "UNKNOWN"

-- Upbit is followed in KRW and Bitget in USDT only.
unfoldable pub is_followed : Text → Text → Bool
is_followed symbol exchange =
    let quote = spot_quote_currency symbol in
    not (text_eq exchange (codes "upbit") && not (text_eq quote (codes "KRW")))
    && not (text_eq exchange (codes "bitget") && not (text_eq quote (codes "USDT")))

unfoldable pub find_by_symbol : {F : Type 0} → Text → SpotBook F → Option (Text × VirtualPosition F)
find_by_symbol symbol [] = none
find_by_symbol symbol ((k, p) ∷ ps) =
    if text_eq p.symbol symbol then some (k, p) else find_by_symbol symbol ps

abbrev pub tf_of : {F : Type 0} → WebhookSignal F → Text
tf_of sig = if is_empty sig.timeframe then codes "0" else sig.timeframe

abbrev pub key_of : {F : Type 0} → WebhookSignal F → Text
key_of sig = make_key sig.symbol (tf_of sig) sig.exchange

abbrev pub found_or :
    {F : Type 0}
    → Text
    → Option (Text × VirtualPosition F)
    → Option (VirtualPosition F)
    → Option (Text × VirtualPosition F)
found_or key other none = other
found_or key other (some vp) = some (key, vp)

-- The position of the signal's key, or else any one of its symbol.
unfoldable pub find_position :
    {F : Type 0} → WebhookSignal F → SpotBook F → Option (Text × VirtualPosition F)
find_position sig ps = found_or (key_of sig) (find_by_symbol sig.symbol ps) (lookup (key_of sig) ps)

module _ {F : Type 0} where
  unfoldable pub get_grade : Text → SpotShadowTracker F → Text
  get_grade key t = get_or (codes "?") (lookup key t.symbol_grades)
