-- ===== src/Webhook/Market.antt =====
-- include/webhook/signal_types.hpp: detect_exchange_market and normalize_symbol.
pub mod Symbols
use tv_webhook_trader.Shared.{
  ℕ, ◌+◌, ◌-◌, Bool, true, false, ◌&&◌, if◌then◌else◌, List, [], ◌∷◌, Option, none, some, Text,
  codes, text_eq, has_part, ltb, length, last_n, drop_last_n, ◌==◌, take, drop,
}
use tv_webhook_trader.Webhook.Classify.{to_upper}

unfoldable pub detect_exchange : Text → Text
detect_exchange ticker_full =
    let u = to_upper ticker_full in
    if has_part (codes "UPBIT") u
    then codes "upbit"
    else if has_part (codes "BITGET") u
    then codes "bitget"
    else if has_part (codes "BINANCE") u
    then codes "binance"
    else codes "bitget"

-- sym.size() > 2 && sym.substr(sym.size() - 2) == ".P"
unfoldable pub is_perpetual : Text → Bool
is_perpetual s = ltb 2 (length s) && text_eq (last_n 2 s) (codes ".P")

unfoldable pub is_krw_pair : Text → Bool
is_krw_pair s = ltb 3 (length s) && text_eq (last_n 3 s) (codes "KRW")

-- The exchange and the market of a signal.
unfoldable pub detect_exchange_market : (ticker_full ticker : Text) → Text × Text
detect_exchange_market ticker_full ticker =
    let exchange = detect_exchange ticker_full in
    if is_perpetual ticker
    then (exchange, codes "futures")
    else if is_krw_pair ticker
    then (codes "upbit", codes "spot")
    else if text_eq exchange (codes "upbit")
    then (exchange, codes "spot")
    else (exchange, codes "futures")

-- What stands behind the first colon, if there is one.
unfoldable pub behind_colon : Text → Option Text
behind_colon [] = none
behind_colon (c ∷ s) = if c == b':' then some s else behind_colon s

-- A suffix ".P" goes.
pub strip_suffix : Text → Text
strip_suffix ticker = if is_perpetual ticker then drop_last_n 2 ticker else ticker

-- What stands up to the first colon goes.
pub strip_exchange : Text → Text
strip_exchange s = elim (behind_colon s) [ none ↦ s | some t ↦ t ]

unfoldable pub normalize_symbol : Text → Text
unfolding is_perpetual behind_colon strip_suffix strip_exchange
normalize_symbol ticker = strip_exchange (strip_suffix ticker)
