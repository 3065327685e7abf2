-- ===== src/Webhook/Signal.antt =====
-- include/webhook/signal_types.hpp: SignalType, the fields of WebhookSignal and its const methods.
use Prim.Native.Nat.{bit_xor}
use tv_webhook_trader.Shared.{
  ℕ, ◌+◌, ◌*◌, ◌/◌, ◌%◌, ◌^◌, Bool, true, false, ◌&&◌, ◌||◌, if◌then◌else◌, Text, codes, text_eq,
  is_empty, ℤ, pos,
}
use tv_webhook_trader.Shared.Double.{Double, nought}
use tv_webhook_trader.Core.Types.{
  Side, buy, sell, TradeSide, open_side, close_side, market, ioc, OrderRequest, fixed_symbol,
}

pub data SignalType : Type 0 where
  entry tp sl re_entry unknown : SignalType

pub signal_type_str : SignalType → Text
signal_type_str entry = codes "entry"
signal_type_str tp = codes "tp"
signal_type_str sl = codes "sl"
signal_type_str re_entry = codes "re_entry"
signal_type_str unknown = codes "unknown"

pub record WebhookSignal (F : Type 0) : Type 0 where
  pub algorithm : Text
  pub ticker : Text
  pub ticker_full : Text
  pub unix_time : ℤ
  pub timestamp : Text
  pub currency : Text
  pub timeframe : Text
  pub type : Text
  pub alert : Text
  pub signal_direction : Text
  pub current_rating : ℤ
  pub symbol : Text
  pub action : Text
  pub trade_side : Text
  pub sig_type : SignalType
  pub tp_level : Text
  pub price : F
  pub entry_price : F
  pub size : F
  pub tp1 : F
  pub tp2 : F
  pub tp3 : F
  pub sl : F
  pub token : Text
  pub strategy_name : Text
  pub exchange : Text
  pub market_type : Text
  pub received_at : ℕ
  pub priority : ℤ

unfoldable pub is_valid_type : SignalType → Text → Bool
is_valid_type entry action = text_eq action (codes "buy") || text_eq action (codes "sell")
is_valid_type re_entry action = text_eq action (codes "buy") || text_eq action (codes "sell")
is_valid_type tp action = true
is_valid_type sl action = true
is_valid_type unknown action = false

-- h ^= v + 0x9e3779b9 + (h << 6) + (h >> 2), on 64 bits
hash_combine : ℕ → ℕ → ℕ
hash_combine h v = bit_xor h ((v + 0x9e3779b9 + h * 2 ^ 6 % 2 ^ 64 + h / 2 ^ 2) % 2 ^ 64)

module _ {F : Type 0} ⦃d : Double F⦄ where
  -- The member initialisers, with `received_at` set.
  unfoldable pub blank_signal : ℕ → WebhookSignal F
  blank_signal now = record {
    algorithm = codes "";
    ticker = codes "";
    ticker_full = codes "";
    unix_time = pos 0;
    timestamp = codes "";
    currency = codes "";
    timeframe = codes "";
    type = codes "";
    alert = codes "";
    signal_direction = codes "";
    current_rating = pos 0;
    symbol = codes "";
    action = codes "";
    trade_side = codes "";
    sig_type = unknown;
    tp_level = codes "";
    price = nought;
    entry_price = nought;
    size = nought;
    tp1 = nought;
    tp2 = nought;
    tp3 = nought;
    sl = nought;
    token = codes "";
    strategy_name = codes "unknown";
    exchange = codes "bitget";
    market_type = codes "futures";
    received_at = now;
    priority = pos 0;
  }

  unfoldable pub is_valid : WebhookSignal F → Bool
  unfolding is_valid_type
  is_valid s =
      if is_empty s.symbol
      then false
      else if d.le s.price nought
      then false
      else is_valid_type s.sig_type s.action

  unfoldable pub get_side : WebhookSignal F → Side
  get_side s = if text_eq s.action (codes "buy") then buy else sell

  unfoldable pub get_trade_side : WebhookSignal F → TradeSide
  get_trade_side s = if text_eq s.trade_side (codes "close") then close_side else open_side

  unfoldable pub get_hold_side : WebhookSignal F → Text
  get_hold_side s = if text_eq s.action (codes "buy") then codes "long" else codes "short"

  abbrev is_set : F → Bool
  is_set x = d.lt nought x && d.is_finite x

  unfoldable pub has_tp1 : WebhookSignal F → Bool
  has_tp1 s = is_set s.tp1

  unfoldable pub has_tp2 : WebhookSignal F → Bool
  has_tp2 s = is_set s.tp2

  unfoldable pub has_tp3 : WebhookSignal F → Bool
  has_tp3 s = is_set s.tp3

  unfoldable pub has_sl : WebhookSignal F → Bool
  has_sl s = is_set s.sl

  -- std::hash of a text and of an int64_t are arguments.
  unfoldable pub fingerprint : (Text → ℕ) → (ℤ → ℕ) → WebhookSignal F → ℕ
  unfolding hash_combine
  fingerprint hash_text hash_int s =
      hash_combine
        (hash_combine (hash_combine (hash_combine 0 (hash_text s.symbol)) (hash_text s.alert))
          (hash_int s.unix_time))
        (hash_text s.timeframe)

  unfoldable pub to_order_request : ℕ → WebhookSignal F → OrderRequest F
  to_order_request oid s = record {
    symbol = fixed_symbol s.symbol;
    side = get_side s;
    trade_side = get_trade_side s;
    order_type = market;
    tif = ioc;
    price = s.price;
    quantity = s.size;
    client_order_id = oid;
    created_at = s.received_at;
    leverage = pos 10;
    take_profit = s.tp1;
    stop_loss = s.sl;
    product_type = codes "USDT-FUTURES";
    margin_coin = codes "USDT";
    comment = codes "";
  }
