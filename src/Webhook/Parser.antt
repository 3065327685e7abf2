-- ===== src/Webhook/Parser.antt =====
-- include/webhook/signal_types.hpp: from_json, parse_sfx, parse_generic and parse_price_field.
-- `thrown` is an exception that leaves the function; the clock's reading is an argument.
pub mod Laws
use tv_webhook_trader.Shared.{
  ℕ, Bool, true, false, ◌||◌, ◌&&◌, if◌then◌else◌, Option, none, some, Text, codes, text_eq,
  is_empty, ℤ, pos,
}
use tv_webhook_trader.Shared.Decimal.{stoi}
use tv_webhook_trader.Shared.Double.{Double, nought}
use tv_webhook_trader.Shared.Json.{Outcome, done, thrown, ◌>>=◌, Json}
use tv_webhook_trader.Webhook.Signal.{WebhookSignal, blank_signal, entry}
use tv_webhook_trader.Webhook.Classify.{classify}
use tv_webhook_trader.Webhook.Market.{detect_exchange_market, normalize_symbol}
use tv_webhook_trader.Webhook.Priority.{calc_priority}
use tv_webhook_trader.Webhook.Repair.{sanitize, fix_quotes, seek}

abbrev or_default {ℓ} : {A : Type ℓ} → A → Option A → A
or_default a none = a
or_default a (some b) = b

-- What parse_sfx reads from the object, in its order.
pub record SfxFields (F : Type 0) : Type 0 where
  pub algorithm : Text
  pub ticker : Text
  pub ticker_full : Text
  pub unix_time : ℤ
  pub timestamp : Text
  pub currency : Text
  pub timeframe : Text
  pub type : Text
  pub alert : Text
  pub direction : Text
  pub rating : ℤ
  pub price : F
  pub entry_price : F
  pub tp1 : F
  pub tp2 : F
  pub tp3 : F
  pub sl : F
  pub token : Text
  pub strategy : Text

-- What it makes of them.
unfoldable pub sfx_signal : {F : Type 0} → SfxFields F → WebhookSignal F → WebhookSignal F
sfx_signal f sig =
    let market = detect_exchange_market f.ticker_full f.ticker in
    let intent = classify f.alert f.direction in
    record sig {
      algorithm = f.algorithm;
      ticker = f.ticker;
      ticker_full = f.ticker_full;
      unix_time = f.unix_time;
      timestamp = f.timestamp;
      currency = f.currency;
      timeframe = f.timeframe;
      type = f.type;
      priority = calc_priority f.timeframe;
      alert = f.alert;
      signal_direction = f.direction;
      current_rating = f.rating;
      exchange = market.0;
      market_type = market.1;
      symbol = normalize_symbol f.ticker;
      price = f.price;
      entry_price = f.entry_price;
      tp1 = f.tp1;
      tp2 = f.tp2;
      tp3 = f.tp3;
      sl = f.sl;
      token = f.token;
      strategy_name = f.strategy;
      sig_type = intent.sig_type;
      action = intent.action;
      trade_side = intent.trade_side;
      tp_level = intent.tp_level;
    }

module _ {F J : Type 0} ⦃d : Double F⦄ (lib : Json F J) where
  open lib use {
    parse, has, at, is_string, is_number, value_text, value_int, value_double, get_text, get_int,
    get_double,
  }

  abbrev finite_or_zero : F → F
  finite_or_zero v = if d.is_finite v then v else nought

  -- A price in a string; the exceptions of std::stod are caught.
  price_text : Text → F
  price_text s =
      if is_empty s
        || text_eq s (codes "NaN")
        || text_eq s (codes "nan")
        || text_eq s (codes "null")
        || text_eq s (codes "0")
      then nought
      else finite_or_zero (or_default nought (d.parse s))

  unfoldable pub parse_price_field : J → Text → Outcome F
  unfolding price_text
  parse_price_field j key =
      let v = at j key in
      let number = get_double v >>= λ x. done (finite_or_zero x) in
      let text = get_text v >>= λ s. done (price_text s) in
      if has j key
      then (if is_number v then number else if is_string v then text else done nought)
      else done nought

  -- std::stoi's exceptions are caught, as is one of get<std::string>().
  rating_text : Outcome Text → ℤ
  rating_text (done s) = or_default (pos 0) (stoi s)
  rating_text thrown = pos 0

  unfoldable pub current_rating : J → Outcome ℤ
  unfolding rating_text
  current_rating j =
      let v = at j (codes "current_rating") in
      if has j (codes "current_rating")
      then (if is_string v then done (rating_text (get_text v)) else get_int v)
      else done (pos 0)

  -- j.value(first, j.value(second, default))
  abbrev pub value_or : Text → Text → Text → J → Outcome Text
  value_or first second default j = do other ← value_text j second default; value_text j first other

  unfoldable pub read_sfx : J → Outcome (SfxFields F)
  read_sfx j = do
    algorithm ← value_text j (codes "algorithm") (codes "SFX")
    ticker ← value_text j (codes "ticker") (codes "")
    ticker_full ← value_text j (codes "ticker_full") (codes "")
    unix_time ← value_int j (codes "unix_time") (pos 0)
    timestamp ← value_text j (codes "timestamp") (codes "")
    currency ← value_text j (codes "currency") (codes "USDT")
    timeframe ← value_text j (codes "timeframe") (codes "")
    type ← value_text j (codes "type") (codes "crypto")
    alert ← value_text j (codes "alert") (codes "")
    direction ← value_text j (codes "signal_direction") (codes "")
    rating ← current_rating j
    price ← value_double j (codes "close") nought
    entry_price ← parse_price_field j (codes "entry_price")
    tp1 ← parse_price_field j (codes "tp1")
    tp2 ← parse_price_field j (codes "tp2")
    tp3 ← parse_price_field j (codes "tp3")
    sl ← parse_price_field j (codes "sl")
    token ← value_or (codes "token") (codes "secret") (codes "") j
    strategy ← value_or (codes "strategy") (codes "alert_name") (codes "unknown") j
    done (record {
      algorithm = algorithm;
      ticker = ticker;
      ticker_full = ticker_full;
      unix_time = unix_time;
      timestamp = timestamp;
      currency = currency;
      timeframe = timeframe;
      type = type;
      alert = alert;
      direction = direction;
      rating = rating;
      price = price;
      entry_price = entry_price;
      tp1 = tp1;
      tp2 = tp2;
      tp3 = tp3;
      sl = sl;
      token = token;
      strategy = strategy;
    })

  unfoldable pub parse_sfx : J → WebhookSignal F → Outcome (Option (WebhookSignal F))
  parse_sfx j sig = do fields ← read_sfx j; done (some (sfx_signal fields sig))

  -- A price in a string, if the number came out as zero; all exceptions are caught.
  text_price : F → Outcome Text → F
  text_price price (done s) = or_default price (d.parse s)
  text_price price thrown = price

  unfoldable pub parse_generic : J → WebhookSignal F → Outcome (Option (WebhookSignal F))
  unfolding text_price
  parse_generic j sig = do
    action ← value_text j (codes "action") (codes "")
    symbol ← value_text j (codes "symbol") (codes "")
    trade_side ← value_text j (codes "trade_side") (codes "open")
    price ← value_double j (codes "price") nought
    size ← value_double j (codes "qty") nought
    tp_other ← value_double j (codes "tp1") nought
    tp1 ← value_double j (codes "tp") tp_other
    sl ← value_double j (codes "sl") nought
    token ← value_or (codes "token") (codes "secret") (codes "") j
    strategy ← value_or (codes "strategy") (codes "alert_name") (codes "unknown") j
    let v = at j (codes "price")
    let from_text = d.eq price nought && has j (codes "price") && is_string v
    done (
        some (record sig {
          action = action;
          symbol = symbol;
          trade_side = trade_side;
          price = if from_text then text_price price (get_text v) else price;
          size = size;
          tp1 = tp1;
          sl = sl;
          token = token;
          strategy_name = strategy;
          sig_type = entry;
        }))

  unfoldable pub parse_signal : J → ℕ → Outcome (Option (WebhookSignal F))
  parse_signal j now =
      if has j (codes "algorithm") || has j (codes "alert")
      then parse_sfx j (blank_signal now)
      else parse_generic j (blank_signal now)

  -- The three attempts, in order: as it came, with its runs of quotes collapsed, and repaired.
  unfoldable pub parsed_body : Text → Option J
  parsed_body body =
      let sanitized = sanitize body in
      elim (parse body) [
        | some j ↦ some j
        | none ↦ elim (parse sanitized) [
          | some j ↦ some j
          | none ↦ parse (fix_quotes seek sanitized)
        ]
      ]

  unfoldable pub from_json : Text → ℕ → Outcome (Option (WebhookSignal F))
  from_json body now = elim (parsed_body body) [ none ↦ done none | some j ↦ parse_signal j now ]
