-- ===== src/Tests/Risk.antt =====
-- include/risk on concrete inputs.
use tv_webhook_trader.Shared.{
  ◌≡◌, refl, true, false, List, [], ◌∷◌, codes, ℤ, pos, ◌-ℤ◌, leb_ℤ, ltb_ℤ,
}
use tv_webhook_trader.Shared.Double.{whole}
use tv_webhook_trader.Core.Types.{OrderRequest, buy, open_side, market, ioc}
use tv_webhook_trader.Risk.Orders.{RiskManager, validate, update_pnl, reset_daily}
use tv_webhook_trader.Risk.Orders.Checks.{breaker_stops_orders, IsReset, books, places}
use tv_webhook_trader.Risk.Orders.Checks
use tv_webhook_trader.Risk.Orders.Counts.{
  Use, orders, closes, resets, IsLimit, CountsWithin, use_all, use_all-CountsWithin,
}
use tv_webhook_trader.Risk.Position.{ManagedPosition, Positions}
use tv_webhook_trader.Risk.Portfolio.{PortfolioRisk, Now}
use tv_webhook_trader.Risk.Portfolio.Entry.{Proposal, check_entry}
use tv_webhook_trader.Risk.Portfolio.Cooldown.{IsCooling, cooldown_refuses, trades, shadows}
use tv_webhook_trader.Risk.Portfolio.Cooldown

abbrev order : OrderRequest ℤ
order = record {
  symbol = codes "BTCUSDT";
  side = buy;
  trade_side = open_side;
  order_type = market;
  tif = ioc;
  price = pos 100;
  quantity = pos 2;
  client_order_id = 1;
  created_at = 0;
  leverage = pos 10;
  take_profit = pos 0;
  stop_loss = pos 0;
  product_type = codes "USDT-FUTURES";
  margin_coin = codes "USDT";
  comment = codes "";
}

abbrev pub manager : RiskManager ℤ
manager = record {
  limits = record {
    max_position_per_symbol = pos 3;
    max_daily_loss = pos 100;
    max_order_size = pos 50;
    max_open_orders = pos 10;
    circuit_breaker_loss = pos 200;
    max_drawdown_pct = pos 5;
  };
  daily_pnl = pos 0;
  daily_loss = pos 0;
  open_orders = pos 1;
  circuit_breaker = false;
  positions =
      (codes "BTCUSDT", record { count = pos 2; total_qty = pos 4; side = codes "long" }) ∷ [];
  allowed_symbols = codes "BTCUSDT" ∷ [];
  last_reset = 0;
}

-- Two more orders, of which the limit of three lets one through, and another after a close.
abbrev uses : List (Use ℤ)
uses =
    orders order (codes "long")
    ∷ orders order (codes "long")
    ∷ closes (codes "BTCUSDT") (pos 5)
    ∷ orders order (codes "long")
    ∷ resets 7
    ∷ []

manager-CountsWithin : CountsWithin (pos 3) manager.positions
unfolding leb_ℤ
manager-CountsWithin = (refl, tt)

manager-IsLimit : IsLimit (pos 3) manager.limits.max_position_per_symbol
unfolding leb_ℤ
manager-IsLimit = record { positive = refl; whole = λ k. refl }

use_all-CountsWithin_example : CountsWithin (pos 3) (use_all manager uses).positions
use_all-CountsWithin_example =
    use_all-CountsWithin (pos 3) manager uses manager-IsLimit manager-CountsWithin

abbrev big_loss : ℤ
big_loss = pos 0 -ℤ pos 250

loss_below : ltb_ℤ big_loss (pos 0) ≡ true
unfolding ltb_ℤ ◌-ℤ◌
loss_below = refl

loss_enough : leb_ℤ (pos 200) (pos 0 -ℤ big_loss) ≡ true
unfolding leb_ℤ ◌-ℤ◌
loss_enough = refl

breaker_example :
    let stopped = Checks.run (update_pnl big_loss manager) (places ∷ books (pos 500) ∷ []) in
    (validate order stopped ≡ false) × IsReset 9 stopped (reset_daily 9 stopped)
breaker_example =
    breaker_stops_orders big_loss manager (places ∷ books (pos 500) ∷ []) order 9 loss_below
      loss_enough

abbrev held : ManagedPosition ℤ
held = record {
  symbol = codes "BTCUSDT";
  timeframe = codes "";
  side = codes "long";
  entry_price = pos 100;
  quantity = pos 2;
  leverage = pos 10;
  sl_price = pos 0;
  tp1_price = pos 0;
  tier = codes "A";
  strategy = codes "unknown";
  opened_at = 0;
  is_real = false;
  exchange = codes "bitget";
  market_type = codes "futures";
}

abbrev book : Positions ℤ
book = (codes "BTCUSDT__1", held) ∷ (codes "BTCUSDT__2", held) ∷ []

abbrev pub portfolio : PortfolioRisk ℤ
portfolio = record {
  config = record {
    max_pos_total = pos 20;
    max_concurrent = pos 8;
    max_same_direction = pos 5;
    shadow_max_pos_total = pos 50;
    shadow_max_concurrent = pos 50;
    shadow_max_same_dir = pos 40;
    shadow_max_margin_pct = pos 90;
    live_min_tier = codes "B";
    max_pos_per_tf = (codes "unknown", pos 1) ∷ [];
    tf_exposure_pct = [];
    corr_factor = pos 1;
    max_corr_risk_pct = pos 30;
    max_margin_usage_pct = pos 60;
    rapid_loss_window_min = pos 60;
    rapid_loss_pct = pos 5;
    cb_daily_loss_pct = pos 10;
    cb_weekly_loss_pct = pos 20;
    cb_cooldown_min = pos 30;
  };
  daily_pnl = pos 0;
  weekly_pnl = pos 0;
  initial_balance = pos 1000;
  cb_active = true;
  cb_activated_at = 0;
  last_day = pos 5;
  last_week_day = pos 5;
  recent_losses = [];
  checks_total = 0;
  checks_passed = 0;
  checks_blocked = 0;
  block_reasons = [];
  shadow_mode = false;
}

abbrev entry : Proposal ℤ
entry = record {
  symbol = codes "BTCUSDT";
  timeframe = codes "";
  price = pos 100;
  qty = pos 2;
  leverage = pos 10;
  balance = pos 1000;
  positions = book;
  sl_price = pos 95;
  side = codes "buy";
}

abbrev pub soon : Now
soon = record { steady = 60_000_000_000; yday = 5; wday = 3 }

still-IsCooling : IsCooling (pos 30) 0 soon.steady
unfolding leb_ℤ
still-IsCooling = refl

cooldown_example :
    let calls = trades soon big_loss ∷ shadows true ∷ [] in
    ((Cooldown.run portfolio calls).cb_activated_at ≡ 0)
    × ((check_entry soon entry (Cooldown.run portfolio calls)).1.allowed ≡ false)
    × ((check_entry soon entry (Cooldown.run portfolio calls)).0.cb_active ≡ true)
cooldown_example =
    cooldown_refuses portfolio (trades soon big_loss ∷ shadows true ∷ []) soon entry refl tt
      still-IsCooling
