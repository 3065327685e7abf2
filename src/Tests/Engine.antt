-- ===== src/Tests/Engine.antt =====
-- include/execution/execution_engine.hpp: the engine on concrete inputs.
use tv_webhook_trader.Shared.{
  ◌+◌, ◌≡◌, inl, refl, ◌||◌, some, true, false, List, [], ◌∷◌, codes, lookup, text_eq, ℤ, pos,
  negsuc, leb_ℤ,
}
use tv_webhook_trader.Shared.Double.{whole, whole-IsExact}
use tv_webhook_trader.Shared.Sorter.{by_insertion}
use tv_webhook_trader.Core.Types.{OrderResponse, OrderStatus}
use tv_webhook_trader.Webhook.Signal.{WebhookSignal, SignalType, blank_signal}
use tv_webhook_trader.Risk.Position.{ManagedPosition}
use tv_webhook_trader.Risk.Orders.{RiskManager}
use tv_webhook_trader.Risk.Portfolio.{set_shadow_mode}
use tv_webhook_trader.Execution.Positions.Exchange.{ExchangePos}
use tv_webhook_trader.Execution.Positions.Single.{holds, IsSingle}
use tv_webhook_trader.Execution.Engine.{Engine, EngineConfig, Moment, SpotAccount}
use tv_webhook_trader.Execution.Engine.Closing.{WsPositionUpdate}
use tv_webhook_trader.Execution.Engine.Spot.{sell_spot}
use tv_webhook_trader.Execution.Engine.Signals.{
  Call, signal, ws_position, reset, rescore, check, drops, imports, syncs, balances, ws_account,
  run, process_signal,
}
use tv_webhook_trader.Execution.Engine.Counting.{outcomes, process_signal-outcomes}
use tv_webhook_trader.Execution.Engine.Single.{run-IsSingle}
use tv_webhook_trader.Execution.Engine.Breakers.{IsOff, run-IsOff}
use tv_webhook_trader.Execution.Engine.Taken.{IsTaken, NoneOpens, run-NoneOpens}
use tv_webhook_trader.Execution.Engine.Accounts.{IsSold, sell_spot-balance}
use tv_webhook_trader.Tests.AutoLive.{trackers, goes_live, fees, aims}
use tv_webhook_trader.Tests.Execution.{account, trade}
use tv_webhook_trader.Tests.Readiness.{settings}
use tv_webhook_trader.Tests.Risk.{manager, soon}
use tv_webhook_trader.Tests.Scorer.{scorer}
use tv_webhook_trader.Tests.Sizing.{sizer}

abbrev pub config : EngineConfig ℤ
config = record {
  default_leverage = pos 10;
  backup_sl_pct = pos 0;
  allowed_symbols = [];
  tf_filters = [];
  fee = fees;
  sizer = sizer;
}

abbrev accepted : OrderResponse ℤ
accepted = record {
  client_order_id = 1;
  exchange_order_id = 9;
  status = OrderStatus.new;
  filled_price = pos 100;
  filled_qty = pos 1;
  updated_at = 5;
  error_code = pos 0;
  error_msg = codes "";
}

abbrev pub moment : Moment ℤ
moment = record {
  has_lock = true;
  time = codes "now";
  now_ns = 1000;
  now_ms = 1;
  clock = soon;
  learn = record {
    allowed = true;
    signal_quality = pos 1;
    size_multiplier = pos 1;
    tp_pct = pos 1;
    sl_pct = pos 1;
    skip_reason = codes "";
  };
  place_futures_order = λ request tp sl attempt. accepted;
  close_partial = λ symbol qty side attempt. accepted;
  flash_close_position = λ symbol side attempt. true;
}

abbrev long_btc : ManagedPosition ℤ
long_btc = record {
  symbol = codes "BTCUSDT";
  timeframe = codes "60";
  side = codes "long";
  entry_price = pos 100;
  quantity = pos 2;
  leverage = pos 10;
  sl_price = pos 90;
  tp1_price = pos 130;
  tier = codes "B";
  strategy = codes "sfx";
  opened_at = 0;
  is_real = true;
  exchange = codes "bitget";
  market_type = codes "futures";
}

-- The order manager counts a position of BTCUSDT and allows one for each symbol.
abbrev counting : RiskManager ℤ
counting = record manager { limits = record manager.limits { max_position_per_symbol = pos 1 } }

abbrev kept : SpotAccount ℤ
kept = record { balance = pos 1000000; peak_balance = pos 1000000; positions = []; trades = [] }

abbrev pub engine : Engine ℤ
engine = record {
  auto = record goes_live { port_risk = record goes_live.port_risk { cb_active = false } };
  trackers = trackers;
  scorer = scorer;
  positions = (codes "BTCUSDT_60_7", long_btc) ∷ [];
  recorder = account;
  risk = counting;
  alerts = [];
  recent_fingerprints = [];
  next_oid = 8;
  orders_executed = 1;
  orders_rejected = 0;
  orders_skipped = 0;
  risk_skips = 0;
  spot_account = kept;
}

abbrev pub enters : WebhookSignal ℤ
enters = record aims { sig_type = SignalType.entry; trade_side = codes "open" }

abbrev pub stops : WebhookSignal ℤ
stops = record aims { sig_type = SignalType.sl; signal_direction = codes "bull" }

abbrev pub gone : WsPositionUpdate ℤ
gone = record {
  symbol = codes "BTCUSDT";
  hold_side = codes "long";
  size = pos 0;
  avg_price = pos 80;
  realized_pnl = negsuc 39;
}

abbrev calls : List (Call ℤ)
calls =
    signal moment 1 stops
    ∷ ws_position moment gone
    ∷ ws_account (record { available = pos 90; equity = pos 95 })
    ∷ balances (pos 80) (pos 85) (pos 5)
    ∷ reset 90000000000000
    ∷ rescore 1 (codes "now")
    ∷ check settings
    ∷ drops (codes "BTCUSDT") (codes "long")
    ∷ imports 1 (codes "now") (trade (pos 3) ∷ [])
    ∷ signal moment 2 enters
    ∷ []

-- The exchange turns out to hold BTCUSDT on the short side.
abbrev short_btc : ExchangePos ℤ
short_btc = record {
  symbol = codes "BTCUSDT";
  hold_side = codes "short";
  total = pos 2;
  avg_price = pos 100;
  leverage = pos 10;
}

abbrev synced_calls : List (Call ℤ)
synced_calls = syncs 1 ((codes "BTCUSDT:short", short_btc) ∷ []) ∷ calls

futures_only : text_eq (codes "futures") (codes "spot") ≡ false
unfolding text_eq
futures_only = refl

process_signal-outcomes_example :
    outcomes (process_signal config moment 2 enters engine).0 ≡ outcomes engine + 1
unfolding blank_signal
process_signal-outcomes_example =
    process_signal-outcomes config moment 2 enters engine (inl refl) futures_only

sided : (text_eq (codes "long") (codes "long") || text_eq (codes "long") (codes "short")) ≡ true
unfolding text_eq
sided = refl

engine-IsSingle : IsSingle engine.positions
unfolding holds
engine-IsSingle = (sided, refl, tt)

run-IsSingle_example : IsSingle (run config calls engine).0.positions
run-IsSingle_example =
    run-IsSingle config calls engine (tt, (tt, (tt, (tt, (tt, (tt, (tt, (tt, (tt, (tt, tt))))))))))
      engine-IsSingle

engine-IsOff : IsOff engine
unfolding set_shadow_mode
engine-IsOff = (refl, refl)

run-IsOff_example : IsOff (run config synced_calls engine).0
run-IsOff_example = run-IsOff config synced_calls engine engine-IsOff

found :
    lookup (codes "BTCUSDT") counting.positions
    ≡ some (record { count = pos 2; total_qty = pos 4; side = codes "long" })
unfolding lookup text_eq
found = refl

counted : leb_ℤ (pos 1) (pos 2) ≡ true
unfolding leb_ℤ
counted = refl

counting-IsTaken : IsTaken (pos 1) (codes "BTCUSDT") counting
counting-IsTaken = record {
  info = record { count = pos 2; total_qty = pos 4; side = codes "long" };
  found = found;
  counted = counted;
  limited = refl;
}

run-NoneOpens_example : NoneOpens (pos 1) (codes "BTCUSDT") (run config synced_calls engine).1
run-NoneOpens_example =
    run-NoneOpens (pos 1) (codes "BTCUSDT") (λ n h. h) config synced_calls engine counting-IsTaken

sell_spot-balance_example :
    IsSold long_btc
      (pos 120)
      (pos 2)
      kept
      (sell_spot (codes "SPOT_SL") enters long_btc (pos 120) (pos 2) kept)
sell_spot-balance_example =
    sell_spot-balance whole-IsExact (codes "SPOT_SL") enters long_btc (pos 120) (pos 2) kept
