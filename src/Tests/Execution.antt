-- ===== src/Tests/Execution.antt =====
-- include/execution on concrete inputs.
use tv_webhook_trader.Shared.{
  ◌≤◌, ◌≡◌, refl, List, [], ◌∷◌, ◌++◌, codes, ℤ, pos, ◌-ℤ◌, ltb_ℤ, length, latest,
}
use tv_webhook_trader.Shared.Double.{whole, whole-IsStrict}
use tv_webhook_trader.Execution.Trades.{TradeRecord, Recorder, max_trades, sum_pnl}
use tv_webhook_trader.Execution.Trades.Accounts.{record_all, record_all_lem, IsPeak}

abbrev pub trade : ℤ → TradeRecord ℤ
trade pnl = record {
  symbol = codes "BTCUSDT";
  timeframe = codes "60";
  exit_reason = codes "TP1";
  pnl = pnl;
  fee = pos 1;
  entry_price = pos 100;
  exit_price = pos 110;
  quantity = pos 1;
  strategy = codes "SFX";
  exchange = codes "bitget";
  market_type = codes "futures";
  gross_pnl = pos 0;
  net_pnl = pos 0;
  fee_cost = pos 0;
  realized_rr = pos 0;
}

abbrev pub account : Recorder ℤ
account = record { balance = pos 1000; peak_balance = pos 1000; trades = []; learned = [] }

abbrev closed : List (TradeRecord ℤ)
closed = trade (pos 9) ∷ trade (pos 0 -ℤ pos 30) ∷ []

account-IsPeak : IsPeak account
unfolding ltb_ℤ
account-IsPeak = refl

record_all_example :
    let after = record_all closed account in
    (after.balance ≡ sum_pnl (pos 1000) closed)
    × IsPeak after
    × (after.learned ≡ [] ++ closed)
    × (after.trades ≡ latest max_trades closed)
    × (length after.trades ≤ max_trades)
record_all_example = record_all_lem whole-IsStrict closed account refl account-IsPeak
