-- ===== src/Tests/Shadow.antt =====
-- include/execution/shadow_tracker.hpp on concrete inputs.
use tv_webhook_trader.Shared.{true, some, List, [], ◌∷◌, codes, pos, ℤ}
use tv_webhook_trader.Shared.Double.{whole}
use tv_webhook_trader.Shared.Sorter.{by_insertion}
use tv_webhook_trader.Webhook.Signal.{WebhookSignal, blank_signal, entry, tp}
use tv_webhook_trader.Execution.Shadow.{ShadowTracker, fresh_tracker, virtual_position, ShadowFile}
use tv_webhook_trader.Execution.Shadow.Runs.{
  Call, tracks, marks, saves, run, IsSound, run-fresh-IsSound,
}
use tv_webhook_trader.Execution.Shadow.Restart.{Storage, written}

abbrev buys : WebhookSignal ℤ
buys = record (blank_signal 0) {
  symbol = codes "BTCUSDT";
  timeframe = codes "60";
  sig_type = entry;
  action = codes "buy";
  signal_direction = codes "bull";
  price = pos 100;
  sl = pos 90;
  tp1 = pos 120;
}

abbrev takes_profit : WebhookSignal ℤ
takes_profit = record buys { sig_type = tp; price = pos 120 }

abbrev sells : WebhookSignal ℤ
sells = record buys { action = codes "sell"; signal_direction = codes "bear"; price = pos 110 }

abbrev day : List (Call ℤ)
day =
    marks (codes "BTCUSDT:60:long")
    ∷ tracks 1500 buys
    ∷ tracks 2000 takes_profit
    ∷ tracks 3000 buys
    ∷ tracks 4000 sells
    ∷ saves
    ∷ []

run-fresh-IsSound_example : IsSound (run fresh_tracker day)
run-fresh-IsSound_example = run-fresh-IsSound day

-- One long position, at one second and a half.
abbrev held : ShadowTracker ℤ
held = record fresh_tracker {
  positions = (codes "BTCUSDT:60:long", virtual_position 1500 buys true) ∷ [];
  live_equiv_keys = codes "BTCUSDT:60:long" ∷ codes "ETHUSDT:60:long" ∷ [];
}

-- A library whose files are the values that were written.
abbrev stored : Storage ℤ (ShadowFile ℤ)
stored = record { dump = λ f. some (written f); parse = λ f. f; is_utf8 = λ s. true }
