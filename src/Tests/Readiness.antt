-- ===== src/Tests/Readiness.antt =====
-- include/execution/live_readiness.hpp on concrete inputs.
use tv_webhook_trader.Shared.{
  ℕ, zero, suc, ◌≡◌, refl, true, ◌⊎◌, List, [], ◌∷◌, none, codes, pos, ltb_ℤ, leb_ℤ, ◌+ℤ◌, has_text,
  select, Any, ℤ, contains, put, text_eq, group, insert, lookup, ◌-ℤ◌, ◌*ℤ◌,
}
use tv_webhook_trader.Shared.Double.{whole}
use tv_webhook_trader.Shared.Sorter.{by_insertion, by_insertion-IsSorter}
use tv_webhook_trader.Execution.Trades.{TradeRecord}
use tv_webhook_trader.Execution.Shadow.{ShadowTracker, fresh_tracker}
use tv_webhook_trader.Execution.Shadow.Report.{ReportRow, get_symbol_report, grade_of}
use tv_webhook_trader.Execution.Readiness.{
  SymbolReadiness, ReadinessConfig, is_live_level, level_of, evaluate_symbol, evaluate_all,
}
use tv_webhook_trader.Execution.Readiness.Confidence.{
  Refreshed, get_confidence, rolling_entry, should_demote, load_confidence, refresh_eligible, judge,
  judge_all, build_rolling,
}
use tv_webhook_trader.Execution.SpotShadow.{SpotShadowTracker}
use tv_webhook_trader.Execution.SpotShadow
use tv_webhook_trader.Execution.SpotShadow.Report as SpotReport
use tv_webhook_trader.Execution.Readiness.Markets.{refresh_eligible-symbol_only}
use tv_webhook_trader.Execution.Readiness.Levels.{earns_live, is_live_level-level_of}
use tv_webhook_trader.Execution.Readiness.Trust.{IsTrusted}
use tv_webhook_trader.Execution.Readiness.Runs.{
  ReadinessCall, refreshes, enriches, restarts, answer_all, new_engine, answer_all-IsTrusted,
}
use tv_webhook_trader.Execution.Readiness.Gate.{IsEarner, IsProof, refresh_eligible-IsProof}

abbrev pub settings : ReadinessConfig
settings = record {
  min_trades_ready = pos 10;
  min_trades_proven = pos 20;
  min_symbols = pos 1;
  require_positive_pnl = true;
  max_confidence = pos 10;
}

abbrev good_row : ReportRow ℤ
good_row = record {
  symbol = codes "BTCUSDT";
  timeframe = codes "60";
  total = pos 20;
  wins = pos 14;
  losses = pos 6;
  win_rate = pos 70;
  total_pnl = pos 90;
  avg_pnl = pos 4;
  grade = codes "A+";
  recent_trades = none;
  recent_wins = none;
  recent_pnl = none;
}

abbrev poor_row : ReportRow ℤ
poor_row = record good_row { symbol = codes "ETHUSDT"; grade = codes "F"; total_pnl = pos 0 }

is_live_level-level_of_example :
    is_live_level (level_of settings (codes "A+") (pos 20) (pos 90))
    ≡ earns_live settings (codes "A+") (pos 20) (pos 90)
is_live_level-level_of_example = is_live_level-level_of settings (codes "A+") (pos 20) (pos 90)

abbrev evaluated : List (SymbolReadiness ℤ)
evaluated =
    evaluate_symbol settings (codes "futures") good_row
    ∷ evaluate_symbol settings (codes "futures") poor_row
    ∷ []

abbrev hour : List (ReadinessCall ℤ)
hour =
    refreshes (good_row ∷ poor_row ∷ []) []
    ∷ enriches (good_row ∷ []) []
    ∷ restarts
    ∷ refreshes (poor_row ∷ []) (good_row ∷ [])
    ∷ []

max_nonneg : leb_ℤ (pos 0) settings.max_confidence ≡ true
unfolding leb_ℤ
max_nonneg = refl

answer_all-IsTrusted_example :
    IsTrusted settings
      (get_confidence (codes "BTCUSDT") (answer_all settings hour (new_engine settings)).engine)
answer_all-IsTrusted_example = answer_all-IsTrusted settings max_nonneg hour (codes "BTCUSDT")

-- Sixteen paper trades of one symbol, each with a profit.
abbrev paper_trade : TradeRecord ℤ
paper_trade = record {
  symbol = codes "BTCUSDT";
  timeframe = codes "60";
  exit_reason = codes "SHADOW_TP";
  pnl = pos 3;
  fee = pos 0;
  entry_price = pos 100;
  exit_price = pos 103;
  quantity = pos 1;
  strategy = codes "SFX";
  exchange = codes "bitget";
  market_type = codes "long";
  gross_pnl = pos 3;
  net_pnl = pos 3;
  fee_cost = pos 0;
  realized_rr = pos 1;
}

abbrev copies : ℕ → List (TradeRecord ℤ)
copies zero = []
copies (suc n) = paper_trade ∷ copies n

abbrev no_rows : List (ReportRow ℤ)
no_rows = []

abbrev pub traded : ShadowTracker ℤ
traded = record fresh_tracker { trades = copies 16 }

goes_live :
    contains
      (refresh_eligible settings (get_symbol_report traded) [] (load_confidence none)).eligible_keys
      (codes "BTCUSDT")
    ≡ true
unfolding refresh_eligible get_symbol_report load_confidence contains put judge_all evaluate_all
    group insert text_eq judge level_of grade_of lookup leb_ℤ ◌-ℤ◌ ◌*ℤ◌ ltb_ℤ ◌+ℤ◌ should_demote
    build_rolling rolling_entry
goes_live = refl

refresh_eligible-IsProof_example :
    IsProof (select (has_text (λ t. t.symbol) (codes "BTCUSDT")) traded.trades)
    ⊎ Any (IsEarner settings (codes "BTCUSDT")) no_rows
refresh_eligible-IsProof_example =
    refresh_eligible-IsProof settings traded [] (load_confidence none) (codes "BTCUSDT")
      by_insertion-IsSorter goes_live

abbrev pub no_spot : SpotShadowTracker ℤ
no_spot = SpotShadow.fresh_tracker

abbrev both_reports : Refreshed ℤ
both_reports =
    refresh_eligible settings (get_symbol_report traded) (SpotReport.get_symbol_report no_spot)
      (load_confidence none)

also_live : contains both_reports.eligible_keys (codes "BTCUSDT") ≡ true
unfolding refresh_eligible get_symbol_report load_confidence contains put judge_all evaluate_all
    group insert text_eq judge level_of grade_of lookup leb_ℤ ◌-ℤ◌ ◌*ℤ◌ ltb_ℤ ◌+ℤ◌ should_demote
    build_rolling rolling_entry SpotReport.get_symbol_report
also_live = refl

refresh_eligible-symbol_only_example :
    IsProof (select (has_text (λ t. t.symbol) (codes "BTCUSDT")) traded.trades)
refresh_eligible-symbol_only_example =
    refresh_eligible-symbol_only settings traded no_spot (load_confidence none) (codes "BTCUSDT")
      by_insertion-IsSorter refl also_live
