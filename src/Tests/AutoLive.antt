-- ===== src/Tests/AutoLive.antt =====
-- include/execution/execution_engine.hpp: the automatic mode on concrete inputs.
use tv_webhook_trader.Shared.{
  select, has_text, length, ◌↔◌, ◌≡◌, refl, true, false, not, ◌⊎◌, [], ◌∷◌, codes, none, ℤ, Any,
  pos, contains, put, group, insert, text_eq, lookup, leb_ℤ, ltb_ℤ, ◌-ℤ◌, ◌*ℤ◌, ◌+ℤ◌,
}
use tv_webhook_trader.Shared.Double.{whole, nought}
use tv_webhook_trader.Shared.Sorter.{by_insertion, by_insertion-IsSorter}
use tv_webhook_trader.Webhook.Signal.{WebhookSignal, blank_signal}
use tv_webhook_trader.Risk.Portfolio.{set_shadow_mode}
use tv_webhook_trader.Execution.Trades.{win_rate_of, count_wins, sum_pnl}
use tv_webhook_trader.Execution.Shadow.Report.{
  get_symbol_report, grade_of, get_symbol_tf_report, key_symbol, key_timeframe,
}
use tv_webhook_trader.Execution.SpotShadow.Report as SpotReport
use tv_webhook_trader.Execution.Readiness.{
  evaluate_all, level_of, get_pipeline_status, count_levels, count_level,
}
use tv_webhook_trader.Execution.Readiness.Confidence.{
  refresh_eligible, load_confidence, judge, judge_all, should_demote, build_rolling, rolling_entry,
  process_report, enrich_eligible_with_context,
}
use tv_webhook_trader.Execution.AutoLive.{
  AutoLive, Trackers, activate, deactivate, is_eligible, force_shadow, entry_key, refreshed,
  check_auto_live,
}
use tv_webhook_trader.Execution.AutoLive.Modes.{IsConsistent, check_all, check_all-shadow_mode}
use tv_webhook_trader.Execution.AutoLive.Orders.{
  IsBacker, all_reports, force_shadow-check_auto_live,
}
use tv_webhook_trader.Execution.GradeFilter.{passes_grade, DidWell, passes_grade-get_symbol_report}
use tv_webhook_trader.Risk.FeeAnalyzer.{FeeAnalyzer}
use tv_webhook_trader.Tests.Readiness.{settings, traded, no_spot}
use tv_webhook_trader.Tests.Risk.{portfolio}

abbrev pub trackers : Trackers ℤ
trackers = record { futures = traded; spot = no_spot }

abbrev on_paper : AutoLive ℤ
on_paper = record {
  auto_live = true;
  shadow_mode = true;
  auto_live_active = false;
  eligible_keys = [];
  port_risk = set_shadow_mode true portfolio;
  readiness = load_confidence none;
}

on_paper-IsConsistent : IsConsistent on_paper
unfolding set_shadow_mode
on_paper-IsConsistent = record { live = refl; told = refl }

check_all-shadow_mode_example :
    let before = check_all settings (trackers ∷ []) on_paper in
    let after = check_auto_live settings trackers before in
    (after.shadow_mode ≡ not (refreshed settings trackers before.readiness).status.can_go_live)
    × (after.auto_live_active ≡ not after.shadow_mode)
    × (after.port_risk.shadow_mode ≡ after.shadow_mode)
check_all-shadow_mode_example =
    check_all-shadow_mode settings (trackers ∷ []) trackers on_paper on_paper-IsConsistent refl

abbrev buys : WebhookSignal ℤ
buys = record (blank_signal 0) {
  symbol = codes "BTCUSDT";
  timeframe = codes "60";
  action = codes "buy";
}

real_order : force_shadow (codes "60") buys (check_auto_live settings trackers on_paper) ≡ false
unfolding force_shadow is_eligible check_auto_live activate deactivate enrich_eligible_with_context
    process_report refresh_eligible get_symbol_report load_confidence contains put judge_all
    evaluate_all group insert text_eq judge level_of grade_of lookup leb_ℤ ◌-ℤ◌ ◌*ℤ◌ ltb_ℤ ◌+ℤ◌
    should_demote build_rolling rolling_entry SpotReport.get_symbol_report get_symbol_tf_report
    SpotReport.get_symbol_tf_report key_symbol key_timeframe get_pipeline_status count_levels
    count_level
real_order = refl

force_shadow-check_auto_live_example :
    ((refreshed settings trackers (load_confidence none)).status.can_go_live ≡ true)
    × (Any (IsBacker settings (entry_key (codes "60") buys)) (all_reports settings trackers)
        ⊎ Any (IsBacker settings (codes "BTCUSDT")) (all_reports settings trackers))
force_shadow-check_auto_live_example =
    force_shadow-check_auto_live settings trackers on_paper (codes "60") buys by_insertion-IsSorter
      on_paper-IsConsistent refl real_order

passes_grade-get_symbol_report_example :
    let own = select (has_text (λ t. t.symbol) (codes "BTCUSDT")) traded.trades in
    let n = length own in
    (passes_grade (codes "BTCUSDT") (get_symbol_report traded) ≡ true)
    ↔ DidWell n (win_rate_of (count_wins own) n) (sum_pnl nought own)
passes_grade-get_symbol_report_example =
    passes_grade-get_symbol_report traded (codes "BTCUSDT") by_insertion-IsSorter

abbrev pub fees : FeeAnalyzer ℤ
fees = record {
  taker_fee = pos 1;
  maker_fee = pos 0;
  funding_default = pos 0;
  min_tp_ratio = pos 1;
  major_symbols = codes "BTCUSDT" ∷ [];
  slip_major = pos 0;
  slip_mid = pos 0;
  slip_alt = pos 1;
}

abbrev pub goes_live : AutoLive ℤ
goes_live = record on_paper {
  shadow_mode = false;
  auto_live_active = true;
  eligible_keys = codes "BTCUSDT" ∷ [];
}

abbrev pub aims : WebhookSignal ℤ
aims = record buys { price = pos 100; tp1 = pos 400 }
