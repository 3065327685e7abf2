-- ===== src/Tests/Orders.antt =====
-- include/execution/execution_engine.hpp: an entry that becomes a real order.
use tv_webhook_trader.Shared.{
  ◌≡◌, ◌⊎◌, refl, true, false, [], ◌∷◌, none, codes, length, text_eq, contains, lookup, group,
  insert, ℤ, pos, leb_ℤ, ltb_ℤ, ◌+ℤ◌, ◌-ℤ◌, ◌*ℤ◌,
}
use tv_webhook_trader.Shared.Double.{whole, min_of, max_of}
use tv_webhook_trader.Shared.Sorter.{by_insertion}
use tv_webhook_trader.Webhook.Signal.{
  blank_signal, has_tp1, has_sl, to_order_request, get_trade_side,
}
use tv_webhook_trader.Core.Types.{fixed_symbol}
use tv_webhook_trader.Execution.Readiness.Confidence.{load_confidence}
use tv_webhook_trader.Risk.FeeAnalyzer.{
  is_tp_profitable, break_even_move, get_slippage, get_slippage_tier,
}
use tv_webhook_trader.Risk.Orders.{validate, is_barred, is_full}
use tv_webhook_trader.Risk.Position.{
  count_direction, count_timeframe, timeframe_margin, total_margin,
}
use tv_webhook_trader.Risk.Portfolio
use tv_webhook_trader.Risk.Portfolio.{PortfolioRisk, check_cb_cooldown, check_daily_reset}
use tv_webhook_trader.Risk.Portfolio.Entry
use tv_webhook_trader.Risk.Portfolio.Entry.{Proposal, check_entry}
use tv_webhook_trader.Risk.PositionSizer.{
  calc_size, available, base_size, final_mult, final_usdt, multiplier_at, sized,
}
use tv_webhook_trader.Risk.Scorer.{
  tier_or, if_enough, get_context_score, get_tier, get_score, get_best_score, or_score,
}
use tv_webhook_trader.Execution.AutoLive.{force_shadow, is_eligible}
use tv_webhook_trader.Execution.AutoLive.Fees.{passes_fees, is_live_trade}
use tv_webhook_trader.Execution.GradeFilter.{passes_grade, is_grade_fit}
use tv_webhook_trader.Execution.Positions.{calc_used_margin, used_margin_from}
use tv_webhook_trader.Execution.Shadow.Report.{get_symbol_report, grade_of}
use tv_webhook_trader.Execution.Engine.{Engine}
use tv_webhook_trader.Execution.Engine.Gates.{
  entry_gate, is_usdc, passes_live_tier, tier_meets_min, entry_tier, passes_tf, entry_size,
  size_request, entry_confidence, has_side, final_size,
}
use tv_webhook_trader.Execution.Engine.Entry.{
  handle_entry, after_gate, place_entry, ordered, send_order, entry_request, entry_proposal,
}
use tv_webhook_trader.Execution.Engine.RealOrders.{IsCleared, IsOrder, handle_entry-IsCleared}
use tv_webhook_trader.Tests.Engine.{config, engine, moment, enters}
use tv_webhook_trader.Tests.Risk.{manager, soon}

-- No position is held, and the portfolio has room for the tier and the timeframe.
abbrev roomy : PortfolioRisk ℤ
roomy = record engine.auto.port_risk {
  shadow_mode = false;
  config = record engine.auto.port_risk.config {
    live_min_tier = codes "C";
    tf_exposure_pct = (codes "60", pos 100) ∷ [];
    max_corr_risk_pct = pos 100;
    max_margin_usage_pct = pos 100;
  };
}

abbrev ready : Engine ℤ
ready = record engine {
  auto = record engine.auto { port_risk = roomy };
  positions = [];
  risk = manager;
}

priced : ltb_ℤ (pos 0) (pos 100) ≡ true
unfolding ltb_ℤ
priced = refl

is_let_in : entry_gate config moment enters ready ≡ none
unfolding entry_gate is_usdc passes_live_tier tier_meets_min entry_tier tier_or get_tier
    passes_grade is_grade_fit get_symbol_report group insert grade_of passes_tf passes_fees
    is_live_trade is_eligible contains has_tp1 is_tp_profitable break_even_move get_slippage
    get_slippage_tier has_side entry_size calc_size entry_confidence size_request calc_used_margin
    used_margin_from available base_size final_mult final_usdt multiplier_at sized get_best_score
    or_score if_enough get_context_score get_score max_of min_of has_sl lookup text_eq leb_ℤ ltb_ℤ
    ◌+ℤ◌ ◌-ℤ◌ ◌*ℤ◌ load_confidence blank_signal
is_let_in = refl

final_size_lem : final_size config moment enters ready ≡ (pos 1, pos 100)
unfolding final_size entry_size calc_size entry_confidence size_request calc_used_margin
    used_margin_from available base_size final_mult final_usdt multiplier_at sized get_best_score
    or_score if_enough get_context_score get_score max_of min_of has_sl lookup leb_ℤ ltb_ℤ ◌-ℤ◌ ◌*ℤ◌
    load_confidence blank_signal
final_size_lem = refl

entry_size_lem : (entry_size config enters ready).leverage ≡ pos 10
unfolding entry_size calc_size entry_confidence size_request calc_used_margin used_margin_from
    available base_size final_mult final_usdt multiplier_at sized get_best_score or_score if_enough
    get_context_score get_score max_of min_of has_sl lookup leb_ℤ ltb_ℤ ◌-ℤ◌ ◌*ℤ◌ load_confidence
    blank_signal
entry_size_lem = refl

-- What the portfolio's risk manager is asked.
abbrev proposal : Proposal ℤ
proposal = record {
  symbol = codes "BTCUSDT";
  timeframe = codes "60";
  price = pos 100;
  qty = pos 1;
  leverage = pos 10;
  balance = pos 1000;
  positions = [];
  sl_price = pos 0;
  side = codes "long";
}

entry_proposal_lem : entry_proposal config moment enters ready ≡ proposal
unfolding entry_proposal text_eq has_sl blank_signal ltb_ℤ
entry_proposal_lem = rw (final_size_lem, entry_size_lem) refl

is_admitted : (check_entry soon proposal roomy).1.allowed ≡ true
unfolding check_entry Entry.first_checks Entry.notional_check Entry.breaker_check Entry.conclude
    Entry.conclude_breaker Entry.concurrent_check Entry.correlation_check Entry.direction_check
    Entry.exposure_check Entry.exposure_limit Entry.later_checks Entry.liquidation_check
    Entry.margin_check Entry.max_concurrent_now Entry.max_margin_pct_now
    Entry.max_same_direction_now Entry.max_total_now Entry.timeframe_check Entry.timeframe_limit
    Entry.timeframe_name Entry.total_check check_daily_reset count_direction count_timeframe
    timeframe_margin total_margin lookup text_eq leb_ℤ ltb_ℤ ◌+ℤ◌ ◌-ℤ◌ ◌*ℤ◌
    Portfolio.set_shadow_mode
is_admitted = refl

is_valid_order : validate (entry_request config moment enters ready) manager ≡ true
unfolding validate to_order_request fixed_symbol is_barred is_full contains get_trade_side lookup
    text_eq leb_ℤ ltb_ℤ
is_valid_order = rw final_size_lem refl

is_real :
    (p : PortfolioRisk ℤ)
    → force_shadow (codes "60") enters (record ready.auto { port_risk = p }) ≡ false
unfolding force_shadow is_eligible contains text_eq
is_real p = refl

-- The order of this entry really goes out.
one_order : length (handle_entry config moment enters ready).1 ≡ 1
unfolding handle_entry after_gate place_entry ordered send_order
one_order = rw (is_let_in, entry_proposal_lem, is_admitted, is_valid_order, is_real) refl

handle_entry-IsCleared_example :
    ((handle_entry config moment enters ready).1 ≡ [])
    ⊎ (IsCleared config moment enters ready
        × IsOrder config moment enters ready (handle_entry config moment enters ready).1)
handle_entry-IsCleared_example = handle_entry-IsCleared config moment enters ready priced
