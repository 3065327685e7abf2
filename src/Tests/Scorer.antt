-- ===== src/Tests/Scorer.antt =====
-- include/risk/symbol_scorer.hpp on concrete inputs.
use tv_webhook_trader.Shared.{
  ◌≡◌, refl, true, List, [], ◌∷◌, codes, select, has_text, ℤ, pos, negsuc,
}
use mathlib.Core.Option
use tv_webhook_trader.Shared.Double.{whole, whole-IsStrict}
use tv_webhook_trader.Execution.Trades.{TradeRecord}
use tv_webhook_trader.Risk.Scorer.{
  ScorerConfig, SymbolScorer, compute_context_key, get_context_score, get_best_score, get_score,
}
use tv_webhook_trader.Risk.Scorer.Scoring.{score_symbol, rescore_all}
use tv_webhook_trader.Risk.Scorer.Recording.{record_realized_trade}
use tv_webhook_trader.Risk.Scorer.Calls.{Call, context, realized, rescore, answer_all, own_trades}
use tv_webhook_trader.Risk.Scorer.Contexts.{
  IsKeptAt, decision_of, answer_all-get_context_score, record_realized_trade-get_best_score,
}
use tv_webhook_trader.Risk.Scorer.Rescore.{if_any, rescore_all-get_score}
use tv_webhook_trader.Risk.Scorer.Figures.{IsAccount, score_symbol-IsAccount}
use tv_webhook_trader.Tests.Execution.{trade}

abbrev config : ScorerConfig ℤ
config = record {
  enabled = true;
  min_trades = pos 20;
  rescore_hours = pos 6;
  w_expectancy = pos 1;
  w_pf = pos 0;
  w_wr = pos 0;
  w_con = pos 0;
  w_fq = pos 0;
  th_s = pos 75;
  th_a = pos 60;
  th_b = pos 45;
  th_c = pos 30;
  th_d = pos 15;
  size_mult = (codes "C", pos 1) ∷ [];
  max_lev = (codes "C", pos 10) ∷ [];
  rev_min_trades = pos 3;
  rev_allow_wr = pos 0;
  rev_bonus_wr = pos 1;
  rev_penalty_zero = negsuc 14;
  rev_penalty_low = negsuc 9;
  rev_bonus = pos 5;
}

abbrev pub scorer : SymbolScorer ℤ
scorer = record {
  config = config;
  scores = [];
  context_scores = [];
  realized_accumulators = [];
  last_rescore = 0;
}

abbrev trades : List (TradeRecord ℤ)
trades = trade (pos 7) ∷ trade (negsuc 2) ∷ []

abbrev calls : List (Call ℤ)
calls =
    context (codes "now") (record {
      symbol = codes "BTCUSDT";
      timeframe = codes "60";
      direction = codes "long";
      pnl = pos 7;
      is_win = true;
    })
    ∷ realized (codes "BTCUSDT") (codes "60") (codes "long") (pos 9) (pos 2) (pos 1)
    ∷ rescore 1 (codes "now") trades
    ∷ []

answer_all-get_context_score_example :
    IsKeptAt config
      (own_trades (compute_context_key (codes "BTCUSDT") (codes "60") (codes "long")) [] calls)
      (get_context_score (codes "BTCUSDT") (codes "60") (codes "long") (answer_all calls scorer))
answer_all-get_context_score_example =
    answer_all-get_context_score whole-IsStrict calls scorer (codes "BTCUSDT") (codes "60")
      (codes "long") refl

record_realized_trade-get_best_score_example :
    let s = answer_all calls scorer in
    Option.map decision_of (
      get_best_score (codes "BTCUSDT") (codes "60") (codes "long") (
        record_realized_trade
          (codes "BTCUSDT")
          (codes "60")
          (codes "long")
          (pos 9)
          (pos 2)
          (pos 1)
          s))
    ≡ Option.map decision_of (get_best_score (codes "BTCUSDT") (codes "60") (codes "long") s)
record_realized_trade-get_best_score_example =
    record_realized_trade-get_best_score (codes "BTCUSDT") (codes "60") (codes "long") (pos 9)
      (pos 2) (pos 1) (answer_all calls scorer) (codes "BTCUSDT") (codes "60") (codes "long")

rescore_all-get_score_example :
    get_score (codes "BTCUSDT") (rescore_all 1 (codes "now") trades scorer)
    ≡ Option.map
        (λ own. score_symbol config (codes "now") (codes "BTCUSDT") own 0)
        (if_any (select (has_text (λ t. t.symbol) (codes "BTCUSDT")) trades))
rescore_all-get_score_example =
    rescore_all-get_score 1 (codes "now") trades scorer (codes "BTCUSDT") refl refl

score_symbol-IsAccount_example :
    IsAccount config trades (score_symbol config (codes "now") (codes "BTCUSDT") trades 0)
score_symbol-IsAccount_example =
    score_symbol-IsAccount whole-IsStrict config (codes "now") (codes "BTCUSDT") trades 0
