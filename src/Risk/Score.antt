-- ===== src/Risk/Score.antt =====
-- include/risk/symbol_scorer.hpp: the figures that SymbolScorer keeps of a symbol, or of a symbol in
-- one timeframe and direction. Counters are numbers that do not overflow.
use tv_webhook_trader.Shared.{ℕ, Bool, false, List, [], Text, codes, ℤ, pos}
use tv_webhook_trader.Shared.Double.{Double, nought}

pub record TfSubScore (F : Type 0) : Type 0 where
  pub trades : ℕ
  pub wins : ℕ
  pub win_rate : F
  pub pnl : F

pub record SymbolScore (F : Type 0) : Type 0 where
  pub symbol : Text
  pub tier : Text
  pub total_trades : ℕ
  pub wins : ℕ
  pub losses : ℤ
  pub win_rate : F
  pub total_pnl : F
  pub avg_pnl : F
  pub avg_win : F
  pub avg_loss : F
  pub profit_factor : F
  pub expectancy : F
  pub consistency : F
  pub signal_count : ℕ
  pub frequency_quality : F
  pub composite_score : F
  pub data_sufficient : Bool
  pub size_multiplier : F
  pub max_leverage : ℤ
  pub last_updated : Text
  pub tf_scores : List (Text × TfSubScore F)
  pub avg_realized_rr : F
  pub net_expectancy_per_trade : F
  pub total_fees : F
  pub realized_rr_consistency : F
  pub realized_trade_count : ℕ
  pub rev_trades : ℕ
  pub rev_wins : ℕ
  pub rev_pnl : F
  pub rev_win_rate : F
  pub rev_allowed : Bool
  pub rev_score_adj : F

-- SymbolScore{}
abbrev pub blank_score : {F : Type 0} ⦃d : Double F⦄ → SymbolScore F
blank_score ⦃d⦄ = record {
  symbol = [];
  tier = codes "C";
  total_trades = 0;
  wins = 0;
  losses = pos 0;
  win_rate = nought;
  total_pnl = nought;
  avg_pnl = nought;
  avg_win = nought;
  avg_loss = nought;
  profit_factor = nought;
  expectancy = nought;
  consistency = nought;
  signal_count = 0;
  frequency_quality = nought;
  composite_score = nought;
  data_sufficient = false;
  size_multiplier = d.decimal 5 1;
  max_leverage = pos 10;
  last_updated = [];
  tf_scores = [];
  avg_realized_rr = nought;
  net_expectancy_per_trade = nought;
  total_fees = nought;
  realized_rr_consistency = nought;
  realized_trade_count = 0;
  rev_trades = 0;
  rev_wins = 0;
  rev_pnl = nought;
  rev_win_rate = nought;
  rev_allowed = false;
  rev_score_adj = nought;
}
