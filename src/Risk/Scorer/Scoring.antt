-- ===== src/Risk/Scorer/Scoring.antt =====
-- include/risk/symbol_scorer.hpp: score_symbol and rescore_all.
use tv_webhook_trader.Shared.{
  ℕ, Bool, true, false, not, ◌&&◌, ◌==◌, ltb, leb, if◌then◌else◌, List, [], ◌∷◌, ◌++◌, Text, codes,
  is_empty, has_part, map, pos, ◌-ℤ◌, leb_ℤ, group, select, length,
}
use tv_webhook_trader.Shared.Double.{Double, nought, min_of, clamp_of, rounded}
use tv_webhook_trader.Risk.Score.{SymbolScore, TfSubScore, blank_score}
use tv_webhook_trader.Execution.Trades.{TradeRecord, sum_pnl, count_wins}
use tv_webhook_trader.Risk.Scorer.{
  SymbolScorer, ScorerConfig, half, assign_tier, normalize, size_mult_for, max_lev_for, per, shrunk,
}

-- The figures of score_symbol that the composite score rests on.
pub record RawFigures (F : Type 0) : Type 0 where
  pub wr : F
  pub avg_win : F
  pub avg_loss : F
  pub pf : F
  pub expectancy : F
  pub consistency : F
  pub fq : F

module _ {F : Type 0} where
  abbrev pub is_reverse : TradeRecord F → Bool
  is_reverse t = has_part (codes "REVERSE") t.exit_reason

  abbrev pub tf_name : TradeRecord F → Text
  tf_name t = if is_empty t.timeframe then codes "unknown" else t.timeframe

  -- v.push_back(t)
  abbrev pub push_back : TradeRecord F → List (TradeRecord F) → List (TradeRecord F)
  push_back t l = l ++ t ∷ []

  abbrev pub has_name : TradeRecord F → Bool
  has_name t = not (is_empty t.symbol)

module _ {F : Type 0} ⦃d : Double F⦄ where
  abbrev pub is_win : TradeRecord F → Bool
  is_win t = d.lt nought t.pnl

  abbrev pub is_loss : TradeRecord F → Bool
  is_loss t = not (is_win t)

  sum_squares : F → F → List (TradeRecord F) → F
  sum_squares mean total [] = total
  sum_squares mean total (t ∷ ts) =
      sum_squares mean (d.add total (d.mul (d.sub t.pnl mean) (d.sub t.pnl mean))) ts

  sum_abs : F → List (TradeRecord F) → F
  sum_abs total [] = total
  sum_abs total (t ∷ ts) = sum_abs (d.add total (d.abs t.pnl)) ts

  -- 1 - (stdev / mean_abs)
  unfoldable pub consistency_of : List (TradeRecord F) → F
  unfolding sum_squares sum_abs
  consistency_of ts =
      let n = length ts in
      let mean = per (sum_pnl nought ts) n in
      let stdev = d.sqrt (d.div (sum_squares mean nought ts) (d.of_int (pos n -ℤ pos 1))) in
      let mean_abs = d.div (sum_abs nought ts) (d.of_int (pos n)) in
      if leb 3 n && d.lt nought mean_abs
      then clamp_of (d.sub (d.decimal 1 0) (d.div stdev mean_abs)) nought (d.decimal 1 0)
      else half

  unfoldable pub frequency_of : F → ℕ → ℕ → F
  frequency_of win_rate n signal_count =
      let tps = d.div (d.of_int (pos n)) (d.of_int (pos signal_count)) in
      if ltb 0 signal_count && ltb 0 n then d.mul win_rate (min_of tps (d.decimal 1 0)) else half

  unfoldable pub raw_figures : List (TradeRecord F) → ℕ → RawFigures F
  raw_figures ts signal_count =
      let n = length ts in
      let won = select is_win ts in
      let lost = select is_loss ts in
      let wr = per (d.of_int (pos (length won))) n in
      let avg_win = per (sum_pnl nought won) (length won) in
      let avg_loss =
        if ltb 0 (length lost)
        then d.abs (d.div (sum_pnl nought lost) (d.of_int (pos (length lost))))
        else nought in
      let gross_loss = d.abs (sum_pnl nought lost) in
      record {
        wr = wr;
        avg_win = avg_win;
        avg_loss = avg_loss;
        pf = if d.lt nought gross_loss then d.div (sum_pnl nought won) gross_loss else nought;
        expectancy = d.sub (d.mul wr avg_win) (d.mul (d.sub (d.decimal 1 0) wr) avg_loss);
        consistency = consistency_of ts;
        fq = frequency_of wr n signal_count;
      }

  unfoldable pub weighted : ScorerConfig F → RawFigures F → F
  weighted c r =
      let hundred = d.decimal 100 0 in
      let exp_s = d.mul (normalize r.expectancy (d.neg (d.decimal 5 2)) (d.decimal 15 2)) hundred in
      let pf_s = d.mul (normalize r.pf half (d.decimal 3 0)) hundred in
      let wr_s = d.mul (normalize r.wr (d.decimal 25 2) (d.decimal 65 2)) hundred in
      let con_s = d.mul r.consistency hundred in
      let fq_s = d.mul r.fq hundred in
      clamp_of
        (d.add
          (d.add
            (d.add (d.add (d.mul exp_s c.w_expectancy) (d.mul pf_s c.w_pf)) (d.mul wr_s c.w_wr))
            (d.mul con_s c.w_con))
          (d.mul fq_s c.w_fq))
        nought hundred

  -- The composite score before the adjustment for reversals.
  unfoldable pub base_composite : ScorerConfig F → RawFigures F → ℕ → F
  base_composite c r n =
      if leb_ℤ c.min_trades (pos n)
      then weighted c r
      else if ltb 0 n
      then clamp_of (shrunk r.wr n) (d.decimal 15 0) (d.decimal 55 0)
      else d.decimal 35 0

  -- The adjustment, and whether reversals are allowed.
  unfoldable pub reverse_verdict : ScorerConfig F → ℕ → ℕ → F → F × Bool
  reverse_verdict c n wins wr =
      if not (leb_ℤ c.rev_min_trades (pos n))
      then (nought, false)
      else if wins == 0
      then (c.rev_penalty_zero, false)
      else if d.lt wr c.rev_allow_wr
      then (c.rev_penalty_low, false)
      else if d.le c.rev_bonus_wr wr
      then (c.rev_bonus, true)
      else (nought, true)

  unfoldable pub sub_score : List (TradeRecord F) → TfSubScore F
  sub_score ts = record {
    trades = length ts;
    wins = count_wins ts;
    win_rate = per (d.of_int (pos (count_wins ts))) (length ts);
    pnl = sum_pnl nought ts;
  }

  unfoldable pub tf_scores_of : List (TradeRecord F) → List (Text × TfSubScore F)
  tf_scores_of ts = map (λ g. (g.0, sub_score g.1)) (group tf_name push_back [] [] ts)

  abbrev round3 : F → F
  round3 x = rounded x (d.decimal 1000 0)

  abbrev round4 : F → F
  round4 x = rounded x (d.decimal 10000 0)

  unfoldable pub score_symbol :
      ScorerConfig F → Text → Text → List (TradeRecord F) → ℕ → SymbolScore F
  score_symbol c time symbol ts signal_count =
      let n = length ts in
      let r = raw_figures ts signal_count in
      let reversed = select is_reverse ts in
      let rev_n = length reversed in
      let rev_wins = length (select is_win reversed) in
      let rev_wr = per (d.of_int (pos rev_wins)) rev_n in
      let rev = reverse_verdict c rev_n rev_wins rev_wr in
      let composite = clamp_of (d.add (base_composite c r n) rev.0) nought (d.decimal 100 0) in
      let tier = assign_tier c composite in
      record blank_score {
        symbol = symbol;
        tier = tier;
        total_trades = n;
        wins = length (select is_win ts);
        losses = pos (length (select is_loss ts));
        win_rate = round4 r.wr;
        total_pnl = round4 (sum_pnl nought ts);
        avg_pnl = round4 (per (sum_pnl nought ts) n);
        avg_win = round4 r.avg_win;
        avg_loss = round4 r.avg_loss;
        profit_factor = round3 r.pf;
        expectancy = rounded r.expectancy (d.decimal 1000000 0);
        consistency = round3 r.consistency;
        signal_count = signal_count;
        frequency_quality = round3 r.fq;
        composite_score = rounded composite (d.decimal 10 0);
        data_sufficient = leb_ℤ c.min_trades (pos n);
        size_multiplier = size_mult_for c tier;
        max_leverage = max_lev_for c tier;
        last_updated = time;
        tf_scores = tf_scores_of ts;
        rev_trades = rev_n;
        rev_wins = rev_wins;
        rev_pnl = round4 (sum_pnl nought reversed);
        rev_win_rate = round4 rev_wr;
        rev_allowed = rev.1;
        rev_score_adj = rounded rev.0 (d.decimal 10 0);
      }

  unfoldable pub rescore_all : ℕ → Text → List (TradeRecord F) → SymbolScorer F → SymbolScorer F
  rescore_all now time trades s =
      let by_symbol = group (λ t. t.symbol) push_back [] [] (select has_name trades) in
      if s.config.enabled
      then record s {
        scores = map (λ g. (g.0, score_symbol s.config time g.0 g.1 0)) by_symbol;
        last_rescore = now;
      }
      else s
