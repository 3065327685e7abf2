-- ===== src/Risk/Scorer/Recording.antt =====
-- include/risk/symbol_scorer.hpp: record_context_trade and record_realized_trade.
use tv_webhook_trader.Shared.{
  ◌+◌, Bool, ◌&&◌, leb, if◌then◌else◌, List, Option, none, some, Text, pos, ◌-ℤ◌, leb_ℤ, lookup,
  insert, get_or,
}
use tv_webhook_trader.Shared.Double.{Double, nought, clamp_of, rounded}
use tv_webhook_trader.Risk.Score.{SymbolScore, blank_score}
use tv_webhook_trader.Risk.Scorer.{
  SymbolScorer, ScorerConfig, RealizedAccumulator, compute_context_key, assign_tier, size_mult_for,
  max_lev_for, per, shrunk,
}

module _ {F : Type 0} ⦃d : Double F⦄ where
  -- What record_context_trade does to the entry of its key.
  unfoldable pub with_context_trade :
      ScorerConfig F → Text → Text → F → Bool → SymbolScore F → SymbolScore F
  with_context_trade c time key pnl is_win x =
      let n = x.total_trades + 1 in
      let wins = if is_win then x.wins + 1 else x.wins in
      let total = d.add x.total_pnl pnl in
      let win_rate = per (d.of_int (pos wins)) n in
      let composite =
        clamp_of (rounded (shrunk win_rate n) (d.decimal 10 0)) nought (d.decimal 100 0) in
      let tier = assign_tier c composite in
      record x {
        symbol = key;
        total_trades = n;
        wins = wins;
        losses = pos n -ℤ pos wins;
        total_pnl = total;
        win_rate = win_rate;
        avg_pnl = per total n;
        data_sufficient = leb_ℤ c.min_trades (pos n);
        composite_score = composite;
        tier = tier;
        size_multiplier = size_mult_for c tier;
        max_leverage = max_lev_for c tier;
        last_updated = time;
      }

  unfoldable pub record_context_trade :
      Text → Text → Text → Text → F → Bool → SymbolScorer F → SymbolScorer F
  record_context_trade time symbol timeframe direction pnl is_win s =
      let key = compute_context_key symbol timeframe direction in
      let x = get_or blank_score (lookup key s.context_scores) in
      record s {
        context_scores =
            insert key (with_context_trade s.config time key pnl is_win x) s.context_scores;
      }

  abbrev pub new_accumulator : RealizedAccumulator F
  new_accumulator = record {
    total_gross_pnl = nought;
    total_fee_cost = nought;
    total_net_pnl = nought;
    sum_realized_rr = nought;
    count = 0;
  }

  unfoldable pub accumulated : F → F → F → RealizedAccumulator F → RealizedAccumulator F
  accumulated gross_pnl fee_cost realized_rr acc = record {
    total_gross_pnl = d.add acc.total_gross_pnl gross_pnl;
    total_fee_cost = d.add acc.total_fee_cost fee_cost;
    total_net_pnl = d.add acc.total_net_pnl (d.sub gross_pnl fee_cost);
    sum_realized_rr = d.add acc.sum_realized_rr realized_rr;
    count = acc.count + 1;
  }

  -- The realized figures of an entry, from its accumulator.
  unfoldable pub with_realized : RealizedAccumulator F → SymbolScore F → SymbolScore F
  with_realized acc x =
      let net = per acc.total_net_pnl acc.count in
      let near =
        clamp_of (d.sub (d.decimal 1 0) (d.abs (d.sub (d.decimal 1 0) (d.div net x.expectancy))))
          nought (d.decimal 1 0) in
      record x {
        avg_realized_rr = per acc.sum_realized_rr acc.count;
        net_expectancy_per_trade = net;
        total_fees = acc.total_fee_cost;
        realized_trade_count = acc.count;
        realized_rr_consistency =
            if leb 10 acc.count && d.lt (d.decimal 1 4) (d.abs x.expectancy)
            then near
            else x.realized_rr_consistency;
      }

  -- The figures go into the entry, if there is one.
  unfoldable pub put_realized :
      Text
      → RealizedAccumulator F
      → Option (SymbolScore F)
      → List (Text × SymbolScore F)
      → List (Text × SymbolScore F)
  put_realized key acc none m = m
  put_realized key acc (some x) m = insert key (with_realized acc x) m

  unfoldable pub record_realized_trade :
      Text → Text → Text → F → F → F → SymbolScorer F → SymbolScorer F
  record_realized_trade symbol timeframe direction gross_pnl fee_cost realized_rr s =
      let key = compute_context_key symbol timeframe direction in
      let acc =
        accumulated gross_pnl fee_cost realized_rr
          (get_or new_accumulator (lookup key s.realized_accumulators)) in
      record s {
        realized_accumulators = insert key acc s.realized_accumulators;
        context_scores = put_realized key acc (lookup key s.context_scores) s.context_scores;
      }
