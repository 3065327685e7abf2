-- ===== src/Execution/Trades/Figures.antt =====
-- The figures that are shown of the kept trades.
use tv_webhook_trader.Shared.{
  ℕ, ◌+◌, ◌≡◌, refl, if◌then◌else◌, List, [], ◌∷◌, Text, length, select, lookup, fold, group_lem,
  has_text, get_or, arith, pos, eq_of_parts, -ℤ_parts,
}
use tv_webhook_trader.Shared.Double.{Double, nought}
use tv_webhook_trader.Execution.Trades.{
  TradeRecord, Recorder, StratStats, count_wins, sum_pnl, get_stats, new_stats, by_strategy,
  with_trade,
}

module _ {F : Type 0} ⦃d : Double F⦄ where
  -- The trades that won nothing.
  pub count_losses : List (TradeRecord F) → ℕ
  count_losses [] = 0
  count_losses (t ∷ ts) = (if d.lt nought t.pnl then 0 else 1) + count_losses ts

  wins-losses : (ts : List (TradeRecord F)) → count_wins ts + count_losses ts ≡ length ts
  unfolding count_wins count_losses
  wins-losses [] = omega arith
  wins-losses (t ∷ ts) = ground (arith, wins-losses ts)

  -- Each kept trade is counted as a win or as a loss, and the losses are the trades without a profit.
  pub get_stats_lem :
      (r : Recorder F)
      → ((get_stats r).losses ≡ pos (count_losses r.trades))
        × ((get_stats r).wins + count_losses r.trades ≡ (get_stats r).total_trades)
  unfolding get_stats
  get_stats_lem r =
      let sum = wins-losses r.trades in
      (
        eq_of_parts _ _
            (omega (arith, sum, -ℤ_parts (pos (length r.trades)) (pos (count_wins r.trades)))),
        sum,
      )

  -- The figures behind a list of trades, on top of those before.
  pub fold-IsTally :
      (before : StratStats F) (ts : List (TradeRecord F))
      → let after = fold with_trade before ts in
        (after.total ≡ before.total + length ts)
        × (after.wins ≡ before.wins + count_wins ts)
        × (after.total_pnl ≡ sum_pnl before.total_pnl ts)
  unfolding fold count_wins sum_pnl
  fold-IsTally before [] = (omega arith, omega arith, refl)
  fold-IsTally before (t ∷ ts) =
      let ih = fold-IsTally (with_trade t before) ts in
      (omega (arith, ih.0), omega (arith, ih.1), ih.2)

  -- The figures of each strategy are those of the kept trades that it made: how many, how many with a
  -- profit, and the sum of their results in order.
  pub by_strategy_lem :
      (s : Text) (ts : List (TradeRecord F))
      → let own = select (has_text (λ t. t.strategy) s) ts in
        let shown = get_or new_stats (lookup s (by_strategy ts)) in
        (shown.total ≡ length own)
        × (shown.wins ≡ count_wins own)
        × (shown.total_pnl ≡ sum_pnl nought own)
  unfolding by_strategy lookup
  by_strategy_lem s ts =
      let own = select (has_text (λ t. t.strategy) s) ts in
      let same = group_lem (λ t. t.strategy) with_trade new_stats [] ts s in
      let h = fold-IsTally new_stats own in rw same (omega (arith, h.0), omega (arith, h.1), h.2)
