-- ===== src/Execution/Readiness/Markets.antt =====
-- A refresh with the reports of both trackers, as the engine's periodic tasks make it.
use tv_webhook_trader.Shared.{
  ◌≡◌, subst, inl, inr, true, false, Text, contains, select, has_text, Any-All, Any-const, arith,
}
use tv_webhook_trader.Shared.Double.{Double}
use tv_webhook_trader.Shared.Sorter.{Sorter, IsSorter}
use tv_webhook_trader.Execution.Shadow.{ShadowTracker}
use tv_webhook_trader.Execution.Shadow.Report.{get_symbol_report}
use tv_webhook_trader.Execution.SpotShadow.{SpotShadowTracker}
use tv_webhook_trader.Execution.SpotShadow.Report as SpotReport
use tv_webhook_trader.Execution.SpotShadow.Report.{has_colon, get_symbol_report-has_colon}
use tv_webhook_trader.Execution.Readiness.{ReadinessConfig, ReadinessEngine}
use tv_webhook_trader.Execution.Readiness.Confidence.{refresh_eligible}
use tv_webhook_trader.Execution.Readiness.Gate.{IsEarner, IsProof, refresh_eligible-IsProof}

module _ {F : Type 0} ⦃d : Double F⦄ (c : ReadinessConfig) ⦃s : Sorter⦄ where
  -- The rows of the spot report are named by symbol, timeframe and exchange, so a name without a colon,
  -- as the symbol of a signal is, goes live only for its paper trades in futures: at least fifteen, with
  -- a profit and a win rate that earned a grade of B or better, whatever its paper trades in spot were.
  pub refresh_eligible-symbol_only :
      (t : ShadowTracker F) (spot : SpotShadowTracker F) (e : ReadinessEngine F) (symbol : Text)
      → IsSorter s
      → has_colon symbol ≡ false
      → contains
          (refresh_eligible c
            (get_symbol_report t)
            (SpotReport.get_symbol_report spot)
            e).eligible_keys
          symbol
        ≡ true
      → IsProof (select (has_text (λ t. t.symbol) symbol) t.trades)
  refresh_eligible-symbol_only t spot e symbol h plain k =
      let own = IsProof (select (has_text (λ t. t.symbol) symbol) t.trades) in
      let rows = SpotReport.get_symbol_report spot in
      elim (refresh_eligible-IsProof c t rows e symbol h k) [
        | inl paper ↦ paper
        | inr row ↦ Any-const own rows (
            Any-All _ (IsEarner c symbol) (λ r. own) rows
              (λ r named earner.
                let colon : has_colon symbol ≡ true =
                  subst (λ k. has_colon k ≡ true) earner.0 named in
                absurd (ground arith))
              (get_symbol_report-has_colon spot h) row)
      ]
