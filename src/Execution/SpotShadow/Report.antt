-- ===== src/Execution/SpotShadow/Report.antt =====
-- include/execution/spot_shadow_tracker.hpp: get_symbol_report and get_symbol_tf_report. The rows are
-- made as those of the shadow tracker, and their grade by compute_grade.
use tv_webhook_trader.Shared.{
  ◌≡◌, refl, Bool, true, false, List, [], ◌∷◌, ◌++◌, Text, ◌==◌, if◌then◌else◌, map, group, All,
  All-map, All-imp, group-entries, group-keys, sym, subst, arith,
}
use tv_webhook_trader.Shared.Double.{Double}
use tv_webhook_trader.Shared.Sorter.{Sorter, IsSorter, All-moves}
use tv_webhook_trader.Execution.Trades.{StratStats, TradeRecord, new_stats, with_trade, win_rate_of}
use tv_webhook_trader.Execution.Shadow.Report.{
  ReportRow, report_row, earns_more, symbol_tf_key, key_symbol, key_timeframe,
}
use tv_webhook_trader.Execution.SpotShadow.{
  SpotShadowTracker, trade_key, compute_grade, grade_of_key, make_key,
}

abbrev pub has_colon : Text → Bool
has_colon [] = false
has_colon (c ∷ s) = if c == b':' then true else has_colon s

has_colon-append : (s t : Text) → has_colon (s ++ b':' ∷ t) ≡ true
has_colon-append [] t = refl
has_colon-append (c ∷ s) t = ground (arith, has_colon-append s t)

trade_key-has_colon : {F : Type 0} (t : TradeRecord F) → has_colon (trade_key t) ≡ true
unfolding make_key
trade_key-has_colon t = has_colon-append t.symbol (t.timeframe ++ b':' ∷ t.exchange)

module _ {F : Type 0} ⦃d : Double F⦄ where
  abbrev pub spot_row : Text → Text → StratStats F → ReportRow F
  spot_row symbol tf s =
      let row = report_row symbol tf s in
      record row { grade = compute_grade s.total s.total_pnl (win_rate_of s.wins s.total) }

  module _ ⦃s : Sorter⦄ where
    -- The rows are named by symbol, timeframe and exchange.
    unfoldable pub get_symbol_report : SpotShadowTracker F → List (ReportRow F)
    get_symbol_report t =
        s.sort (ReportRow F) earns_more
          (map (λ kv. spot_row kv.0 [] kv.1) (group trade_key with_trade new_stats [] t.trades))

    unfoldable pub get_symbol_tf_report : SpotShadowTracker F → List (ReportRow F)
    get_symbol_tf_report t = s.sort (ReportRow F) earns_more (
        map (λ kv. spot_row (key_symbol kv.0) (key_timeframe kv.0) kv.1)
          (group symbol_tf_key with_trade new_stats [] t.trades))

    -- The grade of a row is that of the kept trades under its name.
    pub get_symbol_report-grade_of_key :
        (t : SpotShadowTracker F)
        → IsSorter s
        → All (λ r. r.grade ≡ grade_of_key r.symbol t.trades) (get_symbol_report t)
    unfolding get_symbol_report grade_of_key
    get_symbol_report-grade_of_key t h =
        let P = λ (r : ReportRow F). r.grade ≡ grade_of_key r.symbol t.trades in
        let entries = group trade_key with_trade new_stats [] t.trades in
        let row = λ (kv : Text × StratStats F). spot_row kv.0 [] kv.1 in
        All-moves P (h.sort-moves (ReportRow F) earns_more (map row entries)) (
          All-map P row entries (
            All-imp _ _ entries (λ kv e. subst (λ st. P (spot_row kv.0 [] st)) (sym e) refl)
              (group-entries trade_key with_trade new_stats t.trades)))

    -- No row is named by a symbol alone.
    pub get_symbol_report-has_colon :
        (t : SpotShadowTracker F)
        → IsSorter s
        → All (λ r. has_colon r.symbol ≡ true) (get_symbol_report t)
    unfolding get_symbol_report
    get_symbol_report-has_colon t h =
        let P = λ (r : ReportRow F). has_colon r.symbol ≡ true in
        let entries = group trade_key with_trade new_stats [] t.trades in
        let row = λ (kv : Text × StratStats F). spot_row kv.0 [] kv.1 in
        All-moves P (h.sort-moves (ReportRow F) earns_more (map row entries)) (
          All-map P row entries (
            group-keys (λ k. has_colon k ≡ true) trade_key with_trade new_stats [] t.trades
              trade_key-has_colon tt))
