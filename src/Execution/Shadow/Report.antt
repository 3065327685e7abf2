-- ===== src/Execution/Shadow/Report.antt =====
-- include/execution/shadow_tracker.hpp: get_symbol_report and get_symbol_tf_report, the kept trades
-- graded by symbol, and by symbol and timeframe. Their local SymStats and SymTfStats are the total,
-- the wins and the profit of StratStats. A row is the JSON object, with the members that the
-- readiness engine looks for and no report writes as `none`.
use tv_webhook_trader.Shared.{
  ℕ, ◌≡◌, refl, sym, ap, subst, Bool, ◌&&◌, if◌then◌else◌, List, [], ◌∷◌, ◌++◌, Option, none, Text,
  codes, ◌==◌, ltb, map, group, group-entries, fold, has_text, select, length, All, All-imp,
  All-map, ℤ, pos, ◌-ℤ◌, arith,
}
use tv_webhook_trader.Shared.Double.{Double, nought}
use tv_webhook_trader.Shared.Sorter.{Sorter, IsSorter, All-moves}
use tv_webhook_trader.Execution.Trades.{
  TradeRecord, StratStats, new_stats, with_trade, win_rate_of, count_wins, sum_pnl,
}
use tv_webhook_trader.Execution.Trades.Figures.{fold-IsTally}
use tv_webhook_trader.Execution.Shadow.{ShadowTracker, timeframe_or_nought}

pub record ReportRow (F : Type 0) : Type 0 where
  pub symbol : Text
  pub timeframe : Text
  pub total : ℤ
  pub wins : ℤ
  pub losses : ℤ
  pub win_rate : F
  pub total_pnl : F
  pub avg_pnl : F
  pub grade : Text
  pub recent_trades : Option ℤ
  pub recent_wins : Option ℤ
  pub recent_pnl : Option F

-- key.substr(0, colon) and key.substr(colon + 1), of a key that has a colon.
unfoldable pub key_symbol : Text → Text
key_symbol [] = []
key_symbol (c ∷ s) = if c == b':' then [] else c ∷ key_symbol s

unfoldable pub key_timeframe : Text → Text
key_timeframe [] = []
key_timeframe (c ∷ s) = if c == b':' then s else key_timeframe s

abbrev pub symbol_tf_key : {F : Type 0} → TradeRecord F → Text
symbol_tf_key t = t.symbol ++ b':' ∷ timeframe_or_nought t.timeframe

module _ {F : Type 0} ⦃d : Double F⦄ where
  -- The trades, the win rate in percent and the profit.
  unfoldable pub grade_of : ℕ → F → F → Text
  grade_of total wr pnl =
      if ltb total 5
      then codes "?"
      else if d.le (d.decimal 65 0) wr && d.lt nought pnl
      then codes "A+"
      else if d.le (d.decimal 55 0) wr && d.lt nought pnl
      then codes "A"
      else if d.le (d.decimal 50 0) wr && d.lt nought pnl
      then codes "B"
      else if d.le (d.decimal 45 0) wr
      then codes "C"
      else if d.le (d.decimal 35 0) wr
      then codes "D"
      else codes "F"

  abbrev pub round4 : F → F
  round4 x = d.div (d.round (d.mul x (d.decimal 10000 0))) (d.decimal 10000 0)

  abbrev pub report_row : Text → Text → StratStats F → ReportRow F
  report_row symbol tf s =
      let wr = win_rate_of s.wins s.total in
      record {
        symbol = symbol;
        timeframe = tf;
        total = pos s.total;
        wins = pos s.wins;
        losses = pos s.total -ℤ pos s.wins;
        win_rate = wr;
        total_pnl = round4 s.total_pnl;
        avg_pnl =
            if ltb 0 s.total then round4 (d.div s.total_pnl (d.of_int (pos s.total))) else nought;
        grade = grade_of s.total wr s.total_pnl;
        recent_trades = none;
        recent_wins = none;
        recent_pnl = none;
      }

  abbrev pub earns_more : ReportRow F → ReportRow F → Bool
  earns_more a b = d.lt b.total_pnl a.total_pnl

  module _ ⦃s : Sorter⦄ where
    unfoldable pub get_symbol_report : ShadowTracker F → List (ReportRow F)
    get_symbol_report t = s.sort (ReportRow F) earns_more (
        map (λ kv. report_row kv.0 [] kv.1)
          (group (λ t. t.symbol) with_trade new_stats [] t.trades))

    unfoldable pub get_symbol_tf_report : ShadowTracker F → List (ReportRow F)
    get_symbol_tf_report t = s.sort (ReportRow F) earns_more (
        map (λ kv. report_row (key_symbol kv.0) (key_timeframe kv.0) kv.1)
          (group symbol_tf_key with_trade new_stats [] t.trades))

  -- A row's figures are those of some trades.
  pub record IsGraded (own : List (TradeRecord F)) (r : ReportRow F) : Type 0 where
    pub counted : r.total ≡ pos (length own)
    pub won : r.wins ≡ pos (count_wins own)
    pub rate : r.win_rate ≡ win_rate_of (count_wins own) (length own)
    pub profit : r.total_pnl ≡ round4 (sum_pnl nought own)
    pub graded : r.grade ≡ grade_of (length own) r.win_rate (sum_pnl nought own)
    pub whole_life : r.recent_pnl ≡ none

  row-IsGraded :
      (symbol tf : Text) (own : List (TradeRecord F))
      → IsGraded own (report_row symbol tf (fold with_trade new_stats own))
  row-IsGraded symbol tf own =
      let h = fold-IsTally new_stats own in
      let st = fold with_trade new_stats own in
      let n : st.total ≡ length own = omega (arith, h.0) in
      let w : st.wins ≡ count_wins own = omega (arith, h.1) in
      record {
        counted = ap pos n;
        won = ap pos w;
        rate = rw (n, w) refl;
        profit = ap round4 h.2;
        graded =
            rw (n, w) (ap (grade_of (length own) (win_rate_of (count_wins own) (length own))) h.2);
        whole_life = refl;
      }

  module _ ⦃s : Sorter⦄ where
    -- Every row of the report by symbol has the figures and the grade of the kept trades of its symbol:
    -- how many there are and how many won, the win rate, the rounded profit, and the grade of those.
    pub get_symbol_report-IsGraded :
        (t : ShadowTracker F)
        → IsSorter s
        → All
            (λ r. IsGraded (select (has_text (λ t. t.symbol) r.symbol) t.trades) r)
            (get_symbol_report t)
    unfolding get_symbol_report
    get_symbol_report-IsGraded t h =
        let key = λ (t : TradeRecord F). t.symbol in
        let P = λ (r : ReportRow F). IsGraded (select (has_text key r.symbol) t.trades) r in
        let entries = group key with_trade new_stats [] t.trades in
        let row = λ (kv : Text × StratStats F). report_row kv.0 [] kv.1 in
        All-moves P (h.sort-moves (ReportRow F) earns_more (map row entries)) (
          All-map P row entries (
            All-imp _ _ entries
              (λ kv e.
                subst (λ st. P (report_row kv.0 [] st)) (sym e)
                  (row-IsGraded kv.0 [] (select (has_text key kv.0) t.trades)))
              (group-entries key with_trade new_stats t.trades)))
