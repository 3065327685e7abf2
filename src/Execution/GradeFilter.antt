-- ===== src/Execution/GradeFilter.antt =====
-- include/execution/execution_engine.hpp: the filter of handle_entry by the shadow tracker's grade,
-- which stops an entry of a symbol whose paper trades did badly.
use tv_webhook_trader.Shared.{
  ℕ, ◌≤◌, ◌<◌, ◌≡◌, ◌↔◌, refl, sym, ap, ◌∙◌, ◌⊎◌, inl, inr, Bool, true, false, ◌&&◌, ◌||◌,
  if◌then◌else◌, List, [], ◌∷◌, none, some, Text, codes, text_eq, text_eq_iff, map, lookup, group,
  group_lem, fold, get_or, has_text, select, length, All, All-imp, Any, Any-into_map, ℤ, pos, leb_ℤ,
  arith, Bool-cases, Option-cases,
}
use mathlib.Core.List.Permᴰ
use tv_webhook_trader.Shared.Double.{Double, nought}
use tv_webhook_trader.Shared.Sorter.{Sorter, IsSorter, Any-moves}
use tv_webhook_trader.Execution.Trades.{
  TradeRecord, StratStats, new_stats, with_trade, win_rate_of, count_wins, sum_pnl,
}
use tv_webhook_trader.Execution.Trades.Figures.{fold-IsTally}
use tv_webhook_trader.Execution.Shadow.{ShadowTracker}
use tv_webhook_trader.Execution.Shadow.Report.{
  ReportRow, IsGraded, grade_of, report_row, earns_more, get_symbol_report,
  get_symbol_report-IsGraded,
}

-- Too little is known, or the grade is B or better, or C with few trades.
unfoldable pub is_grade_fit : Text → ℤ → Bool
is_grade_fit grade total =
    if text_eq grade (codes "?")
    then true
    else if text_eq grade (codes "F") || text_eq grade (codes "D")
    then false
    else if text_eq grade (codes "C") && leb_ℤ (pos 10) total
    then false
    else true

module _ {F : Type 0} where
  -- Only the first row of the symbol counts.
  unfoldable pub passes_grade : Text → List (ReportRow F) → Bool
  passes_grade symbol [] = true
  passes_grade symbol (row ∷ rows) =
      if text_eq row.symbol symbol
      then is_grade_fit row.grade row.total
      else passes_grade symbol rows

  passes_grade-same :
      (symbol : Text) (fit : Bool) (rows : List (ReportRow F))
      → All (λ r. r.symbol ≡ symbol → is_grade_fit r.grade r.total ≡ fit) rows
      → Any (λ r. r.symbol ≡ symbol) rows ⊎ (fit ≡ true)
      → passes_grade symbol rows ≡ fit
  unfolding passes_grade
  passes_grade-same symbol fit [] h (inl k) = absurd k
  passes_grade-same symbol fit [] h (inr k) = sym k
  passes_grade-same symbol fit (row ∷ rows) h k = elim (Bool-cases (text_eq row.symbol symbol)) [
    | inl own ↦ rw own (h.0 ((text_eq_iff row.symbol symbol).0 own))
    | inr other ↦ rw other (passes_grade-same symbol fit rows h.1 (later k other))
  ]
    where
      later :
          Any (λ r. r.symbol ≡ symbol) (row ∷ rows) ⊎ (fit ≡ true)
          → text_eq row.symbol symbol ≡ false
          → Any (λ r. r.symbol ≡ symbol) rows ⊎ (fit ≡ true)
      later (inl (inl e)) o = absurd (ground (arith, text_eq_iff row.symbol symbol))
      later (inl (inr a)) o = inl a
      later (inr e) o = inr e

lookup-Any :
    {V : Type 0} (k : Text) (m : List (Text × V)) (v : V)
    → lookup k m ≡ some v
    → Any (λ kv. kv.0 ≡ k) m
unfolding lookup
lookup-Any k [] v e = cc
lookup-Any k ((j, w) ∷ m) v e = elim (Bool-cases (text_eq j k)) [
  | inl own ↦ inl ((text_eq_iff j k).0 own)
  | inr other ↦ inr (lookup-Any k m v (ground (arith, e, other)))
]

module _ {F : Type 0} ⦃d : Double F⦄ where
  -- The filter on the grade of some trades.
  abbrev are_trades_fit : List (TradeRecord F) → Bool
  are_trades_fit own =
      let n = length own in
      is_grade_fit (grade_of n (win_rate_of (count_wins own) n) (sum_pnl nought own)) (pos n)

  graded-are_trades_fit :
      (own : List (TradeRecord F)) (r : ReportRow F)
      → IsGraded own r
      → is_grade_fit r.grade r.total ≡ are_trades_fit own
  graded-are_trades_fit own r g = rw (g.graded, g.counted, g.rate) refl

  -- Of a rate that is comparable, the last is said by the first two as well.
  abbrev pub IsHalf : F → Type 0
  IsHalf wr =
      (d.le (d.decimal 65 0) wr ≡ true)
      ⊎ (d.le (d.decimal 55 0) wr ≡ true)
      ⊎ (d.le (d.decimal 50 0) wr ≡ true)

  -- Fewer than five trades; or at least half of them won, and their sum above zero; or fewer than ten
  -- trades, of which at least 45 percent won.
  abbrev pub DidWell : ℕ → F → F → Type 0
  DidWell n wr pnl =
      (n < 5)
      ⊎ (IsHalf wr × (d.lt nought pnl ≡ true))
      ⊎ ((n < 10) × (d.le (d.decimal 45 0) wr ≡ true))

  is_grade_fit-DidWell :
      (n : ℕ) (wr pnl : F) → (is_grade_fit (grade_of n wr pnl) (pos n) ≡ true) ↔ DidWell n wr pnl
  unfolding grade_of is_grade_fit text_eq leb_ℤ
  is_grade_fit-DidWell n wr pnl = ground arith

  few-fit : (n : ℕ) (wr pnl : F) → n ≤ 4 → is_grade_fit (grade_of n wr pnl) (pos n) ≡ true
  unfolding grade_of is_grade_fit text_eq
  few-fit n wr pnl h = ground arith

  -- No entry, no trades; and too few are fit.
  no_trades-fit :
      (symbol : Text) (ts : List (TradeRecord F))
      → lookup symbol (group (λ t. t.symbol) with_trade new_stats [] ts) ≡ none
      → are_trades_fit (select (has_text (λ t. t.symbol) symbol) ts) ≡ true
  unfolding lookup
  no_trades-fit symbol ts e =
      let own = select (has_text (λ t. t.symbol) symbol) ts in
      let tally = fold-IsTally new_stats own in
      let all = group_lem (λ t. t.symbol) with_trade new_stats [] ts symbol in
      let same : 0 ≡ (fold with_trade new_stats own).total =
        ap (λ o. (get_or new_stats o).total) (sym e) ∙ ap (λ s. s.total) all in
      let few : length own ≤ 4 = omega (arith, same, tally.0) in
      few-fit (length own) (win_rate_of (count_wins own) (length own)) (sum_pnl nought own) few

  module _ ⦃s : Sorter⦄ where
    passes_grade-are_trades_fit :
        (t : ShadowTracker F) (symbol : Text)
        → IsSorter s
        → passes_grade symbol (get_symbol_report t)
          ≡ are_trades_fit (select (has_text (λ t. t.symbol) symbol) t.trades)
    unfolding get_symbol_report
    passes_grade-are_trades_fit t symbol h =
        let key = λ (t : TradeRecord F). t.symbol in
        let entries = group key with_trade new_stats [] t.trades in
        let own = λ (k : Text). select (has_text key k) t.trades in
        let row = λ (kv : Text × StratStats F). report_row kv.0 [] kv.1 in
        passes_grade-same symbol (are_trades_fit (own symbol)) (get_symbol_report t)
          (All-imp _ _ (get_symbol_report t)
            (λ r g e. graded-are_trades_fit (own r.symbol) r g ∙ ap (λ k. are_trades_fit (own k)) e)
            (get_symbol_report-IsGraded t h))
          (elim (Option-cases (lookup symbol entries)) [
            | inl missing ↦ inr (no_trades-fit symbol t.trades missing)
            | inr there ↦ inl (
                Any-moves (λ (r : ReportRow F). r.symbol ≡ symbol)
                  (Permᴰ.symm (h.sort-moves (ReportRow F) earns_more (map row entries)))
                  (Any-into_map (λ (r : ReportRow F). r.symbol ≡ symbol) row entries
                    (lookup-Any symbol entries there.0 there.1)))
          ])

    -- The filter on the tracker's report decides by the kept paper trades of the symbol alone, whatever the
    -- order of the report: an entry passes exactly if there are fewer than five of them; or if at least
    -- half of them won (50 percent, or one of the higher marks, 55 and 65) and their results sum up to
    -- more than zero; or if there are fewer than ten, of which at least 45 percent won.
    pub passes_grade-get_symbol_report :
        (t : ShadowTracker F) (symbol : Text)
        → IsSorter s
        → let own = select (has_text (λ t. t.symbol) symbol) t.trades in
          let n = length own in
          (passes_grade symbol (get_symbol_report t) ≡ true)
          ↔ DidWell n (win_rate_of (count_wins own) n) (sum_pnl nought own)
    passes_grade-get_symbol_report t symbol h =
        let own = select (has_text (λ t. t.symbol) symbol) t.trades in
        let n = length own in
        let fit = is_grade_fit-DidWell n (win_rate_of (count_wins own) n) (sum_pnl nought own) in
        let same = passes_grade-are_trades_fit t symbol h in
        (λ e. fit.0 (sym same ∙ e), λ w. same ∙ fit.1 w)
