-- ===== src/Execution/Readiness/Gate.antt =====
-- What stands behind a symbol that a refresh lets trade live, down to the paper trades.
use tv_webhook_trader.Shared.{
  ℕ, ◌≤◌, ◌≡◌, refl, sym, subst, ◌∙◌, ◌⊎◌, inl, inr, Bool, true, false, ◌&&◌, ◌||◌, List, [], ◌∷◌,
  none, Text, codes, text_eq, text_eq_iff, contains, contains-put, map, select, has_text, length,
  Any, Any-append, Any-map, Any-All, Any-imp, Any-const, ℤ, pos, ltb_ℤ, leb_ℤ, arith,
}
use tv_webhook_trader.Shared.Double.{Double, nought, IsStrict}
use tv_webhook_trader.Shared.Sorter.{Sorter, IsSorter, Any-moves}
use tv_webhook_trader.Execution.Trades.{TradeRecord, count_wins, sum_pnl, win_rate_of}
use tv_webhook_trader.Execution.Shadow.{ShadowTracker}
use tv_webhook_trader.Execution.Shadow.Report.{
  ReportRow, grade_of, IsGraded, get_symbol_report, get_symbol_report-IsGraded,
}
use tv_webhook_trader.Execution.Readiness.{
  SymbolReadiness, ConfidenceEntry, ReadinessConfig, ReadinessEngine, is_live_level,
  evaluate_symbol, evaluate_all, is_better,
}
use tv_webhook_trader.Execution.Readiness.Confidence.{
  Round, should_demote, rolling_entry, judge, judge_all, build_rolling, refresh_eligible,
}
use tv_webhook_trader.Execution.Readiness.Levels.{earns_live, has_grade_a, is_live_level-level_of}

abbrev IsLive : {F : Type 0} → Text → SymbolReadiness F → Type 0
IsLive key r = (r.symbol ≡ key) × (is_live_level r.level ≡ true)

abbrev is_good : Text → Bool
is_good grade = has_grade_a grade || text_eq grade (codes "B")

module _ {F : Type 0} ⦃d : Double F⦄ where
  -- Some trades that are a record to go live with.
  pub record IsProof (own : List (TradeRecord F)) : Type 0 where
    pub enough : 15 ≤ length own
    pub profit : d.lt nought (sum_pnl nought own) ≡ true
    pub rate :
        let wr : F = win_rate_of (count_wins own) (length own) in
        (d.le (d.decimal 65 0) wr || d.le (d.decimal 55 0) wr || d.le (d.decimal 50 0) wr) ≡ true

  grade_of-is_good :
      (n : ℕ) (wr pnl : F)
      → is_good (grade_of n wr pnl) ≡ true
      → (d.lt nought pnl ≡ true)
        × ((d.le (d.decimal 65 0) wr || d.le (d.decimal 55 0) wr || d.le (d.decimal 50 0) wr)
            ≡ true)
  unfolding grade_of text_eq
  grade_of-is_good n wr pnl e = ground arith

module _ {F : Type 0} ⦃d : Double F⦄ (c : ReadinessConfig) where
  judge-eligible :
      (r : SymbolReadiness F) (round : Round F) (key : Text)
      → contains (judge c r round).eligible_keys key ≡ true
      → IsLive key r ⊎ (contains round.eligible_keys key ≡ true)
  unfolding judge
  judge-eligible r round key h =
      ground (arith, contains-put r.symbol key round.eligible_keys, text_eq_iff r.symbol key)

  judge_all-eligible :
      (rs : List (SymbolReadiness F)) (round : Round F) (key : Text)
      → contains (judge_all c rs round).eligible_keys key ≡ true
      → Any (IsLive key) rs ⊎ (contains round.eligible_keys key ≡ true)
  unfolding judge_all
  judge_all-eligible [] round key h = inr h
  judge_all-eligible (r ∷ rs) round key h = elim (judge_all-eligible rs (judge c r round) key h) [
    | inl later ↦ inl (inr later)
    | inr before ↦ elim (judge-eligible r round key before) [
      | inl now ↦ inl (inl now)
      | inr old ↦ inr old
    ]
  ]

  -- A report row of that symbol, which earns a live level.
  abbrev pub IsEarner : Text → ReportRow F → Type 0
  IsEarner key row = (row.symbol ≡ key) × (earns_live c row.grade row.total row.total_pnl ≡ true)

  evaluate_symbol-IsEarner :
      (market key : Text) (rows : List (ReportRow F))
      → Any (IsLive key) (map (evaluate_symbol c market) rows)
      → Any (IsEarner key) rows
  evaluate_symbol-IsEarner market key rows h =
      Any-imp _ _ rows
        (λ row live.
          (live.0, sym (is_live_level-level_of c row.grade row.total row.total_pnl) ∙ live.1))
        (Any-map (IsLive key) (evaluate_symbol c market) rows h)

  module _ ⦃s : Sorter⦄ where
    -- If a refresh lets a symbol trade live, then the futures report or the spot report has a row of that
    -- symbol that earns it: grade A+, A or B, at least fifteen trades and the configured number, and a
    -- profit if one is required.
    pub refresh_eligible-earns_live :
        (futures spot : List (ReportRow F)) (e : ReadinessEngine F) (key : Text)
        → IsSorter s
        → contains (refresh_eligible c futures spot e).eligible_keys key ≡ true
        → Any (IsEarner key) futures ⊎ Any (IsEarner key) spot
    unfolding refresh_eligible evaluate_all contains
    refresh_eligible-earns_live futures spot e key h k =
        let start : Round F = record {
          confidences = build_rolling spot (build_rolling futures e.confidences);
          eligible_keys = [];
          seen = [];
        } in
        let rows =
          λ (market : Text) (report : List (ReportRow F)). map (evaluate_symbol c market) report in
        elim (judge_all-eligible (evaluate_all c futures spot) start key k) [
          | inl live ↦
              elim (Any-append (IsLive key) (rows (codes "futures") futures)
                (rows (codes "spot") spot)
                (Any-moves (IsLive key) (h.sort-moves (SymbolReadiness F) is_better _) live)) [
                  | inl one ↦ inl (evaluate_symbol-IsEarner (codes "futures") key futures one)
                  | inr one ↦ inr (evaluate_symbol-IsEarner (codes "spot") key spot one)
                ]
          | inr none_yet ↦ absurd (ground arith)
        ]

  -- If a profit is required and the report has no figure of the last trades alone, then a row that earns a
  -- live level is never demoted for a loss: only the rolling win rate can demote it.
  pub should_demote-rolling_entry :
      (row : ReportRow F) (ce : ConfidenceEntry F)
      → IsStrict d
      → c.require_positive_pnl ≡ true
      → row.recent_pnl ≡ none
      → earns_live c row.grade row.total row.total_pnl ≡ true
      → let after = rolling_entry row ce in
        should_demote after
        ≡ (leb_ℤ (pos 20) after.rolling_count && d.lt after.rolling_wr (d.decimal 40 2))
  unfolding should_demote rolling_entry
  should_demote-rolling_entry row ce h required no_recent e =
      let profit : d.lt nought row.total_pnl ≡ true = ground arith in
      let no_loss : d.lt row.total_pnl nought ≡ false = h.lt_asymm nought row.total_pnl profit in
      rw (no_recent, no_loss) refl

  earns_live-parts :
      (grade : Text) (total : ℤ) (pnl : F)
      → earns_live c grade total pnl ≡ true
      → (ltb_ℤ total (pos 15) ≡ false) × (is_good grade ≡ true)
  earns_live-parts grade total pnl e = ground arith

  graded-IsProof :
      (own : List (TradeRecord F)) (row : ReportRow F)
      → IsGraded own row
      → earns_live c row.grade row.total row.total_pnl ≡ true
      → IsProof own
  unfolding ltb_ℤ
  graded-IsProof own row g e =
      let parts = earns_live-parts row.grade row.total row.total_pnl e in
      let many : ltb_ℤ (pos (length own)) (pos 15) ≡ false =
        subst (λ n. ltb_ℤ n (pos 15) ≡ false) g.counted parts.0 in
      let good =
        grade_of-is_good (length own) row.win_rate (sum_pnl nought own)
          (subst (λ k. is_good k ≡ true) g.graded parts.1) in
      record {
        enough = ground arith;
        profit = good.0;
        rate =
            subst
              (λ wr.
                (d.le (d.decimal 65 0) wr || d.le (d.decimal 55 0) wr || d.le (d.decimal 50 0) wr)
                ≡ true)
              g.rate good.1;
      }

  module _ ⦃s : Sorter⦄ where
    -- If a refresh with the report of a shadow tracker lets a symbol trade live, then the tracker keeps at
    -- least fifteen paper trades of the symbol, which together made a profit and won at least 65, 55 or 50
    -- percent; or else the spot report has a row of the symbol that earns it.
    pub refresh_eligible-IsProof :
        (t : ShadowTracker F) (spot : List (ReportRow F)) (e : ReadinessEngine F) (key : Text)
        → IsSorter s
        → contains (refresh_eligible c (get_symbol_report t) spot e).eligible_keys key ≡ true
        → IsProof (select (has_text (λ t. t.symbol) key) t.trades) ⊎ Any (IsEarner key) spot
    refresh_eligible-IsProof t spot e key h k =
        let own = λ (sym : Text). select (has_text (λ t. t.symbol) sym) t.trades in
        elim (refresh_eligible-earns_live (get_symbol_report t) spot e key h k) [
          | inl paper ↦ inl (
              Any-const (IsProof (own key)) (get_symbol_report t) (
                Any-All _ (IsEarner key) _ (get_symbol_report t)
                  (λ row g earner.
                    subst (λ k. IsProof (own k)) earner.0
                      (graded-IsProof (own row.symbol) row g earner.1))
                  (get_symbol_report-IsGraded t h) paper))
          | inr row ↦ inr row
        ]
