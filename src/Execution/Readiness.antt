-- ===== src/Execution/Readiness.antt =====
-- include/execution/live_readiness.hpp: class LiveReadinessEngine, which lets a symbol trade live once
-- its paper trades earned it. `reason`, `losses` and the log lines are texts for people and left out;
-- the JSON for the dashboard is too. The confidence file is kept as what was last written to it.
use tv_webhook_trader.Shared.{
  Bool, true, false, not, ◌&&◌, ◌||◌, if◌then◌else◌, List, [], ◌∷◌, ◌++◌, Option, none, some, Text,
  codes, text_eq, is_empty, map, lookup, insert, get_or, contains, put, ℤ, pos, ◌+ℤ◌, ◌-ℤ◌, ltb_ℤ,
  leb_ℤ,
}
use tv_webhook_trader.Shared.Double.{Double, nought}
use tv_webhook_trader.Shared.Sorter.{Sorter}
use tv_webhook_trader.Execution.Shadow.Report.{ReportRow}
pub mod Confidence
pub mod Levels
pub mod Trust
pub mod Runs
pub mod Gate
pub mod Markets

pub data ReadinessLevel : Type 0 where
  blocked : ReadinessLevel
  learning : ReadinessLevel
  promising : ReadinessLevel
  ready : ReadinessLevel
  proven : ReadinessLevel

pub record SymbolReadiness (F : Type 0) : Type 0 where
  pub symbol : Text
  pub market : Text
  pub level : ReadinessLevel
  pub grade : Text
  pub total_trades : ℤ
  pub wins : ℤ
  pub win_rate : F
  pub total_pnl : F
  pub avg_pnl : F

pub record ConfidenceEntry (F : Type 0) : Type 0 where
  pub consecutive_passes : ℤ
  pub confidence : ℤ
  pub size_boost : F
  pub rolling_pnl : F
  pub rolling_wr : F
  pub rolling_count : ℤ
  pub demoted : Bool

abbrev pub Confidences : Type 0 → Type 0
Confidences F = List (Text × ConfidenceEntry F)

pub record PipelineStatus : Type 0 where
  pub total_symbols : ℤ
  pub blocked_count : ℤ
  pub learning_count : ℤ
  pub promising_count : ℤ
  pub ready_count : ℤ
  pub proven_count : ℤ
  pub can_go_live : Bool
  pub min_symbols_for_live : ℤ

-- The settings; the two minimum grades are read and never used.
pub record ReadinessConfig : Type 0 where
  pub min_trades_ready : ℤ
  pub min_trades_proven : ℤ
  pub min_symbols : ℤ
  pub require_positive_pnl : Bool
  pub max_confidence : ℤ

pub record ReadinessEngine (F : Type 0) : Type 0 where
  pub confidences : Confidences F
  pub file : Option (Confidences F)

abbrev pub rank : ReadinessLevel → ℤ
rank blocked = pos 0
rank learning = pos 1
rank promising = pos 2
rank ready = pos 3
rank proven = pos 4

abbrev pub is_live_level : ReadinessLevel → Bool
is_live_level blocked = false
is_live_level learning = false
is_live_level promising = false
is_live_level ready = true
is_live_level proven = true

-- std::min on int
abbrev pub min_ℤ : ℤ → ℤ → ℤ
min_ℤ a b = if ltb_ℤ b a then b else a

-- A switch of get_pipeline_status
unfoldable pub count_level : ReadinessLevel → PipelineStatus → PipelineStatus
count_level blocked ps = record ps { blocked_count = ps.blocked_count +ℤ pos 1 }
count_level learning ps = record ps { learning_count = ps.learning_count +ℤ pos 1 }
count_level promising ps = record ps { promising_count = ps.promising_count +ℤ pos 1 }
count_level ready ps = record ps { ready_count = ps.ready_count +ℤ pos 1 }
count_level proven ps = record ps { proven_count = ps.proven_count +ℤ pos 1 }

unfoldable pub count_levels :
    {F : Type 0} → List (SymbolReadiness F) → PipelineStatus → PipelineStatus
count_levels [] ps = ps
count_levels (r ∷ rs) ps = count_levels rs (count_level r.level ps)

abbrev pub length_ℤ {ℓ} : {A : Type ℓ} → List A → ℤ
length_ℤ [] = pos 0
length_ℤ (x ∷ xs) = length_ℤ xs +ℤ pos 1

abbrev pub fresh_status : {F : Type 0} → ReadinessConfig → List (SymbolReadiness F) → PipelineStatus
fresh_status c rs = record {
  total_symbols = length_ℤ rs;
  blocked_count = pos 0;
  learning_count = pos 0;
  promising_count = pos 0;
  ready_count = pos 0;
  proven_count = pos 0;
  can_go_live = false;
  min_symbols_for_live = c.min_symbols;
}

unfoldable pub get_pipeline_status :
    {F : Type 0} → ReadinessConfig → List (SymbolReadiness F) → PipelineStatus
get_pipeline_status c rs =
    let ps = count_levels rs (fresh_status c rs) in
    record ps { can_go_live = leb_ℤ c.min_symbols (ps.ready_count +ℤ ps.proven_count) }

module _ {F : Type 0} ⦃d : Double F⦄ where
  -- Which level the grade, the trades and the profit earn.
  unfoldable pub level_of : ReadinessConfig → Text → ℤ → F → ReadinessLevel
  level_of c grade total pnl =
      let pnl_ok = d.lt nought pnl || not c.require_positive_pnl in
      if text_eq grade (codes "?") || ltb_ℤ total (pos 5)
      then learning
      else if text_eq grade (codes "F") || text_eq grade (codes "D")
      then blocked
      else if text_eq grade (codes "C")
      then (if d.lt nought pnl then promising else blocked)
      else if text_eq grade (codes "A+") || text_eq grade (codes "A")
      then (if ltb_ℤ total (pos 15)
          then promising
          else if leb_ℤ c.min_trades_proven total && pnl_ok
          then proven
          else if leb_ℤ c.min_trades_ready total && pnl_ok
          then ready
          else promising)
      else if text_eq grade (codes "B")
      then (if ltb_ℤ total (pos 15)
          then promising
          else if leb_ℤ c.min_trades_ready total && pnl_ok
          then ready
          else promising)
      else learning

  abbrev pub evaluate_symbol : ReadinessConfig → Text → ReportRow F → SymbolReadiness F
  evaluate_symbol c market row = record {
    symbol = row.symbol;
    market = market;
    level = level_of c row.grade row.total row.total_pnl;
    grade = row.grade;
    total_trades = row.total;
    wins = row.wins;
    win_rate = row.win_rate;
    total_pnl = row.total_pnl;
    avg_pnl = row.avg_pnl;
  }

  -- The comparator: the higher level first, then the higher profit.
  abbrev pub is_better : SymbolReadiness F → SymbolReadiness F → Bool
  is_better a b =
      if leb_ℤ (rank a.level) (rank b.level) && leb_ℤ (rank b.level) (rank a.level)
      then d.lt b.total_pnl a.total_pnl
      else ltb_ℤ (rank b.level) (rank a.level)

  unfoldable pub is_live_allowed : ReadinessConfig → Text → Text → List (ReportRow F) → Bool
  is_live_allowed c symbol market [] = false
  is_live_allowed c symbol market (row ∷ rows) =
      if text_eq row.symbol symbol
      then is_live_level (evaluate_symbol c market row).level
      else is_live_allowed c symbol market rows

  -- The dashboard's name of a row by timeframe.
  abbrev pub evaluate_by_tf : ReadinessConfig → Text → ReportRow F → SymbolReadiness F
  evaluate_by_tf c market row =
      let r = evaluate_symbol c market row in
      if is_empty row.timeframe then r else record r { symbol = r.symbol ++ b':' ∷ row.timeframe }

  module _ ⦃s : Sorter⦄ where
    unfoldable pub evaluate_all :
        ReadinessConfig → List (ReportRow F) → List (ReportRow F) → List (SymbolReadiness F)
    evaluate_all c futures spot = s.sort (SymbolReadiness F) is_better (
        map (evaluate_symbol c (codes "futures")) futures
        ++ map (evaluate_symbol c (codes "spot")) spot)

    unfoldable pub evaluate_all_by_tf :
        ReadinessConfig → List (ReportRow F) → List (ReportRow F) → List (SymbolReadiness F)
    evaluate_all_by_tf c futures spot = s.sort (SymbolReadiness F) is_better (
        map (evaluate_by_tf c (codes "futures")) futures
        ++ map (evaluate_by_tf c (codes "spot")) spot)
