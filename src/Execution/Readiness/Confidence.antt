-- ===== src/Execution/Readiness/Confidence.antt =====
-- include/execution/live_readiness.hpp: the confidence in each symbol, and the set of those that may
-- trade live. A `refresh` holds m_conf_mtx while it changes the entries.
use tv_webhook_trader.Shared.{
  Bool, true, false, not, ◌&&◌, ◌||◌, if◌then◌else◌, List, [], ◌∷◌, ◌++◌, Option, none, some, Text,
  codes, is_empty, map, select, lookup, insert, get_or, contains, put, ℤ, pos, ◌+ℤ◌, ◌-ℤ◌, ltb_ℤ,
  leb_ℤ,
}
use tv_webhook_trader.Shared.Double.{Double, nought}
use tv_webhook_trader.Shared.Sorter.{Sorter}
use tv_webhook_trader.Execution.Shadow.Report.{ReportRow}
use tv_webhook_trader.Execution.Readiness.{
  SymbolReadiness, ConfidenceEntry, Confidences, PipelineStatus, ReadinessConfig, ReadinessEngine,
  is_live_level, min_ℤ, get_pipeline_status, evaluate_symbol, evaluate_all,
}

-- The local variables of a refresh.
pub record Round (F : Type 0) : Type 0 where
  pub confidences : Confidences F
  pub eligible_keys : List Text
  pub seen : List Text

-- What the caller of a refresh gets, with the engine after it.
pub record Refreshed (F : Type 0) : Type 0 where
  pub status : PipelineStatus
  pub eligible_keys : List Text
  pub engine : ReadinessEngine F

module _ {F : Type 0} ⦃d : Double F⦄ where
  abbrev pub fresh_entry : ConfidenceEntry F
  fresh_entry = record {
    consecutive_passes = pos 0;
    confidence = pos 0;
    size_boost = d.decimal 1 0;
    rolling_pnl = nought;
    rolling_wr = nought;
    rolling_count = pos 0;
    demoted = false;
  }

  abbrev pub entry_at : Text → Confidences F → ConfidenceEntry F
  entry_at key conf = get_or fresh_entry (lookup key conf)

  abbrev pub get_confidence : Text → ReadinessEngine F → ConfidenceEntry F
  get_confidence key e = entry_at key e.confidences

  unfoldable pub confidence_to_boost : ℤ → F
  confidence_to_boost conf =
      if leb_ℤ conf (pos 0)
      then d.decimal 9 1
      else if leb_ℤ conf (pos 1) && leb_ℤ (pos 1) conf
      then d.decimal 1 0
      else if leb_ℤ conf (pos 2) && leb_ℤ (pos 2) conf
      then d.decimal 105 2
      else if leb_ℤ conf (pos 4)
      then d.decimal 11 1
      else d.decimal 115 2

  -- The figures of the last trades, or those of all trades where a report has no others.
  unfoldable pub rolling_entry : ReportRow F → ConfidenceEntry F → ConfidenceEntry F
  rolling_entry row ce =
      let count = min_ℤ (get_or row.total row.recent_trades) (pos 20) in
      let won = min_ℤ (get_or row.wins row.recent_wins) count in
      record ce {
        rolling_count = count;
        rolling_pnl = get_or row.total_pnl row.recent_pnl;
        rolling_wr = if ltb_ℤ (pos 0) count then d.div (d.of_int won) (d.of_int count) else nought;
      }

  unfoldable pub build_rolling : List (ReportRow F) → Confidences F → Confidences F
  build_rolling [] conf = conf
  build_rolling (row ∷ rows) conf = build_rolling rows (
      if is_empty row.symbol
      then conf
      else insert row.symbol (rolling_entry row (entry_at row.symbol conf)) conf)

  unfoldable pub should_demote : ConfidenceEntry F → Bool
  should_demote ce =
      leb_ℤ (pos 20) ce.rolling_count
      && (d.lt ce.rolling_pnl nought || d.lt ce.rolling_wr (d.decimal 40 2))

  -- The last two assignments of the loop.
  abbrev pub settled : ConfidenceEntry F → ConfidenceEntry F
  settled ce = record ce {
    confidence = ce.consecutive_passes;
    size_boost = confidence_to_boost ce.consecutive_passes;
  }

  abbrev pub passed : ReadinessConfig → ConfidenceEntry F → ConfidenceEntry F
  passed c ce = record ce {
    consecutive_passes = min_ℤ (ce.consecutive_passes +ℤ pos 1) c.max_confidence;
  }

  abbrev pub failed : ConfidenceEntry F → ConfidenceEntry F
  failed ce =
      if ltb_ℤ (pos 0) ce.consecutive_passes
      then record ce { consecutive_passes = ce.consecutive_passes -ℤ pos 1 }
      else ce

  abbrev pub demoted_entry : ConfidenceEntry F → ConfidenceEntry F
  demoted_entry ce = record ce {
    consecutive_passes = pos 0;
    confidence = pos 0;
    size_boost = confidence_to_boost (pos 0);
    demoted = true;
  }

  -- A symbol of a live level whose rolling figures are poor is demoted.
  abbrev pub verdict : ReadinessConfig → Bool → ConfidenceEntry F → ConfidenceEntry F
  verdict c live ce =
      if live then (if should_demote ce then demoted_entry ce else passed c ce) else failed ce

  abbrev pub not_demoted : ConfidenceEntry F → ConfidenceEntry F
  not_demoted ce = record ce { demoted = false }

  unfoldable pub judge : ReadinessConfig → SymbolReadiness F → Round F → Round F
  judge c r round =
      let ce = not_demoted (entry_at r.symbol round.confidences) in
      let live = is_live_level r.level in
      record {
        confidences = insert r.symbol (settled (verdict c live ce)) round.confidences;
        eligible_keys =
            if live && not (should_demote ce)
            then put r.symbol round.eligible_keys
            else round.eligible_keys;
        seen = put r.symbol round.seen;
      }

  unfoldable pub judge_all : ReadinessConfig → List (SymbolReadiness F) → Round F → Round F
  judge_all c [] round = round
  judge_all c (r ∷ rs) round = judge_all c rs (judge c r round)

  -- The entries that stay: those not seen, and of the seen the eligible ones and those with confidence.
  unfoldable pub is_kept : Round F → Text × ConfidenceEntry F → Bool
  is_kept round kv =
      let none_left = leb_ℤ kv.1.confidence (pos 0) && leb_ℤ (pos 0) kv.1.confidence in
      not (none_left && contains round.seen kv.0 && not (contains round.eligible_keys kv.0))

  -- `demoted` is not written.
  unfoldable pub save_confidence : Confidences F → Confidences F
  save_confidence conf = map (λ kv. (kv.0, not_demoted kv.1)) conf

  unfoldable pub load_confidence : Option (Confidences F) → ReadinessEngine F
  load_confidence none = record { confidences = []; file = none }
  load_confidence (some entries) = record { confidences = entries; file = some entries }

  unfoldable pub raise : ReadinessConfig → Text → Confidences F → Confidences F
  raise c key conf = insert key (settled (passed c (entry_at key conf))) conf

  abbrev pub context_key : ReportRow F → Text → Text
  context_key row direction = row.symbol ++ b':' ∷ (row.timeframe ++ b':' ∷ direction)

  abbrev pub enrich_row : ReadinessConfig → Text → ReportRow F → Refreshed F → Refreshed F
  enrich_row c market row x =
      let long = context_key row (codes "long") in
      let short = context_key row (codes "short") in
      let engine = x.engine in
      if is_empty row.symbol || is_empty row.timeframe
      then x
      else if is_live_level (evaluate_symbol c market row).level
      then record x {
        eligible_keys = put short (put long x.eligible_keys);
        engine = record engine { confidences = raise c short (raise c long engine.confidences) };
      }
      else x

  unfoldable pub process_report :
      ReadinessConfig → Text → List (ReportRow F) → Refreshed F → Refreshed F
  process_report c market [] x = x
  process_report c market (row ∷ rows) x = process_report c market rows (enrich_row c market row x)

  unfoldable pub enrich_eligible_with_context :
      ReadinessConfig → List (ReportRow F) → List (ReportRow F) → Refreshed F → Refreshed F
  enrich_eligible_with_context c futures_tf spot_tf x =
      process_report c (codes "spot") spot_tf (process_report c (codes "futures") futures_tf x)

  module _ ⦃s : Sorter⦄ where
    -- The round that a refresh makes of the two reports.
    abbrev pub round_of :
        ReadinessConfig → List (ReportRow F) → List (ReportRow F) → Confidences F → Round F
    round_of c futures spot conf = judge_all c (evaluate_all c futures spot) (record {
      confidences = build_rolling spot (build_rolling futures conf);
      eligible_keys = [];
      seen = [];
    })

    unfoldable pub refresh_eligible :
        ReadinessConfig → List (ReportRow F) → List (ReportRow F) → ReadinessEngine F → Refreshed F
    refresh_eligible c futures spot e =
        let round = round_of c futures spot e.confidences in
        let conf = select (is_kept round) round.confidences in
        record {
          status = get_pipeline_status c (evaluate_all c futures spot);
          eligible_keys = round.eligible_keys;
          engine = record { confidences = conf; file = some (save_confidence conf) };
        }
