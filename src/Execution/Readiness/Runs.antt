-- ===== src/Execution/Readiness/Runs.antt =====
-- The engine over any sequence of refreshes, enrichments and restarts.
use tv_webhook_trader.Shared.{
  ◌≡◌, refl, sym, subst, ◌∙◌, ◌||◌, is_empty, Bool-cases, inl, inr, true, List, [], ◌∷◌, Option,
  none, some, Text, codes, select, All-select, pos, leb_ℤ,
}
use tv_webhook_trader.Shared.Double.{Double}
use tv_webhook_trader.Shared.Sorter.{Sorter}
use tv_webhook_trader.Execution.Shadow.Report.{ReportRow}
use tv_webhook_trader.Execution.Readiness.{
  Confidences, ReadinessConfig, ReadinessEngine, is_live_level, evaluate_symbol, evaluate_all,
  fresh_status,
}
use tv_webhook_trader.Execution.Readiness.Confidence.{
  Refreshed, get_confidence, enrich_row, build_rolling, is_kept, load_confidence, process_report,
  enrich_eligible_with_context, round_of, refresh_eligible,
}
use tv_webhook_trader.Execution.Readiness.Trust.{
  IsTrusted, entry_at-IsTrusted, AllTrusted, build_rolling-AllTrusted, judge_all-AllTrusted,
  process_report-AllTrusted, save_confidence-AllTrusted,
}

-- What changes the engine. A refresh takes the two reports by symbol, and then the reports by
-- timeframe enrich its keys; a restart makes a new engine from the file.
pub data ReadinessCall (F : Type 0) : Type 0 where
  refreshes : List (ReportRow F) → List (ReportRow F) → ReadinessCall F
  enriches : List (ReportRow F) → List (ReportRow F) → ReadinessCall F
  restarts : ReadinessCall F

module _ {F : Type 0} ⦃d : Double F⦄ (c : ReadinessConfig) ⦃s : Sorter⦄ where
  -- What the caller holds: the last keys and status, and the engine.
  unfoldable pub answer : ReadinessCall F → Refreshed F → Refreshed F
  answer (refreshes futures spot) x = refresh_eligible c futures spot x.engine
  answer (enriches futures spot) x = enrich_eligible_with_context c futures spot x
  answer restarts x = record x { engine = load_confidence x.engine.file }

  unfoldable pub answer_all : List (ReadinessCall F) → Refreshed F → Refreshed F
  answer_all [] x = x
  answer_all (r ∷ rs) x = answer_all rs (answer r x)

  abbrev pub new_engine : Refreshed F
  new_engine = record {
    status = fresh_status {F = F} c [];
    eligible_keys = [];
    engine = load_confidence none;
  }

  abbrev AllFiled : Option (Confidences F) → Type 0
  AllFiled none = Unit
  AllFiled (some conf) = AllTrusted c conf

  record HasTrust (e : ReadinessEngine F) : Type 0 where
    entries : AllTrusted c e.confidences
    filed : AllFiled e.file

  module _ (nonneg : leb_ℤ (pos 0) c.max_confidence ≡ true) where
    refresh_eligible-HasTrust :
        (futures spot : List (ReportRow F)) (e : ReadinessEngine F)
        → HasTrust e
        → HasTrust (refresh_eligible c futures spot e).engine
    unfolding refresh_eligible
    refresh_eligible-HasTrust futures spot e h =
        let round = round_of c futures spot e.confidences in
        let rolling =
          build_rolling-AllTrusted c nonneg spot (build_rolling futures e.confidences)
            (build_rolling-AllTrusted c nonneg futures e.confidences h.entries) in
        let judged =
          judge_all-AllTrusted c nonneg (evaluate_all c futures spot)
            (record {
              confidences = build_rolling spot (build_rolling futures e.confidences);
              eligible_keys = [];
              seen = [];
            })
            rolling in
        let kept = All-select _ (is_kept round) round.confidences judged in
        record {
          entries = kept;
          filed =
              save_confidence-AllTrusted c nonneg (select (is_kept round) round.confidences) kept;
        }

    load_confidence-HasTrust :
        (file : Option (Confidences F)) → AllFiled file → HasTrust (load_confidence file)
    unfolding load_confidence
    load_confidence-HasTrust none h = record { entries = tt; filed = tt }
    load_confidence-HasTrust (some conf) h = record { entries = h; filed = h }

    process_report-file :
        (market : Text) (rows : List (ReportRow F)) (x : Refreshed F)
        → (process_report c market rows x).engine.file ≡ x.engine.file
    unfolding process_report
    process_report-file market [] x = refl
    process_report-file market (row ∷ rows) x =
        process_report-file market rows (enrich_row c market row x)
        ∙ elim (Bool-cases (is_empty row.symbol || is_empty row.timeframe)) [
          | inl e ↦ rw e refl
          | inr e ↦ elim (Bool-cases (is_live_level (evaluate_symbol c market row).level)) [
            | inl live ↦ rw (e, live) refl
            | inr dead ↦ rw (e, dead) refl
          ]
        ]

    answer_all-HasTrust :
        (rs : List (ReadinessCall F)) (x : Refreshed F)
        → HasTrust x.engine
        → HasTrust (answer_all rs x).engine
    unfolding answer answer_all enrich_eligible_with_context
    answer_all-HasTrust [] x h = h
    answer_all-HasTrust (refreshes futures spot ∷ rs) x h =
        answer_all-HasTrust rs (answer (refreshes futures spot) x)
          (refresh_eligible-HasTrust futures spot x.engine h)
    answer_all-HasTrust (restarts ∷ rs) x h =
        answer_all-HasTrust rs (answer restarts x) (load_confidence-HasTrust x.engine.file h.filed)
    answer_all-HasTrust (enriches futures spot ∷ rs) x h =
        let half = process_report c (codes "futures") futures x in
        let same =
          process_report-file (codes "spot") spot half
          ∙ process_report-file (codes "futures") futures x in
        answer_all-HasTrust rs (answer (enriches futures spot) x) (record {
          entries =
              process_report-AllTrusted c nonneg (codes "spot") spot half
                (process_report-AllTrusted c nonneg (codes "futures") futures x h.entries);
          filed = subst AllFiled (sym same) h.filed;
        })

    -- If the highest confidence is not negative, then after any sequence of refreshes, enrichments and
    -- restarts of a new engine, what get_confidence says of any key is trusted: the confidence is the value
    -- of the entry's field consecutive_passes, it lies between nought and the highest, and the boost is that
    -- of the confidence, or 1 for a key with no confidence that was not judged yet.
    pub answer_all-IsTrusted :
        (rs : List (ReadinessCall F)) (key : Text)
        → IsTrusted c (get_confidence key (answer_all rs new_engine).engine)
    answer_all-IsTrusted rs key =
        let h = answer_all-HasTrust rs new_engine (load_confidence-HasTrust none tt) in
        entry_at-IsTrusted c nonneg key (answer_all rs new_engine).engine.confidences h.entries
