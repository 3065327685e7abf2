-- ===== src/Execution/Readiness/Trust.antt =====
-- The confidence entries as each of the engine's steps leaves them.
use tv_webhook_trader.Shared.{
  ◌≡◌, refl, ◌⊎◌, inl, inr, Bool, true, false, ◌||◌, List, [], ◌∷◌, Text, is_empty, text_eq, lookup,
  insert, All, All-imp, All-map, ℤ, pos, ◌+ℤ◌, ◌-ℤ◌, ltb_ℤ, leb_ℤ, arith, codes, +ℤ_parts, -ℤ_parts,
  Bool-cases,
}
use tv_webhook_trader.Shared.Double.{Double}
use tv_webhook_trader.Execution.Shadow.Report.{ReportRow}
use tv_webhook_trader.Execution.Readiness.{
  SymbolReadiness, ConfidenceEntry, Confidences, ReadinessConfig, is_live_level, min_ℤ,
  evaluate_symbol,
}
use tv_webhook_trader.Execution.Readiness.Confidence.{
  Round, Refreshed, fresh_entry, entry_at, confidence_to_boost, rolling_entry, build_rolling,
  should_demote, settled, passed, verdict, not_demoted, failed, demoted_entry, judge, judge_all,
  save_confidence, raise, context_key, enrich_row, process_report,
}

raised-bounds :
    (n m : ℤ)
    → leb_ℤ (pos 0) n ≡ true
    → leb_ℤ (pos 0) m ≡ true
    → (leb_ℤ (pos 0) (min_ℤ (n +ℤ pos 1) m) ≡ true) × (leb_ℤ (min_ℤ (n +ℤ pos 1) m) m ≡ true)
unfolding ltb_ℤ leb_ℤ
raised-bounds n m h k = ground (arith, +ℤ_parts n (pos 1))

lowered-bounds :
    (n m : ℤ)
    → ltb_ℤ (pos 0) n ≡ true
    → leb_ℤ n m ≡ true
    → (leb_ℤ (pos 0) (n -ℤ pos 1) ≡ true) × (leb_ℤ (n -ℤ pos 1) m ≡ true)
unfolding ltb_ℤ leb_ℤ
lowered-bounds n m h k = ground (arith, -ℤ_parts n (pos 1))

module _ {F : Type 0} ⦃d : Double F⦄ (c : ReadinessConfig) where
  -- The confidence is the field consecutive_passes, within the bounds, and the boost is the one of the
  -- confidence; an entry not judged yet has no confidence and the boost 1.
  pub record IsTrusted (ce : ConfidenceEntry F) : Type 0 where
    pub agrees : ce.confidence ≡ ce.consecutive_passes
    pub at_least : leb_ℤ (pos 0) ce.consecutive_passes ≡ true
    pub at_most : leb_ℤ ce.consecutive_passes c.max_confidence ≡ true
    pub boosted :
        (ce.size_boost ≡ confidence_to_boost ce.confidence)
        ⊎ ((ce.confidence ≡ pos 0) × (ce.size_boost ≡ d.decimal 1 0))

  abbrev pub AllTrusted : Confidences F → Type 0
  AllTrusted conf = All (λ kv. IsTrusted kv.1) conf

  insert-AllTrusted :
      (k : Text) (ce : ConfidenceEntry F) (conf : Confidences F)
      → IsTrusted ce
      → AllTrusted conf
      → AllTrusted (insert k ce conf)
  unfolding insert
  insert-AllTrusted k ce [] v h = (v, tt)
  insert-AllTrusted k ce ((j, old) ∷ conf) v h = elim (Bool-cases (text_eq j k)) [
    | inl e ↦ rw e (v, h.1)
    | inr e ↦ rw e (h.0, insert-AllTrusted k ce conf v h.1)
  ]

  module _ (nonneg : leb_ℤ (pos 0) c.max_confidence ≡ true) where
    fresh-IsTrusted : IsTrusted fresh_entry
    unfolding leb_ℤ
    fresh-IsTrusted = record {
      agrees = refl;
      at_least = refl;
      at_most = nonneg;
      boosted = inr (refl, refl);
    }

    pub entry_at-IsTrusted :
        (k : Text) (conf : Confidences F) → AllTrusted conf → IsTrusted (entry_at k conf)
    unfolding lookup
    entry_at-IsTrusted k [] h = fresh-IsTrusted
    entry_at-IsTrusted k ((j, ce) ∷ conf) h = elim (Bool-cases (text_eq j k)) [
      | inl e ↦ rw e h.0
      | inr e ↦ rw e (entry_at-IsTrusted k conf h.1)
    ]

    pub build_rolling-AllTrusted :
        (rows : List (ReportRow F)) (conf : Confidences F)
        → AllTrusted conf
        → AllTrusted (build_rolling rows conf)
    unfolding build_rolling rolling_entry
    build_rolling-AllTrusted [] conf h = h
    build_rolling-AllTrusted (row ∷ rows) conf h = elim (Bool-cases (is_empty row.symbol)) [
      | inl e ↦ rw e (build_rolling-AllTrusted rows conf h)
      | inr e ↦
          let v = entry_at-IsTrusted row.symbol conf h in
          rw e (
            build_rolling-AllTrusted rows _ (
              insert-AllTrusted row.symbol _ conf
                (record {
                  agrees = v.agrees;
                  at_least = v.at_least;
                  at_most = v.at_most;
                  boosted = v.boosted;
                })
                h))
    ]

    settled-IsTrusted :
        (ce : ConfidenceEntry F)
        → leb_ℤ (pos 0) ce.consecutive_passes ≡ true
        → leb_ℤ ce.consecutive_passes c.max_confidence ≡ true
        → IsTrusted (settled ce)
    settled-IsTrusted ce low high = record {
      agrees = refl;
      at_least = low;
      at_most = high;
      boosted = inl refl;
    }

    passed-IsTrusted : (ce : ConfidenceEntry F) → IsTrusted ce → IsTrusted (settled (passed c ce))
    passed-IsTrusted ce v =
        let h = raised-bounds ce.consecutive_passes c.max_confidence v.at_least nonneg in
        settled-IsTrusted (passed c ce) h.0 h.1

    failed-IsTrusted : (ce : ConfidenceEntry F) → IsTrusted ce → IsTrusted (settled (failed ce))
    failed-IsTrusted ce v = elim (Bool-cases (ltb_ℤ (pos 0) ce.consecutive_passes)) [
      | inl e ↦
          let h = lowered-bounds ce.consecutive_passes c.max_confidence e v.at_most in
          rw e (
            settled-IsTrusted (record ce { consecutive_passes = ce.consecutive_passes -ℤ pos 1 })
              h.0 h.1)
      | inr e ↦ rw e (settled-IsTrusted ce v.at_least v.at_most)
    ]

    verdict-IsTrusted :
        (live : Bool) (ce : ConfidenceEntry F)
        → IsTrusted ce
        → IsTrusted (settled (verdict c live ce))
    unfolding leb_ℤ
    verdict-IsTrusted true ce v = elim (Bool-cases (should_demote ce)) [
      | inl e ↦ rw e (settled-IsTrusted (demoted_entry ce) refl nonneg)
      | inr e ↦ rw e (passed-IsTrusted ce v)
    ]
    verdict-IsTrusted false ce v = failed-IsTrusted ce v

    not_demoted-IsTrusted : (ce : ConfidenceEntry F) → IsTrusted ce → IsTrusted (not_demoted ce)
    not_demoted-IsTrusted ce v = record {
      agrees = v.agrees;
      at_least = v.at_least;
      at_most = v.at_most;
      boosted = v.boosted;
    }

    pub judge_all-AllTrusted :
        (rs : List (SymbolReadiness F)) (round : Round F)
        → AllTrusted round.confidences
        → AllTrusted (judge_all c rs round).confidences
    unfolding judge judge_all
    judge_all-AllTrusted [] round h = h
    judge_all-AllTrusted (r ∷ rs) round h =
        let ce = entry_at r.symbol round.confidences in
        judge_all-AllTrusted rs (judge c r round) (
          insert-AllTrusted r.symbol _ round.confidences
            (verdict-IsTrusted (is_live_level r.level) (not_demoted ce)
              (not_demoted-IsTrusted ce (entry_at-IsTrusted r.symbol round.confidences h)))
            h)

    raise-AllTrusted :
        (k : Text) (conf : Confidences F) → AllTrusted conf → AllTrusted (raise c k conf)
    unfolding raise
    raise-AllTrusted k conf h =
        insert-AllTrusted k _ conf
          (passed-IsTrusted (entry_at k conf) (entry_at-IsTrusted k conf h)) h

    pub process_report-AllTrusted :
        (market : Text) (rows : List (ReportRow F)) (x : Refreshed F)
        → AllTrusted x.engine.confidences
        → AllTrusted (process_report c market rows x).engine.confidences
    unfolding process_report
    process_report-AllTrusted market [] x h = h
    process_report-AllTrusted market (row ∷ rows) x h =
        let long = context_key row (codes "long") in
        let conf = x.engine.confidences in
        let raised =
          raise-AllTrusted (context_key row (codes "short")) (raise c long conf)
            (raise-AllTrusted long conf h) in
        process_report-AllTrusted market rows (enrich_row c market row x)
          (elim (Bool-cases (is_empty row.symbol || is_empty row.timeframe)) [
            | inl e ↦ rw e h
            | inr e ↦ elim (Bool-cases (is_live_level (evaluate_symbol c market row).level)) [
              | inl live ↦ rw (e, live) raised
              | inr dead ↦ rw (e, dead) h
            ]
          ])

    pub save_confidence-AllTrusted :
        (conf : Confidences F) → AllTrusted conf → AllTrusted (save_confidence conf)
    unfolding save_confidence
    save_confidence-AllTrusted conf h =
        All-map _ _ conf (All-imp _ _ conf (λ kv v. not_demoted-IsTrusted kv.1 v) h)
