-- ===== src/Execution/AutoLive/Orders.antt =====
-- What stands behind an entry that is not forced to be a paper one.
use tv_webhook_trader.Shared.{
  ◌≡◌, ◌⊎◌, inl, inr, true, false, List, [], ◌∷◌, ◌++◌, Text, codes, text_eq_iff, contains, put,
  contains-put, Any, Any-front, Any-back, Any-imp, arith, subst,
}
use tv_webhook_trader.Shared.Double.{Double}
use tv_webhook_trader.Shared.Sorter.{Sorter, IsSorter}
use tv_webhook_trader.Webhook.Signal.{WebhookSignal}
use tv_webhook_trader.Execution.Shadow.Report.{ReportRow, get_symbol_report, get_symbol_tf_report}
use tv_webhook_trader.Execution.SpotShadow.Report as SpotReport
use tv_webhook_trader.Execution.Readiness.{ReadinessConfig}
use tv_webhook_trader.Execution.Readiness.Levels.{earns_live, is_live_level-level_of}
use tv_webhook_trader.Execution.Readiness.Confidence.{
  Refreshed, context_key, enrich_row, process_report, enrich_eligible_with_context,
}
use tv_webhook_trader.Execution.Readiness.Gate.{IsEarner, refresh_eligible-earns_live}
use tv_webhook_trader.Execution.AutoLive.{
  AutoLive, Trackers, is_eligible, force_shadow, entry_key, refreshed, enriched, check_auto_live,
}
use tv_webhook_trader.Execution.AutoLive.Modes.{IsConsistent, check_auto_live-IsSwitched}

module _ {F : Type 0} where
  force_shadow-parts :
      (tf : Text) (sig : WebhookSignal F) (e : AutoLive F)
      → IsConsistent e
      → force_shadow tf sig e ≡ false
      → (e.shadow_mode ≡ false)
        × ((contains e.eligible_keys (entry_key tf sig) ≡ true)
            ⊎ (contains e.eligible_keys sig.symbol ≡ true))
  unfolding force_shadow is_eligible
  force_shadow-parts tf sig e v real = ground arith

module _ {F : Type 0} ⦃d : Double F⦄ (c : ReadinessConfig) where
  -- A row of that name that earns a live level. A row by timeframe has two names, one for each direction.
  abbrev pub IsBacker : Text → ReportRow F → Type 0
  IsBacker key row =
      ((row.symbol ≡ key)
        ⊎ ((context_key row (codes "long") ≡ key) ⊎ (context_key row (codes "short") ≡ key)))
      × (earns_live c row.grade row.total row.total_pnl ≡ true)

  enrich_row-eligible :
      (market : Text) (row : ReportRow F) (x : Refreshed F) (key : Text)
      → contains (enrich_row c market row x).eligible_keys key ≡ true
      → IsBacker key row ⊎ (contains x.eligible_keys key ≡ true)
  enrich_row-eligible market row x key h =
      let long = context_key row (codes "long") in
      let short = context_key row (codes "short") in
      ground (
        arith,
        is_live_level-level_of c row.grade row.total row.total_pnl,
        contains-put short key (put long x.eligible_keys),
        contains-put long key x.eligible_keys,
        text_eq_iff long key,
        text_eq_iff short key,
      )

  process_report-eligible :
      (market : Text) (rows : List (ReportRow F)) (x : Refreshed F) (key : Text)
      → contains (process_report c market rows x).eligible_keys key ≡ true
      → Any (IsBacker key) rows ⊎ (contains x.eligible_keys key ≡ true)
  unfolding process_report
  process_report-eligible market [] x key h = inr h
  process_report-eligible market (row ∷ rows) x key h =
      elim (process_report-eligible market rows (enrich_row c market row x) key h) [
        | inl later ↦ inl (inr later)
        | inr before ↦ elim (enrich_row-eligible market row x key before) [
          | inl now ↦ inl (inl now)
          | inr old ↦ inr old
        ]
      ]

  module _ ⦃s : Sorter⦄ where
    -- The four reports of a check.
    abbrev pub all_reports : Trackers F → List (ReportRow F)
    all_reports t =
        (get_symbol_report t.futures ++ SpotReport.get_symbol_report t.spot)
        ++ (get_symbol_tf_report t.futures ++ SpotReport.get_symbol_tf_report t.spot)

    earner-IsBacker :
        (t : Trackers F) (key : Text)
        → Any (IsEarner c key) (get_symbol_report t.futures)
          ⊎ Any (IsEarner c key) (SpotReport.get_symbol_report t.spot)
        → Any (IsBacker key) (get_symbol_report t.futures ++ SpotReport.get_symbol_report t.spot)
    earner-IsBacker t key (inl one) =
        Any-front (IsBacker key) (get_symbol_report t.futures) (SpotReport.get_symbol_report t.spot)
          (Any-imp _ _ (get_symbol_report t.futures) (λ r e. (inl e.0, e.1)) one)
    earner-IsBacker t key (inr one) =
        Any-back (IsBacker key) (get_symbol_report t.futures) (SpotReport.get_symbol_report t.spot)
          (Any-imp _ _ (SpotReport.get_symbol_report t.spot) (λ r e. (inl e.0, e.1)) one)

    enriched-eligible :
        (t : Trackers F) (e : AutoLive F) (key : Text)
        → IsSorter s
        → contains (enriched c t e.readiness).eligible_keys key ≡ true
        → Any (IsBacker key) (all_reports t)
    unfolding enrich_eligible_with_context
    enriched-eligible t e key h k =
        let x = refreshed c t e.readiness in
        let futures_tf = get_symbol_tf_report t.futures in
        let spot_tf = SpotReport.get_symbol_tf_report t.spot in
        let reports = get_symbol_report t.futures ++ SpotReport.get_symbol_report t.spot in
        let tf_reports = futures_tf ++ spot_tf in
        elim (process_report-eligible (codes "spot") spot_tf
          (process_report c (codes "futures") futures_tf x) key k) [
            | inl late ↦
                Any-back (IsBacker key) reports tf_reports
                  (Any-back (IsBacker key) futures_tf spot_tf late)
            | inr before ↦
                elim (process_report-eligible (codes "futures") futures_tf x key before) [
                  | inl early ↦
                      Any-back (IsBacker key) reports tf_reports
                        (Any-front (IsBacker key) futures_tf spot_tf early)
                  | inr old ↦ Any-front (IsBacker key) reports tf_reports (
                      earner-IsBacker t key (
                        refresh_eligible-earns_live c (get_symbol_report t.futures)
                          (SpotReport.get_symbol_report t.spot) e.readiness key h old))
                ]
          ]

    -- If a check in a consistent state is followed by an entry that is not forced to be a paper one, then
    -- the check found enough symbols at READY and PROVEN to go live, and one of its four reports has a row
    -- that earns it, under the symbol of the entry or under its symbol, timeframe and direction.
    pub force_shadow-check_auto_live :
        (t : Trackers F) (e : AutoLive F) (tf : Text) (sig : WebhookSignal F)
        → IsSorter s
        → IsConsistent e
        → e.auto_live ≡ true
        → force_shadow tf sig (check_auto_live c t e) ≡ false
        → ((refreshed c t e.readiness).status.can_go_live ≡ true)
          × (Any (IsBacker (entry_key tf sig)) (all_reports t)
              ⊎ Any (IsBacker sig.symbol) (all_reports t))
    force_shadow-check_auto_live t e tf sig h v on real =
        let w = check_auto_live-IsSwitched c t e v on in
        let reals = force_shadow-parts tf sig (check_auto_live c t e) w.consistent real in
        let found = λ (key : Text) (k : contains (check_auto_live c t e).eligible_keys key ≡ true).
          enriched-eligible t e key h (subst (λ l. contains l key ≡ true) w.keys_kept k) in
        (
          ground (arith, w.mode, reals.0),
          elim reals.1 [
            | inl context ↦ inl (found (entry_key tf sig) context)
            | inr plain ↦ inr (found sig.symbol plain)
          ],
        )
