-- ===== src/Execution/Engine/Gates.antt =====
-- include/execution/execution_engine.hpp: what handle_entry asks before the portfolio's risk check, and
-- the size that it comes to.
use tv_webhook_trader.Shared.{
  Bool, true, false, not, ◌&&◌, ◌||◌, if◌then◌else◌, List, [], ◌∷◌, Option, none, some, Text, codes,
  text_eq, is_empty, ltb, length, last_n, lookup, ℤ, pos, leb_ℤ, ltb_ℤ, get_or,
}
use tv_webhook_trader.Shared.Double.{Double, nought}
use tv_webhook_trader.Shared.Sorter.{Sorter}
use tv_webhook_trader.Webhook.Signal.{WebhookSignal, SignalType, has_sl}
use tv_webhook_trader.Risk.Position.{Positions}
use tv_webhook_trader.Risk.Score.{SymbolScore}
use tv_webhook_trader.Risk.Scorer.{
  SymbolScorer, get_context_score, get_best_score, get_tier, tier_or, if_enough,
  compute_context_key,
}
use tv_webhook_trader.Risk.PositionSizer.{SizeRequest, SizeResult, calc_size}
use tv_webhook_trader.Execution.Positions.{is_match, calc_used_margin}
use tv_webhook_trader.Execution.Shadow.Report.{get_symbol_report}
use tv_webhook_trader.Execution.Readiness.{ReadinessEngine, ConfidenceEntry}
use tv_webhook_trader.Execution.Readiness.Confidence.{get_confidence}
use tv_webhook_trader.Execution.GradeFilter.{passes_grade}
use tv_webhook_trader.Execution.AutoLive.Fees.{passes_fees}
use tv_webhook_trader.Execution.Engine.{Engine, EngineConfig, Moment, TfFilter, entry_side}

-- Why an entry is dropped: it is skipped, or counted as a risk skip, by the learner with an alert.
pub data Stop : Type 0 where
  skip : Stop
  risk_skip : Stop
  learner_skip : Stop

abbrev ranks : List (Text × ℤ)
ranks =
    (codes "S", pos 5)
    ∷ (codes "A", pos 4)
    ∷ (codes "B", pos 3)
    ∷ (codes "C", pos 2)
    ∷ (codes "D", pos 1)
    ∷ (codes "X", pos 0)
    ∷ []

-- An unknown tier counts as C.
unfoldable pub tier_meets_min : Text → Text → Bool
tier_meets_min tier min_tier =
    leb_ℤ (get_or (pos 2) (lookup min_tier ranks)) (get_or (pos 2) (lookup tier ranks))

unfoldable pub is_usdc : Text → Bool
is_usdc symbol = ltb 4 (length symbol) && text_eq (last_n 4 symbol) (codes "USDC")

abbrev pub opposite : Text → Text
opposite side = if text_eq side (codes "long") then codes "short" else codes "long"

abbrev is_re_entry : SignalType → Bool
is_re_entry SignalType.re_entry = true
is_re_entry _ = false

module _ {F : Type 0} where
  abbrev pub timeframe_of : WebhookSignal F → Text
  timeframe_of sig = if is_empty sig.timeframe then codes "unknown" else sig.timeframe

  unfoldable pub has_side : Text → Text → Positions F → Bool
  has_side symbol side [] = false
  has_side symbol side ((_, p) ∷ ps) = is_match symbol side p || has_side symbol side ps

  unfoldable pub entry_tier : WebhookSignal F → SymbolScorer F → Text
  entry_tier sig s =
      tier_or (get_tier sig.symbol s)
        (if_enough (get_context_score sig.symbol (timeframe_of sig) (entry_side sig) s))

  unfoldable pub passes_live_tier : WebhookSignal F → Engine F → Bool
  passes_live_tier sig e =
      e.auto.shadow_mode
      || tier_meets_min (entry_tier sig e.scorer) e.auto.port_risk.config.live_min_tier

  unfoldable pub passes_tf : Option (TfFilter F) → WebhookSignal F → Engine F → Bool
  passes_tf none sig e = true
  passes_tf (some f) sig e =
      if f.block_reverse && is_re_entry sig.sig_type
      then false
      else e.auto.shadow_mode || tier_meets_min (entry_tier sig e.scorer) f.min_tier

module _ {F : Type 0} ⦃d : Double F⦄ where
  abbrev pub custom_ratio : Option (TfFilter F) → F
  custom_ratio none = nought
  custom_ratio (some f) = f.min_tp_to_cost_ratio

  abbrev pub scaled_by : Option (TfFilter F) → F → F
  scaled_by none x = x
  scaled_by (some f) x = d.mul x f.size_multiplier

  abbrev pub sl_price_of : WebhookSignal F → F
  sl_price_of sig = if has_sl sig then sig.sl else nought

  -- The confidence of the entry's own context, or of its symbol where that one has none.
  unfoldable pub entry_confidence : WebhookSignal F → ReadinessEngine F → ConfidenceEntry F
  entry_confidence sig r =
      let key = compute_context_key sig.symbol (timeframe_of sig) (entry_side sig) in
      let context = get_confidence key r in
      if leb_ℤ context.confidence (pos 0) && leb_ℤ (pos 0) context.confidence
      then get_confidence sig.symbol r
      else context

  abbrev leverage_within : ℤ → Option (SymbolScore F) → ℤ
  leverage_within leverage none = leverage
  leverage_within leverage (some x) =
      if ltb_ℤ x.max_leverage leverage then x.max_leverage else leverage

  unfoldable pub size_request : EngineConfig F → WebhookSignal F → Engine F → SizeRequest F
  size_request c sig e =
      let peak = e.recorder.peak_balance in
      let balance = e.recorder.balance in
      let score = get_best_score sig.symbol (timeframe_of sig) (entry_side sig) e.scorer in
      record {
        balance = balance;
        price = sig.price;
        sl_price = sl_price_of sig;
        leverage = leverage_within c.default_leverage score;
        score = score;
        current_dd_pct =
            if d.lt nought peak
            then d.mul (d.div (d.sub peak balance) peak) (d.decimal 100 0)
            else nought;
        used_margin = calc_used_margin c.default_leverage e.positions;
        confidence_boost = (entry_confidence sig e.auto.readiness).size_boost;
      }

  unfoldable pub entry_size : EngineConfig F → WebhookSignal F → Engine F → SizeResult F
  entry_size c sig e = calc_size c.sizer (size_request c sig e)

  -- The size of the order: scaled for the timeframe and by the learner, and not below 5.5 USDT. Also the
  -- quantity and the amount.
  unfoldable pub final_size : EngineConfig F → Moment F → WebhookSignal F → Engine F → F × F
  final_size c m sig e =
      let sz = entry_size c sig e in
      let filter = lookup (timeframe_of sig) c.tf_filters in
      let by = m.learn.size_multiplier in
      let scale = λ (x : F).
        if d.lt (d.decimal 1 2) (d.abs (d.sub by (d.decimal 1 0)))
        then d.mul (scaled_by filter x) by
        else scaled_by filter x in
      let usdt = scale sz.usdt_amount in
      if d.lt nought sig.price && d.lt usdt (d.decimal 55 1)
      then (d.div (d.decimal 55 1) sig.price, d.decimal 55 1)
      else (scale sz.qty, usdt)

  module _ ⦃s : Sorter⦄ where
    unfoldable pub entry_gate : EngineConfig F → Moment F → WebhookSignal F → Engine F → Option Stop
    entry_gate c m sig e =
        let tf = timeframe_of sig in
        let filter = lookup tf c.tf_filters in
        let sz = entry_size c sig e in
        if not m.has_lock || is_usdc sig.symbol
        then some skip
        else if not (passes_live_tier sig e)
        then some risk_skip
        else if not (passes_grade sig.symbol (get_symbol_report e.trackers.futures))
        then some risk_skip
        else if not m.learn.allowed
        then some learner_skip
        else if not (passes_tf filter sig e)
        then some risk_skip
        else if not (passes_fees c.fee tf (custom_ratio filter) sig e.auto)
        then some risk_skip
        else if d.le sz.usdt_amount nought || d.le sz.qty nought
        then some risk_skip
        else if has_side sig.symbol (opposite (entry_side sig)) e.positions
        then some risk_skip
        else if has_side sig.symbol (entry_side sig) e.positions
        then some skip
        else none
