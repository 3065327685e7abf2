-- ===== src/Execution/AutoLive/Fees.antt =====
-- include/execution/execution_engine.hpp: the step of handle_entry that asks whether the first target
-- pays for the costs. `custom` is the ratio that is configured for the timeframe, or 0.
use tv_webhook_trader.Shared.{◌≡◌, Bool, true, false, not, ◌&&◌, ◌||◌, if◌then◌else◌, Text, arith}
use tv_webhook_trader.Shared.Double.{Double, nought}
use tv_webhook_trader.Webhook.Signal.{WebhookSignal, has_tp1}
use tv_webhook_trader.Risk.FeeAnalyzer.{FeeAnalyzer, TpCheck, is_tp_profitable}
use tv_webhook_trader.Execution.AutoLive.{AutoLive, is_eligible, force_shadow}

module _ {F : Type 0} where
  unfoldable pub is_live_trade : Text → WebhookSignal F → AutoLive F → Bool
  is_live_trade tf sig e =
      not e.shadow_mode && not (e.auto_live_active && not (is_eligible tf sig e))

  -- The two ways in which the engine asks for a real order agree.
  is_live_trade-force_shadow :
      (tf : Text) (sig : WebhookSignal F) (e : AutoLive F)
      → is_live_trade tf sig e ≡ not (force_shadow tf sig e)
  unfolding is_live_trade force_shadow
  is_live_trade-force_shadow tf sig e = ground arith

module _ {F : Type 0} ⦃d : Double F⦄ where
  abbrev pub target_check : FeeAnalyzer F → F → WebhookSignal F → TpCheck F
  target_check a custom sig = is_tp_profitable a sig.symbol sig.price sig.tp1 custom

  unfoldable pub passes_fees : FeeAnalyzer F → Text → F → WebhookSignal F → AutoLive F → Bool
  passes_fees a tf custom sig e =
      if is_live_trade tf sig e && (not (has_tp1 sig) || d.le sig.tp1 nought)
      then false
      else if has_tp1 sig && d.lt nought sig.price
      then (if (target_check a custom sig).profitable then true else e.shadow_mode)
      else true

  -- An entry with a price above zero that passes this step and is not forced to be a paper one has a
  -- first target above zero, whose distance in percent is at least the configured multiple of the
  -- round-trip cost: the one of the timeframe, or else the one of the analyzer.
  pub passes_fees-target_check :
      (a : FeeAnalyzer F) (tf : Text) (custom : F) (sig : WebhookSignal F) (e : AutoLive F)
      → passes_fees a tf custom sig e ≡ true
      → force_shadow tf sig e ≡ false
      → d.lt nought sig.price ≡ true
      → let check = target_check a custom sig in
        (has_tp1 sig ≡ true)
        × (d.le sig.tp1 nought ≡ false)
        × (d.le check.min_ratio check.ratio ≡ true)
        × (check.min_ratio ≡ (if d.lt nought custom then custom else a.min_tp_ratio))
  unfolding passes_fees is_tp_profitable force_shadow
  passes_fees-target_check a tf custom sig e pass real price =
      ground (arith, is_live_trade-force_shadow tf sig e)
