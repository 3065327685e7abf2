-- ===== src/Execution/AutoLive.antt =====
-- include/execution/execution_engine.hpp: how ExecutionEngine goes live by itself and back, in
-- periodic_tasks, and how handle_entry decides between a real order and a paper one. The trackers
-- are read as they are at the time. The leverage that is set at the exchange and the log lines are left
-- out; no report throws, so the handlers around them are never entered.
use tv_webhook_trader.Shared.{
  Bool, true, false, not, ◌&&◌, ◌||◌, if◌then◌else◌, List, [], ◌∷◌, ◌++◌, Text, codes, text_eq,
  is_empty, contains,
}
use tv_webhook_trader.Shared.Double.{Double}
use tv_webhook_trader.Shared.Sorter.{Sorter}
use tv_webhook_trader.Webhook.Signal.{WebhookSignal}
use tv_webhook_trader.Risk.Scorer.{compute_context_key}
use tv_webhook_trader.Risk.Portfolio.{PortfolioRisk, set_shadow_mode}
use tv_webhook_trader.Execution.Shadow.{ShadowTracker}
use tv_webhook_trader.Execution.Shadow.Report.{ReportRow, get_symbol_report, get_symbol_tf_report}
use tv_webhook_trader.Execution.SpotShadow.{SpotShadowTracker}
use tv_webhook_trader.Execution.SpotShadow.Report as SpotReport
use tv_webhook_trader.Execution.Readiness.{ReadinessConfig, ReadinessEngine, PipelineStatus}
use tv_webhook_trader.Execution.Readiness.Confidence.{
  Refreshed, refresh_eligible, enrich_eligible_with_context,
}
pub mod Modes
pub mod Orders
pub mod Fees

-- The members of the engine that this part works on.
pub record AutoLive (F : Type 0) : Type 0 where
  pub auto_live : Bool
  pub shadow_mode : Bool
  pub auto_live_active : Bool
  pub eligible_keys : List Text
  pub port_risk : PortfolioRisk F
  pub readiness : ReadinessEngine F

-- Both trackers as a check finds them.
pub record Trackers (F : Type 0) : Type 0 where
  pub futures : ShadowTracker F
  pub spot : SpotShadowTracker F

module _ {F : Type 0} where
  unfoldable pub activate : Bool → AutoLive F → AutoLive F
  activate can_go_live e =
      if can_go_live && e.shadow_mode && not e.auto_live_active
      then record e {
        auto_live_active = true;
        shadow_mode = false;
        port_risk = set_shadow_mode false e.port_risk;
      }
      else e

  unfoldable pub deactivate : Bool → AutoLive F → AutoLive F
  deactivate can_go_live e =
      if e.auto_live_active && not can_go_live
      then record e {
        auto_live_active = false;
        shadow_mode = true;
        port_risk = set_shadow_mode true e.port_risk;
      }
      else e

  abbrev pub entry_key : Text → WebhookSignal F → Text
  entry_key tf sig =
      compute_context_key sig.symbol tf
        (if text_eq sig.action (codes "buy") then codes "long" else codes "short")

  unfoldable pub is_eligible : Text → WebhookSignal F → AutoLive F → Bool
  is_eligible tf sig e =
      if e.auto_live_active
      then contains e.eligible_keys (entry_key tf sig) || contains e.eligible_keys sig.symbol
      else false

  -- An entry that comes to nothing but a paper position.
  unfoldable pub force_shadow : Text → WebhookSignal F → AutoLive F → Bool
  force_shadow tf sig e =
      if e.shadow_mode then true else e.auto_live_active && not (is_eligible tf sig e)

module _ {F : Type 0} ⦃d : Double F⦄ (c : ReadinessConfig) ⦃s : Sorter⦄ where
  abbrev pub refreshed : Trackers F → ReadinessEngine F → Refreshed F
  refreshed t e =
      refresh_eligible c (get_symbol_report t.futures) (SpotReport.get_symbol_report t.spot) e

  abbrev pub enriched : Trackers F → ReadinessEngine F → Refreshed F
  enriched t e =
      enrich_eligible_with_context c (get_symbol_tf_report t.futures)
        (SpotReport.get_symbol_tf_report t.spot) (refreshed t e)

  -- The check of periodic_tasks.
  unfoldable pub check_auto_live : Trackers F → AutoLive F → AutoLive F
  check_auto_live t e =
      let can_go_live = (refreshed t e.readiness).status.can_go_live in
      let x = enriched t e.readiness in
      if e.auto_live
      then deactivate can_go_live (
          activate can_go_live (record e { eligible_keys = x.eligible_keys; readiness = x.engine }))
      else e
