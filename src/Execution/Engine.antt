-- ===== src/Execution/Engine.antt =====
-- include/execution/execution_engine.hpp: the futures side of ExecutionEngine. A handler that holds the
-- lock of its symbol is one step; that the workers are kept apart by those locks is the subject of
-- Core/SymbolLocks. What a call takes from outside (clocks, the learner's answer, the exchange's answers)
-- is the record Moment. The limiters only delay a call; they and the state file are left out.
use tv_webhook_trader.Shared.{
  ℕ, ◌+◌, Bool, true, false, List, [], ◌∷◌, Option, none, some, Text, codes, text_eq, if◌then◌else◌,
  ℤ,
}
use tv_webhook_trader.Core.Alerts.{Alert}
use tv_webhook_trader.Core.Types.{OrderRequest, OrderResponse}
use tv_webhook_trader.Webhook.Signal.{WebhookSignal}
use tv_webhook_trader.Risk.Position.{Positions}
use tv_webhook_trader.Risk.Portfolio.{Now}
use tv_webhook_trader.Risk.Orders.{RiskManager}
use tv_webhook_trader.Risk.FeeAnalyzer.{FeeAnalyzer}
use tv_webhook_trader.Risk.PositionSizer.{PositionSizer}
use tv_webhook_trader.Risk.Scorer.{SymbolScorer}
use tv_webhook_trader.Execution.Trades.{Recorder, TradeRecord}
use tv_webhook_trader.Execution.AutoLive.{AutoLive, Trackers}
pub mod Gates
pub mod Entry
pub mod Closing
pub mod Spot
pub mod Manual
pub mod Refresh
pub mod Signals
pub mod Paths
pub mod Managers
pub mod Counting
pub mod Repeats
pub mod RealOrders
pub mod Single
pub mod Breakers
pub mod Taken
pub mod Accounts
pub mod Stops

pub record TfFilter (F : Type 0) : Type 0 where
  pub size_multiplier : F
  pub min_tier : Text
  pub min_tp_to_cost_ratio : F
  pub block_reverse : Bool

-- The settings that stay as they are, TradingConfig's and the parts' own.
pub record EngineConfig (F : Type 0) : Type 0 where
  pub default_leverage : ℤ
  pub backup_sl_pct : F
  pub allowed_symbols : List Text
  pub tf_filters : List (Text × TfFilter F)
  pub fee : FeeAnalyzer F
  pub sizer : PositionSizer F

-- include/risk/symbol_learner.hpp: what SymbolLearner::evaluate answers.
pub record LearnDecision (F : Type 0) : Type 0 where
  pub allowed : Bool
  pub signal_quality : F
  pub size_multiplier : F
  pub tp_pct : F
  pub sl_pct : F
  pub skip_reason : Text

-- `place_futures_order`, `close_partial` and `flash_close_position` are the exchange's answers, by the
-- number of the attempt.
pub record Moment (F : Type 0) : Type 0 where
  pub has_lock : Bool
  pub time : Text
  pub now_ns : ℕ
  pub now_ms : ℕ
  pub clock : Now
  pub learn : LearnDecision F
  pub place_futures_order : OrderRequest F → F → F → ℕ → OrderResponse F
  pub close_partial : Text → F → Text → ℕ → OrderResponse F
  pub flash_close_position : Text → Text → ℕ → Bool

-- The paper account of spot signals, kept apart from the futures.
pub record SpotAccount (F : Type 0) : Type 0 where
  pub balance : F
  pub peak_balance : F
  pub positions : Positions F
  pub trades : List (TradeRecord F)

pub record Engine (F : Type 0) : Type 0 where
  pub auto : AutoLive F
  pub trackers : Trackers F
  pub scorer : SymbolScorer F
  pub positions : Positions F
  pub recorder : Recorder F
  pub risk : RiskManager F
  pub alerts : List Alert
  pub recent_fingerprints : List (ℕ × ℕ)
  pub next_oid : ℕ
  pub orders_executed : ℕ
  pub orders_rejected : ℕ
  pub orders_skipped : ℕ
  pub risk_skips : ℕ
  pub spot_account : SpotAccount F

-- An order as it goes out: the request with its preset take-profit and stop-loss.
pub record Sent (F : Type 0) : Type 0 where
  pub request : OrderRequest F
  pub preset_tp : F
  pub preset_sl : F

abbrev pub entry_side : {F : Type 0} → WebhookSignal F → Text
entry_side sig = if text_eq sig.action (codes "buy") then codes "long" else codes "short"

module _ {F : Type 0} where
  abbrev pub count_skip : Engine F → Engine F
  count_skip e = record e { orders_skipped = e.orders_skipped + 1 }

  abbrev pub count_risk_skip : Engine F → Engine F
  count_risk_skip e = record e { risk_skips = e.risk_skips + 1 }

  abbrev pub count_rejected : Engine F → Engine F
  count_rejected e = record e { orders_rejected = e.orders_rejected + 1 }

  abbrev pub count_executed : Engine F → Engine F
  count_executed e = record e { orders_executed = e.orders_executed + 1 }
