-- ===== src/Lib.antt =====
-- The verification library of tv-webhook-trader, a C++ program that takes trading signals from
-- TradingView by webhook, checks them against risk limits and trades them on Bitget and Upbit.
--
-- How the parts work together. The HTTP server hands each body to WebhookSignal::from_json
-- (include/webhook/signal_types.hpp) and puts a valid signal into an MPSCQueue
-- (include/core/spsc_queue.hpp), from which the worker threads of the execution engine take it.
-- A worker takes the lock of the symbol (SymbolLockManager in include/core/rate_limiter.hpp),
-- asks PortfolioRiskManager::check_entry (include/risk/portfolio_risk.hpp) and
-- RiskManager::validate (include/risk/risk_manager.hpp), with the size of PositionSizer
-- (include/risk/position_sizer.hpp), sends the order through a RateLimiter
-- (include/core/rate_limiter.hpp), and keeps the position in the map of PositionManager
-- (include/execution/position_manager.hpp). A close takes the position out and is booked by
-- TradeRecorder (include/execution/trade_recorder.hpp), which reports to the AlertManager
-- (include/core/alert_manager.hpp); the result goes back to the two risk managers.
--
-- Every signal also goes to ShadowTracker (include/execution/shadow_tracker.hpp) and
-- SpotShadowTracker (include/execution/spot_shadow_tracker.hpp), of which one follows it with a
-- paper position. Their report on the closed paper trades is what LiveReadinessEngine
-- (include/execution/live_readiness.hpp) reads: only a symbol whose paper trades earned it is in
-- the set of keys that may trade live. ExecutionEngine (include/execution/execution_engine.hpp)
-- asks it again and again, goes live when enough symbols are ready and back to paper trading when
-- they are not.
--
-- Which file models which part. The definitions have the names of the C++ functions.
--   Core/Types         include/core/types.hpp: the enumerations, Symbol and OrderRequest
--   Core/SignalQueue   include/core/spsc_queue.hpp: MPSCQueue
--   Core/RateLimiter   include/core/rate_limiter.hpp: RateLimiter
--   Core/SymbolLocks   include/core/rate_limiter.hpp: SymbolLockManager and SymbolLockGuard
--   Core/Alerts        include/core/alert_manager.hpp: AlertManager
--   Webhook/Signal     include/webhook/signal_types.hpp: WebhookSignal and its const methods
--   Webhook/Repair     the two repairs of from_json; Webhook/Parser: from_json, parse_sfx and
--                      parse_generic; Webhook/Classify, Webhook/Market and Webhook/Priority: the
--                      functions that parse_sfx calls, all of the same file
--   Risk/Orders        include/risk/risk_manager.hpp: RiskManager
--   Risk/Position      include/risk/portfolio_risk.hpp: ManagedPosition, and sums over a map of such
--   Risk/Portfolio     the same file: PortfolioRiskManager; its check_entry in Risk/Portfolio/Entry,
--                      its get_state in Risk/Portfolio/Summary
--   Risk/PositionSizer include/risk/position_sizer.hpp: PositionSizer
--   Risk/FeeAnalyzer   include/risk/fee_analyzer.hpp: FeeAnalyzer
--   Risk/Score, Risk/Scorer  include/risk/symbol_scorer.hpp: SymbolScore and SymbolScorer; what is
--                      recorded in Risk/Scorer/Recording, the scores in Risk/Scorer/Scoring
--   Execution/Trades   include/execution/trade_recorder.hpp: TradeRecorder
--   Execution/Positions  include/execution/position_manager.hpp: PositionManager; fetch_real_balance and
--                      the answers of the exchange in Execution/Positions/Exchange,
--                      sync_positions_with_exchange in Execution/Positions/Sync
--   Execution/Shadow   include/execution/shadow_tracker.hpp: ShadowTracker; its reports in
--                      Execution/Shadow/Report, load_state in Execution/Shadow/Restart
--   Execution/SpotShadow  include/execution/spot_shadow_tracker.hpp: SpotShadowTracker; its track and
--                      load_state in Execution/SpotShadow/Calls, its reports in
--                      Execution/SpotShadow/Report
--   Execution/Readiness  include/execution/live_readiness.hpp: the levels of LiveReadinessEngine; its
--                      refresh, enrichment and confidence in Execution/Readiness/Confidence
--   Execution/Engine   include/execution/execution_engine.hpp: ExecutionEngine; process_signal and
--                      periodic_tasks in Execution/Engine/Signals, handle_entry in
--                      Execution/Engine/Gates and Execution/Engine/Entry, handle_tp, handle_sl and the
--                      close that the exchange reports in Execution/Engine/Closing, spot signals in
--                      Execution/Engine/Spot, the comparison with the exchange and the report on
--                      the account in Execution/Engine/Refresh, close_all_positions and import_trades in
--                      Execution/Engine/Manual
--   Execution/AutoLive  the same file: how ExecutionEngine goes live by itself
--                      and which entries are real orders; Execution/AutoLive/Fees, its step that
--                      asks the FeeAnalyzer; Execution/GradeFilter, its filter of entries by the
--                      shadow tracker's grade
-- The modules below those hold the proofs and are named for what they prove. Shared holds what all
-- of them use: texts as lists of bytes, integers, association lists for std::unordered_map, decimal
-- printing and std::stoi. Tests holds runs on concrete inputs.
--
-- How the state is modelled. A class is a record of its members, a method a function from the state
-- to the new state and the result. A method that holds the class's mutex throughout is one step, so
-- an interleaving of threads is a list of steps; a wait on a condition variable is one step for each
-- wake-up. The order of iteration of an unordered container is the order of the list, which the
-- theorems leave open. Clocks and `std::hash` are arguments.
--
-- What stands outside. The type of doubles is a parameter (Shared/Double) with its operations. A
-- theorem that needs laws of them names these: IsStrict holds of every IEEE double, IsExact of
-- arithmetic that does not round; whole numbers fulfil both. The JSON library is a parameter too
-- (Shared/Json): the calls that the code makes, with exceptions as an outcome. So is std::sort
-- (Shared/Sorter): what is relied on is that it permutes its list, as an insertion sort does, for
-- which IsSorter is proved. What a shadow tracker reads back from its
-- file is up to that library (Execution/Shadow/Restart). The state file of the readiness engine is a
-- value: what was last written is what a restart reads. Signed integers do not wrap: where the
-- source would overflow an int, its behaviour is undefined, as in calc_priority.
--
-- Bounds and fuel. The only recursion on fuel prints a number (Shared/Decimal): n + 1 rounds are
-- enough for the digits of n, which read-show_nat proves. All else is structural. RateLimiter::acquire
-- runs along the list of the clock readings that its attempts see.
--
-- Not modelled: sockets and HTTP (include/webhook/http_server.hpp), the exchange clients
-- (include/exchange), files (include/core/state_persistence.hpp), the dashboard
-- (include/dashboard) and logging, which are input and output; reading the configuration; the
-- JSON that the scorer, the shadow trackers and the readiness engine make for their files and
-- for the dashboard; start, stop and the watchdog of ExecutionEngine, and the equity that it
-- keeps for the dashboard; the learner (include/risk/symbol_learner.hpp), of which the engine
-- takes the answer as an argument and keeps what it is told as a list; the backtester
-- (include/backtest), a separate tool; and main.
pub mod Shared
pub mod Core
pub mod Webhook
pub mod Risk
pub mod Execution
pub mod Tests
