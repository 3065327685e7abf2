-- ===== src/Execution/Engine/Signals.antt =====
-- include/execution/execution_engine.hpp: process_signal, which a worker calls for each signal that it
-- takes off the queue, and the calls that change the engine besides.
use tv_webhook_trader.Shared.{
  ℕ, ◌-◌, ◌/◌, ◌==◌, Bool, true, false, not, ◌&&◌, ◌||◌, if◌then◌else◌, List, [], ◌∷◌, ◌++◌, Option,
  none, some, Text, codes, text_eq, is_empty, contains, back, drop_last_n, ltb, length, select, ℤ,
  pos, ◌*ℤ◌, leb_ℤ,
}
use tv_webhook_trader.Shared.Decimal.{stoi}
use tv_webhook_trader.Shared.Double.{Double}
use tv_webhook_trader.Shared.Sorter.{Sorter}
use tv_webhook_trader.Webhook.Signal.{WebhookSignal, SignalType, is_valid}
use tv_webhook_trader.Risk.Orders.{needs_daily_reset, reset_daily}
use tv_webhook_trader.Risk.Scorer.{needs_rescore}
use tv_webhook_trader.Risk.Scorer.Scoring.{rescore_all}
use tv_webhook_trader.Execution.Shadow
use tv_webhook_trader.Execution.SpotShadow.Calls as SpotCalls
use tv_webhook_trader.Execution.Readiness.{ReadinessConfig}
use tv_webhook_trader.Execution.AutoLive.{check_auto_live}
use tv_webhook_trader.Execution.Engine.{Engine, EngineConfig, Moment, Sent, count_skip}
use tv_webhook_trader.Execution.Engine.Entry.{handle_entry}
use tv_webhook_trader.Execution.Engine.Closing.{
  WsPositionUpdate, handle_tp, handle_sl, on_ws_position,
}
use tv_webhook_trader.Execution.Trades.{TradeRecord}
use tv_webhook_trader.Execution.Engine.Manual.{drop_closed, import_trades}
use tv_webhook_trader.Execution.Engine.Spot.{handle_spot_signal}
use tv_webhook_trader.Execution.Positions.Exchange.{ExchangePos}
use tv_webhook_trader.Execution.Engine.Refresh.{WsAccountUpdate, synced, balanced, on_ws_account}

abbrev times : ℤ → Option ℤ → ℤ
times k none = pos 0
times k (some n) = n *ℤ k

-- The product is the exact one, as in calc_priority.
unfoldable pub parse_timeframe_minutes : Text → ℤ
parse_timeframe_minutes tf =
    let last = back tf in
    if is_empty tf
    then pos 0
    else if last == b'h' || last == b'H'
    then times (pos 60) (stoi (drop_last_n 1 tf))
    else if last == b'd' || last == b'D'
    then times (pos 1440) (stoi (drop_last_n 1 tf))
    else times (pos 1) (stoi tf)

-- How old a signal may be, in milliseconds.
unfoldable pub max_age_ms : Text → ℕ
max_age_ms tf =
    let minutes = parse_timeframe_minutes tf in
    if leb_ℤ minutes (pos 1)
    then 10000
    else if leb_ℤ minutes (pos 5)
    then 30000
    else if leb_ℤ minutes (pos 15)
    then 60000
    else 120000

abbrev pub fp_ttl_ns : ℕ
fp_ttl_ns = 120_000_000_000

-- std::unordered_map<size_t, int64_t>
unfoldable pub has_fp : ℕ → List (ℕ × ℕ) → Bool
has_fp fp [] = false
has_fp fp ((k, t) ∷ m) = k == fp || has_fp fp m

abbrev pub is_recent : ℕ → ℕ × ℕ → Bool
is_recent now kt = not (ltb fp_ttl_ns (now - kt.1))

-- Old entries go once there are more than a hundred, and all of them when there are still too many.
unfoldable pub evict : ℕ → List (ℕ × ℕ) → List (ℕ × ℕ)
evict now m =
    let kept = if ltb 100 (length m) then select (is_recent now) m else m in
    if ltb 50000 (length kept) then [] else kept

module _ {F : Type 0} where
  -- A signal from after the clock's reading counts as new.
  unfoldable pub is_stale : ℕ → WebhookSignal F → Bool
  is_stale now sig = ltb (max_age_ms sig.timeframe) ((now - sig.received_at) / 1_000_000)

  unfoldable pub is_listed : List Text → WebhookSignal F → Bool
  is_listed [] sig = true
  is_listed (s ∷ ss) sig = contains (s ∷ ss) sig.symbol

  abbrev pub is_spot : WebhookSignal F → Bool
  is_spot sig = text_eq sig.market_type (codes "spot")

module _ {F : Type 0} ⦃d : Double F⦄ where
  -- Every signal is tracked on paper first, whatever becomes of it.
  unfoldable pub tracked : Moment F → WebhookSignal F → Engine F → Engine F
  tracked m sig e = record e {
    trackers = record {
      futures = Shadow.track m.now_ms sig e.trackers.futures;
      spot = SpotCalls.track m.now_ms sig e.trackers.spot;
    };
  }

  module _ ⦃s : Sorter⦄ where
    unfoldable pub by_type :
        SignalType
        → EngineConfig F
        → Moment F
        → WebhookSignal F
        → Engine F
        → Engine F × List (Sent F)
    by_type SignalType.entry c m sig e = handle_entry c m sig e
    by_type SignalType.re_entry c m sig e = handle_entry c m sig e
    by_type SignalType.tp c m sig e = (handle_tp m sig e, [])
    by_type SignalType.sl c m sig e = (handle_sl m sig e, [])
    by_type SignalType.unknown c m sig e = (e, [])

    -- Behind the check for duplicates.
    unfoldable pub route :
        EngineConfig F → Moment F → WebhookSignal F → Engine F → Engine F × List (Sent F)
    route c m sig e =
        if not (is_valid sig)
        then (count_skip e, [])
        else if not (is_spot sig) && not (is_listed c.allowed_symbols sig)
        then (count_skip e, [])
        else if is_spot sig
        then (handle_spot_signal m sig e, [])
        else by_type sig.sig_type c m sig e

    -- The engine when a signal that is neither stale nor known is routed.
    unfoldable pub routed : Moment F → ℕ → WebhookSignal F → Engine F → Engine F
    routed m fp sig e = record (tracked m sig e) {
      recent_fingerprints = (fp, m.now_ns) ∷ evict m.now_ns e.recent_fingerprints;
    }

    -- `fp` is the signal's fingerprint.
    unfoldable pub process_signal :
        EngineConfig F → Moment F → ℕ → WebhookSignal F → Engine F → Engine F × List (Sent F)
    process_signal c m fp sig e =
        let known = evict m.now_ns e.recent_fingerprints in
        if is_stale m.now_ns sig
        then (count_skip (tracked m sig e), [])
        else if has_fp fp known
        then (count_skip (record (tracked m sig e) { recent_fingerprints = known }), [])
        else route c m sig (routed m fp sig e)

    -- What periodic_tasks does besides the comparison with the exchange: the daily reset, the rescoring,
    -- and the check whether to go live.
    unfoldable pub daily_reset : ℕ → Engine F → Engine F
    daily_reset now e =
        if needs_daily_reset now e.risk
        then record e { risk = reset_daily now e.risk; recent_fingerprints = [] }
        else e

    unfoldable pub rescored : ℕ → Text → Engine F → Engine F
    rescored now time e =
        if needs_rescore now e.scorer && ltb 0 (length e.recorder.trades)
        then record e { scorer = rescore_all now time e.recorder.trades e.scorer }
        else e

    unfoldable pub live_check : ReadinessConfig → Engine F → Engine F
    live_check c e = record e { auto = check_auto_live c e.trackers e.auto }

-- What the workers, the callbacks, the periodic tasks and the operator do, one at a time. `drops` is a
-- round of close_all_positions for which the exchange has said yes; `syncs` and `balances` are the two
-- halves of a comparison with the exchange, where it answers. An answer that reports an error, or throws,
-- changes nothing.
pub data Call (F : Type 0) : Type 0 where
  signal : Moment F → ℕ → WebhookSignal F → Call F
  ws_position : Moment F → WsPositionUpdate F → Call F
  ws_account : WsAccountUpdate F → Call F
  reset : ℕ → Call F
  rescore : ℕ → Text → Call F
  check : ReadinessConfig → Call F
  drops : Text → Text → Call F
  imports : ℕ → Text → List (TradeRecord F) → Call F
  syncs : ℕ → List (Text × ExchangePos F) → Call F
  balances : F → F → F → Call F

module _ {F : Type 0} ⦃d : Double F⦄ (c : EngineConfig F) ⦃s : Sorter⦄ where
  unfoldable pub answer : Call F → Engine F → Engine F × List (Sent F)
  answer (signal m fp sig) e = process_signal c m fp sig e
  answer (ws_position m upd) e = (on_ws_position m upd e, [])
  answer (ws_account upd) e = (on_ws_account upd e, [])
  answer (reset now) e = (daily_reset now e, [])
  answer (rescore now time) e = (rescored now time e, [])
  answer (check r) e = (live_check r e, [])
  answer (drops symbol side) e = (drop_closed symbol side e, [])
  answer (imports now time ts) e = ((import_trades now time ts e).0, [])
  answer (syncs now ex) e = (synced now ex e, [])
  answer (balances available equity upnl) e = (balanced available equity upnl e, [])

  -- The engine after the calls, and the orders that went out.
  unfoldable pub run : List (Call F) → Engine F → Engine F × List (Sent F)
  run [] e = (e, [])
  run (x ∷ xs) e =
      let first = answer x e in let rest = run xs first.0 in (rest.0, first.1 ++ rest.1)
