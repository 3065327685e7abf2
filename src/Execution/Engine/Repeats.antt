-- ===== src/Execution/Engine/Repeats.antt =====
-- A signal that comes a second time.
use tv_webhook_trader.Shared.{
  ℕ, ◌+◌, ◌≤◌, ◌<◌, ◌==◌, ◌≡◌, refl, sym, inl, inr, Bool, true, false, ◌&&◌, ◌||◌, List, [], ◌∷◌,
  Option, none, some, Text, arith, Bool-cases, length, select, length-select-le, All, subst,
}
use tv_webhook_trader.Shared.Double.{Double}
use tv_webhook_trader.Shared.Sorter.{Sorter}
use tv_webhook_trader.Webhook.Signal.{WebhookSignal, SignalType}
use tv_webhook_trader.Risk.Position.{ManagedPosition}
use tv_webhook_trader.Execution.Trades.{TradeRecord}
use tv_webhook_trader.Execution.Positions.{find_and_prepare_ws_close}
use tv_webhook_trader.Execution.Engine.{Engine, EngineConfig, Moment, Sent}
use tv_webhook_trader.Execution.Engine.Gates.{Stop, skip, risk_skip, learner_skip}
use tv_webhook_trader.Execution.Engine.Entry.{
  handle_entry, stopped, conclude_order, ordered, numbered,
}
use tv_webhook_trader.Execution.Engine.Closing.{
  WsPositionUpdate, book_tp, book_sl, handle_tp, handle_sl, on_ws_position, score_close,
  book_ws_close,
}
use tv_webhook_trader.Execution.Engine.Refresh.{
  synced, balanced, on_ws_account, balanced-IsAccounting, on_ws_account-IsAccounting,
}
use tv_webhook_trader.Execution.Engine.Manual.{drop_closed, import_trades}
use tv_webhook_trader.Execution.Engine.Spot.{
  handle_spot_signal, spot_by_type, handle_spot_entry, handle_spot_exit,
}
use tv_webhook_trader.Execution.Engine.Signals.{
  Call, signal, ws_position, reset, rescore, check, drops, imports, syncs, balances, ws_account,
  answer, run, is_stale, has_fp, is_recent, evict, fp_ttl_ns, tracked, routed, route,
  process_signal, rescored, live_check,
}
use tv_webhook_trader.Execution.Engine.Paths.{
  handle_entry-cases, place_entry-cases, handle_tp-cases, handle_sl-cases, by_type-cases,
}
use tv_webhook_trader.Execution.Engine.Repeats.Fingerprints.{
  has_at, self, has_fp-has_at, has_at-evict, length-evict,
}
use tv_webhook_trader.Execution.Engine.Repeats.Untouched.{
  AreSame, on_ws_position-AreSame, import_trades-AreSame, rescored-AreSame, route-AreSame,
}
mod Fingerprints
mod Untouched

module _ {F : Type 0} ⦃d : Double F⦄ where
  module _ ⦃s : Sorter⦄ (c : EngineConfig F) where
    -- What a signal does to the fingerprints.
    process_signal-fingerprints :
        (P : List (ℕ × ℕ) → Type 0) (m : Moment F) (fp : ℕ) (sig : WebhookSignal F) (e : Engine F)
        → let known = evict m.now_ns e.recent_fingerprints in
          P e.recent_fingerprints
          → P known
          → P ((fp, m.now_ns) ∷ known)
          → P (process_signal c m fp sig e).0.recent_fingerprints
    unfolding AreSame process_signal routed tracked
    process_signal-fingerprints P m fp sig e stale again new =
        let known = evict m.now_ns e.recent_fingerprints in
        elim (Bool-cases (is_stale m.now_ns sig)) [
          | inl old ↦ rw old stale
          | inr timely ↦ elim (Bool-cases (has_fp fp known)) [
            | inl there ↦ rw (timely, there) again
            | inr absent ↦
                rw (timely, absent) (subst P (sym (route-AreSame c m sig (routed m fp sig e))) new)
          ]
        ]

    module _ (fp t : ℕ) where
      -- A call that comes no later than 120 s after that time, and is not the daily reset, which forgets
      -- the fingerprints.
      abbrev pub IsWithin : Call F → Type 0
      IsWithin (signal m k sig) = m.now_ns ≤ t + fp_ttl_ns
      IsWithin (ws_position m upd) = Unit
      IsWithin (reset now) = ⊥
      IsWithin (rescore now time) = Unit
      IsWithin (check r) = Unit
      IsWithin (drops symbol side) = Unit
      IsWithin (imports now time ts) = Unit
      IsWithin (syncs now ex) = Unit
      IsWithin (balances available equity upnl) = Unit
      IsWithin (ws_account upd) = Unit

      abbrev IsKept : ℕ → List (ℕ × ℕ) → Type 0
      IsKept n l = (has_at fp t l ≡ true) × (length l ≤ n)

      evict-IsKept :
          (now n : ℕ) (l : List (ℕ × ℕ))
          → now ≤ t + fp_ttl_ns
          → n ≤ 50000
          → IsKept n l
          → IsKept n (evict now l)
      evict-IsKept now n l within few v =
          (has_at-evict fp t now l v.0 within (omega arith), omega (arith, length-evict now l))

      more-IsKept : (x : ℕ × ℕ) (n : ℕ) (l : List (ℕ × ℕ)) → IsKept n l → IsKept (n + 1) (x ∷ l)
      unfolding has_at
      more-IsKept x n l v = (ground arith, omega arith)

      answer-IsKept :
          (x : Call F) (e : Engine F) (n : ℕ)
          → IsWithin x
          → n ≤ 50000
          → IsKept n e.recent_fingerprints
          → IsKept (n + 1) (answer c x e).0.recent_fingerprints
      unfolding AreSame answer live_check drop_closed synced
      answer-IsKept (signal m k sig) e n within few v =
          let known = evict-IsKept m.now_ns n e.recent_fingerprints within few v in
          process_signal-fingerprints (IsKept (n + 1)) m k sig e (v.0, omega arith)
            (known.0, omega arith) (more-IsKept (k, m.now_ns) n _ known)
      answer-IsKept (ws_position m upd) e n within few v =
          subst (IsKept (n + 1)) (sym (on_ws_position-AreSame m upd e)) (v.0, omega arith)
      answer-IsKept (reset now) e n within few v = absurd within
      answer-IsKept (rescore now time) e n within few v =
          subst (IsKept (n + 1)) (sym (rescored-AreSame c now time e)) (v.0, omega arith)
      answer-IsKept (check r) e n within few v = (v.0, omega arith)
      answer-IsKept (drops symbol side) e n within few v = (v.0, omega arith)
      answer-IsKept (imports now time ts) e n within few v =
          subst (IsKept (n + 1)) (sym (import_trades-AreSame now time ts e)) (v.0, omega arith)
      answer-IsKept (syncs now ex) e n within few v = (v.0, omega arith)
      answer-IsKept (balances available equity upnl) e n within few v =
          subst (IsKept (n + 1)) (sym (balanced-IsAccounting available equity upnl e).2)
            (v.0, omega arith)
      answer-IsKept (ws_account upd) e n within few v =
          subst (IsKept (n + 1)) (sym (on_ws_account-IsAccounting upd e).2) (v.0, omega arith)

      run-IsKept :
          (xs : List (Call F)) (e : Engine F) (n : ℕ)
          → All IsWithin xs
          → n + length xs ≤ 50000
          → IsKept n e.recent_fingerprints
          → IsKept (n + length xs) (run c xs e).0.recent_fingerprints
      unfolding run
      run-IsKept [] e n within few v = (v.0, omega arith)
      run-IsKept (x ∷ xs) e n within few v =
          let first = answer-IsKept x e n within.0 (omega arith) v in
          let rest = run-IsKept xs (answer c x e).0 (n + 1) within.1 (omega arith) first in
          (rest.0, omega arith)

    -- What a signal leaves when it is dropped.
    abbrev pub IsDropped : Engine F → Engine F × List (Sent F) → Type 0
    IsDropped e r =
        (r.1 ≡ [])
        × (r.0.positions ≡ e.positions)
        × (r.0.recorder ≡ e.recorder)
        × (r.0.spot_account ≡ e.spot_account)
        × (r.0.risk ≡ e.risk)
        × (r.0.next_oid ≡ e.next_oid)
        × (r.0.auto ≡ e.auto)
        × (r.0.scorer ≡ e.scorer)
        × (r.0.alerts ≡ e.alerts)
        × (r.0.orders_executed ≡ e.orders_executed)
        × (r.0.orders_rejected ≡ e.orders_rejected)
        × (r.0.risk_skips ≡ e.risk_skips)
        × (r.0.orders_skipped ≡ e.orders_skipped + 1)

    -- A signal with the fingerprint of one that was let through at most 120 s ago is dropped, whatever
    -- calls other than the daily reset came in between, none of them a signal from later than those
    -- 120 s: it sends no order and is counted as skipped, and besides that it changes no position, account,
    -- risk manager, score, alert or count of orders of the engine. Only the fingerprints and the paper
    -- trackers, which follow every signal, may change. The fingerprints must be too few for the engine to
    -- forget them all, which it does above 50000.
    pub process_signal-IsDropped :
        (first later : Moment F) (fp : ℕ) (sig sig' : WebhookSignal F) (xs : List (Call F))
        (e : Engine F)
        → is_stale first.now_ns sig ≡ false
        → has_fp fp (evict first.now_ns e.recent_fingerprints) ≡ false
        → All (IsWithin fp first.now_ns) xs
        → later.now_ns ≤ first.now_ns + fp_ttl_ns
        → length e.recent_fingerprints + length xs < 50000
        → let between = (run c xs (process_signal c first fp sig e).0).0 in
          IsDropped between (process_signal c later fp sig' between)
    unfolding AreSame process_signal routed tracked
    process_signal-IsDropped first later fp sig sig' xs e timely new within soon few =
        let t = first.now_ns in
        let n = length e.recent_fingerprints + 1 in
        let e1 = (process_signal c first fp sig e).0 in
        let start : IsKept fp t n e1.recent_fingerprints =
          rw (timely, new)
            (subst (IsKept fp t n) (sym (route-AreSame c first sig (routed first fp sig e)))
              (self fp t _, omega (arith, length-evict t e.recent_fingerprints))) in
        let between = (run c xs e1).0 in
        let kept = run-IsKept fp t xs e1 n within (omega arith) start in
        let there =
          has_at-evict fp t later.now_ns between.recent_fingerprints kept.0 soon
            (omega (arith, kept.1)) in
        let known = has_fp-has_at fp t _ there in
        elim (Bool-cases (is_stale later.now_ns sig')) [
          | inl old ↦
              rw old (refl, refl, refl, refl, refl, refl, refl, refl, refl, refl, refl, refl, refl)
          | inr young ↦
              rw (young, known)
                (refl, refl, refl, refl, refl, refl, refl, refl, refl, refl, refl, refl, refl)
        ]
