-- ===== src/Execution/Engine/Breakers.antt =====
-- What the engine never tells the risk managers: no call reports a closed trade to them.
use tv_webhook_trader.Shared.{
  ℕ, ◌≡◌, refl, ap, ◌∙◌, ◌+◌, inl, inr, Bool, true, false, List, [], ◌∷◌, Option, none, some, arith,
  Option-cases,
}
use tv_webhook_trader.Shared.Double.{Double}
use tv_webhook_trader.Shared.Sorter.{Sorter}
use tv_webhook_trader.Webhook.Signal.{WebhookSignal}
use tv_webhook_trader.Risk.Portfolio.{PortfolioRisk, Now, check_daily_reset, set_shadow_mode}
use tv_webhook_trader.Risk.Portfolio.Entry.{
  Proposal, check_entry, breaker_check, conclude, conclude_breaker, block, first_checks,
  later_checks, Failure,
}
use tv_webhook_trader.Execution.Readiness.{ReadinessConfig}
use tv_webhook_trader.Execution.AutoLive.{AutoLive, Trackers, check_auto_live, activate, deactivate}
use tv_webhook_trader.Risk.Orders.{
  RiskManager, on_order_done, on_order_placed, on_position_opened, reset_daily,
}
use tv_webhook_trader.Execution.Engine.{Engine, EngineConfig, Moment, Sent}
use tv_webhook_trader.Execution.Engine.Entry.{
  stopped, conclude_order, order_round, order_rounds, numbered, ordered, with_port_risk,
  entry_proposal, handle_entry, send_order, entry_order,
}
use tv_webhook_trader.Execution.Engine.Closing.{handle_tp, handle_sl, on_ws_position}
use tv_webhook_trader.Execution.Engine.Spot.{handle_spot_signal}
use tv_webhook_trader.Execution.Engine.Signals.{
  Call, signal, ws_position, reset, rescore, check, drops, imports, syncs, balances, ws_account,
  answer, run, routed, tracked, process_signal, daily_reset, rescored, live_check,
}
use tv_webhook_trader.Execution.Engine.Managers.{
  stopped-managers, spot_by_type-managers, handle_tp-managers, handle_sl-managers,
  on_ws_position-managers,
}
use tv_webhook_trader.Execution.Engine.Paths.{
  handle_entry-cases, place_entry-cases, process_signal-cases, by_type-cases,
}
use tv_webhook_trader.Execution.Engine.Refresh.{
  IsAccounting, synced, balanced, on_ws_account, balanced-IsAccounting, on_ws_account-IsAccounting,
}
use tv_webhook_trader.Execution.Engine.Manual.{drop_closed, import_trades}
use tv_webhook_trader.Execution.Engine.Managers.{import_trades-managers}

module _ {F : Type 0} where
  block-cb : (f : Failure) (m : PortfolioRisk F) → (block f m).0.cb_active ≡ m.cb_active
  unfolding block
  block-cb f m = refl

module _ {F : Type 0} ⦃d : Double F⦄ where
  conclude-cb :
      (o : Option Failure) (m : PortfolioRisk F) → (conclude o m).0.cb_active ≡ m.cb_active
  unfolding conclude block
  conclude-cb none m = refl
  conclude-cb (some f) m = refl

  check_daily_reset-cb :
      (now : Now) (m : PortfolioRisk F) → (check_daily_reset now m).cb_active ≡ m.cb_active
  unfolding check_daily_reset
  check_daily_reset-cb now m = ground arith

  breaker_check-cb :
      (now : ℕ) (m : PortfolioRisk F)
      → m.cb_active ≡ false
      → ((breaker_check now m).0.cb_active ≡ false)
  unfolding breaker_check
  breaker_check-cb now m h = ground arith

  conclude_breaker-cb :
      (o later : Option Failure) (m : PortfolioRisk F)
      → (conclude_breaker o later m).0.cb_active ≡ m.cb_active
  unfolding conclude_breaker
  conclude_breaker-cb none later m = conclude-cb later m
  conclude_breaker-cb (some f) later m = block-cb f m

  check_entry-cb :
      (now : Now) (e : Proposal F) (m : PortfolioRisk F)
      → m.cb_active ≡ false
      → (check_entry now e m).0.cb_active ≡ false
  unfolding check_entry
  check_entry-cb now e m h =
      let m1 = check_daily_reset now (record m { checks_total = m.checks_total + 1 }) in
      let off = check_daily_reset-cb now (record m { checks_total = m.checks_total + 1 }) ∙ h in
      elim (Option-cases (first_checks e)) [
        | inl fits ↦
            rw (fits, check_entry)
              (conclude_breaker-cb (breaker_check now.steady m1).1
                  (later_checks e (breaker_check now.steady m1).0) (breaker_check now.steady m1).0
                ∙ breaker_check-cb now.steady m1 off)
        | inr (f, fails) ↦ rw (fails, check_entry) (block-cb f m1 ∙ off)
      ]

  check_auto_live-cb :
      (c : ReadinessConfig) ⦃s : Sorter⦄ (t : Trackers F) (a : AutoLive F)
      → (check_auto_live c t a).port_risk.cb_active ≡ a.port_risk.cb_active
  unfolding check_auto_live activate deactivate set_shadow_mode
  check_auto_live-cb c t a = ground arith

module _ {F : Type 0} where
  -- Neither breaker is on.
  abbrev pub IsOff : Engine F → Type 0
  IsOff e = (e.auto.port_risk.cb_active ≡ false) × (e.risk.circuit_breaker ≡ false)

  same-IsOff : (e e' : Engine F) → (e'.auto ≡ e.auto) × (e'.risk ≡ e.risk) → IsOff e → IsOff e'
  same-IsOff e e' same v =
      (ap (λ a. a.port_risk.cb_active) same.0 ∙ v.0, ap (λ k. k.circuit_breaker) same.1 ∙ v.1)

module _ {F : Type 0} ⦃d : Double F⦄ where
  accounting-IsOff : (e e' : Engine F) → IsAccounting e e' → IsOff e → IsOff e'
  accounting-IsOff e e' same v = (same.3 ∙ v.0, ap (λ k. k.circuit_breaker) same.1 ∙ v.1)

  order_rounds-breaker :
      (os : List (Sent F)) (r : RiskManager F)
      → (order_rounds os r).circuit_breaker ≡ r.circuit_breaker
  unfolding order_rounds on_order_done on_order_placed
  order_rounds-breaker [] r = refl
  order_rounds-breaker (o ∷ os) r = order_rounds-breaker os (order_round r)

  conclude_order-IsOff :
      (c : EngineConfig F) (m : Moment F) (sig : WebhookSignal F) (e0 e : Engine F) (b : Bool)
      → IsOff e
      → IsOff (conclude_order c m sig e0 e b)
  unfolding conclude_order on_position_opened
  conclude_order-IsOff c m sig e0 e false v = v
  conclude_order-IsOff c m sig e0 e true v = v

  module _ (c : EngineConfig F) ⦃s : Sorter⦄ where
    handle_entry-IsOff :
        (m : Moment F) (sig : WebhookSignal F) (e : Engine F)
        → IsOff e
        → IsOff (handle_entry c m sig e).0
    unfolding numbered ordered
    handle_entry-IsOff m sig e v =
        let P = λ (r : Engine F × List (Sent F)). IsOff r.0 in
        let r = check_entry m.clock (entry_proposal c m sig e) e.auto.port_risk in
        let off = check_entry-cb m.clock (entry_proposal c m sig e) e.auto.port_risk v.0 in
        let os = (send_order m (entry_order c m sig e)).1 in
        handle_entry-cases P c m sig e
          (λ stop. same-IsOff e (stopped m stop sig e) (stopped-managers m stop sig e) v) (off, v.1)
          λ _ _.
            place_entry-cases P c m sig e (with_port_risk e r.0) (off, v.1) (off, v.1)
              (λ _ _.
                conclude_order-IsOff c m sig e
                  (record (numbered sig (with_port_risk e r.0)) { risk = order_rounds os e.risk }) _
                  (off, order_rounds-breaker os e.risk ∙ v.1))

    process_signal-IsOff :
        (m : Moment F) (fp : ℕ) (sig : WebhookSignal F) (e : Engine F)
        → IsOff e
        → IsOff (process_signal c m fp sig e).0
    unfolding routed tracked handle_spot_signal
    process_signal-IsOff m fp sig e v =
        let P = λ (r : Engine F × List (Sent F)). IsOff r.0 in
        let e' = routed m fp sig e in
        process_signal-cases P c m fp sig e (λ known. v)
          (same-IsOff e' (handle_spot_signal m sig e') (spot_by_type-managers sig.sig_type m sig e')
            v)
          (by_type-cases P sig.sig_type c m sig e' (handle_entry-IsOff m sig e' v)
            (same-IsOff e' (handle_tp m sig e') (handle_tp-managers m sig e') v)
            (same-IsOff e' (handle_sl m sig e') (handle_sl-managers m sig e') v) v)

    answer-IsOff : (call : Call F) (e : Engine F) → IsOff e → IsOff (answer c call e).0
    unfolding answer daily_reset rescored live_check reset_daily drop_closed synced
    answer-IsOff (signal m fp sig) e v = process_signal-IsOff m fp sig e v
    answer-IsOff (ws_position m upd) e v =
        same-IsOff e (on_ws_position m upd e) (on_ws_position-managers m upd e) v
    answer-IsOff (reset now) e v = (ground arith, ground arith)
    answer-IsOff (rescore now time) e v = (ground arith, ground arith)
    answer-IsOff (drops symbol side) e v = v
    answer-IsOff (imports now time ts) e v =
        let same = import_trades-managers now time ts e in
        same-IsOff e (import_trades now time ts e).0 (same.0, same.1) v
    answer-IsOff (syncs now ex) e v = v
    answer-IsOff (balances available equity upnl) e v =
        accounting-IsOff e (balanced available equity upnl e)
          (balanced-IsAccounting available equity upnl e) v
    answer-IsOff (ws_account upd) e v =
        accounting-IsOff e (on_ws_account upd e) (on_ws_account-IsAccounting upd e) v
    answer-IsOff (check r) e v = (check_auto_live-cb r e.trackers e.auto ∙ v.0, v.1)

    -- Neither circuit breaker ever comes on: whatever signals, reports of closes and of the account,
    -- periodic tasks, the comparison with the exchange among them, and calls of the operator follow, and
    -- whatever losses they book, a breaker that is off at the start is off at the end, the portfolio's and
    -- the order manager's.
    pub run-IsOff : (calls : List (Call F)) (e : Engine F) → IsOff e → IsOff (run c calls e).0
    unfolding run
    run-IsOff [] e v = v
    run-IsOff (x ∷ xs) e v = run-IsOff xs (answer c x e).0 (answer-IsOff x e v)
