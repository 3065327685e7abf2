-- ===== src/Execution/Engine/Taken.antt =====
-- A symbol that had one real order. No call takes a closed position off the order manager's counts.
use tv_webhook_trader.Shared.{
  ℕ, ◌≡◌, refl, ap, sym, subst, ◌∙◌, inl, inr, Bool, true, false, List, [], ◌∷◌, ◌++◌, some, Text,
  text_eq, text_eq_iff, lookup, lookup-insert, ℤ, pos, ◌+ℤ◌, leb_ℤ, All, arith, Bool-cases,
}
use tv_webhook_trader.Shared.Double.{Double}
use tv_webhook_trader.Shared.Sorter.{Sorter}
use tv_webhook_trader.Core.Types.{OrderRequest, TradeSide, open_side, close_side}
use tv_webhook_trader.Webhook.Signal.{WebhookSignal}
use tv_webhook_trader.Risk.Orders.{
  RiskManager, PositionInfo, validate, is_full, on_order_done, on_order_placed, on_position_opened,
  reset_daily, needs_daily_reset,
}
use tv_webhook_trader.Risk.Portfolio.Entry.{check_entry}
use tv_webhook_trader.Execution.Engine.Closing.{handle_tp, handle_sl, on_ws_position}
use tv_webhook_trader.Execution.Engine.{Engine, EngineConfig, Moment, Sent, entry_side}
use tv_webhook_trader.Execution.Engine.Entry.{
  conclude_order, order_round, order_rounds, numbered, ordered, handle_entry, send_order,
  entry_order, entry_request, entry_proposal, with_port_risk, stopped, is_unreached,
}
use tv_webhook_trader.Execution.Engine.Signals.{
  Call, signal, ws_position, reset, rescore, check, drops, imports, syncs, balances, ws_account,
  answer, run, routed, tracked, process_signal, daily_reset, rescored, live_check,
}
use tv_webhook_trader.Execution.Engine.Spot.{handle_spot_signal}
use tv_webhook_trader.Execution.Engine.Managers.{
  stopped-managers, spot_by_type-managers, handle_tp-managers, handle_sl-managers,
  on_ws_position-managers,
}
use tv_webhook_trader.Execution.Engine.Paths.{
  handle_entry-cases, place_entry-cases, process_signal-cases, by_type-cases,
}
use tv_webhook_trader.Execution.Engine.Refresh.{
  synced, balanced-IsAccounting, on_ws_account-IsAccounting,
}
use tv_webhook_trader.Execution.Engine.Manual.{drop_closed, import_trades}
use tv_webhook_trader.Execution.Engine.Managers.{import_trades-managers}

module _ {F : Type 0} ⦃d : Double F⦄ (limit : F) (symbol : Text) where
  -- The order manager counts an open position of the symbol, under that limit for each symbol.
  pub record IsTaken (r : RiskManager F) : Type 0 where
    pub info : PositionInfo F
    pub found : lookup symbol r.positions ≡ some info
    pub counted : leb_ℤ (pos 1) info.count ≡ true
    pub limited : r.limits.max_position_per_symbol ≡ limit

  -- The limit allows one position at most.
  abbrev pub IsOne : Type 0
  IsOne = (n : ℤ) → leb_ℤ (pos 1) n ≡ true → d.le limit (d.of_int n) ≡ true

  -- No order that opens a position of the symbol is among them.
  abbrev pub NoneOpens : List (Sent F) → Type 0
  NoneOpens = All (λ o. o.request.trade_side ≡ open_side → text_eq o.request.symbol symbol ≡ false)

  is_full_lem :
      IsOne
      → (side : TradeSide) (p : PositionInfo F) → side ≡ open_side
      → leb_ℤ (pos 1) p.count ≡ true
      → is_full side limit (some p) ≡ true
  unfolding is_full
  is_full_lem one open_side p e h = one p.count h
  is_full_lem one close_side p e h = absurd (ground arith)

  validate-IsTaken :
      IsOne
      → (req : OrderRequest F) (r : RiskManager F) → IsTaken r
      → validate req r ≡ true
      → req.trade_side ≡ open_side
      → text_eq req.symbol symbol ≡ false
  unfolding validate
  validate-IsTaken one req r v valid opens = elim (Bool-cases (text_eq req.symbol symbol)) [
    | inr other ↦ other
    | inl same ↦
        let e : req.symbol ≡ symbol = (text_eq_iff req.symbol symbol).0 same in
        let held : lookup req.symbol r.positions ≡ some v.info =
          ap (λ k. lookup k r.positions) e ∙ v.found in
        let full : is_full req.trade_side r.limits.max_position_per_symbol
              (lookup req.symbol r.positions)
            ≡ true =
          subst (λ l. is_full req.trade_side l (lookup req.symbol r.positions) ≡ true)
            (sym v.limited)
            (subst (λ o. is_full req.trade_side limit o ≡ true) (sym held)
              (is_full_lem one req.trade_side v.info opens v.counted)) in
        absurd (ground arith)
  ]

  order_rounds-IsTaken :
      (os : List (Sent F)) (r : RiskManager F) → IsTaken r → IsTaken (order_rounds os r)
  unfolding order_rounds on_order_done on_order_placed
  order_rounds-IsTaken [] r v = v
  order_rounds-IsTaken (o ∷ os) r v =
      order_rounds-IsTaken os (order_round r)
        (record { info = v.info; found = v.found; counted = v.counted; limited = v.limited })

  leb_ℤ-one : (n : ℤ) → leb_ℤ (pos 1) n ≡ true → leb_ℤ (pos 1) (n +ℤ pos 1) ≡ true
  unfolding leb_ℤ ◌+ℤ◌
  leb_ℤ-one n h = ground arith

  on_position_opened-IsTaken :
      (s : Text) (qty : F) (side : Text) (r : RiskManager F)
      → IsTaken r
      → IsTaken (on_position_opened s qty side r)
  unfolding on_position_opened
  on_position_opened-IsTaken s qty side r v = elim (Bool-cases (text_eq s symbol)) [
    | inr other ↦ record {
      info = v.info;
      found = lookup-insert s symbol _ r.positions ∙ rw other v.found;
      counted = v.counted;
      limited = v.limited;
    }
    | inl same ↦
        let e : s ≡ symbol = (text_eq_iff s symbol).0 same in
        let held : lookup s r.positions ≡ some v.info =
          ap (λ k. lookup k r.positions) e ∙ v.found in
        record {
          info = record {
            count = v.info.count +ℤ pos 1;
            total_qty = d.add v.info.total_qty qty;
            side = side;
          };
          found = lookup-insert s symbol _ r.positions ∙ rw (same, held) refl;
          counted = leb_ℤ-one v.info.count v.counted;
          limited = v.limited;
        }
  ]

  conclude_order-IsTaken :
      (c : EngineConfig F) (m : Moment F) (sig : WebhookSignal F) (e0 e : Engine F) (b : Bool)
      → IsTaken e.risk
      → IsTaken (conclude_order c m sig e0 e b).risk
  unfolding conclude_order
  conclude_order-IsTaken c m sig e0 e false v = v
  conclude_order-IsTaken c m sig e0 e true v =
      on_position_opened-IsTaken sig.symbol _ (entry_side sig) e.risk v

  -- What a call leaves behind, and the orders that it sent.
  abbrev IsKept : Engine F × List (Sent F) → Type 0
  IsKept r = IsTaken r.0.risk × NoneOpens r.1

  IsKept-risk :
      (e e' : Engine F) → (e'.auto ≡ e.auto) × (e'.risk ≡ e.risk) → IsTaken e.risk → IsKept (e', [])
  IsKept-risk e e' same v = (subst IsTaken (sym same.1) v, tt)

  send_order-NoneOpens :
      (m : Moment F) (o : Sent F)
      → (o.request.trade_side ≡ open_side → text_eq o.request.symbol symbol ≡ false)
      → NoneOpens (send_order m o).1
  unfolding send_order
  send_order-NoneOpens m o h =
      let first = m.place_futures_order o.request o.preset_tp o.preset_sl 1 in
      elim (Bool-cases (is_unreached first.status first.error_code)) [
        | inl again ↦ rw again (h, (h, tt))
        | inr once ↦ rw once (h, tt)
      ]

  module _ (one : IsOne) (c : EngineConfig F) ⦃s : Sorter⦄ where
    handle_entry-IsKept :
        (m : Moment F) (sig : WebhookSignal F) (e : Engine F)
        → IsTaken e.risk
        → IsKept (handle_entry c m sig e)
    unfolding numbered ordered
    handle_entry-IsKept m sig e v =
        let e1 =
          with_port_risk e (check_entry m.clock (entry_proposal c m sig e) e.auto.port_risk).0 in
        let os = (send_order m (entry_order c m sig e)).1 in
        handle_entry-cases IsKept c m sig e
          (λ stop. IsKept-risk e (stopped m stop sig e) (stopped-managers m stop sig e) v) (v, tt)
          λ _ _.
            place_entry-cases IsKept c m sig e e1 (v, tt) (v, tt)
              λ valid _. (
                conclude_order-IsTaken c m sig e
                    (record (numbered sig e1) { risk = order_rounds os e.risk }) _
                    (order_rounds-IsTaken os e.risk v),
                send_order-NoneOpens m (entry_order c m sig e)
                    (validate-IsTaken one (entry_request c m sig e) e.risk v valid),
              )

    process_signal-IsKept :
        (m : Moment F) (fp : ℕ) (sig : WebhookSignal F) (e : Engine F)
        → IsTaken e.risk
        → IsKept (process_signal c m fp sig e)
    unfolding routed tracked handle_spot_signal
    process_signal-IsKept m fp sig e v =
        let e' = routed m fp sig e in
        process_signal-cases IsKept c m fp sig e (λ known. (v, tt))
          (IsKept-risk e' (handle_spot_signal m sig e')
            (spot_by_type-managers sig.sig_type m sig e') v)
          (by_type-cases IsKept sig.sig_type c m sig e' (handle_entry-IsKept m sig e' v)
            (IsKept-risk e' (handle_tp m sig e') (handle_tp-managers m sig e') v)
            (IsKept-risk e' (handle_sl m sig e') (handle_sl-managers m sig e') v) (v, tt))

    daily_reset-IsTaken :
        (now : ℕ) (e : Engine F) → IsTaken e.risk → IsTaken (daily_reset now e).risk
    unfolding daily_reset reset_daily
    daily_reset-IsTaken now e v = elim (Bool-cases (needs_daily_reset now e.risk)) [
      | inl due ↦
          rw due
            (record { info = v.info; found = v.found; counted = v.counted; limited = v.limited })
      | inr early ↦ rw early v
    ]

    rescored-risk : (now : ℕ) (time : Text) (e : Engine F) → (rescored now time e).risk ≡ e.risk
    unfolding rescored
    rescored-risk now time e = ground arith

    answer-IsKept : (call : Call F) (e : Engine F) → IsTaken e.risk → IsKept (answer c call e)
    unfolding answer live_check drop_closed synced
    answer-IsKept (signal m fp sig) e v = process_signal-IsKept m fp sig e v
    answer-IsKept (ws_position m upd) e v =
        IsKept-risk e (on_ws_position m upd e) (on_ws_position-managers m upd e) v
    answer-IsKept (reset now) e v = (daily_reset-IsTaken now e v, tt)
    answer-IsKept (rescore now time) e v = (subst IsTaken (sym (rescored-risk now time e)) v, tt)
    answer-IsKept (check r) e v = (v, tt)
    answer-IsKept (drops symbol side) e v = (v, tt)
    answer-IsKept (imports now time ts) e v =
        let same = import_trades-managers now time ts e in
        IsKept-risk e (import_trades now time ts e).0 (same.0, same.1) v
    answer-IsKept (syncs now ex) e v = (v, tt)
    answer-IsKept (balances available equity upnl) e v =
        (subst IsTaken (sym (balanced-IsAccounting available equity upnl e).1) v, tt)
    answer-IsKept (ws_account upd) e v =
        (subst IsTaken (sym (on_ws_account-IsAccounting upd e).1) v, tt)

    All-append_lem : (os ps : List (Sent F)) → NoneOpens os → NoneOpens ps → NoneOpens (os ++ ps)
    All-append_lem [] ps h k = k
    All-append_lem (o ∷ os) ps h k = (h.0, All-append_lem os ps h.1 k)

    -- With a limit of one position for each symbol, a symbol of which the order manager counts a position
    -- never has another order that opens one: whatever signals, reports of closes and of the account,
    -- periodic tasks and calls of the operator follow, the position's own close, the comparison with the
    -- exchange and the daily reset among them.
    pub run-NoneOpens :
        (calls : List (Call F)) (e : Engine F) → IsTaken e.risk → NoneOpens (run c calls e).1
    unfolding run
    run-NoneOpens [] e v = tt
    run-NoneOpens (x ∷ xs) e v =
        let first = answer-IsKept x e v in
        All-append_lem (answer c x e).1 (run c xs (answer c x e).0).1 first.1
          (run-NoneOpens xs (answer c x e).0 first.0)
