-- ===== src/Execution/Engine/Single.antt =====
-- One position at most for each symbol.
use tv_webhook_trader.Shared.{
  ℕ, ◌≡◌, refl, sym, subst, inl, inr, Bool, true, false, ◌||◌, List, [], ◌∷◌, Option, none, some,
  Text, codes, text_eq, lookup, arith, Bool-cases, All,
}
use tv_webhook_trader.Shared.Double.{Double, nought}
use tv_webhook_trader.Shared.Sorter.{Sorter}
use tv_webhook_trader.Webhook.Signal.{WebhookSignal, SignalType}
use tv_webhook_trader.Risk.Position.{ManagedPosition, Positions}
use tv_webhook_trader.Risk.Portfolio.Entry.{check_entry}
use tv_webhook_trader.Execution.Positions.{
  MatchResult, find_and_prepare_ws_close, find_by_symbol_side,
}
use tv_webhook_trader.Execution.Positions.Single.{
  holds, IsSingle, remove-IsSingle, ws_close-IsSingle, reduce_quantity-IsSingle,
  register_position-IsSingle,
}
use tv_webhook_trader.Execution.Engine.{Engine, EngineConfig, Moment, Sent, entry_side}
use tv_webhook_trader.Execution.Engine.Gates.{
  Stop, skip, risk_skip, learner_skip, has_side, opposite, entry_gate, timeframe_of,
}
use tv_webhook_trader.Execution.Engine.Entry.{
  handle_entry, stopped, conclude_order, ordered, numbered, registered, entry_position,
  entry_proposal, with_port_risk,
}
use tv_webhook_trader.Execution.Engine.Closing.{
  WsPositionUpdate, book_tp, book_sl, handle_tp, handle_sl, on_ws_position, score_close,
  book_ws_close, held_side, closes_all, close_ratio,
}
use tv_webhook_trader.Execution.Engine.Spot.{
  handle_spot_signal, spot_by_type, handle_spot_entry, handle_spot_exit,
}
use tv_webhook_trader.Execution.Engine.Signals.{
  Call, signal, ws_position, reset, rescore, check, drops, imports, syncs, balances, ws_account,
  answer, run, routed, tracked, process_signal, daily_reset, rescored, live_check,
}
use tv_webhook_trader.Execution.Engine.Paths.{
  handle_entry-cases, place_entry-cases, handle_tp-cases, handle_sl-cases, process_signal-cases,
  by_type-cases,
}
use tv_webhook_trader.Execution.Engine.Refresh.{balanced-IsAccounting, on_ws_account-IsAccounting}
use tv_webhook_trader.Execution.Engine.Manual.{drop_closed}
use tv_webhook_trader.Execution.Engine.Managers.{import_trades-managers}

module _ {F : Type 0} where
  -- A symbol with no long and no short position is not held at all.
  holds-has_side :
      (symbol : Text) (ps : Positions F)
      → IsSingle ps
      → has_side symbol (codes "long") ps ≡ false
      → has_side symbol (codes "short") ps ≡ false
      → holds symbol ps ≡ false
  unfolding holds has_side
  holds-has_side symbol [] v l s = refl
  holds-has_side symbol ((j, w) ∷ ps) v l s = ground (arith, holds-has_side symbol ps v.2)

module _ {F : Type 0} ⦃d : Double F⦄ where
  book_tp-IsSingle :
      (is_real : Bool) (m : Moment F) (sig : WebhookSignal F) (match : MatchResult F)
      (p : ManagedPosition F) (e : Engine F)
      → lookup match.key e.positions ≡ some p
      → IsSingle e.positions
      → IsSingle (book_tp is_real m sig match p e).positions
  unfolding book_tp
  book_tp-IsSingle is_real m sig match p e found v = elim (Bool-cases (closes_all sig)) [
    | inl all ↦ rw all (remove-IsSingle match.key e.positions v)
    | inr part ↦ rw part (
        reduce_quantity-IsSingle match.key (d.mul match.quantity (close_ratio sig)) p e.positions
          found v)
  ]

  handle_tp-IsSingle :
      (m : Moment F) (sig : WebhookSignal F) (e : Engine F)
      → IsSingle e.positions
      → IsSingle (handle_tp m sig e).positions
  handle_tp-IsSingle m sig e v =
      let match = find_by_symbol_side sig.symbol (held_side sig) e.positions in
      handle_tp-cases (λ e'. IsSingle e'.positions) m sig e v (λ a. v)
        (λ p found _. book_tp-IsSingle false m sig match p e found v)
        (λ p found _. book_tp-IsSingle true m sig match p e found v)

  handle_sl-IsSingle :
      (m : Moment F) (sig : WebhookSignal F) (e : Engine F)
      → IsSingle e.positions
      → IsSingle (handle_sl m sig e).positions
  unfolding book_sl
  handle_sl-IsSingle m sig e v =
      let match = find_by_symbol_side sig.symbol (held_side sig) e.positions in
      let gone = remove-IsSingle match.key e.positions v in
      handle_sl-cases (λ e'. IsSingle e'.positions) m sig e v (λ a. v) (λ p found _. gone)
        (λ p found _. gone)

  book_ws_close-positions :
      (m : Moment F) (upd : WsPositionUpdate F) (o : Option (Text × ManagedPosition F))
      (e : Engine F)
      → (book_ws_close m upd o e).positions ≡ e.positions
  unfolding score_close
  book_ws_close-positions m upd none e = refl
  book_ws_close-positions m upd (some (key, p)) e = refl

  on_ws_position-IsSingle :
      (m : Moment F) (upd : WsPositionUpdate F) (e : Engine F)
      → IsSingle e.positions
      → IsSingle (on_ws_position m upd e).positions
  unfolding on_ws_position
  on_ws_position-IsSingle m upd e v =
      let r = find_and_prepare_ws_close upd.symbol upd.hold_side e.positions in
      elim (Bool-cases (d.le upd.size nought)) [
        | inl gone ↦
            rw (gone, book_ws_close-positions m upd r.0 (record e { positions = r.1 }))
              (ws_close-IsSingle upd.symbol upd.hold_side e.positions v)
        | inr there ↦ rw there v
      ]

  entry_side-sided :
      (sig : WebhookSignal F)
      → (text_eq (entry_side sig) (codes "long") || text_eq (entry_side sig) (codes "short")) ≡ true
  unfolding text_eq
  entry_side-sided sig = elim (Bool-cases (text_eq sig.action (codes "buy"))) [
    | inl buys ↦ rw buys refl
    | inr sells ↦ rw sells refl
  ]

  has_side-entry :
      (sig : WebhookSignal F) (ps : Positions F)
      → has_side sig.symbol (opposite (entry_side sig)) ps ≡ false
      → has_side sig.symbol (entry_side sig) ps ≡ false
      → (has_side sig.symbol (codes "long") ps ≡ false)
        × (has_side sig.symbol (codes "short") ps ≡ false)
  unfolding text_eq
  has_side-entry sig ps opp own = elim (Bool-cases (text_eq sig.action (codes "buy"))) [
    | inl buys ↦ (rw buys at own, rw buys at opp)
    | inr sells ↦ (rw sells at opp, rw sells at own)
  ]

  spot_by_type-positions :
      (t : SignalType) (m : Moment F) (sig : WebhookSignal F) (e : Engine F)
      → (spot_by_type t m sig e).positions ≡ e.positions
  unfolding spot_by_type handle_spot_entry handle_spot_exit
  spot_by_type-positions SignalType.entry m sig e = ground arith
  spot_by_type-positions SignalType.re_entry m sig e = ground arith
  spot_by_type-positions SignalType.tp m sig e = ground arith
  spot_by_type-positions SignalType.sl m sig e = ground arith
  spot_by_type-positions SignalType.unknown m sig e = refl

  handle_spot_signal-positions :
      (m : Moment F) (sig : WebhookSignal F) (e : Engine F)
      → (handle_spot_signal m sig e).positions ≡ e.positions
  unfolding handle_spot_signal
  handle_spot_signal-positions m sig e = spot_by_type-positions sig.sig_type m sig e

  module _ ⦃s : Sorter⦄ where
    entry_gate-free :
        (c : EngineConfig F) (m : Moment F) (sig : WebhookSignal F) (e : Engine F)
        → entry_gate c m sig e ≡ none
        → (has_side sig.symbol (opposite (entry_side sig)) e.positions ≡ false)
          × (has_side sig.symbol (entry_side sig) e.positions ≡ false)
    unfolding entry_gate
    entry_gate-free c m sig e h = ground arith

    entry_gate-holds :
        (c : EngineConfig F) (m : Moment F) (sig : WebhookSignal F) (e : Engine F)
        → IsSingle e.positions
        → entry_gate c m sig e ≡ none
        → holds sig.symbol e.positions ≡ false
    entry_gate-holds c m sig e v clear =
        let free = entry_gate-free c m sig e clear in
        let both = has_side-entry sig e.positions free.0 free.1 in
        holds-has_side sig.symbol e.positions v both.0 both.1

    stopped-positions :
        (m : Moment F) (stop : Stop) (sig : WebhookSignal F) (e : Engine F)
        → (stopped m stop sig e).positions ≡ e.positions
    unfolding stopped
    stopped-positions m skip sig e = refl
    stopped-positions m risk_skip sig e = refl
    stopped-positions m learner_skip sig e = refl

    registered-IsSingle :
        (c : EngineConfig F) (m : Moment F) (sig : WebhookSignal F) (is_real : Bool)
        (e0 e : Engine F)
        → holds sig.symbol e.positions ≡ false
        → IsSingle e.positions
        → IsSingle (registered c m sig is_real e0 e).positions
    registered-IsSingle c m sig is_real e0 e free v =
        register_position-IsSingle m.now_ms sig.symbol (timeframe_of sig)
          (entry_position c m sig e0 is_real) e0.next_oid e.positions (entry_side-sided sig) free v

    conclude_order-IsSingle :
        (c : EngineConfig F) (m : Moment F) (sig : WebhookSignal F) (e0 e : Engine F) (b : Bool)
        → holds sig.symbol e.positions ≡ false
        → IsSingle e.positions
        → IsSingle (conclude_order c m sig e0 e b).positions
    unfolding conclude_order
    conclude_order-IsSingle c m sig e0 e false free v = v
    conclude_order-IsSingle c m sig e0 e true free v = registered-IsSingle c m sig true e0 e free v

    handle_entry-IsSingle :
        (c : EngineConfig F) (m : Moment F) (sig : WebhookSignal F) (e : Engine F)
        → IsSingle e.positions
        → IsSingle (handle_entry c m sig e).0.positions
    unfolding numbered ordered
    handle_entry-IsSingle c m sig e v =
        let P = λ (r : Engine F × List (Sent F)). IsSingle r.0.positions in
        let e1 =
          with_port_risk e (check_entry m.clock (entry_proposal c m sig e) e.auto.port_risk).0 in
        handle_entry-cases P c m sig e
          (λ stop. subst IsSingle (sym (stopped-positions m stop sig e)) v) v
          λ clear allowed.
            let free = entry_gate-holds c m sig e v clear in
            place_entry-cases P c m sig e e1 v
              (registered-IsSingle c m sig false e (numbered sig e1) free v)
              (λ _ _. conclude_order-IsSingle c m sig e _ _ free v)

    process_signal-IsSingle :
        (c : EngineConfig F) (m : Moment F) (fp : ℕ) (sig : WebhookSignal F) (e : Engine F)
        → IsSingle e.positions
        → IsSingle (process_signal c m fp sig e).0.positions
    unfolding routed tracked
    process_signal-IsSingle c m fp sig e v =
        let P = λ (r : Engine F × List (Sent F)). IsSingle r.0.positions in
        let e' = routed m fp sig e in
        process_signal-cases P c m fp sig e (λ known. v)
          (subst IsSingle (sym (handle_spot_signal-positions m sig e')) v)
          (by_type-cases P sig.sig_type c m sig e' (handle_entry-IsSingle c m sig e' v)
            (handle_tp-IsSingle m sig e' v) (handle_sl-IsSingle m sig e' v) v)

    -- No comparison with the exchange, which takes over whatever the exchange holds.
    abbrev pub IsOwn : Call F → Type 0
    IsOwn (signal m fp sig) = Unit
    IsOwn (ws_position m upd) = Unit
    IsOwn (ws_account upd) = Unit
    IsOwn (reset now) = Unit
    IsOwn (rescore now time) = Unit
    IsOwn (check r) = Unit
    IsOwn (drops symbol side) = Unit
    IsOwn (imports now time ts) = Unit
    IsOwn (syncs now ex) = ⊥
    IsOwn (balances available equity upnl) = Unit

    answer-IsSingle :
        (c : EngineConfig F) (call : Call F) (e : Engine F)
        → IsOwn call
        → IsSingle e.positions
        → IsSingle (answer c call e).0.positions
    unfolding answer daily_reset rescored live_check drop_closed
    answer-IsSingle c (signal m fp sig) e own v = process_signal-IsSingle c m fp sig e v
    answer-IsSingle c (ws_position m upd) e own v = on_ws_position-IsSingle m upd e v
    answer-IsSingle c (reset now) e own v = ground arith
    answer-IsSingle c (rescore now time) e own v = ground arith
    answer-IsSingle c (check r) e own v = v
    answer-IsSingle c (drops symbol side) e own v = ws_close-IsSingle symbol side e.positions v
    answer-IsSingle c (imports now time ts) e own v =
        subst IsSingle (sym (import_trades-managers now time ts e).2) v
    answer-IsSingle c (syncs now ex) e own v = absurd own
    answer-IsSingle c (balances available equity upnl) e own v =
        subst IsSingle (sym (balanced-IsAccounting available equity upnl e).0) v
    answer-IsSingle c (ws_account upd) e own v =
        subst IsSingle (sym (on_ws_account-IsAccounting upd e).0) v

    -- Whatever signals, reports of closes and of the account, periodic tasks and calls of the operator
    -- follow, in whatever order, with no comparison with the exchange among them: if no symbol is held
    -- twice at the start, none ever is, on one side or on both.
    pub run-IsSingle :
        (c : EngineConfig F) (calls : List (Call F)) (e : Engine F)
        → All IsOwn calls
        → IsSingle e.positions
        → IsSingle (run c calls e).0.positions
    unfolding run
    run-IsSingle c [] e own v = v
    run-IsSingle c (x ∷ xs) e own v =
        run-IsSingle c xs (answer c x e).0 own.1 (answer-IsSingle c x e own.0 v)
