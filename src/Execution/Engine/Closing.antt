-- ===== src/Execution/Engine/Closing.antt =====
-- include/execution/execution_engine.hpp: handle_tp, handle_sl and the callback on a position that the
-- exchange has closed.
use tv_webhook_trader.Shared.{
  ℕ, zero, suc, ◌+◌, Bool, true, false, not, ◌&&◌, ◌||◌, if◌then◌else◌, ◌∷◌, ◌++◌, Option, none,
  some, Text, codes, text_eq, is_empty,
}
use tv_webhook_trader.Shared.Double.{Double, nought}
use tv_webhook_trader.Core.Alerts.{AlertLevel}
use tv_webhook_trader.Core.Alerts
use tv_webhook_trader.Webhook.Signal.{WebhookSignal}
use tv_webhook_trader.Risk.Position.{ManagedPosition}
use tv_webhook_trader.Risk.Scorer.Recording.{record_context_trade, record_realized_trade}
use tv_webhook_trader.Execution.Trades.{calc_fee, record_close, record_ws_close, alert_trade}
use tv_webhook_trader.Execution.Positions.{
  MatchResult, find_by_symbol_side, get, remove, reduce_quantity, find_and_prepare_ws_close,
}
use tv_webhook_trader.Execution.Engine.{Engine, Moment}
use tv_webhook_trader.Execution.Engine.Entry.{is_new, short_text}

-- At most n attempts, from number k on, until one succeeds.
unfoldable pub retry : ℕ → ℕ → (ℕ → Bool) → Bool
retry zero k attempt = false
retry (suc n) k attempt = attempt k || retry n (k + 1) attempt

-- What the engine reads of the exchange's report on a position.
pub record WsPositionUpdate (F : Type 0) : Type 0 where
  pub symbol : Text
  pub hold_side : Text
  pub size : F
  pub avg_price : F
  pub realized_pnl : F

module _ {F : Type 0} where
  abbrev pub held_side : WebhookSignal F → Text
  held_side sig =
      if text_eq sig.signal_direction (codes "bull") then codes "long" else codes "short"

  abbrev pub is_real_position : Option (ManagedPosition F) → Bool
  is_real_position none = false
  is_real_position (some p) = p.is_real

module _ {F : Type 0} ⦃d : Double F⦄ where
  unfoldable pub close_ratio : WebhookSignal F → F
  close_ratio sig =
      if text_eq sig.tp_level (codes "TP1")
      then d.decimal 33 2
      else if text_eq sig.tp_level (codes "TP2")
      then d.decimal 50 2
      else d.decimal 1 0

  unfoldable pub closes_all : WebhookSignal F → Bool
  closes_all sig = text_eq sig.tp_level (codes "TP3") || d.le (d.decimal 99 2) (close_ratio sig)

  -- The result over the planned risk, or over the entry where no risk was planned.
  unfoldable pub realized_rr : ManagedPosition F → F → F → F
  realized_rr p pnl qty =
      let planned =
        if d.lt nought p.sl_price && d.lt nought p.entry_price
        then d.mul (d.abs (d.sub p.entry_price p.sl_price)) qty
        else nought in
      if d.lt (d.decimal 1 4) planned
      then d.div pnl planned
      else if d.lt nought p.entry_price
      then d.div pnl (d.mul p.entry_price qty)
      else nought

  -- The figures that the scorer gets of a close.
  unfoldable pub score_close : Text → Text → ManagedPosition F → F → F → F → Engine F → Engine F
  score_close symbol side p exit pnl qty e =
      let fee = calc_fee exit qty in
      record e {
        scorer =
            record_realized_trade symbol p.timeframe side (d.add pnl fee) fee
              (realized_rr p pnl qty) e.scorer;
      }

  unfoldable pub book_tp :
      Bool → Moment F → WebhookSignal F → MatchResult F → ManagedPosition F → Engine F → Engine F
  book_tp is_real m sig match p e =
      let qty = d.mul match.quantity (close_ratio sig) in
      let exit = if d.lt nought sig.price then sig.price else p.entry_price in
      let reason = if closes_all sig then sig.tp_level else sig.tp_level ++ codes "_PARTIAL" in
      let r = record_close p exit reason qty e.recorder in
      let scored = if is_real then score_close sig.symbol (held_side sig) p exit r.1 qty e else e in
      let mark = if is_real then codes "" else codes "[SHADOW] " in
      if closes_all sig
      then record scored {
        recorder = r.0;
        positions = (remove match.key e.positions).1;
        alerts =
            alert_trade m.time (codes "info")
              (mark ++ sig.tp_level ++ codes " " ++ sig.symbol ++ codes " PnL=" ++ short_text r.1)
              sig.symbol e.alerts;
      }
      else record scored { recorder = r.0; positions = reduce_quantity match.key qty e.positions }

  -- A position that is gone meanwhile leaves nothing to book.
  abbrev pub book_tp_at :
      Bool
      → Moment F
      → WebhookSignal F
      → MatchResult F
      → Option (ManagedPosition F)
      → Engine F
      → Engine F
  book_tp_at is_real m sig match none e = e
  book_tp_at is_real m sig match (some p) e = book_tp is_real m sig match p e

  abbrev pub tp_closed : Moment F → WebhookSignal F → MatchResult F → Bool
  tp_closed m sig match = retry 3 1 (λ k.
      is_new
        (m.close_partial sig.symbol (d.mul match.quantity (close_ratio sig)) (held_side sig)
          k).status)

  unfoldable pub tp_match :
      Moment F → WebhookSignal F → MatchResult F → Option (ManagedPosition F) → Engine F → Engine F
  tp_match m sig match found e =
      if not (is_real_position found)
      then book_tp_at false m sig match found e
      else if tp_closed m sig match
      then book_tp_at true m sig match found e
      else record e {
        alerts =
            Alerts.add m.time AlertLevel.warn (codes "TRADE")
              (codes "TP close failed " ++ sig.tp_level ++ codes " " ++ sig.symbol) sig.symbol
              e.alerts;
      }

  unfoldable pub handle_tp : Moment F → WebhookSignal F → Engine F → Engine F
  handle_tp m sig e =
      let match = find_by_symbol_side sig.symbol (held_side sig) e.positions in
      if not m.has_lock || is_empty match.key
      then e
      else tp_match m sig match (get match.key e.positions) e

  unfoldable pub book_sl :
      Bool → Moment F → WebhookSignal F → MatchResult F → ManagedPosition F → Engine F → Engine F
  book_sl is_real m sig match p e =
      let exit = if d.lt nought sig.price then sig.price else p.sl_price in
      let r = record_close p exit (codes "SL") nought e.recorder in
      let scored =
        if is_real then score_close sig.symbol (held_side sig) p exit r.1 p.quantity e else e in
      let mark = if is_real then codes "" else codes "[SHADOW] " in
      record scored {
        recorder = r.0;
        positions = (remove match.key e.positions).1;
        alerts =
            alert_trade m.time (codes "warn")
              (mark ++ codes "SL " ++ sig.symbol ++ codes " PnL=" ++ short_text r.1) sig.symbol
              e.alerts;
      }

  abbrev pub book_sl_at :
      Bool
      → Moment F
      → WebhookSignal F
      → MatchResult F
      → Option (ManagedPosition F)
      → Engine F
      → Engine F
  book_sl_at is_real m sig match none e = e
  book_sl_at is_real m sig match (some p) e = book_sl is_real m sig match p e

  abbrev pub sl_closed : Moment F → WebhookSignal F → Bool
  sl_closed m sig = retry 3 1 (m.flash_close_position sig.symbol (held_side sig))

  unfoldable pub sl_match :
      Moment F → WebhookSignal F → MatchResult F → Option (ManagedPosition F) → Engine F → Engine F
  sl_match m sig match found e =
      if not (is_real_position found)
      then book_sl_at false m sig match found e
      else if sl_closed m sig
      then book_sl_at true m sig match found e
      else record e {
        alerts =
            Alerts.add m.time AlertLevel.critical (codes "TRADE")
              (codes "SL CLOSE FAILED "
                ++ sig.symbol
                ++ codes " "
                ++ held_side sig
                ++ codes " "
                ++ 0xe2 ∷ 0x80 ∷ 0x94 ∷ codes " manual intervention needed!")
              sig.symbol e.alerts;
      }

  unfoldable pub handle_sl : Moment F → WebhookSignal F → Engine F → Engine F
  handle_sl m sig e =
      let match = find_by_symbol_side sig.symbol (held_side sig) e.positions in
      if not m.has_lock || is_empty match.key
      then e
      else sl_match m sig match (get match.key e.positions) e

  abbrev pub book_ws_close :
      Moment F → WsPositionUpdate F → Option (Text × ManagedPosition F) → Engine F → Engine F
  book_ws_close m upd none e = e
  book_ws_close m upd (some (key, p)) e =
      let exit = if d.lt nought upd.avg_price then upd.avg_price else p.entry_price in
      let r = record_ws_close p exit upd.realized_pnl e.recorder in
      let e1 = record e {
        recorder = r.0;
        scorer =
            record_context_trade m.time upd.symbol p.timeframe upd.hold_side r.1 (d.lt nought r.1)
              e.scorer;
      } in
      let e2 = score_close upd.symbol upd.hold_side p exit r.1 p.quantity e1 in
      record e2 {
        alerts =
            alert_trade m.time (codes "info")
              (codes "WS close " ++ upd.symbol ++ codes " PnL=" ++ short_text r.1) upd.symbol
              e2.alerts;
      }

  -- The callback of the position channel.
  unfoldable pub on_ws_position : Moment F → WsPositionUpdate F → Engine F → Engine F
  on_ws_position m upd e =
      let r = find_and_prepare_ws_close upd.symbol upd.hold_side e.positions in
      if d.le upd.size nought then book_ws_close m upd r.0 (record e { positions = r.1 }) else e
