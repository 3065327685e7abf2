-- ===== src/Execution/Engine/Paths.antt =====
-- The ways that a call of the engine can take, each as a premise of one rule.
use tv_webhook_trader.Shared.{
  ℕ, ◌+◌, ◌≡◌, inl, inr, true, false, not, ◌||◌, List, [], none, some, is_empty, lookup, Bool-cases,
  Option-cases,
}
use tv_webhook_trader.Shared.Double.{Double}
use tv_webhook_trader.Shared.Sorter.{Sorter}
use tv_webhook_trader.Core.Alerts.{Alert}
use tv_webhook_trader.Webhook.Signal.{WebhookSignal, SignalType, is_valid}
use tv_webhook_trader.Risk.Orders.{validate}
use tv_webhook_trader.Risk.Position.{ManagedPosition}
use tv_webhook_trader.Risk.Portfolio.Entry.{check_entry}
use tv_webhook_trader.Execution.AutoLive.{force_shadow}
use tv_webhook_trader.Execution.Positions.{find_by_symbol_side, get}
use tv_webhook_trader.Execution.Engine.{
  Engine, EngineConfig, Moment, Sent, count_skip, count_risk_skip, count_rejected,
}
use tv_webhook_trader.Execution.Engine.Gates.{Stop, timeframe_of, entry_gate}
use tv_webhook_trader.Execution.Engine.Entry.{
  stopped, entry_request, registered, numbered, ordered, place_entry, with_port_risk,
  entry_proposal, after_gate, handle_entry,
}
use tv_webhook_trader.Execution.Engine.Closing.{
  held_side, book_tp, tp_closed, tp_match, handle_tp, book_sl, sl_closed, sl_match, handle_sl,
}
use tv_webhook_trader.Execution.Engine.Spot.{handle_spot_signal}
use tv_webhook_trader.Execution.Engine.Signals.{
  is_stale, has_fp, evict, is_spot, is_listed, tracked, routed, by_type, route, process_signal,
}

module _ {F : Type 0} ⦃d : Double F⦄ ⦃s : Sorter⦄ where
  -- The ways that an entry can take.
  pub handle_entry-cases :
      (P : Engine F × List (Sent F) → Type 0) (c : EngineConfig F) (m : Moment F)
      (sig : WebhookSignal F) (e : Engine F)
      → let r = check_entry m.clock (entry_proposal c m sig e) e.auto.port_risk in
        ((stop : Stop) → P (stopped m stop sig e, []))
        → P (count_risk_skip (with_port_risk e r.0), [])
        → (entry_gate c m sig e ≡ none
            → r.1.allowed ≡ true
            → P (place_entry c m sig e (with_port_risk e r.0)))
        → P (handle_entry c m sig e)
  unfolding handle_entry after_gate
  handle_entry-cases P c m sig e stop refused passed = elim (Option-cases (entry_gate c m sig e)) [
    | inl clear ↦
        let r = check_entry m.clock (entry_proposal c m sig e) e.auto.port_risk in
        elim (Bool-cases r.1.allowed) [
          | inl allowed ↦ rw (clear, allowed) (passed clear allowed)
          | inr blocked ↦ rw (clear, blocked) refused
        ]
    | inr (why, shut) ↦ rw shut (stop why)
  ]

module _ {F : Type 0} ⦃d : Double F⦄ where
  -- Behind the checks the order manager refuses the order, or a paper position is opened, or the order
  -- goes out.
  pub place_entry-cases :
      (P : Engine F × List (Sent F) → Type 0) (c : EngineConfig F) (m : Moment F)
      (sig : WebhookSignal F) (e0 e : Engine F)
      → P (count_rejected (record e { next_oid = e.next_oid + 1 }), [])
      → P (registered c m sig false e0 (numbered sig e), [])
      → (validate (entry_request c m sig e0) e.risk ≡ true
          → force_shadow (timeframe_of sig) sig e.auto ≡ false
          → P (ordered c m sig e0 e))
      → P (place_entry c m sig e0 e)
  unfolding place_entry
  place_entry-cases P c m sig e0 e rejected paper real =
      elim (Bool-cases (validate (entry_request c m sig e0) e.risk)) [
        | inl valid ↦ elim (Bool-cases (force_shadow (timeframe_of sig) sig e.auto)) [
          | inl shadow ↦ rw (valid, shadow) paper
          | inr live ↦ rw (valid, live) (real valid live)
        ]
        | inr invalid ↦ rw invalid rejected
      ]

  -- A take-profit leaves the engine as it is, or only an alert, or it is booked: on paper, or once the
  -- exchange has closed its part.
  pub handle_tp-cases :
      (P : Engine F → Type 0) (m : Moment F) (sig : WebhookSignal F) (e : Engine F)
      → let match = find_by_symbol_side sig.symbol (held_side sig) e.positions in
        P e
        → ((a : List Alert) → P (record e { alerts = a }))
        → ((p : ManagedPosition F)
            → lookup match.key e.positions ≡ some p
            → p.is_real ≡ false
            → P (book_tp false m sig match p e))
        → ((p : ManagedPosition F)
            → lookup match.key e.positions ≡ some p
            → tp_closed m sig match ≡ true
            → P (book_tp true m sig match p e))
        → P (handle_tp m sig e)
  unfolding handle_tp tp_match get
  handle_tp-cases P m sig e same alert paper real =
      let match = find_by_symbol_side sig.symbol (held_side sig) e.positions in
      elim (Bool-cases (not m.has_lock || is_empty match.key)) [
        | inl idle ↦ rw idle same
        | inr busy ↦ elim (Option-cases (lookup match.key e.positions)) [
          | inl gone ↦ rw (busy, gone) same
          | inr (p, found) ↦ elim (Bool-cases p.is_real) [
            | inl live ↦ elim (Bool-cases (tp_closed m sig match)) [
              | inl closed ↦ simp (busy, found, live, closed) (real p found closed)
              | inr kept ↦ simp (busy, found, live, kept) (alert _)
            ]
            | inr shadow ↦ simp (busy, found, shadow) (paper p found shadow)
          ]
        ]
      ]

  -- A stop-loss, in the same way.
  pub handle_sl-cases :
      (P : Engine F → Type 0) (m : Moment F) (sig : WebhookSignal F) (e : Engine F)
      → let match = find_by_symbol_side sig.symbol (held_side sig) e.positions in
        P e
        → ((a : List Alert) → P (record e { alerts = a }))
        → ((p : ManagedPosition F)
            → lookup match.key e.positions ≡ some p
            → p.is_real ≡ false
            → P (book_sl false m sig match p e))
        → ((p : ManagedPosition F)
            → lookup match.key e.positions ≡ some p
            → sl_closed m sig ≡ true
            → P (book_sl true m sig match p e))
        → P (handle_sl m sig e)
  unfolding handle_sl sl_match get
  handle_sl-cases P m sig e same alert paper real =
      let match = find_by_symbol_side sig.symbol (held_side sig) e.positions in
      elim (Bool-cases (not m.has_lock || is_empty match.key)) [
        | inl idle ↦ rw idle same
        | inr busy ↦ elim (Option-cases (lookup match.key e.positions)) [
          | inl gone ↦ rw (busy, gone) same
          | inr (p, found) ↦ elim (Bool-cases p.is_real) [
            | inl live ↦ elim (Bool-cases (sl_closed m sig)) [
              | inl closed ↦ simp (busy, found, live, closed) (real p found closed)
              | inr kept ↦ simp (busy, found, live, kept) (alert _)
            ]
            | inr shadow ↦ simp (busy, found, shadow) (paper p found shadow)
          ]
        ]
      ]

  module _ ⦃s : Sorter⦄ where
    -- A signal is dropped, or goes to the spot account, or to the handler of its type.
    pub process_signal-cases :
        (P : Engine F × List (Sent F) → Type 0) (c : EngineConfig F) (m : Moment F) (fp : ℕ)
        (sig : WebhookSignal F) (e : Engine F)
        → ((known : List (ℕ × ℕ))
            → P (count_skip (record (tracked m sig e) { recent_fingerprints = known }), []))
        → P (handle_spot_signal m sig (routed m fp sig e), [])
        → P (by_type sig.sig_type c m sig (routed m fp sig e))
        → P (process_signal c m fp sig e)
    unfolding process_signal route routed tracked
    process_signal-cases P c m fp sig e drop spot futures =
        let known = evict m.now_ns e.recent_fingerprints in
        elim (Bool-cases (is_stale m.now_ns sig)) [
          | inl stale ↦ rw stale (drop e.recent_fingerprints)
          | inr timely ↦ elim (Bool-cases (has_fp fp known)) [
            | inl again ↦ rw (timely, again) (drop known)
            | inr first ↦ elim (Bool-cases (is_valid sig)) [
              | inr bad ↦ rw (timely, first, bad) (drop _)
              | inl good ↦ elim (Bool-cases (is_spot sig)) [
                | inl on_spot ↦ rw (timely, first, good, on_spot) spot
                | inr on_futures ↦ elim (Bool-cases (is_listed c.allowed_symbols sig)) [
                  | inl listed ↦ rw (timely, first, good, on_futures, listed) futures
                  | inr other ↦ rw (timely, first, good, on_futures, other) (drop _)
                ]
              ]
            ]
          ]
        ]

    pub by_type-cases :
        (P : Engine F × List (Sent F) → Type 0) (t : SignalType) (c : EngineConfig F) (m : Moment F)
        (sig : WebhookSignal F) (e : Engine F)
        → P (handle_entry c m sig e)
        → P (handle_tp m sig e, [])
        → P (handle_sl m sig e, [])
        → P (e, [])
        → P (by_type t c m sig e)
    unfolding by_type
    by_type-cases P SignalType.entry c m sig e en tp sl other = en
    by_type-cases P SignalType.re_entry c m sig e en tp sl other = en
    by_type-cases P SignalType.tp c m sig e en tp sl other = tp
    by_type-cases P SignalType.sl c m sig e en tp sl other = sl
    by_type-cases P SignalType.unknown c m sig e en tp sl other = other
