-- ===== src/Execution/Engine/RealOrders.antt =====
-- What stands behind every order that goes out.
use tv_webhook_trader.Shared.{
  ◌≤◌, ◌≡◌, refl, ◌⊎◌, inl, inr, true, false, not, ◌||◌, List, [], none, lookup, length, All, arith,
  Bool-cases,
}
use tv_webhook_trader.Shared.Double.{Double, nought}
use tv_webhook_trader.Shared.Sorter.{Sorter}
use tv_webhook_trader.Webhook.Signal.{WebhookSignal, has_tp1}
use tv_webhook_trader.Risk.FeeAnalyzer.{TpCheck}
use tv_webhook_trader.Risk.Orders.{validate}
use tv_webhook_trader.Risk.Portfolio.Entry.{check_entry}
use tv_webhook_trader.Execution.Shadow.Report.{get_symbol_report}
use tv_webhook_trader.Execution.GradeFilter.{passes_grade}
use tv_webhook_trader.Execution.AutoLive.{force_shadow, is_eligible}
use tv_webhook_trader.Execution.AutoLive.Fees.{target_check, passes_fees, passes_fees-target_check}
use tv_webhook_trader.Execution.Engine.{Engine, EngineConfig, Moment, Sent, entry_side}
use tv_webhook_trader.Execution.Engine.Gates.{
  timeframe_of, entry_tier, tier_meets_min, passes_live_tier, has_side, opposite, custom_ratio,
  entry_size, entry_gate,
}
use tv_webhook_trader.Execution.Engine.Entry.{
  handle_entry, entry_order, entry_request, entry_proposal, with_port_risk, send_order, ordered,
  is_unreached,
}
use tv_webhook_trader.Execution.Engine.Paths.{handle_entry-cases, place_entry-cases}

module _ {F : Type 0} ⦃d : Double F⦄ ⦃s : Sorter⦄ (c : EngineConfig F) (m : Moment F)
    (sig : WebhookSignal F) (e : Engine F) where
  -- What entry_gate has looked at when it lets an entry through.
  pub record IsThrough : Type 0 where
    pub tiered : passes_live_tier sig e ≡ true
    pub graded : passes_grade sig.symbol (get_symbol_report e.trackers.futures) ≡ true
    pub learned : m.learn.allowed ≡ true
    pub paying :
        passes_fees c.fee
          (timeframe_of sig)
          (custom_ratio (lookup (timeframe_of sig) c.tf_filters))
          sig
          e.auto
        ≡ true
    pub quantity : d.le (entry_size c sig e).qty nought ≡ false
    pub not_opposed : has_side sig.symbol (opposite (entry_side sig)) e.positions ≡ false
    pub not_held : has_side sig.symbol (entry_side sig) e.positions ≡ false

  entry_gate-IsThrough : entry_gate c m sig e ≡ none → IsThrough
  unfolding entry_gate
  entry_gate-IsThrough h = ground arith

  -- The target of the entry against its costs.
  abbrev pub entry_check : TpCheck F
  entry_check = target_check c.fee (custom_ratio (lookup (timeframe_of sig) c.tf_filters)) sig

  -- What is certain of an entry that goes out.
  pub record IsCleared : Type 0 where
    pub through : IsThrough
    pub live : e.auto.shadow_mode ≡ false
    pub eligible : not e.auto.auto_live_active || is_eligible (timeframe_of sig) sig e.auto ≡ true
    pub tier : tier_meets_min (entry_tier sig e.scorer) e.auto.port_risk.config.live_min_tier ≡ true
    pub target : has_tp1 sig ≡ true
    pub covers_costs : d.le entry_check.min_ratio entry_check.ratio ≡ true
    pub admitted :
        (check_entry m.clock (entry_proposal c m sig e) e.auto.port_risk).1.allowed ≡ true
    pub valid : validate (entry_request c m sig e) e.risk ≡ true

  force_shadow-live :
      force_shadow (timeframe_of sig) sig e.auto ≡ false
      → (e.auto.shadow_mode ≡ false)
        × (not e.auto.auto_live_active || is_eligible (timeframe_of sig) sig e.auto ≡ true)
  unfolding force_shadow
  force_shadow-live h = ground arith

  -- The same order, once or twice.
  abbrev pub IsOrder : List (Sent F) → Type 0
  IsOrder os = All (λ o. o ≡ entry_order c m sig e) os × (length os ≤ 2)

  send_order-IsOrder : IsOrder (send_order m (entry_order c m sig e)).1
  unfolding send_order
  send_order-IsOrder =
      let o = entry_order c m sig e in
      let first = m.place_futures_order o.request o.preset_tp o.preset_sl 1 in
      elim (Bool-cases (is_unreached first.status first.error_code)) [
        | inl again ↦ rw again ((refl, (refl, tt)), omega arith)
        | inr once ↦ rw once ((refl, tt), omega arith)
      ]

  entry-IsCleared :
      d.lt nought sig.price ≡ true
      → entry_gate c m sig e ≡ none
      → (check_entry m.clock (entry_proposal c m sig e) e.auto.port_risk).1.allowed ≡ true
      → validate (entry_request c m sig e) e.risk ≡ true
      → force_shadow (timeframe_of sig) sig e.auto ≡ false
      → IsCleared
  unfolding passes_live_tier
  entry-IsCleared price clear allowed valid real =
      let t = entry_gate-IsThrough clear in
      let ways = force_shadow-live real in
      let paid =
        passes_fees-target_check c.fee (timeframe_of sig)
          (custom_ratio (lookup (timeframe_of sig) c.tf_filters)) sig e.auto t.paying real price in
      record {
        through = t;
        live = ways.0;
        eligible = ways.1;
        tier = ground (arith, ways.0, t.tiered);
        target = paid.0;
        covers_costs = paid.2;
        admitted = allowed;
        valid = valid;
      }

  -- Whenever orders go out for an entry with a price above zero, they are that entry's order, sent once or
  -- twice, and: the engine is live and, where it went live by itself, the entry eligible; its tier meets
  -- the live minimum; its paper trades, the learner and the fees let it pass; its first target covers the
  -- costs; its symbol is held on neither side; and both risk managers admit it.
  pub handle_entry-IsCleared :
      d.lt nought sig.price ≡ true
      → ((handle_entry c m sig e).1 ≡ []) ⊎ (IsCleared × IsOrder (handle_entry c m sig e).1)
  unfolding ordered force_shadow is_eligible
  handle_entry-IsCleared price =
      let e1 =
        with_port_risk e (check_entry m.clock (entry_proposal c m sig e) e.auto.port_risk).0 in
      let P = λ (r : Engine F × List (Sent F)). (r.1 ≡ []) ⊎ (IsCleared × IsOrder r.1) in
      handle_entry-cases P c m sig e (λ stop. inl refl) (inl refl)
        λ clear allowed.
          place_entry-cases P c m sig e e1 (inl refl) (inl refl)
            λ valid real. inr (entry-IsCleared price clear allowed valid real, send_order-IsOrder)
