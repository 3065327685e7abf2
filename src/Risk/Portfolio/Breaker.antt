-- ===== src/Risk/Portfolio/Breaker.antt =====
-- The circuit breaker over time.
use tv_webhook_trader.Shared.{
  ℕ, ◌≤◌, ◌≡◌, refl, ap, ◌⊎◌, Bool, true, false, not, if◌then◌else◌, List, [], ◌∷◌, ℤ, pos, ltb_ℤ,
  arith, select,
}
use tv_webhook_trader.Shared.Double.{Double, nought}
use tv_webhook_trader.Risk.Portfolio.{
  PortfolioRisk, Now, activate_circuit_breaker, prune_losses, check_daily_reset, trip_below,
  percent_of, note_loss, on_trade_closed, prune_recent_losses,
}

ltb_later :
    (cutoff : ℤ) (t u : ℕ) → t ≤ u → ltb_ℤ (pos t) cutoff ≡ false → ltb_ℤ (pos u) cutoff ≡ false
unfolding ltb_ℤ
ltb_later cutoff t u h k = ground arith

module _ {F : Type 0} where
  -- The losses are kept in the order in which they came.
  abbrev pub IsTimed : List (ℕ × F) → Type 0
  IsTimed [] = Unit
  IsTimed ((t, l) ∷ []) = Unit
  IsTimed ((t, l) ∷ (u, k) ∷ ls) = (t ≤ u) × IsTimed ((u, k) ∷ ls)

  IsTimed-tail : (t : ℕ) (l : F) (ls : List (ℕ × F)) → IsTimed ((t, l) ∷ ls) → IsTimed ls
  IsTimed-tail t l [] v = tt
  IsTimed-tail t l ((u, k) ∷ ls) v = v.1

  abbrev pub is_recent : ℤ → ℕ × F → Bool
  is_recent cutoff (t, l) = not (ltb_ℤ (pos t) cutoff)

  later_recent :
      (cutoff : ℤ) (t : ℕ) (l : F) (ls : List (ℕ × F))
      → IsTimed ((t, l) ∷ ls)
      → ltb_ℤ (pos t) cutoff ≡ false
      → select (is_recent cutoff) ls ≡ ls
  unfolding select
  later_recent cutoff t l [] v h = refl
  later_recent cutoff t l ((u, k) ∷ ls) v h =
      let next : ltb_ℤ (pos u) cutoff ≡ false = ltb_later cutoff t u v.0 h in
      rw next (ap (◌∷◌ (u, k)) (later_recent cutoff u k ls v.1 next))

  -- Popping old losses off the front keeps exactly those inside the window.
  pub prune_losses-select :
      (cutoff : ℤ) (ls : List (ℕ × F))
      → IsTimed ls
      → prune_losses cutoff ls ≡ select (is_recent cutoff) ls
  unfolding prune_losses select
  prune_losses-select cutoff [] v = refl
  prune_losses-select cutoff ((t, l) ∷ ls) v =
      ground
        (arith, prune_losses-select cutoff ls (IsTimed-tail t l ls v), later_recent cutoff t l ls v)

module _ {F : Type 0} ⦃d : Double F⦄ where
  trip_below-on :
      (figure limit : F) (now : ℕ) (m : PortfolioRisk F)
      → (m.cb_active ≡ true) ⊎ (d.lt figure (d.neg limit) ≡ true)
      → (trip_below figure limit now m).cb_active ≡ true
  unfolding trip_below activate_circuit_breaker
  trip_below-on figure limit now m h = ground arith

  trip_below-same :
      (figure limit : F) (now : ℕ) (m : PortfolioRisk F)
      → let n = trip_below figure limit now m in
        (n.daily_pnl ≡ m.daily_pnl)
        × (n.weekly_pnl ≡ m.weekly_pnl)
        × (n.initial_balance ≡ m.initial_balance)
        × (n.config ≡ m.config)
        × (m.cb_active ≡ true → n.cb_activated_at ≡ m.cb_activated_at)
        × (m.cb_active ≡ false
            → n.cb_active ≡ true
            → (n.cb_activated_at ≡ now) × (d.lt figure (d.neg limit) ≡ true))
  unfolding trip_below activate_circuit_breaker
  trip_below-same figure limit now m = ground arith

  note_loss-same :
      (now : ℕ) (pnl : F) (m : PortfolioRisk F)
      → let n = note_loss now pnl m in
        (n.daily_pnl ≡ m.daily_pnl)
        × (n.weekly_pnl ≡ m.weekly_pnl)
        × (n.initial_balance ≡ m.initial_balance)
        × (n.config ≡ m.config)
        × (m.cb_active ≡ true → (n.cb_active ≡ true) × (n.cb_activated_at ≡ m.cb_activated_at))
        × (m.cb_active ≡ false → n.cb_active ≡ true → n.cb_activated_at ≡ now)
  unfolding note_loss trip_below activate_circuit_breaker prune_recent_losses
  note_loss-same now pnl m = ground arith

  reset_same :
      (now : Now) (m : PortfolioRisk F)
      → let n = check_daily_reset now m in
        (n.config ≡ m.config)
        × (n.initial_balance ≡ m.initial_balance)
        × (n.cb_active ≡ m.cb_active)
        × (n.cb_activated_at ≡ m.cb_activated_at)
  unfolding check_daily_reset
  reset_same now m = ground arith

  -- The state behind the day's reset and the two sums, and the one behind the loss's own check.
  abbrev booked : Now → F → PortfolioRisk F → PortfolioRisk F
  booked now pnl m =
      let n = check_daily_reset now m in
      record n { daily_pnl = d.add n.daily_pnl pnl; weekly_pnl = d.add n.weekly_pnl pnl }

  abbrev noted : Now → F → PortfolioRisk F → PortfolioRisk F
  noted now pnl m =
      if d.lt pnl nought then note_loss now.steady pnl (booked now pnl m) else booked now pnl m

  noted_same :
      (now : Now) (pnl : F) (m : PortfolioRisk F)
      → let n = noted now pnl m in
        (n.daily_pnl ≡ d.add (check_daily_reset now m).daily_pnl pnl)
        × (n.weekly_pnl ≡ d.add (check_daily_reset now m).weekly_pnl pnl)
        × (n.initial_balance ≡ m.initial_balance)
        × (n.config ≡ m.config)
        × (m.cb_active ≡ true → (n.cb_active ≡ true) × (n.cb_activated_at ≡ m.cb_activated_at))
        × (m.cb_active ≡ false → n.cb_active ≡ true → n.cb_activated_at ≡ now.steady)
  noted_same now pnl m =
      ground (arith, reset_same now m, note_loss-same now.steady pnl (booked now pnl m))

  -- A closed trade trips the breaker when the figure of the day or of the week, with it, falls below
  -- its limit. A breaker that is on stays on with its time; one that goes on takes the time of the
  -- call.
  pub on_trade_closed_lem :
      (now : Now) (pnl : F) (m : PortfolioRisk F)
      → let before = check_daily_reset now m in
        let n = on_trade_closed now pnl m in
        (d.lt
              (d.add before.daily_pnl pnl)
              (d.neg (percent_of m.initial_balance m.config.cb_daily_loss_pct))
            ≡ true
          → n.cb_active ≡ true)
        × (d.lt
                (d.add before.weekly_pnl pnl)
                (d.neg (percent_of m.initial_balance m.config.cb_weekly_loss_pct))
              ≡ true
            → n.cb_active ≡ true)
        × (m.cb_active ≡ true → (n.cb_active ≡ true) × (n.cb_activated_at ≡ m.cb_activated_at))
        × (m.cb_active ≡ false → n.cb_active ≡ true → n.cb_activated_at ≡ now.steady)
        × (n.config ≡ m.config)
  unfolding on_trade_closed trip_below activate_circuit_breaker
  on_trade_closed_lem now pnl m = ground (arith, noted_same now pnl m)
