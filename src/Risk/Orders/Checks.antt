-- ===== src/Risk/Orders/Checks.antt =====
-- How losses stop all orders until the daily reset.
use tv_webhook_trader.Shared.{ℕ, ◌≡◌, refl, true, false, List, [], ◌∷◌, Text, arith}
use tv_webhook_trader.Shared.Double.{Double, nought}
use tv_webhook_trader.Core.Types.{OrderRequest}
use tv_webhook_trader.Risk.Orders.{
  RiskManager, validate, on_order_placed, on_order_done, on_position_opened, on_position_closed,
  update_pnl, reset_daily, set_allowed_symbols,
}

-- The calls that change the manager, but for the daily reset.
pub data Call (F : Type 0) : Type 0 where
  allows : List Text → Call F
  places : Call F
  finishes : Call F
  opens : Text → F → Text → Call F
  closes : Text → F → Call F
  books : F → Call F

module _ {F : Type 0} ⦃d : Double F⦄ where
  pub step : RiskManager F → Call F → RiskManager F
  step m (allows ss) = set_allowed_symbols ss m
  step m places = on_order_placed m
  step m finishes = on_order_done m
  step m (opens s q side) = on_position_opened s q side m
  step m (closes s pnl) = on_position_closed s pnl m
  step m (books pnl) = update_pnl pnl m

  pub run : RiskManager F → List (Call F) → RiskManager F
  run m [] = m
  run m (c ∷ cs) = run (step m c) cs

  -- The breaker goes with the losses of the day.
  step_breaker :
      (m : RiskManager F) (c : Call F)
      → m.circuit_breaker ≡ true
      → (step m c).circuit_breaker ≡ true
  unfolding step set_allowed_symbols on_order_placed on_order_done on_position_opened
      on_position_closed update_pnl
  step_breaker m (allows ss) h = h
  step_breaker m places h = h
  step_breaker m finishes h = h
  step_breaker m (opens s q side) h = h
  step_breaker m (closes s pnl) h = ground arith
  step_breaker m (books pnl) h = ground arith

  run_breaker :
      (m : RiskManager F) (cs : List (Call F))
      → m.circuit_breaker ≡ true
      → (run m cs).circuit_breaker ≡ true
  unfolding run
  run_breaker m [] h = h
  run_breaker m (c ∷ cs) h = run_breaker (step m c) cs (step_breaker m c h)

  validate-breaker :
      (req : OrderRequest F) (m : RiskManager F) → m.circuit_breaker ≡ true → validate req m ≡ false
  unfolding validate
  validate-breaker req m h = ground arith

  update_pnl_trips :
      (pnl : F) (m : RiskManager F)
      → d.lt pnl nought ≡ true
      → d.le m.limits.circuit_breaker_loss (d.sub m.daily_loss pnl) ≡ true
      → (update_pnl pnl m).circuit_breaker ≡ true
  unfolding update_pnl
  update_pnl_trips pnl m h k = ground arith

  -- A new day.
  abbrev pub IsReset : ℕ → RiskManager F → RiskManager F → Type 0
  IsReset now before after =
      (after.circuit_breaker ≡ false)
      × (after.daily_pnl ≡ nought)
      × (after.daily_loss ≡ nought)
      × (after.last_reset ≡ now)
      × (after.positions ≡ before.positions)
      × (after.open_orders ≡ before.open_orders)
      × (after.limits ≡ before.limits)
      × (after.allowed_symbols ≡ before.allowed_symbols)

  -- Once a loss brings the losses of the day to the breaker's limit, no order is accepted, whatever
  -- calls follow, until the daily reset; and the reset clears the breaker, the day's result and its
  -- losses, starts the next day at its own time, and keeps the positions, the open orders, the limits and
  -- the allowed symbols.
  pub breaker_stops_orders :
      (pnl : F) (m : RiskManager F) (cs : List (Call F)) (req : OrderRequest F) (now : ℕ)
      → d.lt pnl nought ≡ true
      → d.le m.limits.circuit_breaker_loss (d.sub m.daily_loss pnl) ≡ true
      → let stopped = run (update_pnl pnl m) cs in
        (validate req stopped ≡ false) × IsReset now stopped (reset_daily now stopped)
  unfolding reset_daily
  breaker_stops_orders pnl m cs req now h k = (
    validate-breaker req _ (run_breaker (update_pnl pnl m) cs (update_pnl_trips pnl m h k)),
    (refl, refl, refl, refl, refl, refl, refl, refl),
  )
