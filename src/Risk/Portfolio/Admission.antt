-- ===== src/Risk/Portfolio/Admission.antt =====
-- Which entries check_entry admits, and how it counts them.
use tv_webhook_trader.Shared.{
  ℕ, ◌+◌, ◌/◌, ◌-◌, ◌≡◌, ◌⊎◌, true, false, if◌then◌else◌, none, some, pos, leb_ℤ, ltb_ℤ, length,
  arith,
}
use tv_webhook_trader.Shared.Double.{Double, nought}
use tv_webhook_trader.Risk.Position.{
  is_long_side, count_direction, count_timeframe, timeframe_margin, total_margin,
}
use tv_webhook_trader.Risk.Portfolio.{
  PortfolioRisk, Now, check_cb_cooldown, check_daily_reset, percent_of, minute,
}
use tv_webhook_trader.Risk.Portfolio.Entry.{
  Proposal, Failure, timeframe_name, max_concurrent_now, max_same_direction_now, max_total_now,
  timeframe_limit, block, liquidation_price, new_margin, exposure_limit, max_margin_pct_now,
  breaker_check, first_checks, later_checks, conclude_breaker, check_entry,
}

-- The limits on the book of positions: no count has reached its limit, and no sum of margins, with
-- the new one, exceeds its share of the balance.
pub record IsWithin {F : Type 0} ⦃d : Double F⦄ (e : Proposal F) (m : PortfolioRisk F)
    : Type 0 where
  pub concurrent : leb_ℤ (max_concurrent_now m) (pos (length e.positions)) ≡ false
  pub direction :
      leb_ℤ (max_same_direction_now m) (pos (count_direction (is_long_side e.side) e.positions))
      ≡ false
  pub total : leb_ℤ (max_total_now m) (pos (length e.positions)) ≡ false
  pub timeframe :
      let tf = timeframe_name e.timeframe in
      leb_ℤ (timeframe_limit tf m) (pos (count_timeframe tf e.positions)) ≡ false
  pub exposure :
      let tf = timeframe_name e.timeframe in
      d.lt
        (exposure_limit tf e.balance m)
        (d.add (timeframe_margin tf nought e.positions) (new_margin e))
      ≡ false
  pub correlation :
      d.lt
        (percent_of e.balance m.config.max_corr_risk_pct)
        (d.mul (d.add (total_margin nought e.positions) (new_margin e)) m.config.corr_factor)
      ≡ false
  pub margin :
      d.lt
        (percent_of e.balance (max_margin_pct_now m))
        (d.add (total_margin nought e.positions) (new_margin e))
      ≡ false

-- The stop, where there is one, lies before the estimated liquidation.
abbrev pub StopHolds : {F : Type 0} ⦃d : Double F⦄ → Proposal F → Type 0
StopHolds ⦃d⦄ e =
    let long = is_long_side e.side in
    let liq = liquidation_price long e.price e.leverage in
    d.lt nought e.sl_price ≡ true
    → ltb_ℤ (pos 0) e.leverage ≡ true
    → (if long then d.lt e.sl_price liq else d.lt liq e.sl_price) ≡ false

module _ {F : Type 0} ⦃d : Double F⦄ where
  -- The breaker is off, or its cooldown is over.
  abbrev pub IsReleased : ℕ → PortfolioRisk F → Type 0
  IsReleased now m =
      (m.cb_active ≡ false)
      ⊎ (leb_ℤ m.config.cb_cooldown_min (pos ((now - m.cb_activated_at) / minute)) ≡ true)

  pub breaker_check-settings :
      (now : ℕ) (m : PortfolioRisk F)
      → ((breaker_check now m).0.config ≡ m.config)
        × ((breaker_check now m).0.shadow_mode ≡ m.shadow_mode)
        × ((breaker_check now m).0.checks_total ≡ m.checks_total)
        × ((breaker_check now m).0.checks_passed ≡ m.checks_passed)
        × ((breaker_check now m).0.checks_blocked ≡ m.checks_blocked)
        × ((breaker_check now m).0.block_reasons ≡ m.block_reasons)
  unfolding breaker_check check_cb_cooldown
  breaker_check-settings now m = ground arith

  pub reset_settings :
      (now : Now) (m : PortfolioRisk F)
      → let n = check_daily_reset now (record m { checks_total = m.checks_total + 1 }) in
        (n.config ≡ m.config)
        × (n.shadow_mode ≡ m.shadow_mode)
        × (n.checks_total ≡ m.checks_total + 1)
        × (n.checks_passed ≡ m.checks_passed)
        × (n.checks_blocked ≡ m.checks_blocked)
        × (n.block_reasons ≡ m.block_reasons)
        × (n.cb_active ≡ m.cb_active)
        × (n.cb_activated_at ≡ m.cb_activated_at)
  unfolding check_daily_reset
  reset_settings now m = ground arith

  -- The state in which check_entry makes its checks, and the one behind the breaker's.
  abbrev pub opened : Now → PortfolioRisk F → PortfolioRisk F
  opened now m = check_daily_reset now (record m { checks_total = m.checks_total + 1 })

  abbrev pub passed_breaker : Now → PortfolioRisk F → PortfolioRisk F
  passed_breaker now m = (breaker_check now.steady (opened now m)).0

  pub check_entry-some :
      (f : Failure) (now : Now) (e : Proposal F) (m : PortfolioRisk F)
      → first_checks e ≡ some f
      → check_entry now e m ≡ block f (opened now m)
  unfolding check_entry
  check_entry-some f now e m h = rw (h, check_entry)

  pub check_entry-none :
      (now : Now) (e : Proposal F) (m : PortfolioRisk F)
      → first_checks e ≡ none
      → check_entry now e m
        ≡ conclude_breaker
            (breaker_check now.steady (opened now m)).1
            (later_checks e (passed_breaker now m))
            (passed_breaker now m)
  unfolding check_entry
  check_entry-none now e m h = rw (h, check_entry)
