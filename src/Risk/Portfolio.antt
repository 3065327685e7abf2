-- ===== src/Risk/Portfolio.antt =====
-- include/risk/portfolio_risk.hpp: class PortfolioRiskManager, its state and the circuit breaker.
-- Every method is one critical section under `m_mtx`. The readings of the two clocks are arguments;
-- the constructor, which reads the configuration, is left out: the configuration is a record.
pub mod Entry
pub mod Admission
pub mod Breaker
pub mod Cooldown
pub mod Counting
pub mod Summary
use tv_webhook_trader.Shared.{
  ℕ, ◌+◌, ◌-◌, ◌*◌, ◌/◌, ◌==◌, Bool, true, false, not, ◌&&◌, if◌then◌else◌, List, [], ◌∷◌, ◌++◌,
  Option, none, some, Text, codes, ℤ, pos, ◌-ℤ◌, ◌*ℤ◌, leb_ℤ, ltb_ℤ, lookup, insert,
}
use tv_webhook_trader.Shared.Double.{Double, nought}

pub record PortfolioConfig (F : Type 0) : Type 0 where
  pub max_pos_total : ℤ
  pub max_concurrent : ℤ
  pub max_same_direction : ℤ
  pub shadow_max_pos_total : ℤ
  pub shadow_max_concurrent : ℤ
  pub shadow_max_same_dir : ℤ
  pub shadow_max_margin_pct : F
  pub live_min_tier : Text
  pub max_pos_per_tf : List (Text × ℤ)
  pub tf_exposure_pct : List (Text × F)
  pub corr_factor : F
  pub max_corr_risk_pct : F
  pub max_margin_usage_pct : F
  pub rapid_loss_window_min : ℤ
  pub rapid_loss_pct : F
  pub cb_daily_loss_pct : F
  pub cb_weekly_loss_pct : F
  pub cb_cooldown_min : ℤ

pub record PortfolioRisk (F : Type 0) : Type 0 where
  pub config : PortfolioConfig F
  pub daily_pnl : F
  pub weekly_pnl : F
  pub initial_balance : F
  pub cb_active : Bool
  pub cb_activated_at : ℕ
  pub last_day : ℤ
  pub last_week_day : ℤ
  pub recent_losses : List (ℕ × F)
  pub checks_total : ℕ
  pub checks_passed : ℕ
  pub checks_blocked : ℕ
  pub block_reasons : List (Text × ℕ)
  pub shadow_mode : Bool

-- The steady clock in nanoseconds, and the day of the year and of the week in UTC.
pub record Now : Type 0 where
  pub steady : ℕ
  pub yday : ℕ
  pub wday : ℕ

-- Equality of ints.
unfoldable pub eq_ℤ : ℤ → ℤ → Bool
eq_ℤ a b = leb_ℤ a b && leb_ℤ b a

abbrev pub minute : ℕ
minute = 60_000_000_000

module _ {F : Type 0} where
  unfoldable pub set_shadow_mode : Bool → PortfolioRisk F → PortfolioRisk F
  set_shadow_mode shadow m = record m { shadow_mode = shadow }

  unfoldable pub update_balance : F → PortfolioRisk F → PortfolioRisk F
  update_balance balance m = record m { initial_balance = balance }

  unfoldable pub activate_circuit_breaker : ℕ → PortfolioRisk F → PortfolioRisk F
  activate_circuit_breaker now m =
      if m.cb_active then m else record m { cb_active = true; cb_activated_at = now }

  -- Whole minutes since the breaker was activated; it is released when they reach the cooldown.
  unfoldable pub check_cb_cooldown : ℕ → PortfolioRisk F → PortfolioRisk F × Bool
  check_cb_cooldown now m =
      if leb_ℤ m.config.cb_cooldown_min (pos ((now - m.cb_activated_at) / minute))
      then (record m { cb_active = false }, true)
      else (m, false)

  -- m_recent_losses.front().first < now - window
  unfoldable pub prune_losses : ℤ → List (ℕ × F) → List (ℕ × F)
  prune_losses cutoff [] = []
  prune_losses cutoff ((t, loss) ∷ ls) =
      if ltb_ℤ (pos t) cutoff then prune_losses cutoff ls else (t, loss) ∷ ls

  pub prune_recent_losses : ℕ → PortfolioRisk F → PortfolioRisk F
  prune_recent_losses now m = record m {
    recent_losses =
        prune_losses (pos now -ℤ pos minute *ℤ m.config.rapid_loss_window_min) m.recent_losses;
  }

module _ {F : Type 0} ⦃d : Double F⦄ where
  unfoldable pub check_daily_reset : Now → PortfolioRisk F → PortfolioRisk F
  unfolding eq_ℤ
  check_daily_reset now m =
      let today = pos now.yday in
      let monday = now.wday == 1 && not (eq_ℤ today m.last_week_day) in
      if eq_ℤ today m.last_day then m else record m {
        daily_pnl = nought;
        last_day = today;
        weekly_pnl = if monday then nought else m.weekly_pnl;
        last_week_day = if monday then today else m.last_week_day;
      }

  pub sum_losses : F → List (ℕ × F) → F
  sum_losses total [] = total
  sum_losses total ((_, loss) ∷ ls) = sum_losses (d.add total loss) ls

  -- The limit of a loss: a percentage of the balance.
  abbrev pub percent_of : F → F → F
  percent_of amount pct = d.mul amount (d.div pct (d.decimal 100 0))

  -- if (figure < -limit) activate
  unfoldable pub trip_below : F → F → ℕ → PortfolioRisk F → PortfolioRisk F
  trip_below figure limit now m =
      if d.lt figure (d.neg limit) then activate_circuit_breaker now m else m

  unfoldable pub note_loss : ℕ → F → PortfolioRisk F → PortfolioRisk F
  unfolding prune_recent_losses sum_losses
  note_loss now pnl m =
      let pruned =
        prune_recent_losses now (record m { recent_losses = m.recent_losses ++ (now, pnl) ∷ [] }) in
      trip_below (sum_losses nought pruned.recent_losses)
        (percent_of pruned.initial_balance pruned.config.rapid_loss_pct) now pruned

  unfoldable pub on_trade_closed : Now → F → PortfolioRisk F → PortfolioRisk F
  on_trade_closed now pnl m0 =
      let m1 = check_daily_reset now m0 in
      let m2 = record m1 {
        daily_pnl = d.add m1.daily_pnl pnl;
        weekly_pnl = d.add m1.weekly_pnl pnl;
      } in
      let m3 = if d.lt pnl nought then note_loss now.steady pnl m2 else m2 in
      let m4 =
        trip_below m3.daily_pnl (percent_of m3.initial_balance m3.config.cb_daily_loss_pct)
          now.steady m3 in
      trip_below m4.weekly_pnl (percent_of m4.initial_balance m4.config.cb_weekly_loss_pct)
        now.steady m4
