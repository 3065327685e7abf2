-- ===== src/Risk/Portfolio/Entry.antt =====
-- include/risk/portfolio_risk.hpp: check_entry. A check that fails gives its name and its reason;
-- warnings to the log are left out.
use tv_webhook_trader.Shared.{
  ℕ, ◌+◌, Bool, true, false, ◌&&◌, not, if◌then◌else◌, ◌++◌, Option, none, some, Text, codes,
  is_empty, ℤ, pos, leb_ℤ, ltb_ℤ, lookup, insert, length,
}
use tv_webhook_trader.Shared.Decimal.{show_int}
use tv_webhook_trader.Shared.Double.{Double, nought}
use tv_webhook_trader.Risk.Position.{
  Positions, is_long_side, count_direction, count_timeframe, timeframe_margin, total_margin,
}
use tv_webhook_trader.Risk.Portfolio.{
  PortfolioRisk, Now, check_cb_cooldown, check_daily_reset, percent_of,
}

pub record RiskDecision : Type 0 where
  pub allowed : Bool
  pub reason : Text
  pub check_failed : Text

-- The arguments of check_entry.
pub record Proposal (F : Type 0) : Type 0 where
  pub symbol : Text
  pub timeframe : Text
  pub price : F
  pub qty : F
  pub leverage : ℤ
  pub balance : F
  pub positions : Positions F
  pub sl_price : F
  pub side : Text

-- The name of the check that failed, and why.
abbrev pub Failure : Type 0
Failure = Text × Text

-- The first failure, in order; the later checks are not read.
infixr 30 ◌or_else◌
abbrev pub ◌or_else◌ : Option Failure → Option Failure → Option Failure
none or_else r = r
some f or_else r = some f

abbrev pub fails_if : Bool → Text → Text → Option Failure
fails_if true check reason = some (check, reason)
fails_if false check reason = none

-- The entry's timeframe, under a name if it has none.
unfoldable pub timeframe_name : Text → Text
timeframe_name tf = if is_empty tf then codes "unknown" else tf

-- m.value(k, default)
abbrev pub found_or {ℓ} : {A : Type ℓ} → A → Option A → A
found_or a none = a
found_or a (some b) = b

module _ {F : Type 0} where
  unfoldable pub max_concurrent_now : PortfolioRisk F → ℤ
  max_concurrent_now m =
      if m.shadow_mode then m.config.shadow_max_concurrent else m.config.max_concurrent

  unfoldable pub max_same_direction_now : PortfolioRisk F → ℤ
  max_same_direction_now m =
      if m.shadow_mode then m.config.shadow_max_same_dir else m.config.max_same_direction

  unfoldable pub max_total_now : PortfolioRisk F → ℤ
  max_total_now m = if m.shadow_mode then m.config.shadow_max_pos_total else m.config.max_pos_total

  unfoldable pub timeframe_limit : Text → PortfolioRisk F → ℤ
  timeframe_limit tf m = found_or (pos 10) (lookup tf m.config.max_pos_per_tf)

  unfoldable pub concurrent_check : Proposal F → PortfolioRisk F → Option Failure
  concurrent_check e m =
      let total = pos (length e.positions) in
      let most = max_concurrent_now m in
      fails_if (leb_ℤ most total) (codes "max_concurrent_positions") (
        (if m.shadow_mode then codes "SHADOW " else codes "HARD ")
        ++ codes "LIMIT: "
        ++ show_int total
        ++ codes "/"
        ++ show_int most
        ++ codes " concurrent positions")

  unfoldable pub direction_check : Proposal F → PortfolioRisk F → Option Failure
  direction_check e m =
      let long = is_long_side e.side in
      let same = pos (count_direction long e.positions) in
      let most = max_same_direction_now m in
      fails_if (leb_ℤ most same) (codes "max_same_direction") (
        (if long then codes "long" else codes "short")
        ++ codes " concentration: "
        ++ show_int same
        ++ codes "/"
        ++ show_int most)

  unfoldable pub total_check : Proposal F → PortfolioRisk F → Option Failure
  total_check e m =
      let total = pos (length e.positions) in
      let most = max_total_now m in
      fails_if (leb_ℤ most total) (codes "max_positions")
        (codes "Max positions: " ++ show_int total ++ codes "/" ++ show_int most)

  unfoldable pub timeframe_check : Proposal F → PortfolioRisk F → Option Failure
  timeframe_check e m =
      let tf = timeframe_name e.timeframe in
      let count = pos (count_timeframe tf e.positions) in
      let most = timeframe_limit tf m in
      fails_if (leb_ℤ most count) (codes "tf_position_limit")
        (codes "TF " ++ tf ++ codes "m limit: " ++ show_int count ++ codes "/" ++ show_int most)

  -- block: the counters and the reason's own counter
  unfoldable pub block : Failure → PortfolioRisk F → PortfolioRisk F × RiskDecision
  block (check, reason) m = (
    record m {
      checks_blocked = m.checks_blocked + 1;
      block_reasons = insert check (found_or 0 (lookup check m.block_reasons) + 1) m.block_reasons;
    },
    record { allowed = false; reason = reason; check_failed = check },
  )

module _ {F : Type 0} ⦃d : Double F⦄ where
  abbrev pub fmt0 : F → Text
  fmt0 = d.fixed 0

  abbrev pub fmt2 : F → Text
  fmt2 = d.fixed 2

  abbrev pub hard_max_notional : F
  hard_max_notional = d.decimal 500 0

  unfoldable pub notional_check : Proposal F → Option Failure
  notional_check e =
      let notional = d.mul e.price e.qty in
      fails_if (d.lt hard_max_notional notional) (codes "hard_notional_cap")
        (codes "Notional " ++ fmt2 notional ++ codes " > hard max " ++ fmt2 hard_max_notional)

  -- Where a position of this leverage would be liquidated, by estimate.
  unfoldable pub liquidation_price : Bool → F → ℤ → F
  liquidation_price long price leverage =
      let part = d.div (d.decimal 9 1) (d.of_int leverage) in
      let one = d.decimal 1 0 in d.mul price (if long then d.sub one part else d.add one part)

  unfoldable pub liquidation_check : Proposal F → Option Failure
  liquidation_check e =
      let long = is_long_side e.side in
      let liq = liquidation_price long e.price e.leverage in
      let beyond = if long then d.lt e.sl_price liq else d.lt liq e.sl_price in
      fails_if ((d.lt nought e.sl_price && ltb_ℤ (pos 0) e.leverage) && beyond)
        (codes "sl_beyond_liquidation")
        (codes "SL "
          ++ fmt2 e.sl_price
          ++ (if long then codes " < est liq " else codes " > est liq ")
          ++ fmt2 liq
          ++ (if long then codes " (LONG " else codes " (SHORT ")
          ++ show_int e.leverage
          ++ codes "x)")

  abbrev pub new_margin : Proposal F → F
  new_margin e = d.div (d.mul e.price e.qty) (d.of_int e.leverage)

  unfoldable pub exposure_limit : Text → F → PortfolioRisk F → F
  exposure_limit tf balance m =
      percent_of balance (found_or (d.decimal 30 0) (lookup tf m.config.tf_exposure_pct))

  unfoldable pub exposure_check : Proposal F → PortfolioRisk F → Option Failure
  exposure_check e m =
      let tf = timeframe_name e.timeframe in
      let margin = d.add (timeframe_margin tf nought e.positions) (new_margin e) in
      let most = exposure_limit tf e.balance m in
      fails_if (d.lt most margin) (codes "tf_exposure")
        (codes "TF " ++ tf ++ codes "m margin: " ++ fmt0 margin ++ codes "/" ++ fmt0 most)

  unfoldable pub correlation_check : Proposal F → PortfolioRisk F → Option Failure
  correlation_check e m =
      let risk =
        d.mul (d.add (total_margin nought e.positions) (new_margin e)) m.config.corr_factor in
      let most = percent_of e.balance m.config.max_corr_risk_pct in
      fails_if (d.lt most risk) (codes "correlation_risk")
        (codes "Correlated risk: " ++ fmt0 risk ++ codes "/" ++ fmt0 most)

  unfoldable pub max_margin_pct_now : PortfolioRisk F → F
  max_margin_pct_now m =
      if m.shadow_mode then m.config.shadow_max_margin_pct else m.config.max_margin_usage_pct

  unfoldable pub margin_check : Proposal F → PortfolioRisk F → Option Failure
  margin_check e m =
      let margin = d.add (total_margin nought e.positions) (new_margin e) in
      let pct = max_margin_pct_now m in
      let most = percent_of e.balance pct in
      fails_if (d.lt most margin) (codes "margin_limit")
        (codes "Margin " ++ fmt0 pct ++ codes "%: " ++ fmt2 margin ++ codes "/" ++ fmt2 most)

  -- The breaker blocks unless its cooldown is over, which releases it.
  unfoldable pub breaker_check : ℕ → PortfolioRisk F → PortfolioRisk F × Option Failure
  breaker_check now m =
      let r = check_cb_cooldown now m in
      let why = codes "Circuit breaker active (daily PnL: " ++ fmt2 m.daily_pnl ++ codes ")" in
      if m.cb_active then (r.0, fails_if (not r.1) (codes "circuit_breaker") why) else (m, none)

  -- The checks before the breaker, and those behind it.
  unfoldable pub first_checks : Proposal F → Option Failure
  first_checks e = notional_check e or_else liquidation_check e

  unfoldable pub later_checks : Proposal F → PortfolioRisk F → Option Failure
  later_checks e m =
      concurrent_check e m
      or_else direction_check e m
      or_else total_check e m
      or_else timeframe_check e m
      or_else exposure_check e m
      or_else correlation_check e m
      or_else margin_check e m

  unfoldable pub conclude : Option Failure → PortfolioRisk F → PortfolioRisk F × RiskDecision
  unfolding block
  conclude (some f) m = block f m
  conclude none m = (
    record m { checks_passed = m.checks_passed + 1 },
    record { allowed = true; reason = codes ""; check_failed = codes "" },
  )

  unfoldable pub conclude_breaker :
      Option Failure → Option Failure → PortfolioRisk F → PortfolioRisk F × RiskDecision
  conclude_breaker (some f) later m = block f m
  conclude_breaker none later m = conclude later m

  unfoldable pub check_entry : Now → Proposal F → PortfolioRisk F → PortfolioRisk F × RiskDecision
  check_entry now e m0 =
      let m = check_daily_reset now (record m0 { checks_total = m0.checks_total + 1 }) in
      let b = breaker_check now.steady m in
      elim (first_checks e) [
        | some f ↦ block f m
        | none ↦ conclude_breaker b.1 (later_checks e b.0) b.0
      ]
