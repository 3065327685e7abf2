-- ===== src/Risk/Orders.antt =====
-- include/risk/risk_manager.hpp: class RiskManager. Every method is one critical section under
-- `m_mtx`; the two atomics are fields. Counters are integers that do not overflow, logging is left
-- out, and the steady clock is an argument in nanoseconds.
pub mod Checks
pub mod Counts
pub mod Tracking
use tv_webhook_trader.Shared.{
  ℕ, ◌+◌, ◌-◌, ◌*◌, Bool, true, false, not, ◌&&◌, ◌||◌, if◌then◌else◌, List, [], ◌∷◌, Option, none,
  some, Text, codes, contains, leb, ℤ, pos, ◌+ℤ◌, ◌-ℤ◌, leb_ℤ, lookup, insert, erase,
}
use tv_webhook_trader.Shared.Double.{Double, nought}
use tv_webhook_trader.Core.Types.{OrderRequest, TradeSide, open_side, close_side}

pub record RiskLimits (F : Type 0) : Type 0 where
  pub max_position_per_symbol : F
  pub max_daily_loss : F
  pub max_order_size : F
  pub max_open_orders : ℤ
  pub circuit_breaker_loss : F
  pub max_drawdown_pct : F

pub record PositionInfo (F : Type 0) : Type 0 where
  pub count : ℤ
  pub total_qty : F
  pub side : Text

pub record RiskManager (F : Type 0) : Type 0 where
  pub limits : RiskLimits F
  pub daily_pnl : F
  pub daily_loss : F
  pub open_orders : ℤ
  pub circuit_breaker : Bool
  pub positions : List (Text × PositionInfo F)
  pub allowed_symbols : List Text
  pub last_reset : ℕ

-- !m_allowed_symbols.empty() && the symbol is not in it
unfoldable pub is_barred : List Text → Text → Bool
is_barred [] symbol = false
is_barred (s ∷ ss) symbol = not (contains (s ∷ ss) symbol)

module _ {F : Type 0} where
  -- One position less; the entry goes when none is left.
  close_one :
      Text → Option (PositionInfo F) → List (Text × PositionInfo F) → List (Text × PositionInfo F)
  close_one symbol none ps = ps
  close_one symbol (some p) ps =
      let left = p.count -ℤ pos 1 in
      if leb_ℤ left (pos 0) then erase symbol ps else insert symbol (record p { count = left }) ps

module _ {F : Type 0} ⦃d : Double F⦄ where
  pub make_risk_manager : RiskLimits F → ℕ → RiskManager F
  make_risk_manager limits now = record {
    limits = limits;
    daily_pnl = nought;
    daily_loss = nought;
    open_orders = pos 0;
    circuit_breaker = false;
    positions = [];
    allowed_symbols = [];
    last_reset = now;
  }

  pub set_allowed_symbols : List Text → RiskManager F → RiskManager F
  set_allowed_symbols symbols m = record m { allowed_symbols = symbols }

  -- Only an opening order meets the limit on the positions of its symbol.
  unfoldable pub is_full : TradeSide → F → Option (PositionInfo F) → Bool
  is_full side limit none = false
  is_full open_side limit (some p) = d.le limit (d.of_int p.count)
  is_full close_side limit (some p) = false

  unfoldable pub validate : OrderRequest F → RiskManager F → Bool
  validate req m =
      let limits = m.limits in
      if m.circuit_breaker
      then false
      else if d.le req.quantity nought
      then false
      else if d.lt limits.max_order_size req.quantity
      then false
      else if leb_ℤ limits.max_open_orders m.open_orders
      then false
      else if is_barred m.allowed_symbols req.symbol
      then false
      else if is_full req.trade_side limits.max_position_per_symbol (lookup req.symbol m.positions)
      then false
      else if d.lt limits.max_daily_loss m.daily_loss
      then false
      else true

  unfoldable pub on_order_placed : RiskManager F → RiskManager F
  on_order_placed m = record m { open_orders = m.open_orders +ℤ pos 1 }

  unfoldable pub on_order_done : RiskManager F → RiskManager F
  on_order_done m = record m { open_orders = m.open_orders -ℤ pos 1 }

  -- m_positions[symbol], made anew if it is not there
  abbrev position_or_new : Option (PositionInfo F) → PositionInfo F
  position_or_new none = record { count = pos 0; total_qty = nought; side = codes "" }
  position_or_new (some p) = p

  unfoldable pub on_position_opened : Text → F → Text → RiskManager F → RiskManager F
  on_position_opened symbol qty side m =
      let p = position_or_new (lookup symbol m.positions) in
      record m {
        positions =
            insert symbol
              (record { count = p.count +ℤ pos 1; total_qty = d.add p.total_qty qty; side = side })
              m.positions;
      }

  pub update_pnl : F → RiskManager F → RiskManager F
  update_pnl pnl m =
      let loss = if d.lt pnl nought then d.sub m.daily_loss pnl else m.daily_loss in
      record m {
        daily_pnl = d.add m.daily_pnl pnl;
        daily_loss = loss;
        circuit_breaker =
            if d.le m.limits.circuit_breaker_loss loss then true else m.circuit_breaker;
      }

  pub on_position_closed : Text → F → RiskManager F → RiskManager F
  unfolding close_one update_pnl
  on_position_closed symbol pnl m =
      update_pnl pnl
        (record m { positions = close_one symbol (lookup symbol m.positions) m.positions })

  unfoldable pub reset_daily : ℕ → RiskManager F → RiskManager F
  reset_daily now m = record m {
    daily_pnl = nought;
    daily_loss = nought;
    circuit_breaker = false;
    last_reset = now;
  }

  -- 24 hours in nanoseconds
  pub needs_daily_reset : ℕ → RiskManager F → Bool
  needs_daily_reset now m = leb (24 * 3_600_000_000_000) (now - m.last_reset)

  sum_counts : List (Text × PositionInfo F) → ℤ → ℤ
  sum_counts [] total = total
  sum_counts ((_, p) ∷ ps) total = sum_counts ps (total +ℤ p.count)

  pub open_positions_count : RiskManager F → ℤ
  unfolding sum_counts
  open_positions_count m = sum_counts m.positions (pos 0)
