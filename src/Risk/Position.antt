-- ===== src/Risk/Position.antt =====
-- include/risk/portfolio_risk.hpp: ManagedPosition, and what the portfolio's checks add up over the
-- map of positions. `opened_at` is a reading of the system clock in milliseconds.
use tv_webhook_trader.Shared.{
  ℕ, ◌+◌, Bool, true, false, ◌||◌, not, if◌then◌else◌, List, [], ◌∷◌, Text, codes, text_eq, ℤ,
}
use tv_webhook_trader.Shared.Double.{Double}

pub record ManagedPosition (F : Type 0) : Type 0 where
  pub symbol : Text
  pub timeframe : Text
  pub side : Text
  pub entry_price : F
  pub quantity : F
  pub leverage : ℤ
  pub sl_price : F
  pub tp1_price : F
  pub tier : Text
  pub strategy : Text
  pub opened_at : ℕ
  pub is_real : Bool
  pub exchange : Text
  pub market_type : Text

-- The map of positions, by key.
abbrev pub Positions : Type 0 → Type 0
Positions F = List (Text × ManagedPosition F)

unfoldable pub is_long_side : Text → Bool
is_long_side side = text_eq side (codes "long") || text_eq side (codes "buy")

-- Two directions are one if both are long or both are not.
abbrev pub same_direction : Bool → Bool → Bool
same_direction true b = b
same_direction false b = not b

module _ {F : Type 0} where
  unfoldable pub count_direction : Bool → Positions F → ℕ
  count_direction long [] = 0
  count_direction long ((_, p) ∷ ps) =
      (if same_direction long (is_long_side p.side) then 1 else 0) + count_direction long ps

  unfoldable pub count_timeframe : Text → Positions F → ℕ
  count_timeframe tf [] = 0
  count_timeframe tf ((_, p) ∷ ps) =
      (if text_eq p.timeframe tf then 1 else 0) + count_timeframe tf ps

module _ {F : Type 0} ⦃d : Double F⦄ where
  -- |entry * quantity| / leverage
  unfoldable pub margin_of : ManagedPosition F → F
  margin_of p = d.div (d.abs (d.mul p.entry_price p.quantity)) (d.of_int p.leverage)

  -- The sums start at `total` and go along the map.
  unfoldable pub timeframe_margin : Text → F → Positions F → F
  timeframe_margin tf total [] = total
  timeframe_margin tf total ((_, p) ∷ ps) =
      timeframe_margin tf (if text_eq p.timeframe tf then d.add total (margin_of p) else total) ps

  unfoldable pub total_margin : F → Positions F → F
  total_margin total [] = total
  total_margin total ((_, p) ∷ ps) = total_margin (d.add total (margin_of p)) ps
