-- ===== src/Execution/Positions.antt =====
-- include/execution/position_manager.hpp: the operations of PositionManager on the map of open
-- positions and on the balance. `now` is a reading of the system clock in milliseconds. The two
-- functions that ask the exchange are in Exchange and Sync.
use tv_webhook_trader.Shared.{
  ℕ, ◌+◌, Bool, true, false, ◌&&◌, if◌then◌else◌, List, [], ◌∷◌, ◌++◌, Option, none, some, Text,
  codes, text_eq, ℤ, pos, ltb_ℤ, lookup, insert, erase,
}
use tv_webhook_trader.Shared.Decimal.{show_nat}
use tv_webhook_trader.Shared.Double.{Double, nought}
use tv_webhook_trader.Risk.Position.{ManagedPosition, Positions}
pub mod Keys
pub mod Lookup
pub mod Balance
pub mod Single
pub mod First
pub mod Exchange
pub mod Sync

pub record MatchResult (F : Type 0) : Type 0 where
  pub key : Text
  pub quantity : F

-- `pos` is none for a result that was not found, and holds the key with the position otherwise.
abbrev pub WsCloseResult : Type 0 → Type 0
WsCloseResult F = Option (Text × ManagedPosition F)

-- The arguments of register_position behind the timeframe.
pub record NewPosition (F : Type 0) : Type 0 where
  pub side : Text
  pub entry_price : F
  pub quantity : F
  pub leverage : ℤ
  pub sl_price : F
  pub tp1_price : F
  pub tier : Text
  pub strategy : Text
  pub is_real : Bool

unfoldable pub position_key : Text → Text → ℕ → Text
position_key symbol timeframe oid = symbol ++ b'_' ∷ timeframe ++ b'_' ∷ show_nat oid

module _ {F : Type 0} where
  -- pos.symbol == symbol && pos.side == side
  abbrev pub is_match : Text → Text → ManagedPosition F → Bool
  is_match symbol side p = text_eq p.symbol symbol && text_eq p.side side

  abbrev pub new_position : ℕ → Text → Text → NewPosition F → ManagedPosition F
  new_position now symbol timeframe new = record {
    symbol = symbol;
    timeframe = timeframe;
    side = new.side;
    entry_price = new.entry_price;
    quantity = new.quantity;
    leverage = new.leverage;
    sl_price = new.sl_price;
    tp1_price = new.tp1_price;
    tier = new.tier;
    strategy = new.strategy;
    opened_at = now;
    is_real = new.is_real;
    exchange = codes "bitget";
    market_type = codes "futures";
  }

  unfoldable pub register_position : ℕ → Text → Text → NewPosition F → ℕ → Positions F → Positions F
  register_position now symbol timeframe new oid ps =
      insert (position_key symbol timeframe oid) (new_position now symbol timeframe new) ps

  unfoldable pub remove : Text → Positions F → Option (ManagedPosition F) × Positions F
  remove key ps = elim (lookup key ps) [ none ↦ (none, ps) | some p ↦ (some p, erase key ps) ]

  unfoldable pub get : Text → Positions F → Option (ManagedPosition F)
  get key ps = lookup key ps

  -- Erasing at the iterator takes out the very entry that was found.
  unfoldable pub find_and_prepare_ws_close :
      Text → Text → Positions F → WsCloseResult F × Positions F
  find_and_prepare_ws_close symbol hold_side [] = (none, [])
  find_and_prepare_ws_close symbol hold_side ((key, p) ∷ ps) =
      let rest = find_and_prepare_ws_close symbol hold_side ps in
      if is_match symbol hold_side p then (some (key, p), ps) else (rest.0, (key, p) ∷ rest.1)

module _ {F : Type 0} ⦃d : Double F⦄ where
  unfoldable pub find_by_symbol_side : Text → Text → Positions F → MatchResult F
  find_by_symbol_side symbol side [] = record { key = []; quantity = nought }
  find_by_symbol_side symbol side ((key, p) ∷ ps) =
      if is_match symbol side p
      then record { key = key; quantity = p.quantity }
      else find_by_symbol_side symbol side ps

  unfoldable pub reduce_quantity : Text → F → Positions F → Positions F
  reduce_quantity key amount ps = elim (lookup key ps) [
    | none ↦ ps
    | some p ↦
        let left = d.sub p.quantity amount in
        if d.le left nought then erase key ps else insert key (record p { quantity = left }) ps
  ]

  -- m_balance and m_peak_balance
  unfoldable pub update_balance : F → F × F → F × F
  update_balance pnl (balance, peak) =
      let b = d.add balance pnl in (b, if d.lt peak b then b else peak)

  abbrev pub leverage_or : ℤ → ManagedPosition F → ℤ
  leverage_or default_leverage p = if ltb_ℤ (pos 0) p.leverage then p.leverage else default_leverage

  unfoldable pub used_margin_from : ℤ → F → Positions F → F
  used_margin_from default_leverage used [] = used
  used_margin_from default_leverage used ((_, p) ∷ ps) =
      used_margin_from default_leverage
        (d.add used
          (d.div (d.mul p.entry_price p.quantity) (d.of_int (leverage_or default_leverage p))))
        ps

  unfoldable pub calc_used_margin : ℤ → Positions F → F
  calc_used_margin default_leverage ps = used_margin_from default_leverage nought ps
