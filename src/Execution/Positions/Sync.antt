-- ===== src/Execution/Positions/Sync.antt =====
-- include/execution/position_manager.hpp: sync_positions_with_exchange. `ex` is the map of the exchange's
-- positions, by symbol and side; `now` is the system clock's reading in milliseconds. The loop that may
-- put a position under a new key walks over the keys that were there before: a position under a new key
-- is at the exchange, so a visit would leave it alone. Where that insertion rehashes the map, the
-- behaviour of the source is undefined.
use tv_webhook_trader.Shared.{
  ℕ, ◌-◌, ◌/◌, Bool, true, false, not, ◌&&◌, ◌||◌, if◌then◌else◌, List, [], ◌∷◌, ◌++◌, Option, none,
  some, Text, codes, text_eq, contains, last_n, length, ltb, leb, lookup, has_key, insert, erase,
  map,
}
use tv_webhook_trader.Shared.Double.{Double, nought}
use tv_webhook_trader.Shared.Json.{done, thrown, Json}
use tv_webhook_trader.Risk.Position.{ManagedPosition, Positions}
use tv_webhook_trader.Execution.Positions.Exchange.{ExchangePos, side_name, exchange_positions}
pub mod Keys
pub mod Verdict
pub mod Answers
pub mod Real

-- What the walk over the positions leaves: the positions, the keys to remove, and the symbols of which
-- a position changed its side.
pub record Sweep (F : Type 0) : Type 0 where
  pub positions : Positions F
  pub to_remove : List Text
  pub side_changed : List Text

-- The key of a position that came from the exchange.
abbrev pub ext_key : Text → Text → Text
ext_key symbol side = symbol ++ b'_' ∷ (side ++ codes "_ext")

-- key.size() > 4 && key.substr(key.size() - 4) == "_ext"
unfoldable pub is_ext : Text → Bool
is_ext key = ltb 4 (length key) && text_eq (last_n 4 key) (codes "_ext")

abbrev pub other_side : Text → Text
other_side side = if text_eq side (codes "long") then codes "short" else codes "long"

-- Four whole hours and more.
abbrev pub is_expired : ℕ → ℕ → Bool
is_expired now opened_at = leb 4 ((now - opened_at) / 3_600_000)

module _ {F : Type 0} where
  unfoldable pub is_there : List (Text × ExchangePos F) → ManagedPosition F → Bool
  is_there ex p = has_key (side_name p.symbol p.side) ex

  -- 0) A position that the exchange has is real.
  unfoldable pub marked : List (Text × ExchangePos F) → ManagedPosition F → ManagedPosition F
  marked ex p = if is_there ex p then record p { is_real = true } else p

  unfoldable pub mark_real : List (Text × ExchangePos F) → Positions F → Positions F
  mark_real ex ps = map (λ e. (e.0, marked ex e.1)) ps

  -- 1) The walk.
  unfoldable pub remove_later : Text → Sweep F → Sweep F
  remove_later key w = record w { to_remove = key ∷ w.to_remove }

  unfoldable pub turned : ExchangePos F → ManagedPosition F → ManagedPosition F
  turned ep p = record p {
    side = ep.hold_side;
    entry_price = ep.avg_price;
    quantity = ep.total;
    leverage = ep.leverage;
  }

  unfoldable pub turn : Text → ManagedPosition F → Option (ExchangePos F) → Sweep F → Sweep F
  turn key p none w = remove_later key w
  turn key p (some ep) w =
      let new_key = ext_key ep.symbol ep.hold_side in
      let here = insert key (turned ep p) w.positions in
      let changed = p.symbol ∷ w.side_changed in
      if text_eq new_key key
      then record w { positions = here; side_changed = changed }
      else record {
        positions = insert new_key (turned ep p) here;
        to_remove = key ∷ w.to_remove;
        side_changed = changed;
      }

  unfoldable pub visit :
      ℕ → List (Text × ExchangePos F) → Text → ManagedPosition F → Sweep F → Sweep F
  visit now ex key p w =
      if is_there ex p
      then w
      else if p.is_real && is_ext key
      then turn key p (lookup (side_name p.symbol (other_side p.side)) ex) w
      else if p.is_real || is_expired now p.opened_at
      then remove_later key w
      else w

  unfoldable pub visit_at :
      ℕ → List (Text × ExchangePos F) → Text → Option (ManagedPosition F) → Sweep F → Sweep F
  visit_at now ex key none w = w
  visit_at now ex key (some p) w = visit now ex key p w

  abbrev pub keys_of : Positions F → List Text
  keys_of ps = map (λ e. e.0) ps

  unfoldable pub sweep : ℕ → List (Text × ExchangePos F) → List Text → Sweep F → Sweep F
  sweep now ex [] w = w
  sweep now ex (key ∷ keys) w = sweep now ex keys (visit_at now ex key (lookup key w.positions) w)

  unfoldable pub erase_all : List Text → Positions F → Positions F
  erase_all [] ps = ps
  erase_all (key ∷ keys) ps = erase key (erase_all keys ps)

  -- The names of the positions that are held.
  unfoldable pub names_of : Positions F → List Text
  names_of ps = map (λ e. side_name e.1.symbol e.1.side) ps

module _ {F : Type 0} ⦃d : Double F⦄ where
  abbrev pub from_exchange : ℕ → ExchangePos F → ManagedPosition F
  from_exchange now ep = record {
    symbol = ep.symbol;
    timeframe = codes "ext";
    side = ep.hold_side;
    entry_price = ep.avg_price;
    quantity = ep.total;
    leverage = ep.leverage;
    sl_price = nought;
    tp1_price = nought;
    tier = codes "C";
    strategy = codes "unknown";
    opened_at = now;
    is_real = true;
    exchange = codes "bitget";
    market_type = codes "futures";
  }

  -- 2) What the exchange has and nobody holds. `names` and `changed` are from before the loop.
  unfoldable pub import_positions :
      ℕ → List Text → List Text → List (Text × ExchangePos F) → Positions F → Positions F
  import_positions now names changed [] ps = ps
  import_positions now names changed ((name, ep) ∷ ex) ps = import_positions now names changed ex (
      if contains changed ep.symbol || contains names name
      then ps
      else insert (ext_key ep.symbol ep.hold_side) (from_exchange now ep) ps)

  unfoldable pub reconcile : ℕ → List (Text × ExchangePos F) → Positions F → Positions F
  reconcile now ex ps =
      let real = mark_real ex ps in
      let w =
        sweep now ex (keys_of real)
          (record { positions = real; to_remove = []; side_changed = [] }) in
      let kept = erase_all w.to_remove w.positions in
      import_positions now (names_of kept) w.side_changed ex kept

  -- An error of the exchange and an exception leave the positions as they are.
  unfoldable pub sync_positions_with_exchange :
      {J : Type 0} → Json F J → ℕ → J → Positions F → Positions F
  sync_positions_with_exchange json now resp ps = elim (exchange_positions json resp) [
    | done (some ex) ↦ reconcile now ex ps
    | done none ↦ ps
    | thrown ↦ ps
  ]
