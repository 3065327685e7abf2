-- ===== src/Execution/Engine/Manual.antt =====
-- include/execution/execution_engine.hpp: what the operator asks for on the dashboard,
-- close_all_positions and import_trades.
use tv_webhook_trader.Shared.{
  ℕ, ◌+◌, Bool, true, false, ◌&&◌, ◌||◌, if◌then◌else◌, List, [], ◌∷◌, ◌++◌, Option, none, some,
  Text, codes, text_eq, is_empty, ltb,
}
use tv_webhook_trader.Shared.Double.{Double, nought}
use tv_webhook_trader.Risk.Position.{ManagedPosition, Positions}
use tv_webhook_trader.Risk.Scorer.Scoring.{rescore_all}
use tv_webhook_trader.Execution.Trades.{TradeRecord, Recorder, record_close}
use tv_webhook_trader.Execution.Positions.{find_and_prepare_ws_close}
use tv_webhook_trader.Execution.Engine.{Engine, Moment}
pub mod Closes
pub mod Imports

-- How many positions the exchange closed, and how many it did not.
pub record CloseCounts : Type 0 where
  pub closed : ℕ
  pub failed : ℕ

module _ {F : Type 0} where
  -- The symbols and sides of all positions, on paper or real.
  unfoldable pub to_close : Positions F → List (Text × Text)
  to_close [] = []
  to_close ((_, p) ∷ ps) = (p.symbol, p.side) ∷ to_close ps

module _ {F : Type 0} ⦃d : Double F⦄ where
  abbrev pub book_manual : Option (Text × ManagedPosition F) → Recorder F → Recorder F
  book_manual none r = r
  book_manual (some (_, p)) r = (record_close p p.entry_price (codes "MANUAL_CLOSE_ALL") nought r).0

  -- Under the lock, once the exchange has closed the position. The first position of the symbol and the
  -- side is taken out as find_and_prepare_ws_close does it.
  unfoldable pub drop_closed : Text → Text → Engine F → Engine F
  drop_closed symbol side e =
      let r = find_and_prepare_ws_close symbol side e.positions in
      record e { recorder = book_manual r.0 e.recorder; positions = r.1 }

  -- `n` counts the rounds of the loop. Each round takes the lock for itself, once the exchange has
  -- answered; `others n` is what the other threads do to the engine between the lock before and that one.
  unfoldable pub close_rounds :
      Moment F
      → (ℕ → Engine F → Engine F)
      → ℕ
      → List (Text × Text)
      → Engine F
      → Engine F × CloseCounts
  close_rounds m others n [] e = (e, record { closed = 0; failed = 0 })
  close_rounds m others n ((symbol, side) ∷ xs) e =
      let ok = m.flash_close_position symbol side n in
      let met = others n e in
      let rest =
        close_rounds m others (n + 1) xs (if ok then drop_closed symbol side met else met) in
      let c = rest.1 in
      (
        rest.0,
        record {
          closed = if ok then c.closed + 1 else c.closed;
          failed = if ok then c.failed else c.failed + 1;
        },
      )

  unfoldable pub close_all_positions :
      Moment F → (ℕ → Engine F → Engine F) → Engine F → Engine F × CloseCounts
  close_all_positions m others e = close_rounds m others 1 (to_close e.positions) e

  abbrev pub is_near : F → F → Bool
  is_near x y = d.lt (d.abs (d.sub x y)) (d.decimal 1 8)

  unfoldable pub is_same : TradeRecord F → TradeRecord F → Bool
  is_same ext t =
      text_eq t.symbol ext.symbol
      && is_near t.pnl ext.pnl
      && is_near t.entry_price ext.entry_price
      && is_near t.exit_price ext.exit_price

  unfoldable pub is_duplicate : TradeRecord F → List (TradeRecord F) → Bool
  is_duplicate ext [] = false
  is_duplicate ext (t ∷ ts) = is_same ext t || is_duplicate ext ts

  -- A trade that the loop passes over.
  unfoldable pub is_passed : TradeRecord F → Recorder F → Bool
  is_passed ext r = is_empty ext.symbol || is_duplicate ext r.trades

  abbrev pub kept_trade : TradeRecord F → Recorder F → Recorder F
  kept_trade ext r = record r { trades = r.trades ++ ext ∷ []; learned = r.learned ++ ext ∷ [] }

  -- The loop of import_trades: the recorder, and the number of imported trades.
  unfoldable pub import_rounds : List (TradeRecord F) → Recorder F → Recorder F × ℕ
  import_rounds [] r = (r, 0)
  import_rounds (ext ∷ exts) r =
      let rest = import_rounds exts (if is_passed ext r then r else kept_trade ext r) in
      (rest.0, if is_passed ext r then rest.1 else rest.1 + 1)

  unfoldable pub import_trades : ℕ → Text → List (TradeRecord F) → Engine F → Engine F × ℕ
  import_trades now time exts e =
      let r = import_rounds exts e.recorder in
      if ltb 0 r.1
      then (record e { recorder = r.0; scorer = rescore_all now time r.0.trades e.scorer }, r.1)
      else (record e { recorder = r.0 }, 0)
