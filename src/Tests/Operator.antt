-- ===== src/Tests/Operator.antt =====
-- include/execution/execution_engine.hpp: what the operator asks for, and a signal that comes twice.
use tv_webhook_trader.Shared.{
  true, ◌+◌, ◌≡◌, refl, false, List, [], ◌∷◌, codes, text_eq, ℤ, pos, arith, ◌-ℤ◌, leb_ℤ, ltb_ℤ,
  ◌*◌, ◌/◌, ◌^◌, length,
}
use tv_webhook_trader.Shared.Double.{Double, whole}
use tv_webhook_trader.Shared.Sorter.{by_insertion}
use tv_webhook_trader.Webhook.Signal.{blank_signal}
use tv_webhook_trader.Execution.Engine.{Engine}
use tv_webhook_trader.Execution.Engine.Manual.{
  is_same, import_trades, close_all_positions, to_close,
}
use tv_webhook_trader.Execution.Engine.Manual.Imports.{AreNumbers, import_trades-again}
use tv_webhook_trader.Execution.Positions.First.{NoneHeld}
use tv_webhook_trader.Execution.Engine.Manual.Closes.{
  agreed, on_ws_position-OpensNone, close_all_positions-NoneHeld,
}
use tv_webhook_trader.Execution.Engine.Closing.{on_ws_position}
use tv_webhook_trader.Execution.Engine.{Moment}
use tv_webhook_trader.Execution.Engine.Signals.{
  Call, signal, ws_position, rescore, check, drops, syncs, run, process_signal, is_stale, has_fp,
  evict,
}
use tv_webhook_trader.Execution.Engine.Repeats.{IsDropped, process_signal-IsDropped}
use tv_webhook_trader.Tests.Execution.{account, trade}
use tv_webhook_trader.Tests.Readiness.{settings}
use tv_webhook_trader.Tests.Engine.{config, engine, moment, enters, stops, gone}

-- A double that keeps eight decimal places.
abbrev fine : Double ℤ
fine = record whole { decimal = λ n k. pos (n * 10 ^ 8 / 10 ^ k) }

-- The account has one of the two trades already.
abbrev accounted : Engine ℤ
accounted = record engine { recorder = record account { trades = trade (pos 3) ∷ [] } }

trade-AreNumbers : AreNumbers ⦃d = fine⦄ (trade (pos 3) ∷ trade (pos 5) ∷ [])
unfolding is_same text_eq ltb_ℤ leb_ℤ ◌-ℤ◌
trade-AreNumbers = (refl, (refl, tt))

import_trades-again_example :
    let trades = trade (pos 3) ∷ trade (pos 5) ∷ [] in
    let first = import_trades ⦃d = fine⦄ 1 (codes "now") trades accounted in
    import_trades ⦃d = fine⦄ 2 (codes "later") trades first.0 ≡ (first.0, 0)
import_trades-again_example =
    import_trades-again ⦃d = fine⦄ 1 2 (codes "now") (codes "later")
      (trade (pos 3) ∷ trade (pos 5) ∷ []) accounted trade-AreNumbers

-- The exchange closes whatever it is asked to, and meanwhile reports a position as gone by itself.
abbrev closing : Moment ℤ → Moment ℤ
closing m = record m { flash_close_position = λ symbol side n. true }

close_all_positions-NoneHeld_example :
    let r = close_all_positions (closing moment) (λ n. on_ws_position moment gone) engine in
    (r.1.closed ≡ agreed (closing moment) 1 (to_close engine.positions))
    × (r.1.closed + r.1.failed ≡ length engine.positions)
    × NoneHeld (codes "BTCUSDT") (codes "long") r.0.positions
close_all_positions-NoneHeld_example =
    close_all_positions-NoneHeld (closing moment) (λ n. on_ws_position moment gone) engine
      (codes "BTCUSDT") (codes "long") (λ n. refl)
      (on_ws_position-OpensNone moment gone (codes "BTCUSDT") (codes "long"))

enters-timely : is_stale 1000 enters ≡ false
unfolding is_stale blank_signal
enters-timely = ground arith

enters-new : has_fp 2 (evict 1000 []) ≡ false
unfolding has_fp evict
enters-new = ground arith

abbrev meanwhile : List (Call ℤ)
meanwhile =
    signal moment 1 stops
    ∷ ws_position moment gone
    ∷ rescore 1 (codes "now")
    ∷ check settings
    ∷ syncs 1 []
    ∷ drops (codes "BTCUSDT") (codes "long")
    ∷ []

process_signal-IsDropped_example :
    let between = (run config meanwhile (process_signal config moment 2 enters engine).0).0 in
    IsDropped config between (process_signal config moment 2 enters between)
process_signal-IsDropped_example =
    process_signal-IsDropped config moment moment 2 enters enters meanwhile engine enters-timely
      enters-new (omega arith, (tt, (tt, (tt, (tt, (tt, tt)))))) (omega arith) (omega arith)
