-- ===== src/Tests/SpotShadow.antt =====
-- include/execution/spot_shadow_tracker.hpp on concrete inputs.
use tv_webhook_trader.Shared.{
  ◌+◌, ◌≤◌, ◌≡◌, refl, ltb_ℤ, leb_ℤ, ◌*ℤ◌, ◌-ℤ◌, ◌+ℤ◌, List, [], ◌∷◌, codes, length, ℤ, has_key,
  text_eq, insert, lookup, pos, arith,
}
use tv_webhook_trader.Shared.Double.{whole, min_of}
use tv_webhook_trader.Webhook.Signal.{WebhookSignal, blank_signal, entry, tp, sl}
use tv_webhook_trader.Execution.SpotShadow.{
  fresh_tracker, get_grade, grade_of_key, find_position, make_key, is_followed, maybe_save,
  book_trade, refresh_grade, partial_close, close_position, save_state,
}
use tv_webhook_trader.Execution.SpotShadow.Calls.{
  track, track_type, track_entry, track_tp, track_sl,
}
use tv_webhook_trader.Execution.SpotShadow.Runs.{SpotCall, tracks, saves, run, run-fresh-get_grade}

abbrev buys : WebhookSignal ℤ
buys = record (blank_signal 0) {
  symbol = codes "BTCKRW";
  timeframe = codes "60";
  sig_type = entry;
  action = codes "buy";
  signal_direction = codes "bull";
  price = pos 100;
  sl = pos 90;
  tp1 = pos 120;
  exchange = codes "upbit";
  market_type = codes "spot";
}

abbrev first_target : WebhookSignal ℤ
first_target = record buys { sig_type = tp; tp_level = codes "TP1"; price = pos 120 }

abbrev day : List (SpotCall ℤ)
day =
    tracks 1000 buys
    ∷ tracks 2000 first_target
    ∷ saves
    ∷ tracks 3000 (record buys { sig_type = sl; price = pos 110 })
    ∷ []

two_closes : (run fresh_tracker day).total_closes ≡ 2
unfolding run track track_type track_entry track_tp track_sl find_position make_key is_followed
    has_key text_eq maybe_save insert lookup book_trade refresh_grade partial_close close_position
    save_state leb_ℤ ltb_ℤ ◌*ℤ◌ ◌-ℤ◌ ◌+ℤ◌ min_of
two_closes = refl

few_closes : (run fresh_tracker day).total_closes ≤ 5000
few_closes = omega (arith, two_closes)

run-fresh-get_grade_example :
    let t = run fresh_tracker day in
    (t.wins + t.losses ≡ t.total_closes)
    × (length t.trades ≡ t.total_closes)
    × (get_grade (codes "BTCKRW:60:upbit") t ≡ grade_of_key (codes "BTCKRW:60:upbit") t.trades)
run-fresh-get_grade_example = run-fresh-get_grade day (codes "BTCKRW:60:upbit") few_closes
