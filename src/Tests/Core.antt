-- ===== src/Tests/Core.antt =====
-- include/core on concrete inputs.
use tv_webhook_trader.Shared.{
  ℕ, ◌-◌, ◌≤◌, ◌≡◌, refl, true, false, List, [], ◌∷◌, ◌++◌, none, some, codes, ℤ, pos, arith,
  length, map, latest, contains, text_eq, leb_ℤ, ◌+ℤ◌, ◌*ℤ◌,
}
use tv_webhook_trader.Shared.Double.{nought, whole, whole-IsExact}
use tv_webhook_trader.Core.SignalQueue.{
  SignalQueue, notified, timed_out, wait_round, shutdown, returned,
}
use tv_webhook_trader.Core.SignalQueue.Schedule
use tv_webhook_trader.Core.SignalQueue.Draining.{wait_rounds, wait_rounds-shutdown}
use tv_webhook_trader.Core.SymbolLocks.Exclusion.{holders_exclusive}
use tv_webhook_trader.Core.SymbolLocks.Exclusion
use tv_webhook_trader.Core.SymbolLocks.{
  try_lock, wait_lock_enter, wait_lock_round, guard_end, unlock, remove,
}
use tv_webhook_trader.Core.RateLimiter.{RateLimiter, acquire}
use tv_webhook_trader.Core.RateLimiter.Bounds.{Call, ◌≼◌, grants, grants-le, IsFull}
use tv_webhook_trader.Core.RateLimiter.Waiting.{acquire-ends}
use tv_webhook_trader.Core.Alerts.{Alert, info, error, max_alerts, get_alerts, alert_row}
use tv_webhook_trader.Core.Alerts.Window.{push_all, get_alerts-push_all}

-- A queue for two items that three producers and three consumers use.
abbrev busy : List (Schedule.Event ℕ)
busy =
    Schedule.pushes 7
    ∷ Schedule.pushes 8
    ∷ Schedule.pushes 9
    ∷ Schedule.pops
    ∷ Schedule.shuts
    ∷ Schedule.waits timed_out
    ∷ Schedule.waits notified
    ∷ []

run-start_example :
    let h = Schedule.run (Schedule.start 2) busy in
    (h.accepted ≡ h.delivered ++ h.queue.items) × (length h.queue.items ≤ h.queue.max_cap)
run-start_example = Schedule.run-start-IsFifo 2 busy

abbrev half_full : SignalQueue ℕ
half_full = record { items = 7 ∷ []; max_cap = 2; is_shutdown = false }

wait_rounds_example :
    let s = shutdown half_full in
    ((wait_rounds (timed_out ∷ []) s).0 ≡ map (λ x. returned (some x)) half_full.items)
    × ((wait_rounds (timed_out ∷ []) s).1.items ≡ [])
    × (wait_round notified (wait_rounds (timed_out ∷ []) s).1
        ≡ ((wait_rounds (timed_out ∷ []) s).1, returned none))
wait_rounds_example = wait_rounds-shutdown half_full (timed_out ∷ []) notified refl

-- The second thread gets the lock once the first one has given it back.
abbrev handover : List Exclusion.Event
handover =
    Exclusion.tries 1 (codes "BTCUSDT")
    ∷ Exclusion.enters 2 (codes "BTCUSDT")
    ∷ Exclusion.ends 1 (codes "BTCUSDT")
    ∷ Exclusion.wakes 2 (codes "BTCUSDT") notified
    ∷ []

second_holds :
    Exclusion.holds (Exclusion.run Exclusion.start handover).holders 2 (codes "BTCUSDT") ≡ true
unfolding Exclusion.holds Exclusion.run Exclusion.step Exclusion.drop try_lock wait_lock_enter
    wait_lock_round guard_end unlock remove contains text_eq
second_holds = refl

holders_exclusive_example : let t : ℕ = 2 in t ≡ t
holders_exclusive_example =
    holders_exclusive handover 2 2 (codes "BTCUSDT") second_holds second_holds

-- Two tokens a second, five of ten at the start; three calls in three seconds.
abbrev bucket : RateLimiter ℤ
bucket = record { rate = pos 2; max_tokens = pos 10; tokens = pos 5; last_refill = 0 }

abbrev calls : List Call
calls = (pos 4, 1) ∷ (pos 3, 2) ∷ (pos 9, 3) ∷ []

bucket-IsFull : IsFull bucket
unfolding leb_ℤ
bucket-IsFull = record { rate_nonneg = refl; cap_nonneg = refl; nonneg = refl }

grants_example :
    let g = grants calls nought bucket in g.0 ≼ (pos 5 +ℤ pos (g.1.last_refill - 0) *ℤ pos 2)
grants_example =
    grants-le whole-IsExact calls bucket bucket-IsFull
      (omega arith, (omega arith, (omega arith, tt)))

abbrev alerts : List Alert
alerts =
    record {
      timestamp = codes "1";
      level = info;
      category = codes "RISK";
      message = codes "a";
      symbol = codes "";
    }
    ∷ record {
      timestamp = codes "2";
      level = error;
      category = codes "API";
      message = codes "b";
      symbol = codes "";
    }
    ∷ []

get_alerts_example :
    (push_all alerts [] ≡ latest max_alerts alerts)
    × (length (push_all alerts []) ≤ max_alerts)
    × (get_alerts (pos 1) (push_all alerts [])
        ≡ map alert_row (latest 1 (latest max_alerts alerts)))
get_alerts_example = get_alerts-push_all 1 alerts

bucket-fits : pos 9 ≼ bucket.max_tokens
unfolding leb_ℤ
bucket-fits = refl

bucket-earns : pos 9 ≼ (pos 5 +ℤ pos 3 *ℤ pos 2)
unfolding leb_ℤ ◌+ℤ◌ ◌*ℤ◌
bucket-earns = refl

-- Nine tokens are there at the second attempt.
acquire-ends_example :
    (r : RateLimiter ℤ) × (k : ℕ) × (acquire (pos 9) (1 ∷ 2 ∷ 3 ∷ []) bucket ≡ some (r, k))
    × (k ≤ 2)
acquire-ends_example =
    acquire-ends whole-IsExact (pos 9) 1 (2 ∷ 3 ∷ []) bucket bucket-fits
      (omega arith, (omega arith, (omega arith, tt))) bucket-earns
