-- ===== src/Execution/Shadow/Runs.antt =====
-- The shadow tracker over any sequence of its calls.
use tv_webhook_trader.Shared.{ℕ, refl, List, [], ◌∷◌, Text, has_key, arith}
use tv_webhook_trader.Shared.Double.{Double}
use tv_webhook_trader.Webhook.Signal.{WebhookSignal}
use tv_webhook_trader.Execution.Trades.{count_wins, sum_pnl}
use tv_webhook_trader.Execution.Shadow.{
  ShadowTracker, save_state, track, mark_live_equivalent, fresh_tracker,
}
use tv_webhook_trader.Execution.Shadow.Sides.{IsOrderly, track-IsOrderly}
use tv_webhook_trader.Execution.Shadow.Books.{IsBooked, track-IsBooked}

-- The calls that change the tracker.
pub data Call (F : Type 0) : Type 0 where
  tracks : ℕ → WebhookSignal F → Call F
  marks : Text → Call F
  saves : Call F

module _ {F : Type 0} ⦃d : Double F⦄ where
  pub step : ShadowTracker F → Call F → ShadowTracker F
  step t (tracks now sig) = track now sig t
  step t (marks key) = mark_live_equivalent key t
  step t saves = save_state t

  pub run : ShadowTracker F → List (Call F) → ShadowTracker F
  run t [] = t
  run t (c ∷ cs) = run (step t c) cs

  pub record IsSound (t : ShadowTracker F) : Type 0 where
    pub orderly : IsOrderly t.positions
    pub booked : IsBooked t

  pub step-IsSound : (t : ShadowTracker F) (c : Call F) → IsSound t → IsSound (step t c)
  unfolding step mark_live_equivalent save_state
  step-IsSound t (tracks now sig) v = record {
    orderly = track-IsOrderly now sig t v.orderly;
    booked = track-IsBooked now sig t v.orderly.unique v.booked;
  }
  step-IsSound t (marks key) v = record { orderly = v.orderly; booked = ground arith }
  step-IsSound t saves v = record { orderly = v.orderly; booked = ground arith }

  run-IsSound : (t : ShadowTracker F) (cs : List (Call F)) → IsSound t → IsSound (run t cs)
  unfolding run
  run-IsSound t [] v = v
  run-IsSound t (c ∷ cs) v = run-IsSound (step t c) cs (step-IsSound t c v)

  -- After any calls on a tracker that started with no file: no symbol is held on both sides in one
  -- timeframe and no key stands twice; every entry is closed or open; every close is a win or a loss
  -- and was handed to the learner once; the sum of results is that of the closed trades in order, and
  -- the latest 5000 of them are kept; the same closes at most count as live-equivalent, each as a win
  -- or a loss.
  pub run-fresh-IsSound : (cs : List (Call F)) → IsSound (run fresh_tracker cs)
  unfolding has_key count_wins sum_pnl
  run-fresh-IsSound cs = run-IsSound fresh_tracker cs (record {
    orderly = record { unique = tt; one_sided = λ p. refl };
    booked = record {
      entries = refl;
      results = refl;
      handed = refl;
      won = refl;
      summed = refl;
      kept = refl;
      live_results = refl;
      live_fewer = omega arith;
    };
  })
