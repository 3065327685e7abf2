-- ===== src/Execution/SpotShadow/Runs.antt =====
-- The spot tracker over any sequence of its calls.
use tv_webhook_trader.Shared.{
  ℕ, ◌+◌, ◌≤◌, ◌≡◌, refl, List, [], ◌∷◌, Text, length, fold, lookup, select,
}
use tv_webhook_trader.Shared.Double.{Double}
use tv_webhook_trader.Webhook.Signal.{WebhookSignal}
use tv_webhook_trader.Execution.SpotShadow.{
  SpotShadowTracker, fresh_tracker, get_grade, grade_of_key, compute_grade, save_state,
}
use tv_webhook_trader.Execution.SpotShadow.Calls.{track}
use tv_webhook_trader.Execution.SpotShadow.Grades.{IsUpToDate, track-IsUpToDate}

-- The calls that change the tracker.
pub data SpotCall (F : Type 0) : Type 0 where
  tracks : ℕ → WebhookSignal F → SpotCall F
  saves : SpotCall F

module _ {F : Type 0} ⦃d : Double F⦄ where
  unfoldable pub run : SpotShadowTracker F → List (SpotCall F) → SpotShadowTracker F
  run t [] = t
  run t (tracks now sig ∷ cs) = run (track now sig t) cs
  run t (saves ∷ cs) = run (save_state t) cs

  run-IsUpToDate :
      (t : SpotShadowTracker F) (cs : List (SpotCall F)) → IsUpToDate t → IsUpToDate (run t cs)
  unfolding run save_state get_grade
  run-IsUpToDate t [] v = v
  run-IsUpToDate t (tracks now sig ∷ cs) v =
      run-IsUpToDate (track now sig t) cs (track-IsUpToDate now sig t v)
  run-IsUpToDate t (saves ∷ cs) v =
      run-IsUpToDate (save_state t) cs
        (record { kept = v.kept; graded = v.graded; results = v.results })

  -- If any calls on a spot tracker that started with no file made at most 5000 closes, then every close, a
  -- partial one too, is a win or a loss and its trade is kept; and the cached grade of any key is the
  -- grade of the kept trades of that symbol, timeframe and exchange.
  pub run-fresh-get_grade :
      (cs : List (SpotCall F)) (key : Text)
      → (run fresh_tracker cs).total_closes ≤ 5000
      → let t = run fresh_tracker cs in
        (t.wins + t.losses ≡ t.total_closes)
        × (length t.trades ≡ t.total_closes)
        × (get_grade key t ≡ grade_of_key key t.trades)
  unfolding get_grade grade_of_key compute_grade fold lookup select
  run-fresh-get_grade cs key h =
      let v =
        run-IsUpToDate fresh_tracker cs
          (record { kept = λ h. refl; graded = λ h key. refl; results = refl }) in
      (v.results, v.kept h, v.graded h key)
