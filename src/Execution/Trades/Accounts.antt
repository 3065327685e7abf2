-- ===== src/Execution/Trades/Accounts.antt =====
-- The balance, its peak and the kept trades after any number of closed trades.
use tv_webhook_trader.Shared.{
  ◌-◌, ◌≤◌, ◌≡◌, refl, ap, ◌∙◌, false, List, [], ◌∷◌, ◌++◌, length, latest, cap_to-latest,
  latest-step, length-drop, arith,
}
use mathlib.Core.List.{append-nil, append_assoc}
use tv_webhook_trader.Shared.Double.{Double, IsStrict}
use tv_webhook_trader.Execution.Trades.{
  TradeRecord, Recorder, max_trades, cap_trades, record_trade, count_wins, sum_pnl,
}

cap_trades-latest : {F : Type 0} (l : List (TradeRecord F)) → cap_trades l ≡ latest max_trades l
unfolding cap_trades
cap_trades-latest l = cap_to-latest max_trades l

module _ {F : Type 0} ⦃d : Double F⦄ where
  pub record_all : List (TradeRecord F) → Recorder F → Recorder F
  record_all [] r = r
  record_all (t ∷ ts) r = record_all ts (record_trade t r)

  record_all-trades :
      (ts h : List (TradeRecord F)) (r : Recorder F)
      → r.trades ≡ latest max_trades h
      → (record_all ts r).trades ≡ latest max_trades (h ++ ts)
  unfolding record_all record_trade
  record_all-trades [] h r e = rw append-nil e
  record_all-trades (t ∷ ts) h r e =
      let kept : cap_trades (r.trades ++ t ∷ []) ≡ latest max_trades (h ++ t ∷ []) =
        cap_trades-latest _
        ∙ ap (λ l. latest max_trades (l ++ t ∷ [])) e
        ∙ latest-step max_trades h t in
      record_all-trades ts (h ++ t ∷ []) (record_trade t r) kept
      ∙ ap (latest max_trades) (append_assoc h (t ∷ []) ts)

  record_all-figures :
      (ts : List (TradeRecord F)) (r : Recorder F)
      → ((record_all ts r).balance ≡ sum_pnl r.balance ts)
        × ((record_all ts r).learned ≡ r.learned ++ ts)
  unfolding record_all record_trade sum_pnl
  record_all-figures [] r = (refl, rw append-nil)
  record_all-figures (t ∷ ts) r =
      let ih = record_all-figures ts (record_trade t r) in
      (ih.0, ih.1 ∙ append_assoc r.learned (t ∷ []) ts)

  -- The peak is not below the balance, as far as doubles compare.
  abbrev pub IsPeak : Recorder F → Type 0
  IsPeak r = d.lt r.peak_balance r.balance ≡ false

  record_trade-IsPeak :
      IsStrict d → (t : TradeRecord F) (r : Recorder F) → IsPeak (record_trade t r)
  unfolding record_trade
  record_trade-IsPeak laws t r = ground (arith, laws.lt_irrefl (d.add r.balance t.pnl))

  record_all-IsPeak :
      IsStrict d
      → (ts : List (TradeRecord F)) (r : Recorder F) → IsPeak r
      → IsPeak (record_all ts r)
  unfolding record_all
  record_all-IsPeak laws [] r h = h
  record_all-IsPeak laws (t ∷ ts) r h =
      record_all-IsPeak laws ts (record_trade t r) (record_trade-IsPeak laws t r)

  -- After any sequence of closed trades, from an account with no trades and a peak not below its
  -- balance: the balance is the first one with all the results added in order, the peak is not below
  -- it, the learner was handed every trade, and the latest 2000 of them are kept.
  pub record_all_lem :
      IsStrict d
      → (ts : List (TradeRecord F)) (r : Recorder F) → r.trades ≡ []
      → IsPeak r
      → let after = record_all ts r in
        (after.balance ≡ sum_pnl r.balance ts)
        × IsPeak after
        × (after.learned ≡ r.learned ++ ts)
        × (after.trades ≡ latest max_trades ts)
        × (length after.trades ≤ max_trades)
  record_all_lem laws ts r e h =
      let figures = record_all-figures ts r in
      let kept = record_all-trades ts [] r e in
      (
        figures.0,
        record_all-IsPeak laws ts r h,
        figures.1,
        kept,
        rw kept (omega (arith, length-drop (length ts - max_trades) ts)),
      )

  count_wins-le : (ts : List (TradeRecord F)) → count_wins ts ≤ length ts
  unfolding count_wins
  count_wins-le [] = omega arith
  count_wins-le (t ∷ ts) = ground (arith, count_wins-le ts)
