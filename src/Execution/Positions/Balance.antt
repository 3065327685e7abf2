-- ===== src/Execution/Positions/Balance.antt =====
-- The peak of the balance over a run of the program.
use tv_webhook_trader.Shared.{◌≡◌, false, List, [], ◌∷◌, arith, All, Bool-cases, inl, inr}
use tv_webhook_trader.Shared.Double.{Double, IsStrict}
use tv_webhook_trader.Execution.Positions.{update_balance}

module _ {F : Type 0} ⦃d : Double F⦄ where
  pub run_balance : F × F → List F → F × F
  run_balance s [] = s
  run_balance s (pnl ∷ pnls) = run_balance (update_balance pnl s) pnls

  -- The balances on the way, the first one included.
  pub balances : F × F → List F → List F
  balances s [] = s.0 ∷ []
  balances s (pnl ∷ pnls) = s.0 ∷ balances (update_balance pnl s) pnls

  -- A value that was not above the peak is not above it later.
  peak-kept :
      IsStrict d
      → (a : F) (s : F × F) (pnls : List F) → d.lt s.1 a ≡ false
      → d.lt (run_balance s pnls).1 a ≡ false
  unfolding run_balance update_balance
  peak-kept laws a s [] h = h
  peak-kept laws a (b, p) (pnl ∷ pnls) h =
      peak-kept laws a (update_balance pnl (b, p)) pnls (elim (Bool-cases (d.lt p (d.add b pnl))) [
        | inl up ↦ rw up (ground (arith, laws.lt_trans p (d.add b pnl) a))
        | inr same ↦ rw same h
      ])

  -- If the balance is not above the peak at the start, then after any profits and losses the peak
  -- is not below any balance on the way. It asks of the comparison of doubles that it is a strict
  -- order.
  pub update_balance-peak :
      IsStrict d
      → (s : F × F) (pnls : List F) → d.lt s.1 s.0 ≡ false
      → All (λ b. d.lt (run_balance s pnls).1 b ≡ false) (balances s pnls)
  unfolding run_balance balances update_balance
  update_balance-peak laws s [] h = (h, tt)
  update_balance-peak laws (b, p) (pnl ∷ pnls) h = (
    peak-kept laws b (b, p) (pnl ∷ pnls) h,
    update_balance-peak laws (update_balance pnl (b, p)) pnls
        (elim (Bool-cases (d.lt p (d.add b pnl))) [
          | inl up ↦ rw up (laws.lt_irrefl (d.add b pnl))
          | inr same ↦ rw same same
        ]),
  )
