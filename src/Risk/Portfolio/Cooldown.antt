-- ===== src/Risk/Portfolio/Cooldown.antt =====
-- While the breaker cools down, no entry is admitted, whatever happens in the meantime.
use tv_webhook_trader.Shared.{
  ℕ, ◌-◌, ◌/◌, ◌≡◌, ◌≢◌, refl, Option-cases, Bool, true, false, List, [], ◌∷◌, Option, none, some,
  ℤ, pos, leb_ℤ, arith, inl, inr,
}
use tv_webhook_trader.Shared.Double.{Double}
use tv_webhook_trader.Risk.Portfolio.{
  PortfolioRisk, Now, check_cb_cooldown, on_trade_closed, minute, set_shadow_mode, update_balance,
}
use tv_webhook_trader.Risk.Portfolio.Entry.{
  Proposal, check_entry, breaker_check, conclude_breaker, block, first_checks, Failure,
}
use tv_webhook_trader.Risk.Portfolio.Admission.{
  reset_settings, opened, check_entry-none, check_entry-some,
}
use tv_webhook_trader.Risk.Portfolio.Breaker.{on_trade_closed_lem}

-- The calls that change the manager.
pub data Call (F : Type 0) : Type 0 where
  checks : Now → Proposal F → Call F
  trades : Now → F → Call F
  shadows : Bool → Call F
  balances : F → Call F

-- At this reading of the clock the cooldown of the breaker, activated at `since`, is not over.
abbrev pub IsCooling : ℤ → ℕ → ℕ → Type 0
IsCooling cooldown since now = leb_ℤ cooldown (pos ((now - since) / minute)) ≡ false

module _ {F : Type 0} ⦃d : Double F⦄ where
  pub step : PortfolioRisk F → Call F → PortfolioRisk F
  step m (checks now e) = (check_entry now e m).0
  step m (trades now pnl) = on_trade_closed now pnl m
  step m (shadows b) = set_shadow_mode b m
  step m (balances f) = update_balance f m

  pub run : PortfolioRisk F → List (Call F) → PortfolioRisk F
  run m [] = m
  run m (c ∷ cs) = run (step m c) cs

  abbrev pub AllCooling : ℤ → ℕ → List (Call F) → Type 0
  AllCooling cooldown since [] = Unit
  AllCooling cooldown since (checks now e ∷ cs) =
      IsCooling cooldown since now.steady × AllCooling cooldown since cs
  AllCooling cooldown since (trades now pnl ∷ cs) = AllCooling cooldown since cs
  AllCooling cooldown since (shadows b ∷ cs) = AllCooling cooldown since cs
  AllCooling cooldown since (balances f ∷ cs) = AllCooling cooldown since cs

  -- The breaker is on since a certain time, under a certain cooldown.
  pub record IsTripped (cooldown : ℤ) (since : ℕ) (m : PortfolioRisk F) : Type 0 where
    pub active : m.cb_active ≡ true
    pub time : m.cb_activated_at ≡ since
    pub term : m.config.cb_cooldown_min ≡ cooldown

  block-IsTripped :
      (c : ℤ) (t : ℕ) (f : Failure) (m : PortfolioRisk F)
      → IsTripped c t m
      → IsTripped c t (block f m).0
  unfolding block
  block-IsTripped c t (check, reason) m v = ground arith

  block_refuses : (f : Failure) (m : PortfolioRisk F) → (block f m).1.allowed ≡ false
  unfolding block
  block_refuses (check, reason) m = refl

  breaker_check-cooling :
      (c : ℤ) (t now : ℕ) (m : PortfolioRisk F)
      → IsTripped c t m
      → IsCooling c t now
      → ((breaker_check now m).0 ≡ m) × ((breaker_check now m).1 ≢ none)
  unfolding breaker_check check_cb_cooldown
  breaker_check-cooling c t now m v h = ground arith

  conclude_breaker-IsTripped :
      (c : ℤ) (t : ℕ) (o later : Option Failure) (m : PortfolioRisk F)
      → o ≢ none
      → IsTripped c t m
      → IsTripped c t (conclude_breaker o later m).0
        × ((conclude_breaker o later m).1.allowed ≡ false)
  unfolding conclude_breaker
  conclude_breaker-IsTripped c t none later m h v = absurd (h refl)
  conclude_breaker-IsTripped c t (some f) later m h v =
      (block-IsTripped c t f m v, block_refuses f m)

  opened-IsTripped :
      (c : ℤ) (t : ℕ) (now : Now) (m : PortfolioRisk F)
      → IsTripped c t m
      → IsTripped c t (opened now m)
  opened-IsTripped c t now m v = ground (arith, reset_settings now m)

  check_entry-IsTripped :
      (c : ℤ) (t : ℕ) (now : Now) (e : Proposal F) (m : PortfolioRisk F)
      → IsTripped c t m
      → IsCooling c t now.steady
      → IsTripped c t (check_entry now e m).0 × ((check_entry now e m).1.allowed ≡ false)
  check_entry-IsTripped c t now e m v h =
      let n = opened now m in
      let u = opened-IsTripped c t now m v in
      let (same, stops) = breaker_check-cooling c t now.steady n u h in
      elim (Option-cases (first_checks e)) [
        | inl none_fails ↦
            rw (check_entry-none now e m none_fails)
              (conclude_breaker-IsTripped c t _ _ _ stops (rw same u))
        | inr (f, fails) ↦
            rw (check_entry-some f now e m fails) (block-IsTripped c t f n u, block_refuses f n)
      ]

  step-IsTripped :
      (c : ℤ) (t : ℕ) (m : PortfolioRisk F) (call : Call F)
      → AllCooling c t (call ∷ [])
      → IsTripped c t m
      → IsTripped c t (step m call)
  unfolding step set_shadow_mode update_balance
  step-IsTripped c t m (checks now e) h v = (check_entry-IsTripped c t now e m v h.0).0
  step-IsTripped c t m (trades now pnl) h v = ground (arith, on_trade_closed_lem now pnl m)
  step-IsTripped c t m (shadows b) h v = ground arith
  step-IsTripped c t m (balances f) h v = ground arith

  run-IsTripped :
      (c : ℤ) (t : ℕ) (m : PortfolioRisk F) (calls : List (Call F))
      → AllCooling c t calls
      → IsTripped c t m
      → IsTripped c t (run m calls)
  unfolding run
  run-IsTripped c t m [] h v = v
  run-IsTripped c t m (checks now e ∷ cs) h v =
      run-IsTripped c t (step m (checks now e)) cs h.1
        (step-IsTripped c t m (checks now e) (h.0, tt) v)
  run-IsTripped c t m (trades now pnl ∷ cs) h v =
      run-IsTripped c t (step m (trades now pnl)) cs h (step-IsTripped c t m (trades now pnl) tt v)
  run-IsTripped c t m (shadows b ∷ cs) h v =
      run-IsTripped c t (step m (shadows b)) cs h (step-IsTripped c t m (shadows b) tt v)
  run-IsTripped c t m (balances f ∷ cs) h v =
      run-IsTripped c t (step m (balances f)) cs h (step-IsTripped c t m (balances f) tt v)

  -- From a breaker that is on, through any calls of which no entry check comes after the cooldown,
  -- every entry check before its end is refused, and the breaker stays on with its first time.
  pub cooldown_refuses :
      (m : PortfolioRisk F) (calls : List (Call F)) (now : Now) (e : Proposal F)
      → m.cb_active ≡ true
      → AllCooling m.config.cb_cooldown_min m.cb_activated_at calls
      → IsCooling m.config.cb_cooldown_min m.cb_activated_at now.steady
      → ((run m calls).cb_activated_at ≡ m.cb_activated_at)
        × ((check_entry now e (run m calls)).1.allowed ≡ false)
        × ((check_entry now e (run m calls)).0.cb_active ≡ true)
  cooldown_refuses m calls now e on h k =
      let v =
        run-IsTripped m.config.cb_cooldown_min m.cb_activated_at m calls h
          (record { active = on; time = refl; term = refl }) in
      let r =
        check_entry-IsTripped m.config.cb_cooldown_min m.cb_activated_at now e (run m calls) v k in
      (v.time, r.1, r.0.active)
