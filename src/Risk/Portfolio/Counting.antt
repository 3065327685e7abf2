-- ===== src/Risk/Portfolio/Counting.antt =====
-- How check_entry counts its calls.
use tv_webhook_trader.Shared.{
  ℕ, ◌+◌, ◌≡◌, ◌∙◌, inl, inr, true, false, if◌then◌else◌, List, Option, none, some, Text, text_eq,
  lookup, lookup-insert, arith, text_eq_iff, Option-cases,
}
use tv_webhook_trader.Shared.Double.{Double}
use tv_webhook_trader.Risk.Portfolio.{PortfolioRisk, Now}
use tv_webhook_trader.Risk.Portfolio.Entry.{
  RiskDecision, Proposal, Failure, found_or, block, breaker_check, first_checks, later_checks,
  conclude, conclude_breaker, check_entry,
}
use tv_webhook_trader.Risk.Portfolio.Admission.{
  opened, passed_breaker, reset_settings, breaker_check-settings, check_entry-some,
  check_entry-none,
}

module _ {F : Type 0} ⦃d : Double F⦄ where
  -- How often a check has blocked an entry.
  abbrev pub blocks_of : Text → PortfolioRisk F → ℕ
  blocks_of c m = found_or 0 (lookup c m.block_reasons)

  -- What a call leaves in the counters, from those before it; `total` is the one behind it.
  abbrev pub Counted : Text → ℕ → ℕ → ℕ → List (Text × ℕ) → PortfolioRisk F × RiskDecision → Type 0
  Counted c total passed blocked reasons r =
      let before = found_or 0 (lookup c reasons) in
      (r.0.checks_total ≡ total)
      × (r.1.allowed ≡ true
          → (r.0.checks_passed ≡ passed + 1)
            × (r.0.checks_blocked ≡ blocked)
            × (blocks_of c r.0 ≡ before))
      × (r.1.allowed ≡ false
          → (r.0.checks_passed ≡ passed)
            × (r.0.checks_blocked ≡ blocked + 1)
            × (blocks_of c r.0 ≡ (if text_eq r.1.check_failed c then before + 1 else before)))

  block_counts :
      (f : Failure) (m : PortfolioRisk F) (c : Text)
      → Counted c m.checks_total m.checks_passed m.checks_blocked m.block_reasons (block f m)
  unfolding block
  block_counts (check, reason) m c =
      ground
        (arith, text_eq_iff check c, lookup-insert check c (blocks_of check m + 1) m.block_reasons)

  conclude_counts :
      (o : Option Failure) (m : PortfolioRisk F) (c : Text)
      → Counted c m.checks_total m.checks_passed m.checks_blocked m.block_reasons (conclude o m)
  unfolding conclude
  conclude_counts none m c = ground arith
  conclude_counts (some f) m c = block_counts f m c

  Counted-same :
      (c : Text) {t t' p p' b b' : ℕ} {l l' : List (Text × ℕ)} (r : PortfolioRisk F × RiskDecision)
      → t ≡ t'
      → p ≡ p'
      → b ≡ b'
      → l ≡ l'
      → Counted c t p b l r
      → Counted c t' p' b' l' r
  Counted-same c r e f g h k = rw (← e, ← f, ← g, ← h) k

  breaker_counts :
      (o : Option Failure) (later : Option Failure) (n : PortfolioRisk F) (c : Text)
      → Counted c n.checks_total n.checks_passed n.checks_blocked n.block_reasons
          (conclude_breaker o later n)
  unfolding conclude_breaker
  breaker_counts none later n c = conclude_counts later n c
  breaker_counts (some f) later n c = block_counts f n c

  -- Each call is counted once: as passed, or as blocked, also under the name of the check that
  -- failed; the other names keep their counts.
  pub check_entry_counts :
      (now : Now) (e : Proposal F) (m : PortfolioRisk F) (c : Text)
      → Counted c
          (m.checks_total + 1)
          m.checks_passed
          m.checks_blocked
          m.block_reasons
          (check_entry now e m)
  check_entry_counts now e m c =
      let r = reset_settings now m in
      let b = breaker_check-settings now.steady (opened now m) in
      let n = passed_breaker now m in
      elim (Option-cases (first_checks e)) [
        | inl h ↦ rw (check_entry-none now e m h) (
            Counted-same c
              (conclude_breaker (breaker_check now.steady (opened now m)).1 (later_checks e n) n)
              (b.2 ∙ r.2) (b.3 ∙ r.3) (b.4 ∙ r.4) (b.5 ∙ r.5)
              (breaker_counts (breaker_check now.steady (opened now m)).1 (later_checks e n) n c))
        | inr (f, h) ↦ rw (check_entry-some f now e m h) (
            Counted-same c (block f (opened now m)) r.2 r.3 r.4 r.5
              (block_counts f (opened now m) c))
      ]
