-- ===== src/Core/RateLimiter/Waiting.antt =====
-- How long RateLimiter::acquire waits, when the doubles do not round.
use tv_webhook_trader.Shared.{
  ℕ, ◌+◌, ◌-◌, ◌≤◌, ◌≡◌, refl, sym, ap, ◌∙◌, inl, inr, true, false, some, List, [], ◌∷◌, length, ℤ,
  arith, subst, Bool-cases,
}
use tv_webhook_trader.Shared.Double.{Double, min_of, IsExact}
use tv_webhook_trader.Core.RateLimiter.{
  RateLimiter, refill, take_tokens, try_acquire, acquire, one_more,
}
use tv_webhook_trader.Core.RateLimiter.Bounds.{◌≼◌, earned, earned-add}

-- The clock does not run back.
abbrev pub IsForward : ℕ → List ℕ → Type 0
IsForward last [] = Unit
IsForward last (now ∷ later) = (last ≤ now) × IsForward now later

-- The last reading.
abbrev pub final : ℕ → List ℕ → ℕ
final now [] = now
final now (next ∷ later) = final next later

le-final : (now : ℕ) (later : List ℕ) → IsForward now later → now ≤ final now later
le-final now [] s = omega arith
le-final now (next ∷ later) s = omega (arith, le-final next later s.1)

module _ {F : Type 0} ⦃d : Double F⦄ (laws : IsExact d) where
  open laws use {add_assoc}

  -- What the bucket has earned is in it, unless it is full.
  refill_lem :
      (n : ℤ) (now : ℕ) (r : RateLimiter F)
      → d.of_int n ≼ r.max_tokens
      → d.le (d.of_int n) (refill now r).tokens ≡ false
      → (refill now r).tokens ≡ d.add r.tokens (earned (now - r.last_refill) r.rate)
  unfolding refill min_of
  refill_lem n now r fits short =
      let full : d.le (d.of_int n) r.max_tokens ≡ true = fits in ground arith

  acquire-enough :
      (n : ℤ) (now : ℕ) (later : List ℕ) (r : RateLimiter F)
      → d.le (d.of_int n) (refill now r).tokens ≡ true
      → acquire n (now ∷ later) r ≡ some ((try_acquire n now r).0, 0)
  unfolding acquire try_acquire take_tokens
  acquire-enough n now later r h = ground arith

  acquire-short :
      (n : ℤ) (now : ℕ) (later : List ℕ) (r : RateLimiter F)
      → d.le (d.of_int n) (refill now r).tokens ≡ false
      → acquire n (now ∷ later) r ≡ one_more (acquire n later (refill now r))
  unfolding acquire try_acquire take_tokens
  acquire-short n now later r h = rw h refl

  -- acquire returns: if the tokens that are asked for fit into the bucket, and the bucket together with
  -- what the rate earns until the last of the clock's readings holds them, then an attempt at one of those
  -- readings succeeds. It asks for doubles that do not round.
  pub acquire-ends :
      (n : ℤ) (now : ℕ) (later : List ℕ) (r : RateLimiter F)
      → d.of_int n ≼ r.max_tokens
      → IsForward r.last_refill (now ∷ later)
      → d.of_int n ≼ d.add r.tokens (earned (final now later - r.last_refill) r.rate)
      → (r' : RateLimiter F) × (k : ℕ) × (acquire n (now ∷ later) r ≡ some (r', k))
        × (k ≤ length later)
  unfolding refill
  acquire-ends n now [] r fits (h, s) earns =
      elim (Bool-cases (d.le (d.of_int n) (refill now r).tokens)) [
        | inl enough ↦ (_, 0, acquire-enough n now [] r enough, omega arith)
        | inr short ↦
            let e = refill_lem n now r fits short in
            let holds : d.of_int n ≼ (refill now r).tokens = rw e earns in cc
      ]
  acquire-ends n now (next ∷ later) r fits (h, s) earns =
      elim (Bool-cases (d.le (d.of_int n) (refill now r).tokens)) [
        | inl enough ↦ (_, 0, acquire-enough n now (next ∷ later) r enough, omega arith)
        | inr short ↦
            let e = refill_lem n now r fits short in
            let sum =
              ap (λ x. d.add x (earned (final next later - now) r.rate)) e
              ∙ add_assoc _ _ _
              ∙ ap (d.add r.tokens) (
                  earned-add laws r.last_refill now (final next later) r.rate h
                    (le-final now (next ∷ later) s)) in
            let (r', k, ends, few) =
              acquire-ends n next later (refill now r) fits s
                (subst (λ x. d.of_int n ≼ x) (sym sum) earns) in
            (r', k + 1, acquire-short n now (next ∷ later) r short ∙ ap one_more ends, omega arith)
      ]
