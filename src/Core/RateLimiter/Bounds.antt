-- ===== src/Core/RateLimiter/Bounds.antt =====
-- What the token bucket lets through, when the doubles do not round.
use tv_webhook_trader.Shared.{
  ℕ, ◌+◌, ◌-◌, ◌≤◌, ◌≡◌, refl, sym, ap, ◌∙◌, Bool, true, false, List, [], ◌∷◌, ℤ, arith,
}
use mathlib.Core.Path.{ap₂}
use tv_webhook_trader.Shared.Double.{Double, nought, min_of, IsExact}
use tv_webhook_trader.Core.RateLimiter.{RateLimiter, refill, take_tokens, try_acquire}

-- A call of try_acquire: how many tokens, and the clock's reading.
abbrev pub Call : Type 0
Call = ℤ × ℕ

-- The clock does not run back.
abbrev pub IsSteady : ℕ → List Call → Type 0
IsSteady last [] = Unit
IsSteady last ((n, now) ∷ cs) = (last ≤ now) × IsSteady now cs

module _ {F : Type 0} ⦃d : Double F⦄ where
  infix 4 ◌≼◌
  abbrev pub ◌≼◌ : F → F → Type 0
  a ≼ b = d.le a b ≡ true

  abbrev spend : ℤ → Bool → F → F
  spend n true spent = d.add spent (d.of_int n)
  spend n false spent = spent

  abbrev pub earned : ℕ → F → F
  earned t rate = d.mul (d.seconds t) rate

  -- The tokens that a sequence of calls got, on top of `spent`, and the limiter behind it.
  pub grants : List Call → F → RateLimiter F → F × RateLimiter F
  grants [] spent r = (spent, r)
  grants ((n, now) ∷ cs) spent r = let t = try_acquire n now r in grants cs (spend n t.1 spent) t.0

  pub record IsFull (r : RateLimiter F) : Type 0 where
    pub rate_nonneg : nought ≼ r.rate
    pub cap_nonneg : nought ≼ r.max_tokens
    pub nonneg : nought ≼ r.tokens

  module _ (laws : IsExact d) where
    open laws use {
      le_refl, le_trans, le_of_not_lt, le_of_lt, add_mono, add_comm, add_assoc, add-nought, sub-add,
      add-mul, seconds-add, mul_nonneg, seconds_nonneg,
    }

    min_of-le-right : (a b : F) → min_of a b ≼ b
    unfolding min_of
    min_of-le-right a b = ground (arith, le_refl b, le_of_not_lt a b)

    add-sub_self : (s a n : F) → d.add (d.add s n) (d.sub a n) ≡ d.add s a
    add-sub_self s a n =
        add_assoc s n (d.sub a n) ∙ ap (d.add s) (add_comm n (d.sub a n) ∙ sub-add a n)

    cc_le : {x y z w : F} → x ≡ y → z ≡ w → x ≼ z → y ≼ w
    cc_le e f p = rw (← e, ← f) p

    le-sub : (a n : F) → n ≼ a → nought ≼ d.sub a n
    le-sub a n h =
        let x : F = d.sub nought n in
        let zero_side : d.add n x ≡ nought = add_comm n x ∙ sub-add nought n in
        let back : d.add a x ≡ d.sub a n =
          ap (λ t. d.add t x) (sym (sub-add a n))
          ∙ add_assoc (d.sub a n) n x
          ∙ ap (d.add (d.sub a n)) zero_side
          ∙ add-nought (d.sub a n) in
        cc_le zero_side back (add_mono n a x x h (le_refl x))

    add_nonneg : (a b : F) → nought ≼ a → nought ≼ b → nought ≼ d.add a b
    add_nonneg a b h k = cc_le (add-nought nought) refl (add_mono nought a nought b h k)

    take_tokens-spent :
        (n : ℤ) (spent : F) (r : RateLimiter F)
        → let t = take_tokens n r in
          (d.add (spend n t.1 spent) t.0.tokens ≡ d.add spent r.tokens)
          × (t.0.last_refill ≡ r.last_refill)
          × (t.0.rate ≡ r.rate)
          × (t.0.max_tokens ≡ r.max_tokens)
    unfolding take_tokens
    take_tokens-spent n spent r = ground (arith, add-sub_self spent r.tokens (d.of_int n))

    try_acquire-spent :
        (n : ℤ) (now : ℕ) (spent : F) (r : RateLimiter F)
        → let t = try_acquire n now r in
          (d.add (spend n t.1 spent) t.0.tokens
            ≼ d.add spent (d.add r.tokens (earned (now - r.last_refill) r.rate)))
          × (t.0.last_refill ≡ now)
          × (t.0.rate ≡ r.rate)
          × (t.0.max_tokens ≡ r.max_tokens)
    unfolding try_acquire refill
    try_acquire-spent n now spent r =
        let (same, last, rate, cap) = take_tokens-spent n spent (refill now r) in
        let less =
          min_of-le-right r.max_tokens (d.add r.tokens (earned (now - r.last_refill) r.rate)) in
        (cc_le (sym same) refl (add_mono spent spent _ _ (le_refl spent) less), last, rate, cap)

    try_acquire-IsFull :
        (n : ℤ) (now : ℕ) (r : RateLimiter F) → IsFull r → IsFull (try_acquire n now r).0
    unfolding try_acquire take_tokens refill min_of
    try_acquire-IsFull n now r v =
        let gain = earned (now - r.last_refill) r.rate in
        ground (
          arith,
          add_nonneg r.tokens gain v.nonneg (mul_nonneg _ _ (seconds_nonneg _) v.rate_nonneg),
          v.cap_nonneg,
          le-sub r.max_tokens (d.of_int n),
          le-sub (d.add r.tokens gain) (d.of_int n),
        )

    regroup : (s t e f : F) → d.add (d.add s (d.add t e)) f ≡ d.add (d.add s t) (d.add e f)
    regroup s t e f = ap (λ x. d.add x f) (sym (add_assoc s t e)) ∙ add_assoc (d.add s t) e f

    pub earned-add :
        (a b c : ℕ) (rate : F)
        → a ≤ b
        → b ≤ c
        → d.add (earned (b - a) rate) (earned (c - b) rate) ≡ earned (c - a) rate
    earned-add a b c rate h k =
        let whole_time : b - a + (c - b) ≡ c - a = omega arith in
        sym (
          ap (λ t. earned t rate) (sym whole_time)
          ∙ ap (λ t. d.mul t rate) (seconds-add (b - a) (c - b))
          ∙ add-mul _ _ rate)

    grants-spent :
        (cs : List Call) (spent : F) (r : RateLimiter F)
        → nought ≼ r.rate
        → IsSteady r.last_refill cs
        → let g = grants cs spent r in
          (r.last_refill ≤ g.1.last_refill)
          × (d.add g.0 g.1.tokens
              ≼ d.add (d.add spent r.tokens) (earned (g.1.last_refill - r.last_refill) r.rate))
    unfolding grants
    grants-spent [] spent r pr s = (
      omega arith,
      cc_le (add-nought _) refl (
          add_mono _ _ _ _ (le_refl _)
            (mul_nonneg _ _ (seconds_nonneg (r.last_refill - r.last_refill)) pr)),
    )
    grants-spent ((n, now) ∷ cs) spent r pr (h, s) =
        let t = try_acquire n now r in
        let (less, last, rate, cap) = try_acquire-spent n now spent r in
        let (later, rest) = grants-spent cs (spend n t.1 spent) t.0 (rw rate pr) (rw last s) in
        let g = grants cs (spend n t.1 spent) t.0 in
        let later' : now ≤ g.1.last_refill = rw last at later in
        let gain = d.add r.tokens (earned (now - r.last_refill) r.rate) in
        let cong_earned =
          ap₂
            (λ (x : ℕ) (y : F).
              d.add (d.add (spend n t.1 spent) t.0.tokens) (earned (g.1.last_refill - x) y))
            last rate in
        let rest' : d.add g.0 g.1.tokens
            ≼ d.add (d.add (spend n t.1 spent) t.0.tokens) (earned (g.1.last_refill - now) r.rate) =
          cc_le refl cong_earned rest in
        (
          omega arith,
          le_trans _ _ _ rest' (
              cc_le refl
                (regroup spent r.tokens _ _
                  ∙ ap (d.add (d.add spent r.tokens))
                      (earned-add r.last_refill now g.1.last_refill r.rate h later'))
                (add_mono _ (d.add spent gain) _ _ less
                  (le_refl (earned (g.1.last_refill - now) r.rate)))),
        )

    grants-IsFull :
        (cs : List Call) (spent : F) (r : RateLimiter F) → IsFull r → IsFull (grants cs spent r).1
    unfolding grants
    grants-IsFull [] spent r v = v
    grants-IsFull ((n, now) ∷ cs) spent r v =
        grants-IsFull cs _ (try_acquire n now r).0 (try_acquire-IsFull n now r v)

    -- In arithmetic that does not round (so for no IEEE double, but for whole numbers): from a bucket
    -- whose rate, capacity and tokens are not negative, and by a clock that does not run back, any sequence
    -- of calls is handed out no more tokens than there are in the bucket at the start and the rate earns
    -- in the time from the last refill before the calls to the last call.
    pub grants-le :
        (cs : List Call) (r : RateLimiter F)
        → IsFull r
        → IsSteady r.last_refill cs
        → let g = grants cs nought r in
          g.0 ≼ d.add r.tokens (d.mul (d.seconds (g.1.last_refill - r.last_refill)) r.rate)
    grants-le cs r v s =
        let g = grants cs nought r in
        let left : g.0 ≼ d.add g.0 g.1.tokens =
          cc_le (add-nought g.0) refl (
            add_mono g.0 g.0 nought g.1.tokens (le_refl g.0)
              (grants-IsFull cs nought r v).nonneg) in
        let total = (grants-spent cs nought r v.rate_nonneg s).1 in
        let zero_left : d.add nought r.tokens ≡ r.tokens =
          add_comm nought r.tokens ∙ add-nought r.tokens in
        le_trans _ _ _ left (
          cc_le refl (ap (λ x. d.add x (earned (g.1.last_refill - r.last_refill) r.rate)) zero_left)
            total)
