-- ===== src/Core/RateLimiter.antt =====
-- include/core/rate_limiter.hpp: class RateLimiter, over any type of doubles. `now` is the reading
-- of the steady clock in nanoseconds, which never runs back; the sleep of `acquire` only decides
-- which readings its attempts see.
pub mod Bounds
pub mod Waiting
use tv_webhook_trader.Shared.{
  ℕ, ◌+◌, ◌-◌, Bool, true, false, Option, none, some, List, [], ◌∷◌, if◌then◌else◌, ℤ, pos,
}
use tv_webhook_trader.Shared.Double.{Double, nought, min_of}

pub record RateLimiter (F : Type 0) : Type 0 where
  pub rate : F
  pub max_tokens : F
  pub tokens : F
  pub last_refill : ℕ

module _ {F : Type 0} ⦃d : Double F⦄ where
  pub make_limiter : F → F → ℕ → RateLimiter F
  make_limiter rate burst now =
      let cap = if d.lt nought burst then burst else rate in
      record { rate = rate; max_tokens = cap; tokens = cap; last_refill = now }

  unfoldable pub refill : ℕ → RateLimiter F → RateLimiter F
  unfolding min_of
  refill now r =
      let elapsed = d.seconds (now - r.last_refill) in
      record r {
        tokens = min_of r.max_tokens (d.add r.tokens (d.mul elapsed r.rate));
        last_refill = now;
      }

  -- if (m_tokens >= n) m_tokens -= n
  unfoldable pub take_tokens : ℤ → RateLimiter F → RateLimiter F × Bool
  take_tokens n r =
      if d.le (d.of_int n) r.tokens
      then (record r { tokens = d.sub r.tokens (d.of_int n) }, true)
      else (r, false)

  unfoldable pub try_acquire : ℤ → ℕ → RateLimiter F → RateLimiter F × Bool
  try_acquire n now r = take_tokens n (refill now r)

  abbrev pub one_more : Option (RateLimiter F × ℕ) → Option (RateLimiter F × ℕ)
  one_more none = none
  one_more (some (r, k)) = some (r, k + 1)

  -- The loop of `acquire`, with the clock's reading at each attempt: `none` when the readings end
  -- before an attempt succeeds, else the limiter and the number of attempts that failed.
  unfoldable pub acquire : ℤ → List ℕ → RateLimiter F → Option (RateLimiter F × ℕ)
  acquire n [] r = none
  acquire n (now ∷ later) r =
      let t = try_acquire n now r in
      let rest = one_more (acquire n later t.0) in if t.1 then some (t.0, 0) else rest

  pub available : RateLimiter F → F
  available r = r.tokens
