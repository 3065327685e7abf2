-- ===== src/Execution/Engine/Repeats/Fingerprints.antt =====
-- Which fingerprints an eviction keeps.
use tv_webhook_trader.Shared.{
  ℕ, ◌+◌, ◌≤◌, ◌==◌, ◌≡◌, Bool, true, false, ◌&&◌, ◌||◌, List, [], ◌∷◌, arith, length, select,
  length-select-le,
}
use tv_webhook_trader.Execution.Engine.Signals.{has_fp, is_recent, evict, fp_ttl_ns}

-- The fingerprint is kept with that time.
unfoldable pub has_at : ℕ → ℕ → List (ℕ × ℕ) → Bool
has_at fp t [] = false
has_at fp t ((k, u) ∷ m) = (k == fp && u == t) || has_at fp t m

pub self : (fp t : ℕ) (m : List (ℕ × ℕ)) → has_at fp t ((fp, t) ∷ m) ≡ true
unfolding has_at
self fp t m = ground arith

pub has_fp-has_at : (fp t : ℕ) (m : List (ℕ × ℕ)) → has_at fp t m ≡ true → has_fp fp m ≡ true
unfolding has_at has_fp
has_fp-has_at fp t [] h = cc
has_fp-has_at fp t ((k, u) ∷ m) h = ground (arith, has_fp-has_at fp t m)

has_at-select :
    (fp t now : ℕ) (m : List (ℕ × ℕ))
    → has_at fp t m ≡ true
    → now ≤ t + fp_ttl_ns
    → has_at fp t (select (is_recent now) m) ≡ true
unfolding has_at select
has_at-select fp t now [] h within = cc
has_at-select fp t now ((k, u) ∷ m) h within = ground (arith, has_at-select fp t now m)

pub has_at-evict :
    (fp t now : ℕ) (m : List (ℕ × ℕ))
    → has_at fp t m ≡ true
    → now ≤ t + fp_ttl_ns
    → length m ≤ 50000
    → has_at fp t (evict now m) ≡ true
unfolding evict
has_at-evict fp t now m h within few =
    ground (arith, has_at-select fp t now m h within, length-select-le (is_recent now) m)

pub length-evict : (now : ℕ) (m : List (ℕ × ℕ)) → length (evict now m) ≤ length m
unfolding evict
length-evict now m = ground (arith, length-select-le (is_recent now) m)
