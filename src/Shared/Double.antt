-- ===== src/Shared/Double.antt =====
-- What the program does with a `double` and with the libraries that read and print one. The type
-- stays a parameter; the laws that a theorem needs are named apart from the operations.
use tv_webhook_trader.Shared.Tests.{if◌then◌else◌, leb}
use tv_webhook_trader.Shared.Bytes.{Text}
use tv_webhook_trader.Shared.Int.{
  ℤ, pos, negsuc, ◌+ℤ◌, ◌-ℤ◌, ◌*ℤ◌, ltb_ℤ, leb_ℤ, pos_part, neg_part, int_laws, eq_of_parts,
  +ℤ_parts, le_of_leb_ℤ, leb_of_le_ℤ,
}
use Prim.Native.Nat.{ℕ, zero, suc, ◌+◌, ◌*◌, ◌/◌, ◌^◌}
use mathlib.Core.Path.{◌≡◌, ap}
use mathlib.Core.List.{[]}
use mathlib.Core.Bool.{Bool, true, false, ◌&&◌}
use mathlib.Core.Option.{Option, none}
use native.Mathlib.Omega.{arith}

-- `decimal n k` is the literal n / 10^k; `seconds` converts a number of nanoseconds; `fixed k` is
-- printf's "%.kf"; `parse` is std::stod, with `none` for an exception.
pub record Double (F : Type 0) : Type 0 where
  pub lt : F → F → Bool
  pub le : F → F → Bool
  pub eq : F → F → Bool
  pub add : F → F → F
  pub sub : F → F → F
  pub mul : F → F → F
  pub div : F → F → F
  pub neg : F → F
  pub abs : F → F
  pub round : F → F
  pub sqrt : F → F
  pub is_finite : F → Bool
  pub of_int : ℤ → F
  pub decimal : ℕ → ℕ → F
  pub seconds : ℕ → F
  pub fixed : ℕ → F → Text
  pub parse : Text → Option F

module _ {F : Type 0} ⦃d : Double F⦄ where
  abbrev pub nought : F
  nought = d.decimal 0 0

  -- std::min(a, b) and std::max(a, b), as the standard defines them
  unfoldable pub min_of : F → F → F
  min_of a b = if d.lt b a then b else a

  unfoldable pub max_of : F → F → F
  max_of a b = if d.lt a b then b else a

  -- std::clamp(x, low, high)
  unfoldable pub clamp_of : F → F → F → F
  clamp_of x low high = if d.lt x low then low else if d.lt high x then high else x

  -- std::round(x * k) / k
  abbrev pub rounded : F → F → F
  rounded x k = d.div (d.round (d.mul x k)) k

-- Laws that hold of every double, not-a-number and the infinities included.
pub record IsStrict {F : Type 0} (d : Double F) : Type 0 where
  pub lt_irrefl : (a : F) → d.lt a a ≡ false
  pub lt_asymm : (a b : F) → d.lt a b ≡ true → d.lt b a ≡ false
  pub lt_trans : (a b c : F) → d.lt a b ≡ true → d.lt b c ≡ true → d.lt a c ≡ true
  pub nought_least : (n k : ℕ) → d.lt (d.decimal n k) (d.decimal 0 0) ≡ false

-- A clamped value is not outside its bounds, not-a-number left aside as it is.
pub clamp_of_bounds :
    {F : Type 0} ⦃d : Double F⦄
    → IsStrict d
    → (x low high : F) → d.lt high low ≡ false
    → (d.lt (clamp_of x low high) low ≡ false) × (d.lt high (clamp_of x low high) ≡ false)
unfolding clamp_of
clamp_of_bounds {F} ⦃d⦄ v x low high h = ground (arith, v.lt_irrefl low, v.lt_irrefl high)

-- Arithmetic with no rounding, no infinity and no not-a-number, as far as it is used.
pub record IsExact {F : Type 0} (d : Double F) : Type 0 where
  pub le_refl : (a : F) → d.le a a ≡ true
  pub le_trans : (a b c : F) → d.le a b ≡ true → d.le b c ≡ true → d.le a c ≡ true
  pub le_of_not_lt : (a b : F) → d.lt b a ≡ false → d.le a b ≡ true
  pub le_of_lt : (a b : F) → d.lt a b ≡ true → d.le a b ≡ true
  pub add_mono :
      (a b c e : F) → d.le a b ≡ true → d.le c e ≡ true → d.le (d.add a c) (d.add b e) ≡ true
  pub add_comm : (a b : F) → d.add a b ≡ d.add b a
  pub add_assoc : (a b c : F) → d.add (d.add a b) c ≡ d.add a (d.add b c)
  pub add-nought : (a : F) → d.add a (d.decimal 0 0) ≡ a
  pub sub-add : (a b : F) → d.add (d.sub a b) b ≡ a
  pub add-mul : (a b c : F) → d.mul (d.add a b) c ≡ d.add (d.mul a c) (d.mul b c)
  pub seconds-add : (m n : ℕ) → d.seconds (m + n) ≡ d.add (d.seconds m) (d.seconds n)
  pub mul_nonneg :
      (a b : F)
      → d.le (d.decimal 0 0) a ≡ true
      → d.le (d.decimal 0 0) b ≡ true
      → d.le (d.decimal 0 0) (d.mul a b) ≡ true
  pub seconds_nonneg : (n : ℕ) → d.le (d.decimal 0 0) (d.seconds n) ≡ true

-- Whole numbers meet all of them: a double that keeps no fraction.
abbrev abs_ℤ : ℤ → ℤ
abs_ℤ (pos n) = pos n
abs_ℤ (negsuc n) = pos (n + 1)

abbrev div_ℤ : ℤ → ℤ → ℤ
div_ℤ a b = pos (pos_part a / pos_part b) -ℤ pos (neg_part a / pos_part b)

-- The root, rounded down: one more whenever the next square is reached.
abbrev root_of : ℕ → ℕ
root_of zero = 0
root_of (suc n) = let r = root_of n in if leb ((r + 1) * (r + 1)) (n + 1) then r + 1 else r

abbrev digits_of : ℕ → ℤ → Text
digits_of k a = []

instance abbrev pub whole : Double ℤ
whole = record {
  lt = ltb_ℤ;
  le = leb_ℤ;
  eq = λ a b. leb_ℤ a b && leb_ℤ b a;
  add = ◌+ℤ◌;
  sub = ◌-ℤ◌;
  mul = ◌*ℤ◌;
  div = div_ℤ;
  neg = λ a. pos 0 -ℤ a;
  abs = abs_ℤ;
  round = λ a. a;
  sqrt = λ a. pos (root_of (pos_part a));
  is_finite = λ a. true;
  of_int = λ a. a;
  decimal = λ n k. pos (n / 10 ^ k);
  seconds = λ n. pos n;
  fixed = digits_of;
  parse = λ s. none;
}

pub whole-IsStrict : IsStrict whole
unfolding ltb_ℤ
whole-IsStrict = record {
  lt_irrefl = λ a. ground arith;
  lt_asymm = λ a b h. ground arith;
  lt_trans = λ a b c h k. ground arith;
  nought_least = λ n k. ground arith;
}

*ℤ_parts :
    (a b : ℤ)
    → pos_part (a *ℤ b) + (pos_part a * neg_part b + neg_part a * pos_part b)
      ≡ neg_part (a *ℤ b) + (pos_part a * pos_part b + neg_part a * neg_part b)
unfolding ◌*ℤ◌
*ℤ_parts a b = ground arith

mul_distrib : (a b c : ℤ) → (a +ℤ b) *ℤ c ≡ a *ℤ c +ℤ b *ℤ c
mul_distrib a b c = eq_of_parts _ _ (
    omega (
      arith,
      +ℤ_parts (a *ℤ c) (b *ℤ c),
      *ℤ_parts (a +ℤ b) c,
      *ℤ_parts a c,
      *ℤ_parts b c,
      ap (λ (t : ℕ). t * pos_part c) (+ℤ_parts a b),
      ap (λ (t : ℕ). t * neg_part c) (+ℤ_parts a b),
    ))

add_mono_ℤ : (a b c e : ℤ) → leb_ℤ a b ≡ true → leb_ℤ c e ≡ true → leb_ℤ (a +ℤ c) (b +ℤ e) ≡ true
add_mono_ℤ a b c e h k =
    leb_of_le_ℤ _ _
      (omega (arith, +ℤ_parts a c, +ℤ_parts b e, le_of_leb_ℤ a b h, le_of_leb_ℤ c e k))

mul_nonneg_ℤ :
    (a b : ℤ) → leb_ℤ (pos 0) a ≡ true → leb_ℤ (pos 0) b ≡ true → leb_ℤ (pos 0) (a *ℤ b) ≡ true
unfolding leb_ℤ ◌*ℤ◌
mul_nonneg_ℤ (pos m) (pos n) h k = ground arith
mul_nonneg_ℤ (pos m) (negsuc n) h k = absurd (ground arith)
mul_nonneg_ℤ (negsuc m) b h k = absurd (ground arith)

pub whole-IsExact : IsExact whole
unfolding ltb_ℤ leb_ℤ
whole-IsExact = record {
  le_refl = λ a. ground arith;
  le_trans = λ a b c h k. ground arith;
  le_of_not_lt = λ a b h. ground arith;
  le_of_lt = λ a b h. ground arith;
  add_mono = add_mono_ℤ;
  add_comm = λ a b. omega int_laws;
  add_assoc = λ a b c. omega int_laws;
  add-nought = λ a. omega int_laws;
  sub-add = λ a b. omega int_laws;
  add-mul = mul_distrib;
  seconds-add = λ m n. eq_of_parts _ _ (omega (arith, +ℤ_parts (pos m) (pos n)));
  mul_nonneg = mul_nonneg_ℤ;
  seconds_nonneg = λ n. ground arith;
}
