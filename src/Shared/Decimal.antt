-- ===== src/Shared/Decimal.antt =====
-- std::to_string of an unsigned number and std::stoi.
use tv_webhook_trader.Shared.Tests.{◌==◌, if◌then◌else◌, ltb, leb}
use tv_webhook_trader.Shared.Bytes.{Text, codes, is_digit, is_space}
use tv_webhook_trader.Shared.Lists.{length}
use tv_webhook_trader.Shared.Int.{ℤ, pos, negsuc, ◌-ℤ◌}
use Prim.Native.Nat.{ℕ, zero, suc, ◌+◌, ◌-◌, ◌*◌, ◌/◌, ◌%◌, ◌^◌, ◌≤◌, ◌<◌}
use mathlib.Core.Path.{◌≡◌, refl, ap, sym, ◌∙◌}
use mathlib.Core.Bool.{Bool, true, false}
use mathlib.Core.Option.{Option, none, some}
use mathlib.Core.List.{[], ◌∷◌}
use native.Mathlib.Omega.{arith}

-- The digits of n behind which `rest` follows; n + 1 rounds are enough.
show_from : ℕ → ℕ → Text → Text
show_from zero n rest = rest
show_from (suc fuel) n rest =
    let more = show_from fuel (n / 10) ((n % 10 + 48) ∷ rest) in
    if ltb n 10 then (n + 48) ∷ rest else more

unfoldable pub show_nat : ℕ → Text
unfolding show_from
show_nat n = show_from (n + 1) n []

-- std::to_string of an int
unfoldable pub show_int : ℤ → Text
unfolding show_nat
show_int (pos n) = show_nat n
show_int (negsuc n) = b'-' ∷ show_nat (n + 1)

-- The value of the digits at the head of a text, on top of `acc`.
unfoldable pub read_digits : ℕ → Text → ℕ
unfolding is_digit
read_digits acc [] = acc
read_digits acc (c ∷ s) = elim (is_digit c) [
  | true ↦ read_digits (acc * 10 + (c - 48)) s
  | false ↦ acc
]

starts_with_digit : Text → Bool
unfolding is_digit
starts_with_digit [] = false
starts_with_digit (c ∷ s) = is_digit c

unfoldable pub read_signed : Bool → Text → Option ℤ
unfolding starts_with_digit read_digits
read_signed negative s =
    let n = read_digits 0 s in
    if starts_with_digit s
    then (if negative
        then (if leb n (2 ^ 31) then some (pos 0 -ℤ pos n) else none)
        else (if ltb n (2 ^ 31) then some (pos n) else none))
    else none

unfoldable pub read_sign : Text → Option ℤ
unfolding read_signed
read_sign [] = none
read_sign (c ∷ s) =
    if c == b'-'
    then read_signed true s
    else if c == b'+'
    then read_signed false s
    else read_signed false (c ∷ s)

-- std::stoi: white space is skipped, text behind the number is ignored, and `none` is the exception
-- for no number or one that does not fit an int.
unfoldable pub stoi : Text → Option ℤ
unfolding read_sign is_space
stoi [] = none
stoi (c ∷ s) = elim (is_space c) [ true ↦ stoi s | false ↦ read_sign (c ∷ s) ]

read-nil : (n : ℕ) → read_digits n [] ≡ n
unfolding read_digits
read-nil n = refl

-- Reading the printed digits gives the number back.
read-show_from :
    (fuel n : ℕ) (rest : Text)
    → n < fuel
    → read_digits 0 (show_from fuel n rest) ≡ read_digits n rest
unfolding read_digits show_from
read-show_from zero n rest h = elim h [ ]
read-show_from (suc fuel) n rest h =
    ground (arith, read-show_from fuel (n / 10) ((n % 10 + 48) ∷ rest))

pub read-show_nat : (n : ℕ) → read_digits 0 (show_nat n) ≡ n
unfolding show_nat
read-show_nat n = read-show_from (n + 1) n [] (omega arith) ∙ read-nil n

-- The printed text has no byte but digits.
abbrev pub AreDigits : Text → Type 0
AreDigits [] = Unit
AreDigits (c ∷ s) = (48 ≤ c) × (c ≤ 57) × AreDigits s

show_from-AreDigits :
    (fuel n : ℕ) (rest : Text) → AreDigits rest → AreDigits (show_from fuel n rest)
unfolding show_from
show_from-AreDigits zero n rest h = h
show_from-AreDigits (suc fuel) n rest h =
    ground (arith, show_from-AreDigits fuel (n / 10) ((n % 10 + 48) ∷ rest))

pub show_nat-AreDigits : (n : ℕ) → AreDigits (show_nat n)
unfolding show_nat
show_nat-AreDigits n = show_from-AreDigits (n + 1) n [] tt

-- So two numbers with one text are one number.
pub show_nat-injective : (m n : ℕ) → show_nat m ≡ show_nat n → m ≡ n
show_nat-injective m n e = sym (read-show_nat m) ∙ ap (read_digits 0) e ∙ read-show_nat n

length-show_from :
    (fuel n : ℕ) (rest : Text) → n < fuel → length rest + 1 ≤ length (show_from fuel n rest)
unfolding show_from
length-show_from zero n rest h = elim h [ ]
length-show_from (suc fuel) n rest h =
    ground (arith, length-show_from fuel (n / 10) ((n % 10 + 48) ∷ rest))

pub show_nat-length : (n : ℕ) → 1 ≤ length (show_nat n)
unfolding show_nat
show_nat-length n = length-show_from (n + 1) n [] (omega arith)

not_space : (c : ℕ) → 48 ≤ c → is_space c ≡ false
unfolding is_space
not_space c h = ground arith

unsigned : (c : ℕ) (s : Text) → 48 ≤ c → read_sign (c ∷ s) ≡ read_signed false (c ∷ s)
unfolding read_sign
unsigned c s h = ground arith

read_signed_lem :
    (c : ℕ) (s : Text)
    → 48 ≤ c
    → c ≤ 57
    → read_digits 0 (c ∷ s) < 2 ^ 31
    → read_signed false (c ∷ s) ≡ some (pos (read_digits 0 (c ∷ s)))
unfolding read_signed starts_with_digit is_digit
read_signed_lem c s h k b = ground arith

stoi-digits :
    (s : Text)
    → AreDigits s
    → 1 ≤ length s
    → read_digits 0 s < 2 ^ 31
    → stoi s ≡ some (pos (read_digits 0 s))
unfolding stoi
stoi-digits [] h l b = absurd (omega arith)
stoi-digits (c ∷ s) h l b =
    let blank : is_space c ≡ false = not_space c h.0 in
    let signed : read_sign (c ∷ s) ≡ read_signed false (c ∷ s) = unsigned c s h.0 in
    rw (blank, stoi) (signed ∙ read_signed_lem c s h.0 h.1 b)

-- Reading back a printed number that fits an int.
pub stoi-show_nat : (n : ℕ) → n < 2 ^ 31 → stoi (show_nat n) ≡ some (pos n)
stoi-show_nat n h =
    stoi-digits (show_nat n) (show_nat-AreDigits n) (show_nat-length n) (rw (read-show_nat n) h)
    ∙ ap (λ k. some (pos k)) (read-show_nat n)

stoi_tests :
    (stoi (codes " -42x") ≡ some (pos 0 -ℤ pos 42))
    × (stoi (codes "2147483648") ≡ none)
    × (stoi (codes "abc") ≡ none)
    × (show_nat 1047 ≡ codes "1047")
unfolding stoi show_nat
stoi_tests = (refl, refl, refl, refl)
