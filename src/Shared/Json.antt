-- ===== src/Shared/Json.antt =====
-- What the program asks of nlohmann::json, which is no part of the repository: a type of values with
-- the operations that are called, as parameters. A C++ exception is an outcome of its own.
use tv_webhook_trader.Shared.Bytes.{Text}
use tv_webhook_trader.Shared.Int.{ℤ}
use mathlib.Core.Path.{◌≡◌, refl}
use mathlib.Core.Logic.{◌⊎◌, inl, inr}
use mathlib.Core.Bool.{Bool}
use mathlib.Core.List.{List}
use mathlib.Core.Option.{Option}

pub data Outcome {ℓ} (A : Type ℓ) : Type ℓ where
  done : A → Outcome A
  thrown : Outcome A

infixl 5 ◌>>=◌
abbrev pub ◌>>=◌ {ℓ κ} : {A : Type ℓ} {B : Type κ} → Outcome A → (A → Outcome B) → Outcome B
done a >>= f = f a
thrown >>= f = thrown

pub Outcome-cases {ℓ} : {A : Type ℓ} (o : Outcome A) → ((a : A) × (o ≡ done a)) ⊎ (o ≡ thrown)
Outcome-cases (done a) = inl (a, refl)
Outcome-cases thrown = inr refl

pub thrown-bind {ℓ κ} :
    {A : Type ℓ} {B : Type κ} (m : Outcome A) (f : A → Outcome B)
    → ((a : A) → f a ≡ thrown)
    → (m >>= f) ≡ thrown
thrown-bind (done a) f h = h a
thrown-bind thrown f h = refl

pub bind-done {ℓ κ} :
    {A : Type ℓ} {B : Type κ} (m : Outcome A) (f : A → Outcome B) (b : B)
    → (m >>= f) ≡ done b
    → (a : A) × (m ≡ done a) × (f a ≡ done b)
bind-done (done a) f b e = (a, refl, e)
bind-done thrown f b e = absurd (cc e)

-- `parse` is json::parse(text, nullptr, false), with `none` for a discarded value; `value_text`,
-- `value_int` and `value_double` are j.value(key, default); `at` is j[key] for a key that is there;
-- `get_text`, `get_int` and `get_double` are j.get<T>(); `items` are the elements of an array, and none
-- of another value.
pub record Json (F J : Type 0) : Type 0 where
  pub parse : Text → Option J
  pub has : J → Text → Bool
  pub at : J → Text → J
  pub is_string : J → Bool
  pub is_number : J → Bool
  pub value_text : J → Text → Text → Outcome Text
  pub value_int : J → Text → ℤ → Outcome ℤ
  pub value_double : J → Text → F → Outcome F
  pub get_text : J → Outcome Text
  pub get_int : J → Outcome ℤ
  pub get_double : J → Outcome F
  pub items : J → List J
