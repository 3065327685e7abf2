-- ===== src/Shared/Lists.antt =====
-- Lists measured and indexed by native numbers, under the library's names.
use Prim.Native.Nat.{ℕ, zero, suc, ◌+◌, ◌-◌, ◌≤◌}
use mathlib.Core.Path.{◌≡◌, refl, ap, ◌∙◌, sym}
use mathlib.Core.Logic.{◌⊎◌, inl, inr}
use mathlib.Core.Bool.{Bool}
use mathlib.Core.List.{List, [], ◌∷◌, ◌++◌, map}
use native.Mathlib.Omega.{arith}
use tv_webhook_trader.Shared.Tests.{if◌then◌else◌, ltb, Bool-cases}

module _ {ℓ} {A : Type ℓ} where
  abbrev pub length : List A → ℕ
  length [] = 0
  length (x ∷ xs) = suc (length xs)

  pub length-append : (xs ys : List A) → length (xs ++ ys) ≡ length xs + length ys
  length-append [] ys = omega arith
  length-append (x ∷ xs) ys = omega (arith, length-append xs ys)

  abbrev pub take : ℕ → List A → List A
  take zero xs = []
  take (suc n) [] = []
  take (suc n) (x ∷ xs) = x ∷ take n xs

  abbrev pub drop : ℕ → List A → List A
  drop zero xs = xs
  drop (suc n) [] = []
  drop (suc n) (x ∷ xs) = drop n xs

  pub length-drop : (n : ℕ) (xs : List A) → length (drop n xs) ≡ length xs - n
  length-drop zero xs = omega arith
  length-drop (suc n) [] = omega arith
  length-drop (suc n) (x ∷ xs) = omega (arith, length-drop n xs)

  pub take-append_self : (xs ys : List A) → take (length xs) (xs ++ ys) ≡ xs
  take-append_self [] ys = refl
  take-append_self (x ∷ xs) ys = ap (◌∷◌ x) (take-append_self xs ys)

  pub drop-append : (n : ℕ) (xs ys : List A) → n ≤ length xs → drop n (xs ++ ys) ≡ drop n xs ++ ys
  drop-append zero xs ys h = refl
  drop-append (suc n) [] ys h = absurd (omega arith)
  drop-append (suc n) (x ∷ xs) ys h = drop-append n xs ys (omega arith)

  drop-nil : (n : ℕ) → Path (List A) (drop n []) []
  drop-nil zero = refl
  drop-nil (suc n) = refl

  pub drop-drop : (m n : ℕ) (xs : List A) → drop m (drop n xs) ≡ drop (n + m) xs
  drop-drop m zero xs = ap (λ k. drop k xs) (omega arith)
  drop-drop m (suc n) [] = drop-nil m ∙ sym (drop-nil (suc n + m))
  drop-drop m (suc n) (x ∷ xs) =
      let e : suc (n + m) ≡ suc n + m = omega arith in
      drop-drop m n xs ∙ ap (λ k. drop k (x ∷ xs)) e

  -- The last n elements, or all of them if there are fewer.
  abbrev pub latest : ℕ → List A → List A
  latest n l = drop (length l - n) l

  -- A window that slides one element at a time is the window on the whole history.
  pub latest-step :
      (n : ℕ) (h : List A) (a : A) → latest n (latest n h ++ a ∷ []) ≡ latest n (h ++ a ∷ [])
  latest-step n h a =
      let k = length h - n in
      let fits : k ≤ length h = omega arith in
      let same = drop-append k h (a ∷ []) fits in
      let count : length (h ++ a ∷ []) ≡ length h + 1 = length-append h (a ∷ []) in
      let kept : length (drop k h ++ a ∷ []) ≡ length h - k + 1 =
        omega (arith, length-append (drop k h) (a ∷ []), length-drop k h) in
      rw (← same) (
        drop-drop (length (drop k (h ++ a ∷ [])) - n) k (h ++ a ∷ [])
        ∙ ap (λ j. drop j (h ++ a ∷ [])) (omega (arith, length-drop k (h ++ a ∷ []), count)))

  -- The oldest elements above the limit go.
  unfoldable pub cap_to : ℕ → List A → List A
  cap_to n l = if ltb n (length l) then drop (length l - n) l else l

  pub cap_to-latest : (n : ℕ) (l : List A) → cap_to n l ≡ latest n l
  unfolding cap_to
  cap_to-latest n l = elim (Bool-cases (ltb n (length l))) [
    | inl more ↦ rw more
    | inr few ↦ let none_gone : length l - n ≡ 0 = ground arith in rw (few, none_gone)
  ]

  abbrev pub All {κ} : (A → Type κ) → List A → Type κ
  All P [] = Unit
  All P (x ∷ xs) = P x × All P xs

  pub All-imp {κ μ} :
      (P : A → Type κ) (Q : A → Type μ) (xs : List A) → ((x : A) → P x → Q x) → All P xs → All Q xs
  All-imp P Q [] f h = tt
  All-imp P Q (x ∷ xs) f h = (f x h.0, All-imp P Q xs f h.1)

  -- The elements that pass a Boolean test, in order.
  unfoldable pub select : (A → Bool) → List A → List A
  select p [] = []
  select p (x ∷ xs) = if p x then x ∷ select p xs else select p xs

  pub length-select-le : (p : A → Bool) (xs : List A) → length (select p xs) ≤ length xs
  unfolding select
  length-select-le p [] = omega arith
  length-select-le p (x ∷ xs) = ground (arith, length-select-le p xs)

pub All-map {ℓ κ μ} :
    {A : Type ℓ} {B : Type κ} (P : B → Type μ) (f : A → B) (xs : List A)
    → All (λ x. P (f x)) xs
    → All P (map f xs)
All-map P f [] h = tt
All-map P f (x ∷ xs) h = (h.0, All-map P f xs h.1)

module _ {A : Type 0} where
  abbrev pub Any : (A → Type 0) → List A → Type 0
  Any P [] = ⊥
  Any P (x ∷ xs) = P x ⊎ Any P xs

pub All-select {ℓ κ} :
    {A : Type ℓ} (P : A → Type κ) (p : A → Bool) (xs : List A) → All P xs → All P (select p xs)
unfolding select
All-select P p [] h = tt
All-select P p (x ∷ xs) h = elim (Bool-cases (p x)) [
  | inl e ↦ rw e (h.0, All-select P p xs h.1)
  | inr e ↦ rw e (All-select P p xs h.1)
]

module _ {A : Type 0} where
  pub Any-append : (P : A → Type 0) (xs ys : List A) → Any P (xs ++ ys) → Any P xs ⊎ Any P ys
  Any-append P [] ys h = inr h
  Any-append P (x ∷ xs) ys (inl h) = inl (inl h)
  Any-append P (x ∷ xs) ys (inr h) = elim (Any-append P xs ys h) [
    | inl i ↦ inl (inr i)
    | inr j ↦ inr j
  ]

  pub Any-front : (P : A → Type 0) (xs ys : List A) → Any P xs → Any P (xs ++ ys)
  Any-front P [] ys h = absurd h
  Any-front P (x ∷ xs) ys (inl h) = inl h
  Any-front P (x ∷ xs) ys (inr h) = inr (Any-front P xs ys h)

  pub Any-back : (P : A → Type 0) (xs ys : List A) → Any P ys → Any P (xs ++ ys)
  Any-back P [] ys h = h
  Any-back P (x ∷ xs) ys h = inr (Any-back P xs ys h)

  pub Any-map :
      {B : Type 0} (P : B → Type 0) (f : A → B) (xs : List A)
      → Any P (map f xs)
      → Any (λ x. P (f x)) xs
  Any-map P f [] h = absurd h
  Any-map P f (x ∷ xs) (inl h) = inl h
  Any-map P f (x ∷ xs) (inr h) = inr (Any-map P f xs h)

  pub Any-into_map :
      {B : Type 0} (P : B → Type 0) (f : A → B) (xs : List A)
      → Any (λ x. P (f x)) xs
      → Any P (map f xs)
  Any-into_map P f [] h = absurd h
  Any-into_map P f (x ∷ xs) (inl h) = inl h
  Any-into_map P f (x ∷ xs) (inr h) = inr (Any-into_map P f xs h)

  -- Where all elements have a property, one of them has it with any other.
  pub Any-All :
      (P Q R : A → Type 0) (xs : List A)
      → ((x : A) → P x → Q x → R x)
      → All P xs
      → Any Q xs
      → Any R xs
  Any-All P Q R [] f h q = absurd q
  Any-All P Q R (x ∷ xs) f h (inl q) = inl (f x h.0 q)
  Any-All P Q R (x ∷ xs) f h (inr q) = inr (Any-All P Q R xs f h.1 q)

  pub Any-imp : (P Q : A → Type 0) (xs : List A) → ((x : A) → P x → Q x) → Any P xs → Any Q xs
  Any-imp P Q [] f h = absurd h
  Any-imp P Q (x ∷ xs) f (inl h) = inl (f x h)
  Any-imp P Q (x ∷ xs) f (inr h) = inr (Any-imp P Q xs f h)

  pub Any-const : (R : Type 0) (xs : List A) → Any (λ x. R) xs → R
  Any-const R [] h = absurd h
  Any-const R (x ∷ xs) (inl r) = r
  Any-const R (x ∷ xs) (inr r) = Any-const R xs r

pub All-zip {ℓ κ μ} :
    {A : Type ℓ} (P : A → Type κ) (Q : A → Type μ) (xs : List A)
    → All P xs
    → All Q xs
    → All (λ x. P x × Q x) xs
All-zip P Q [] h k = tt
All-zip P Q (x ∷ xs) h k = ((h.0, k.0), All-zip P Q xs h.1 k.1)
