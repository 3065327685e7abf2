-- ===== src/Shared/Sorter.antt =====
-- `std::sort`, which stands for code outside the repository: its calls give it the order, and what is
-- relied on is that it moves elements and neither drops nor makes one.
use mathlib.Core.Path.{refl, subst, sym}
use mathlib.Core.Logic.{inl, inr}
use mathlib.Core.Bool.{Bool}
use mathlib.Core.List.{List, [], ◌∷◌, Permᴰ}
use mathlib.Core.List.Permᴰ
use tv_webhook_trader.Shared.Tests.{if◌then◌else◌, Bool-cases}
use tv_webhook_trader.Shared.Lists.{All, Any}

pub record Sorter : Type 1 where
  pub sort : (A : Type 0) → (A → A → Bool) → List A → List A

pub record IsSorter (s : Sorter) : Type 1 where
  pub sort-moves : (A : Type 0) (before : A → A → Bool) (l : List A) → Permᴰ (s.sort A before l) l

module _ {A : Type 0} where
  pub All-moves {κ} : (P : A → Type κ) {k l : List A} → Permᴰ k l → All P l → All P k
  All-moves P Permᴰ.nil h = h
  All-moves P (Permᴰ.cons e p) h = (subst P (sym e) h.0, All-moves P p h.1)
  All-moves P (Permᴰ.swap e e') h = (subst P (sym e) h.1.0, (subst P (sym e') h.0, h.1.1))
  All-moves P (Permᴰ.trans p q) h = All-moves P p (All-moves P q h)

  pub Any-moves : (P : A → Type 0) {k l : List A} → Permᴰ k l → Any P k → Any P l
  Any-moves P Permᴰ.nil h = h
  Any-moves P (Permᴰ.cons e p) (inl h) = inl (subst P e h)
  Any-moves P (Permᴰ.cons e p) (inr h) = inr (Any-moves P p h)
  Any-moves P (Permᴰ.swap e e') (inl h) = inr (inl (subst P e h))
  Any-moves P (Permᴰ.swap e e') (inr (inl h)) = inl (subst P e' h)
  Any-moves P (Permᴰ.swap e e') (inr (inr h)) = inr (inr h)
  Any-moves P (Permᴰ.trans p q) h = Any-moves P q (Any-moves P p h)

  -- Insertion, which leaves equal elements in their order.
  abbrev insert_sorted : (A → A → Bool) → A → List A → List A
  insert_sorted before x [] = x ∷ []
  insert_sorted before x (y ∷ ys) = if before y x then y ∷ insert_sorted before x ys else x ∷ y ∷ ys

  abbrev insertion_sort : (A → A → Bool) → List A → List A
  insertion_sort before [] = []
  insertion_sort before (x ∷ xs) = insert_sorted before x (insertion_sort before xs)

  insert_sorted-moves :
      (before : A → A → Bool) (x : A) (l : List A) → Permᴰ (insert_sorted before x l) (x ∷ l)
  insert_sorted-moves before x [] = Permᴰ.refl _
  insert_sorted-moves before x (y ∷ ys) = elim (Bool-cases (before y x)) [
    | inl e ↦
        rw e
          (Permᴰ.trans (Permᴰ.cons refl (insert_sorted-moves before x ys)) (Permᴰ.swap refl refl))
    | inr e ↦ rw e (Permᴰ.refl _)
  ]

  insertion_sort-moves : (before : A → A → Bool) (l : List A) → Permᴰ (insertion_sort before l) l
  insertion_sort-moves before [] = Permᴰ.nil
  insertion_sort-moves before (x ∷ xs) =
      Permᴰ.trans (insert_sorted-moves before x (insertion_sort before xs))
        (Permᴰ.cons refl (insertion_sort-moves before xs))

instance abbrev pub by_insertion : Sorter
by_insertion = record { sort = λ A before l. insertion_sort before l }

pub by_insertion-IsSorter : IsSorter by_insertion
by_insertion-IsSorter = record { sort-moves = λ A before l. insertion_sort-moves before l }
